-- ===== src/Giop/Queue.antt =====
-- src/orb/GIOP/giop-recv-buffer.c: the callers that wait for a reply (`GIOPMessageQueueEntry`), and what
-- a reply and a lost connection do to them. Signals between threads are not modelled.
pub mod Delivery
use orbit.Base.{
  ℕ, Bool, true, false, Option, none, some, List, [], ◌∷◌, ◌++◌, ◌&&◌, ◌==◌, if◌then◌else◌,
}
use orbit.Giop.Message.{
  MsgHeader, Msg, blank, request_1_1, request_1_2, reply_1_1, reply_1_2, cancel_request,
  locate_request_1_1, locate_request_1_2, locate_reply, RecvBuffer,
}
use orbit.Giop.Fragments.{get_request_id}

-- `struct _GIOPMessageQueueEntry`: `owner` tells entries apart, as their addresses do, and `async_cb`
-- says whether a callback is set.
pub record Entry : Type 0 where
  pub owner : ℕ
  pub buffer : Option RecvBuffer
  pub cnx : Option ℕ
  pub msg_type : ℕ
  pub request_id : ℕ
  pub async_cb : Bool

-- The list `giop_queued_messages`, and the entries taken off it, the last one first, each with what
-- its waiter finds in it.
pub record Queue : Type 0 where
  pub queued : List Entry
  pub woken : List Entry

-- `giop_recv_list_setup_queue_entry`
unfoldable pub setup_queue_entry : ℕ → ℕ → ℕ → ℕ → Queue → Queue
setup_queue_entry owner cnx msg_type request_id q = record q {
  queued =
      record {
        owner = owner;
        buffer = none;
        cnx = some cnx;
        msg_type = msg_type;
        request_id = request_id;
        async_cb = false;
      }
      ∷ q.queued;
}

abbrev pub same_cnx : Option ℕ → Option ℕ → Bool
same_cnx none none = true
same_cnx none (some b) = false
same_cnx (some a) none = false
same_cnx (some a) (some b) = a == b

-- `giop_recv_list_destroy_queue_entry`
unfoldable pub remove_entry : ℕ → List Entry → List Entry
remove_entry owner [] = []
remove_entry owner (e ∷ es) = if e.owner == owner then es else e ∷ remove_entry owner es

-- The loop of `handle_reply`: the first entry with the id and the type.
unfoldable pub find_entry : ℕ → ℕ → List Entry → Option Entry
find_entry request_id msg_type [] = none
find_entry request_id msg_type (e ∷ es) =
    let rest = find_entry request_id msg_type es in
    if e.request_id == request_id && e.msg_type == msg_type then some e else rest

-- `giop_recv_buffer_reply_status` reads the place of `reply_status` in the union, by minor version:
-- in a locate reply, `locate_status` stands elsewhere; `status_at` is what is found there then.
unfoldable pub reply_status : (Msg → ℕ) → Msg → ℕ
reply_status status_at (reply_1_1 r) = r.reply_status
reply_status status_at (reply_1_2 r) = r.reply_status
reply_status status_at m = status_at m

-- `CORBA_SYSTEM_EXCEPTION`
abbrev pub system_exception : ℕ
system_exception = 2

-- `handle_reply`. The result is its error flag; on an error the buffer is dropped.
unfoldable pub handle_reply : (Msg → ℕ) → RecvBuffer → Queue → Bool × Queue
handle_reply status_at buf q =
    elim (find_entry (get_request_id buf.msg) buf.header.message_type q.queued) [
      | none ↦ if reply_status status_at buf.msg == system_exception then (false, q) else (true, q)
      | some e ↦
          if same_cnx e.cnx buf.connection
          then (
            false,
            record q {
              queued = remove_entry e.owner q.queued;
              woken = record e { buffer = some buf } ∷ q.woken;
            },
          )
          else (true, q)
    ]

-- The loop of `giop_recv_list_zap`: the entries of the connection are taken off and lose their buffer
-- and their connection; the others stay in order.
unfoldable pub zap_entries : ℕ → List Entry → List Entry → Queue
zap_entries cnx [] woken = record { queued = []; woken = woken }
zap_entries cnx (e ∷ es) woken =
    let ours = same_cnx e.cnx (some cnx) in
    let r =
      zap_entries cnx es (if ours then record e { buffer = none; cnx = none } ∷ woken else woken) in
    if ours then r else record r { queued = e ∷ r.queued }

-- `giop_recv_list_zap`
unfoldable pub list_zap : ℕ → Queue → Queue
list_zap cnx q = zap_entries cnx q.queued q.woken
