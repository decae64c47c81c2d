-- ===== src/Giop/Fragments.antt =====
-- src/orb/GIOP/giop-recv-buffer.c: the buffer of a body, and the fragments of a message, which are
-- collected on the connection and joined when the last one is there.

pub mod Join
pub mod Reassembly
use orbit.Base.{
  ℕ, zero, suc, ◌+◌, ◌-◌, ◌*◌, ◌/◌, ◌%◌, ◌^◌, Bool, true, false, Option, none, some, List, [], ◌∷◌,
  ◌++◌, ◌&&◌, ◌||◌, not, ltb, leb, ◌==◌, if◌then◌else◌, take, slice, length, get_elem?,
}
use orbit.Giop.Wire.{Endian, align_value}
use orbit.Giop.MsgType
use orbit.Giop.Message.{
  GiopVersion, giop_1_0, giop_1_1, giop_1_2, MsgHeader, Msg, blank, request_1_1, request_1_2,
  reply_1_1, reply_1_2, cancel_request, locate_request_1_1, locate_request_1_2, locate_reply,
  RecvBuffer,
}
use orbit.Giop.Reader.{Outcome, done, broken, fault, Wire, load_u32}

-- `giop_recv_buffer_get_request_id`: the table leads to the `request_id` of the member that the
-- decoder of the same type and version filled, and to 0 for the types that have none.
unfoldable pub get_request_id : Msg → ℕ
get_request_id blank = 0
get_request_id (request_1_1 r) = r.request_id
get_request_id (request_1_2 r) = r.request_id
get_request_id (reply_1_1 r) = r.request_id
get_request_id (reply_1_2 r) = r.request_id
get_request_id (cancel_request id) = id
get_request_id (locate_request_1_1 r) = r.request_id
get_request_id (locate_request_1_2 r) = r.request_id
get_request_id (locate_reply r) = r.request_id

-- `MORE_FRAGMENTS_FOLLOW`: `GIOP_FLAG_FRAGMENTED` is bit 1 of the flags.
abbrev pub more_fragments_follow : RecvBuffer → Bool
more_fragments_follow buf = (buf.header.flags / 2 % 2) == 1

-- `alloc_buffer`, with what `g_try_realloc` keeps of the old memory; `has_memory n` says whether an
-- allocation of `n` bytes succeeds. The 12 bytes in front of a fresh body are spare.
unfoldable pub alloc_buffer : (ℕ → Bool) → RecvBuffer → List ℕ → ℕ → Option RecvBuffer
alloc_buffer has_memory buf old_alloc body_size =
    if has_memory (body_size + 12)
    then some (record buf {
      body = take (body_size + 12) old_alloc;
      free_body = true;
      cur = 12;
      end = 12 + body_size;
      left_to_read = body_size;
    })
    else none

-- `buf->end - buf->cur` as a `gulong` of 64 bits, which wraps where `cur` has passed `end`.
abbrev pub gulong : ℕ
gulong = 2 ^ 64

unfoldable pub frag_size : RecvBuffer → ℕ
frag_size buf = (buf.end + gulong - buf.cur) % gulong

-- The bytes of a fragment, from `cur` on.
abbrev pub frag_bytes : RecvBuffer → List ℕ
frag_bytes buf = slice buf.cur (frag_size buf) buf.body

-- The loop of `concat_frags`: `memcpy (ptr, buf->cur, len); ptr += len` into an allocation of
-- `room` bytes. A copy past the end of the allocation, or from behind the fragment's own memory, is a
-- fault.
unfoldable pub copy_frags : ℕ → List ℕ → ℕ → List RecvBuffer → Outcome (List ℕ × ℕ)
copy_frags room mem ptr [] = done (mem, ptr)
copy_frags room mem ptr (buf ∷ l) =
    let rest = copy_frags room (mem ++ frag_bytes buf) (ptr + frag_size buf) l in
    if leb (ptr + frag_size buf) room && leb (buf.cur + frag_size buf) (length buf.body)
    then rest
    else fault

-- `concat_frags` on the head of a list and the fragments behind it. `message_size` has 32 bits and
-- has been summed up on the head; `ptr` starts at the old `end`. A head that does not own its body
-- fails an assertion (a fault).
unfoldable pub concat_frags : (ℕ → Bool) → RecvBuffer → List RecvBuffer → Outcome RecvBuffer
concat_frags has_memory head tail =
    let length' : ℕ = head.header.message_size + head.cur - 12 in
    if not head.free_body
    then fault
    else elim (alloc_buffer has_memory head (take head.end head.body) length') [
      | none ↦ broken
      | some buf ↦ elim (copy_frags (length' + 12) buf.body head.end tail) [
        | done (mem, ptr) ↦
            done (record buf { body = mem; left_to_read = 0; cur = head.cur; end = ptr })
        | broken ↦ broken
        | fault ↦ fault
      ]
    ]

-- `giop_connection_get_frag`: the first list whose head has the id. What is returned is the place of
-- the list, which stands for the pointer to it.
unfoldable pub find_frag : ℕ → ℕ → List (List RecvBuffer) → Option ℕ
find_frag request_id i [] = none
find_frag request_id i ([] ∷ ls) = find_frag request_id (suc i) ls
find_frag request_id i ((head ∷ frags) ∷ ls) =
    let rest = find_frag request_id (suc i) ls in
    if get_request_id head.msg == request_id then some i else rest

unfoldable pub connection_get_frag : List (List RecvBuffer) → ℕ → Bool → Option ℕ
connection_get_frag incoming_frags request_id return_first_if_none =
    elim (find_frag request_id 0 incoming_frags) [
      | some i ↦ some i
      | none ↦ elim incoming_frags [
        | [] ↦ none
        | l ∷ ls ↦ if return_first_if_none then some 0 else none
      ]
    ]

module _ {ℓ} {A : Type ℓ} where
  abbrev pub set : List A → ℕ → A → List A
  set [] i v = []
  set (x ∷ xs) zero v = v ∷ xs
  set (x ∷ xs) (suc i) v = x ∷ set xs i v

  abbrev pub remove_at : List A → ℕ → List A
  remove_at [] i = []
  remove_at (x ∷ xs) zero = xs
  remove_at (x ∷ xs) (suc i) = x ∷ remove_at xs i

-- What `giop_recv_buffer_handle_fragmented` returns: the error flag, `*ret_buf`, and the lists of the
-- connection.
pub record Handled : Type 0 where
  pub error : Bool
  pub buf : RecvBuffer
  pub frags : List (List RecvBuffer)

abbrev pub u32 : ℕ
u32 = 2 ^ 32

-- The message id of a fragment: none in GIOP 1.1, the first word of the body otherwise.
unfoldable pub fragment_id : Endian → RecvBuffer → Outcome (ℕ × ℕ)
fragment_id host buf =
    let c = align_value buf.cur 4 in
    if ltb buf.end (c + 4)
    then broken
    else load_u32 (record { host = host; flags = buf.header.flags; mem = buf.body; end = buf.end })
        c

abbrev pub is_1_1 : GiopVersion → Bool
is_1_1 giop_1_0 = false
is_1_1 giop_1_1 = true
is_1_1 giop_1_2 = false

-- The `switch` on the message type: the id, and where `cur` is left.
unfoldable pub message_id : Endian → RecvBuffer → Outcome (ℕ × ℕ)
message_id host buf =
    let type = buf.header.message_type in
    if type == MsgType.reply
      || type == MsgType.locate_reply
      || type == MsgType.request
      || type == MsgType.locate_request
    then done (get_request_id buf.msg, buf.cur)
    else if type == MsgType.fragment
    then (if is_1_1 buf.giop_version then done (0, buf.cur) else fragment_id host buf)
    else broken

-- The branch for a message of which a part has come before: `head` tracks the total length. A last
-- part that is not a fragment fails an assertion.
unfoldable pub append_fragment :
    (ℕ → Bool)
    → ℕ
    → Bool
    → RecvBuffer
    → ℕ
    → RecvBuffer
    → List RecvBuffer
    → List (List RecvBuffer)
    → Outcome Handled
append_fragment has_memory limit is_auth buf i head tail lists =
    let head' = record head {
      header = record (head.header) {
        message_size = (head.header.message_size + frag_size buf) % u32;
      };
    } in
    let tail' = tail ++ buf ∷ [] in
    let oversized = not is_auth && ltb limit buf.header.message_size in
    if more_fragments_follow buf
    then done (record {
      error = oversized;
      buf = head';
      frags = if oversized then remove_at lists i else set lists i (head' ∷ tail');
    })
    else if oversized || not (buf.header.message_type == MsgType.fragment)
    then fault
    else elim (concat_frags has_memory head' tail') [
      | done whole ↦ done (record { error = false; buf = whole; frags = remove_at lists i })
      | broken ↦ done (record { error = true; buf = head'; frags = remove_at lists i })
      | fault ↦ fault
    ]

-- `giop_recv_buffer_handle_fragmented`. A head that is itself a fragment fails an assertion (a
-- fault). An oversized last fragment would have its list freed twice
-- over (a fault); the header check keeps such fragments out.
unfoldable pub handle_fragmented :
    Endian → (ℕ → Bool) → ℕ → Bool → RecvBuffer → List (List RecvBuffer) → Outcome Handled
handle_fragmented host has_memory limit is_auth buf0 lists = elim (message_id host buf0) [
  | broken ↦ done (record { error = true; buf = buf0; frags = lists })
  | fault ↦ fault
  | done (id, c) ↦
      let buf = record buf0 { cur = c } in
      elim (connection_get_frag lists id (is_1_1 buf.giop_version)) [
        | none ↦
            if more_fragments_follow buf
            then done (record { error = false; buf = buf; frags = (buf ∷ []) ∷ lists })
            else done (record { error = true; buf = buf; frags = lists })
        | some i ↦ elim (get_elem? lists i) [
          | some (head ∷ tail) ↦
              if head.header.message_type == MsgType.fragment
              then fault
              else append_fragment has_memory limit is_auth buf i head tail lists
          | some [] ↦ fault
          | none ↦ fault
        ]
      ]
]
