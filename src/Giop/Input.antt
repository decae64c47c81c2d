-- ===== src/Giop/Input.antt =====
-- src/orb/GIOP/giop-recv-buffer.c, `giop_connection_handle_input`: bytes from the connection become
-- messages, and messages are handed on.
pub mod Reads
use orbit.Base.{
  ℕ, ◌+◌, ◌-◌, ◌%◌, Bool, true, false, Option, none, some, List, [], ◌∷◌, ◌++◌, ◌&&◌, ◌||◌, not,
  ltb, leb, ◌==◌, if◌then◌else◌, take, length, replicate,
}
use orbit.Giop.Wire.{Endian, little, big, host_flag, byte_at, word32, convert32}
use orbit.Giop.MsgType
use orbit.Giop.Message.{
  GiopVersion, giop_1_0, giop_1_1, giop_1_2, MsgHeader, Msg, blank, RecvBuffer, BufferState,
  reading_header, reading_body, awaiting_fragments, ready,
}
use orbit.Giop.Reader.{Outcome, done, broken, fault}
use orbit.Giop.Demarshal.{recv_buffer_demarshal}
use orbit.Giop.Fragments.{
  more_fragments_follow, alloc_buffer, Handled, handle_fragmented, get_request_id,
}
use orbit.Giop.Queue.{Queue, handle_reply, list_zap}

-- What a build and a process fix: the byte order, whether an allocation succeeds, the size limit of
-- `giop_recv_set_limit`, and what a reply status is read as in another message.
pub record Config : Type 0 where
  pub host : Endian
  pub has_memory : ℕ → Bool
  pub limit : ℕ
  pub status_at : Msg → ℕ

-- `giop_recv_set_limit`
unfoldable pub recv_set_limit : ℕ → Config → Config
recv_set_limit limit k = if ltb 256 limit then record k { limit = limit } else k

-- What is done with a message that has arrived: the calls into the adaptor, and the drops.
pub data Event : Type 0 where
  handle_request handle_locate_request dropped : RecvBuffer → Event

-- `GIOPConnection`, with the queue of waiting callers and the calls that have been made.
pub record Connection : Type 0 where
  pub id : ℕ
  pub is_auth : Bool
  pub connected : Bool
  pub incoming_msg : Option RecvBuffer
  pub incoming_frags : List (List RecvBuffer)
  pub queue : Queue
  pub events : List Event

-- `giop_recv_buffer_use_buf`
unfoldable pub recv_buffer_use_buf : Option ℕ → RecvBuffer
recv_buffer_use_buf cnx = record {
  header = record {
    magic = 0 ∷ 0 ∷ 0 ∷ 0 ∷ [];
    major = 0;
    minor = 0;
    flags = 0;
    message_type = 0;
    message_size = 0;
  };
  msg = blank;
  raw = [];
  body = [];
  cur = 0;
  end = 0;
  connection = cnx;
  state = reading_header;
  giop_version = giop_1_0;
  left_to_read = 12;
  free_body = false;
}

-- The header as the struct that lies over its 12 bytes.
unfoldable pub header_of : Endian → List ℕ → MsgHeader
header_of host raw = record {
  magic = take 4 raw;
  major = byte_at raw 4;
  minor = byte_at raw 5;
  flags = byte_at raw 6;
  message_type = byte_at raw 7;
  message_size = word32 host (byte_at raw 8) (byte_at raw 9) (byte_at raw 10) (byte_at raw 11);
}

-- `memcmp (magic, "GIOP", 4)`
abbrev pub is_giop : List ℕ → Bool
is_giop m = byte_at m 0 == b'G' && byte_at m 1 == b'I' && byte_at m 2 == b'O' && byte_at m 3 == b'P'

-- The `switch` on the two version bytes.
abbrev pub version_of : ℕ → ℕ → Option GiopVersion
version_of major minor =
    if not (major == 1)
    then none
    else if minor == 0
    then some giop_1_0
    else if minor == 1
    then some giop_1_1
    else if minor == 2
    then some giop_1_2
    else none

-- `giop_recv_msg_reading_body`; `none` is its `return TRUE`.
unfoldable pub recv_msg_reading_body : Config → RecvBuffer → Bool → Option RecvBuffer
recv_msg_reading_body k buf is_auth =
    let h = header_of k.host buf.raw in
    if not (is_giop h.magic)
    then none
    else if leb MsgType.num_msg_types h.message_type
    then none
    else elim (version_of h.major h.minor) [
      | none ↦ none
      | some v ↦
          let size = convert32 k.host h.flags h.message_size in
          if not is_auth && ltb k.limit size
          then none
          else alloc_buffer k.has_memory
              (record buf { header = record h { message_size = size }; giop_version = v })
              (replicate 12 0) size
    ]

-- `link_connection_state_changed (lcnx, LINK_DISCONNECTED)` with the handler of
-- giop-connection.c: what was coming in is dropped, and the waiting callers are woken.
unfoldable pub disconnect : Connection → Connection
disconnect cnx = record cnx {
  connected = false;
  incoming_msg = none;
  queue = list_zap cnx.id cnx.queue;
}

-- The label `msg_error`
unfoldable pub msg_error : Connection → Connection
msg_error cnx = disconnect (record cnx { incoming_msg = none })

-- The `switch` behind the loop: a complete message is handed on by its type.
unfoldable pub dispatch : Config → RecvBuffer → Connection → Connection
dispatch k buf cnx0 =
    let cnx = record cnx0 { incoming_msg = none } in
    let type = buf.header.message_type in
    if type == MsgType.reply || type == MsgType.locate_reply
    then (let (error, q) = handle_reply k.status_at buf cnx.queue in
        if error then disconnect (record cnx { queue = q }) else record cnx { queue = q })
    else if type == MsgType.request
    then record cnx { events = handle_request buf ∷ cnx.events }
    else if type == MsgType.locate_request
    then record cnx { events = handle_locate_request buf ∷ cnx.events }
    else if type == MsgType.cancel_request || type == MsgType.message_error
    then record cnx { events = dropped buf ∷ cnx.events }
    else if type == MsgType.close_connection
    then disconnect cnx
    else msg_error cnx

-- The case `GIOP_MSG_READING_BODY`, once the whole body is there. A fault is a memory error.
unfoldable pub body_complete : Config → RecvBuffer → Connection → Outcome Connection
body_complete k buf0 cnx =
    let buf = record buf0 { cur = 12; state = ready } in
    if ltb buf.end (12 + buf.header.message_size)
    then done (msg_error cnx)
    else elim (recv_buffer_demarshal buf.header.message_type buf.giop_version
        (record { host = k.host; flags = buf.header.flags; mem = buf.body; end = buf.end }) 12) [
          | broken ↦ done (msg_error cnx)
          | fault ↦ fault
          | done (m, c) ↦
              let buf' = record buf { msg = m; cur = c } in
              let handled =
                handle_fragmented k.host k.has_memory k.limit cnx.is_auth buf' cnx.incoming_frags in
              if more_fragments_follow buf'
              then elim handled [
                | done r ↦
                    let cnx' = record cnx { incoming_frags = r.frags } in
                    done (if r.error then msg_error cnx' else record cnx' { incoming_msg = none })
                | broken ↦ broken
                | fault ↦ fault
              ]
              else if buf'.header.message_type == MsgType.fragment
              then elim handled [
                | done r ↦
                    let cnx' = record cnx { incoming_frags = r.frags } in
                    done (if r.error then msg_error cnx' else dispatch k r.buf cnx')
                | broken ↦ broken
                | fault ↦ fault
              ]
              else done (dispatch k buf' cnx)
        ]

-- What `link_connection_read` returns: nothing for now, an error or the end of the stream, or the
-- bytes it stored, one at least and no more than it was asked for.
pub data Read : Type 0 where
  again hup : Read
  got : ℕ → List ℕ → Read

-- Bytes arrive at `cur`, in the header or in the body.
abbrev pub store : RecvBuffer → List ℕ → RecvBuffer
store buf bs = elim buf.state [
  | reading_header ↦ record buf {
    raw = take buf.cur buf.raw ++ bs;
    cur = buf.cur + length bs;
    left_to_read = buf.left_to_read - length bs;
  }
  | _ ↦ record buf {
    body = take buf.cur buf.body ++ bs;
    cur = buf.cur + length bs;
    left_to_read = buf.left_to_read - length bs;
  }
]

-- The rest of the loop's body once bytes have been stored; `next` is the next round.
unfoldable pub bytes_stored :
    Config → (RecvBuffer → Outcome Connection) → RecvBuffer → Connection → Outcome Connection
bytes_stored k next buf cnx = if ltb 0 buf.left_to_read then next buf else elim buf.state [
  | reading_header ↦ elim (recv_msg_reading_body k buf cnx.is_auth) [
    | none ↦ done (msg_error cnx)
    | some buf2 ↦
        let buf3 = record buf2 { state = reading_body } in
        if ltb 0 buf3.left_to_read then next buf3 else done (dispatch k buf3 cnx)
  ]
  | reading_body ↦ body_complete k buf cnx
  | awaiting_fragments ↦ fault
  | ready ↦ fault
]

-- The loop of `giop_connection_handle_input` over the results of its reads, with `buf` for
-- `cnx->incoming_msg`. Where the results end, the call is still reading, as if told to come again.
unfoldable pub input_loop : Config → List Read → RecvBuffer → Connection → Outcome Connection
input_loop k [] buf cnx = done (record cnx { incoming_msg = some buf })
input_loop k (again ∷ rs) buf cnx = done (record cnx { incoming_msg = some buf })
input_loop k (hup ∷ rs) buf cnx = done (msg_error cnx)
input_loop k (got b bs ∷ rs) buf cnx =
    let next = λ (buf' : RecvBuffer). input_loop k rs buf' cnx in
    if buf.left_to_read == 0
    then done (msg_error cnx)
    else bytes_stored k next (store buf (take buf.left_to_read (b ∷ bs))) cnx

-- `giop_connection_handle_input`
unfoldable pub connection_handle_input : Config → List Read → Connection → Outcome Connection
connection_handle_input k reads cnx = elim cnx.incoming_msg [
  | none ↦ input_loop k reads (recv_buffer_use_buf (some cnx.id)) cnx
  | some buf ↦ input_loop k reads buf cnx
]
