-- ===== src/Giop/Tests/Receiving.antt =====
-- src/orb/GIOP/giop-recv-buffer.c at concrete messages.
use orbit.Base.{
  ℕ, ◌+◌, ◌≡◌, ◌<◌, ◌≤◌, refl, ◌⊎◌, true, false, none, some, List, [], ◌∷◌, ◌++◌, length, arith,
  replicate,
}
use orbit.Giop.Wire.{little, big, word32, sender}
use orbit.Giop.MsgType
use orbit.Giop.Message.{giop_1_2, Msg, reply_1_1, RecvBuffer, reading_header}
use orbit.Giop.Demarshal.{recv_buffer_demarshal}
use orbit.Giop.Demarshal.Safety.{Within, Decoded, recv_buffer_demarshal-Within}
use orbit.Giop.Fragments.{alloc_buffer}
use orbit.Giop.Queue.{Queue, Entry, handle_reply, list_zap}
use orbit.Giop.Queue.Delivery.{
  Replied, handle_reply-Replied, list_zap_lem, Elsewhere, waiting_elsewhere, cut_off,
}
use orbit.Giop.Input.{
  header_of, Config, Connection, got, again, input_loop, recv_msg_reading_body, is_giop, version_of,
}
use orbit.Giop.Input.Reads.{input_loop-split, recv_msg_reading_body_accepts}
use orbit.Giop.Tests.Messages.{fragment_header, part, plenty}

-- The body of a locate reply on a little-endian wire, and the same cut short.
abbrev reply_body : List ℕ
reply_body = replicate 12 0 ++ 7 ∷ 0 ∷ 0 ∷ 0 ∷ 1 ∷ 0 ∷ 0 ∷ 0 ∷ []

recv_buffer_demarshal-Within_example : Within (Decoded 20) (
    recv_buffer_demarshal MsgType.locate_reply giop_1_2
      (record { host = big; flags = 1; mem = reply_body; end = 20 })
      12)
recv_buffer_demarshal-Within_example =
    recv_buffer_demarshal-Within (record { host = big; flags = 1; mem = reply_body; end = 20 })
      (omega arith) MsgType.locate_reply giop_1_2 12 (omega arith)

-- Two callers wait on two connections; the reply is to the second.
abbrev reply_to : ℕ → ℕ → RecvBuffer
reply_to id cnx = record (part 1 1 4 16 16 []) {
  msg = reply_1_1 (record { service_context = []; request_id = id; reply_status = 0 });
  connection = some cnx;
}

abbrev waiter : ℕ → ℕ → ℕ → Entry
waiter owner cnx id = record {
  owner = owner;
  buffer = none;
  cnx = some cnx;
  msg_type = MsgType.reply;
  request_id = id;
  async_cb = false;
}

abbrev waiting : Queue
waiting = record { queued = waiter 1 1 10 ∷ waiter 2 2 20 ∷ []; woken = [] }

abbrev no_status : Msg → ℕ
no_status m = 0

handle_reply-Replied_example :
    Replied no_status (reply_to 20 2) waiting (handle_reply no_status (reply_to 20 2) waiting)
handle_reply-Replied_example = handle_reply-Replied no_status (reply_to 20 2) waiting

list_zap_lem_example :
    Elsewhere 1 (list_zap 1 waiting).queued
    × ((list_zap 1 waiting).queued ≡ waiting_elsewhere 1 waiting.queued)
    × ((list_zap 1 waiting).woken ≡ cut_off 1 waiting.queued waiting.woken)
list_zap_lem_example = list_zap_lem 1 waiting

abbrev config : Config
config = record { host = little; has_memory = plenty; limit = 256; status_at = no_status }

abbrev connection : Connection
connection = record {
  id = 1;
  is_auth = false;
  connected = true;
  incoming_msg = none;
  incoming_frags = [];
  queue = waiting;
  events = [];
}

abbrev fresh_buf : RecvBuffer
fresh_buf = record (part 0 0 0 0 0 []) { state = reading_header; left_to_read = 12 }

input_loop-split_example :
    input_loop config (got b'G' [] ∷ got b'I' (b'O' ∷ []) ∷ again ∷ []) fresh_buf connection
    ≡ input_loop config (got b'G' (b'I' ∷ b'O' ∷ []) ∷ again ∷ []) fresh_buf connection
input_loop-split_example =
    input_loop-split config b'G' b'I' [] (b'O' ∷ []) (again ∷ []) fresh_buf connection refl
      (omega arith) (omega arith)

-- The header of a locate reply of 8 bytes, and the buffer that it makes.
abbrev header_buf : RecvBuffer
header_buf = record fresh_buf {
  raw = b'G' ∷ b'I' ∷ b'O' ∷ b'P' ∷ 1 ∷ 2 ∷ 1 ∷ 4 ∷ 8 ∷ 0 ∷ 0 ∷ 0 ∷ [];
  cur = 12;
  left_to_read = 0;
}

abbrev accepted_buf : RecvBuffer
accepted_buf = record fresh_buf {
  raw = header_buf.raw;
  header = record (fragment_header 4 1 8) { minor = 2 };
  body = replicate 12 0;
  cur = 12;
  end = 20;
  left_to_read = 8;
  giop_version = giop_1_2;
}

accepted : recv_msg_reading_body config header_buf false ≡ some accepted_buf
unfolding recv_msg_reading_body header_of alloc_buffer
accepted = refl

recv_msg_reading_body_accepts_example :
    (is_giop accepted_buf.header.magic ≡ true)
    × (accepted_buf.header.message_type < 8)
    × (version_of accepted_buf.header.major accepted_buf.header.minor
        ≡ some accepted_buf.giop_version)
    × ((false ≡ true) ⊎ (accepted_buf.header.message_size ≤ 256))
    × (accepted_buf.end ≡ 12 + accepted_buf.header.message_size)
    × (accepted_buf.left_to_read ≡ accepted_buf.header.message_size)
    × (accepted_buf.cur ≡ 12)
    × (length accepted_buf.body ≡ 12)
    × (accepted_buf.header.message_size ≡ word32 (sender 1) 8 0 0 0)
recv_msg_reading_body_accepts_example =
    recv_msg_reading_body_accepts config header_buf accepted_buf false (omega arith) (omega arith)
      (omega arith) (omega arith) accepted
