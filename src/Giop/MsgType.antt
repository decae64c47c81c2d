-- ===== src/Giop/MsgType.antt =====
-- include/orbit/GIOP/giop-types.h: the values of `GIOPMsgType`.
use orbit.Base.{ℕ}

abbrev pub request : ℕ
request = 0

abbrev pub reply : ℕ
reply = 1

abbrev pub cancel_request : ℕ
cancel_request = 2

abbrev pub locate_request : ℕ
locate_request = 3

abbrev pub locate_reply : ℕ
locate_reply = 4

abbrev pub close_connection : ℕ
close_connection = 5

abbrev pub message_error : ℕ
message_error = 6

abbrev pub fragment : ℕ
fragment = 7

abbrev pub num_msg_types : ℕ
num_msg_types = 8
