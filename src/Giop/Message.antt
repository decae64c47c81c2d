-- ===== src/Giop/Message.antt =====
-- include/orbit/GIOP/giop-types.h and giop-recv-buffer.h: messages and the buffers they arrive in.
-- A pointer into the message body is its offset from `message_body`.
use orbit.Base.{ℕ, Bool, List, Option}

pub data GiopVersion : Type 0 where
  giop_1_0 giop_1_1 giop_1_2 : GiopVersion

pub record MsgHeader : Type 0 where
  pub magic : List ℕ
  pub major : ℕ
  pub minor : ℕ
  pub flags : ℕ
  pub message_type : ℕ
  pub message_size : ℕ

-- A `CORBA_sequence_CORBA_octet` whose `_buffer` points into the body (`_release` is false).
pub record OctetSeq : Type 0 where
  pub buffer : ℕ
  pub len : ℕ

-- `IOP_ServiceContext`: its data is a copy, not a pointer into the body.
pub record ServiceContext : Type 0 where
  pub context_id : ℕ
  pub context_data : List ℕ

-- `GIOP_TargetAddress`: the discriminator, and the key where the code reads one.
pub data TargetAddress : Type 0 where
  key_addr : OctetSeq → TargetAddress
  unread : ℕ → TargetAddress

pub record Request11 : Type 0 where
  pub service_context : List ServiceContext
  pub request_id : ℕ
  pub response_expected : ℕ
  pub object_key : OctetSeq
  pub operation : OctetSeq
  pub requesting_principal : OctetSeq

pub record Request12 : Type 0 where
  pub request_id : ℕ
  pub response_flags : ℕ
  pub target : TargetAddress
  pub operation : OctetSeq
  pub service_context : List ServiceContext

-- `GIOPMsgReply_1_0` and `_1_1`, and `GIOPMsgReply_1_2`, which differ in the order on the wire.
pub record Reply : Type 0 where
  pub service_context : List ServiceContext
  pub request_id : ℕ
  pub reply_status : ℕ

pub record LocateRequest11 : Type 0 where
  pub request_id : ℕ
  pub object_key : OctetSeq

pub record LocateRequest12 : Type 0 where
  pub request_id : ℕ
  pub target : TargetAddress

pub record LocateReply : Type 0 where
  pub request_id : ℕ
  pub locate_status : ℕ

-- The union `GIOPMsg.u`, with the member that the decoder filled; `blank` is the zeroed union of
-- a message that has no decoder.
pub data Msg : Type 0 where
  blank : Msg
  request_1_1 : Request11 → Msg
  request_1_2 : Request12 → Msg
  reply_1_1 reply_1_2 : Reply → Msg
  cancel_request : ℕ → Msg
  locate_request_1_1 : LocateRequest11 → Msg
  locate_request_1_2 : LocateRequest12 → Msg
  locate_reply : LocateReply → Msg

-- `GIOPMessageBufferState`
pub data BufferState : Type 0 where
  reading_header reading_body awaiting_fragments ready : BufferState

-- `struct _GIOPRecvBuffer`. `raw` holds the bytes of the header that have been read, and `header` what
-- they stand for once they are complete. `body` is the memory at `message_body` as far as it has been
-- written, 12 spare bytes first; `cur` and `end` are offsets into it.
pub record RecvBuffer : Type 0 where
  pub header : MsgHeader
  pub msg : Msg
  pub raw : List ℕ
  pub body : List ℕ
  pub cur : ℕ
  pub end : ℕ
  pub connection : Option ℕ
  pub state : BufferState
  pub giop_version : GiopVersion
  pub left_to_read : ℕ
  pub free_body : Bool
