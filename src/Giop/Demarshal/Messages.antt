-- ===== src/Giop/Demarshal/Messages.antt =====
-- src/orb/GIOP/giop-recv-buffer.c, the decoders and `giop_recv_buffer_demarshal`.
use orbit.Base.{ℕ, ◌==◌, if◌then◌else◌, leb}
use orbit.Giop.MsgType
use orbit.Giop.Message.{
  GiopVersion, giop_1_0, giop_1_1, giop_1_2, TargetAddress, key_addr, unread, Msg, blank,
  request_1_1, request_1_2, reply_1_1, reply_1_2, cancel_request, locate_request_1_1,
  locate_request_1_2, locate_reply,
}
use orbit.Giop.Reader.{
  Reader, ◌>>=◌, ◌>>◌, pure, reject, align_cur, need, advance, peek_u8, load_u32, load_u16,
  point_octets,
}
use orbit.Giop.Demarshal.Context.{service_context_list}

-- The case `GIOP_KeyAddr`.
unfoldable pub demarshal_key_addr : Reader TargetAddress
demarshal_key_addr = do
  align_cur 4
  need 4
  len ← load_u32
  key ← point_octets len
  pure (key_addr key)

-- Only a key (0) is read; a profile (1) and a reference (2) are refused; the `switch` has no
-- default, so any other discriminator is taken as it is.
unfoldable pub demarshal_address_case : ℕ → Reader TargetAddress
demarshal_address_case d =
    if d == 0
    then demarshal_key_addr
    else if d == 1
    then reject
    else if d == 2
    then reject
    else pure (unread d)

-- `giop_GIOP_TargetAddress_demarshal`
unfoldable pub demarshal_target_address : Reader TargetAddress
demarshal_target_address = do align_cur 2; need 2; d ← load_u16; demarshal_address_case d

unfoldable pub demarshal_request_1_1 : Reader Msg
demarshal_request_1_1 = do
  contexts ← service_context_list
  align_cur 4
  need 12
  id ← load_u32
  expected ← peek_u8
  advance 4
  key_len ← load_u32
  key ← point_octets key_len
  align_cur 4
  need 4
  oplen ← load_u32
  op ← point_octets oplen
  align_cur 4
  need 4
  principal_len ← load_u32
  principal ← point_octets principal_len
  pure (
      request_1_1 (record {
        service_context = contexts;
        request_id = id;
        response_expected = expected;
        object_key = key;
        operation = op;
        requesting_principal = principal;
      }))

unfoldable pub demarshal_request_1_2 : Reader Msg
demarshal_request_1_2 = do
  align_cur 4
  need 8
  id ← load_u32
  response ← peek_u8
  advance 4
  address ← demarshal_target_address
  align_cur 4
  need 4
  oplen ← load_u32
  op ← point_octets oplen
  contexts ← service_context_list
  align_cur 8
  pure (
      request_1_2 (record {
        request_id = id;
        response_flags = response;
        target = address;
        operation = op;
        service_context = contexts;
      }))

unfoldable pub demarshal_reply_1_1 : Reader Msg
demarshal_reply_1_1 = do
  contexts ← service_context_list
  align_cur 4
  need 8
  id ← load_u32
  status ← load_u32
  pure (reply_1_1 (record { service_context = contexts; request_id = id; reply_status = status }))

unfoldable pub demarshal_reply_1_2 : Reader Msg
demarshal_reply_1_2 = do
  align_cur 4
  need 8
  id ← load_u32
  status ← load_u32
  contexts ← service_context_list
  align_cur 8
  pure (reply_1_2 (record { service_context = contexts; request_id = id; reply_status = status }))

unfoldable pub demarshal_cancel : Reader Msg
demarshal_cancel = do align_cur 4; need 4; id ← load_u32; pure (cancel_request id)

unfoldable pub demarshal_locate_request_1_1 : Reader Msg
demarshal_locate_request_1_1 = do
  align_cur 4
  need 8
  id ← load_u32
  key_len ← load_u32
  key ← point_octets key_len
  pure (locate_request_1_1 (record { request_id = id; object_key = key }))

unfoldable pub demarshal_locate_request_1_2 : Reader Msg
demarshal_locate_request_1_2 = do
  align_cur 4
  need 4
  id ← load_u32
  address ← demarshal_target_address
  pure (locate_request_1_2 (record { request_id = id; target = address }))

unfoldable pub demarshal_locate_reply_1_1 : Reader Msg
demarshal_locate_reply_1_1 = do
  align_cur 4
  need 8
  id ← load_u32
  status ← load_u32
  pure (locate_reply (record { request_id = id; locate_status = status }))

abbrev pub by_version : GiopVersion → Reader Msg → Reader Msg → Reader Msg
by_version giop_1_0 old new = old
by_version giop_1_1 old new = old
by_version giop_1_2 old new = new

-- `giop_recv_buffer_demarshal`: the table of decoders; the types from close connection on have none.
unfoldable pub recv_buffer_demarshal : ℕ → GiopVersion → Reader Msg
recv_buffer_demarshal type version =
    if leb MsgType.num_msg_types type
    then reject
    else if type == MsgType.request
    then by_version version demarshal_request_1_1 demarshal_request_1_2
    else if type == MsgType.reply
    then by_version version demarshal_reply_1_1 demarshal_reply_1_2
    else if type == MsgType.cancel_request
    then demarshal_cancel
    else if type == MsgType.locate_request
    then by_version version demarshal_locate_request_1_1 demarshal_locate_request_1_2
    else if type == MsgType.locate_reply
    then demarshal_locate_reply_1_1
    else pure blank
