-- ===== src/Giop/SendBuffer/Requests.antt =====
-- src/orb/GIOP/giop-send-buffer.c: where a message begins, and the messages that the program starts.
use orbit.Base.{
  ℕ, ◌+◌, Option, none, some, List, [], ◌∷◌, ◌++◌, leb, ◌==◌, if◌then◌else◌, length, replicate,
}
use orbit.Giop.Wire.{Endian, little, big, bytes32, bytes16}
use orbit.Giop.MsgType
use orbit.Giop.Message.{GiopVersion, giop_1_2}
use orbit.Giop.SendBuffer.Memory.{
  header, constant, user, SendBuffer, giop_chunk_size, append_real, append, Heap, align,
  append_aligned, append_copy, put_indirect, Ptr, bytes_at,
}

-- A `GIOPSendBuffer` as `g_new0` and the lines behind it make it.
abbrev pub new_buffer : GiopVersion → SendBuffer
new_buffer version = record {
  giop_version = version;
  message_type = 0;
  message_size = 0;
  header_size = 0;
  iovecs = [];
  num_alloced = 8;
  lastptr = none;
  chunk_size = λ i. 0;
  chunk_bytes = λ i. [];
  num_indirects_alloced = 0;
  num_indirects_used = 0;
  indirect_left = 0;
}

-- `giop_send_buffer_use`, with the buffer that the free list has, if any. What is left in its chunks
-- is out of reach: each is written over from its start when it is taken again.
unfoldable pub send_buffer_use : Option SendBuffer → GiopVersion → SendBuffer
send_buffer_use recycled version =
    let buf : SendBuffer = elim recycled [
      | none ↦ new_buffer version
      | some old ↦ record old {
        iovecs = [];
        indirect_left = 0;
        num_indirects_used = 0;
        giop_version = version;
      }
    ] in
    record (append_real buf (record { place = header; offset = 0 }) 12) {
      message_size = 0;
      header_size = 12;
    }

-- `giop_send_buffer_unuse`: chunks above the standard size shrink to it.
unfoldable pub send_buffer_unuse : SendBuffer → SendBuffer
send_buffer_unuse buf = record buf {
  chunk_size = λ i.
      if leb (buf.num_indirects_used) i
      then buf.chunk_size i
      else if leb (buf.chunk_size i) giop_chunk_size
      then buf.chunk_size i
      else giop_chunk_size;
}

-- What a message takes from the build and from its caller: the byte order, the memory of the caller,
-- and what stands in the gaps.
pub record Setting : Type 0 where
  pub host : Endian
  pub heap : Heap
  pub gap : ℕ → ℕ

-- An object key (`CORBA_sequence_CORBA_octet`) or an `iovec` in the memory of the caller.
pub record Area : Type 0 where
  pub at : ℕ
  pub offset : ℕ
  pub len : ℕ

module _ (t : Setting) where
  -- A value that is passed by its address: `append (buf, &value, sizeof (value))`.
  abbrev pub append_value : SendBuffer → List ℕ → SendBuffer
  append_value buf bs = append t.heap buf (record { place = constant bs; offset = 0 }) (length bs)

  abbrev pub append_area : SendBuffer → Area → SendBuffer
  append_area buf a = append t.heap buf (record { place = user a.at; offset = a.offset }) a.len

  abbrev pub u32_bytes : ℕ → List ℕ
  u32_bytes x = bytes32 t.host x

  -- `iop_service_context_data`: one context, the code sets, whose data is an encapsulation in the
  -- host's byte order.
  abbrev pub service_context_data : List ℕ
  service_context_data =
      u32_bytes 1
      ++ (u32_bytes 1
          ++ (u32_bytes 12
              ++ (u32_bytes (endianness t.host) ++ (u32_bytes 0x05010001 ++ u32_bytes 0x00010109))))
    where
      endianness : Endian → ℕ
      endianness little = 0x01010101
      endianness big = 0

  -- `giop_send_buffer_append_aligned (buf, &value, 4)`
  abbrev pub append_u32_aligned : SendBuffer → ℕ → SendBuffer
  append_u32_aligned buf x = append_aligned t.gap buf (u32_bytes x)

  -- The object key, behind its length.
  unfoldable pub append_key : SendBuffer → Area → SendBuffer
  append_key buf key = append_area (append_u32_aligned buf key.len) key

  abbrev pub started : Option SendBuffer → GiopVersion → ℕ → SendBuffer
  started recycled version type = record (send_buffer_use recycled version) { message_type = type }

  unfoldable pub request_1_0_header : SendBuffer → ℕ → ℕ → Area → Area → Option Area → SendBuffer
  request_1_0_header buf0 request_id response_expected objkey operation principal =
      let buf1 = append_value buf0 service_context_data in
      let buf2 = append_value buf1 (u32_bytes request_id) in
      let buf3 = append_value buf2 (response_expected ∷ []) in
      let buf4 = append_key buf3 objkey in
      let buf5 = append_area (align t.gap buf4 4) operation in
      elim principal [ none ↦ append_value buf5 (replicate 4 0) | some p ↦ append_area buf5 p ]

  unfoldable pub request_1_2_header : SendBuffer → ℕ → ℕ → Area → Area → SendBuffer
  request_1_2_header buf0 request_id response_expected objkey operation =
      let buf1 = append_value (align t.gap buf0 4) (u32_bytes request_id) in
      let buf2 = append_value buf1 ((if response_expected == 0 then 0x0 else 0x3) ∷ []) in
      let buf3 = append_value buf2 (replicate 3 0) in
      let buf4 = append_value buf3 (bytes16 t.host 0) in
      let buf5 = append_key buf4 objkey in
      let buf6 = append_area (align t.gap buf5 4) operation in
      align t.gap (append_value buf6 service_context_data) 8

  -- `giop_send_buffer_use_request`
  unfoldable pub use_request :
      Option SendBuffer → GiopVersion → ℕ → ℕ → Area → Area → Option Area → SendBuffer
  use_request recycled version request_id response_expected objkey operation principal =
      let buf = align t.gap (started recycled version MsgType.request) 4 in
      elim version [
        | giop_1_2 ↦ request_1_2_header buf request_id response_expected objkey operation
        | _ ↦ request_1_0_header buf request_id response_expected objkey operation principal
      ]

  -- `giop_send_buffer_use_reply`
  unfoldable pub use_reply : Option SendBuffer → GiopVersion → ℕ → ℕ → SendBuffer
  use_reply recycled version request_id reply_status =
      let buf = started recycled version MsgType.reply in
      elim version [
        | giop_1_2 ↦
            let buf1 = append_value buf (u32_bytes request_id) in
            let buf2 = append_value buf1 (u32_bytes reply_status) in
            align t.gap (append_value buf2 service_context_data) 8
        | _ ↦
            let buf1 = append_value buf service_context_data in
            append_value (append_value buf1 (u32_bytes request_id)) (u32_bytes reply_status)
      ]

  -- `giop_send_buffer_use_locate_request`
  unfoldable pub use_locate_request : Option SendBuffer → GiopVersion → ℕ → Area → SendBuffer
  use_locate_request recycled version request_id objkey =
      let buf =
        append_value (started recycled version MsgType.locate_request) (u32_bytes request_id) in
      elim version [
        | giop_1_2 ↦ append_key (append_value buf (bytes16 t.host 0)) objkey
        | _ ↦ append_key buf objkey
      ]

  -- `giop_send_buffer_use_locate_reply`
  unfoldable pub use_locate_reply : Option SendBuffer → GiopVersion → ℕ → ℕ → SendBuffer
  use_locate_reply recycled version request_id locate_status =
      let buf =
        append_value (started recycled version MsgType.locate_reply) (u32_bytes request_id) in
      append_value buf (u32_bytes locate_status)

  -- `giop_send_buffer_use_close_connection`
  unfoldable pub use_close_connection : Option SendBuffer → GiopVersion → SendBuffer
  use_close_connection recycled version = started recycled version MsgType.close_connection

  -- `giop_send_buffer_use_message_error`
  unfoldable pub use_message_error : Option SendBuffer → GiopVersion → SendBuffer
  use_message_error recycled version = started recycled version MsgType.message_error

  -- `giop_send_buffer_append_string` of a text whose `len` bytes, the final 0 included, lie at `str`.
  unfoldable pub append_string : SendBuffer → Ptr → ℕ → SendBuffer
  append_string buf0 str len =
      let buf = align t.gap buf0 4 in
      if leb (4 + len) buf.indirect_left
      then put_indirect buf (u32_bytes len ++ bytes_at t.heap str len)
      else append t.heap (append_copy buf (u32_bytes len)) str len
