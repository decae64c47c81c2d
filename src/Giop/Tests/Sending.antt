-- ===== src/Giop/Tests/Sending.antt =====
-- src/orb/GIOP/giop-send-buffer.c at concrete messages.
use orbit.Base.{ℕ, ◌+◌, ◌*◌, ◌^◌, ◌≡◌, ◌≤◌, ◌<◌, refl, none, some, List, [], ◌∷◌, length, arith}
use orbit.Giop.Wire.Masking.{and_not, align_masked, align_masked-align_value}
use orbit.Giop.Wire.{little, big, align_value}
use orbit.Giop.Message.{giop_1_2, locate_reply}
use orbit.Giop.Reader.{done}
use orbit.Giop.SendBuffer.Memory.{
  SendBuffer, append_copy, Ptr, constant, Heap, append, align, sent, bytes_at,
}
use orbit.Giop.SendBuffer.Payload.{IsSound, Grows}
use orbit.Giop.SendBuffer.Append.{append_lem, IsCopied}
use orbit.Giop.SendBuffer.Sent.{send_buffer_use-IsSound}
use orbit.Giop.SendBuffer.Requests.{Setting, send_buffer_use, use_locate_reply}
use orbit.Giop.SendBuffer.Capacity.{
  HasRoom, append_copy-HasRoom, send_buffer_use-HasRoom, align-Places,
}
use orbit.Giop.RoundTrip.{received, received-locate_reply}

-- A message of a little-endian machine, begun in a buffer that has not been used before.
abbrev no_heap : Heap
no_heap i = []

abbrev zeros : ℕ → ℕ
zeros i = 0

abbrev setting : Setting
setting = record { host = little; heap = no_heap; gap = zeros }

abbrev begun : SendBuffer
begun = send_buffer_use none giop_1_2

abbrev octet : Ptr
octet = record { place = constant (5 ∷ []); offset = 0 }

begun-IsSound : IsSound no_heap begun []
begun-IsSound = send_buffer_use-IsSound no_heap none giop_1_2

begun_size : begun.message_size ≡ 0
unfolding send_buffer_use
begun_size = refl

append_lem_example :
    Grows no_heap begun [] (bytes_at no_heap octet 1) (append no_heap begun octet 1)
    × (1 ≤ 32 → IsCopied (append no_heap begun octet 1) (bytes_at no_heap octet 1))
    × (32 < 1
        → ((append no_heap begun octet 1).lastptr ≡ some (record octet { offset = 1 }))
          × ((append no_heap begun octet 1).chunk_bytes ≡ begun.chunk_bytes))
append_lem_example =
    append_lem no_heap begun [] octet 1 begun-IsSound (omega arith) (omega arith)
      (omega (arith, begun_size))

align-Places_example :
    ((bytes : List ℕ) × Grows no_heap begun [] bytes (align zeros begun 8) × (length bytes < 8))
    × ((q : ℕ) × ((align zeros begun 8).message_size + 12 ≡ q * 8))
    × HasRoom (align zeros begun 8)
align-Places_example =
    align-Places zeros no_heap begun [] 3 8 refl (omega arith) (omega arith) begun-IsSound
      (send_buffer_use-HasRoom giop_1_2) (omega (arith, begun_size))

received-locate_reply_example :
    received big giop_1_2 (sent little no_heap (use_locate_reply setting none giop_1_2 7 1))
    ≡ done (locate_reply (record { request_id = 7; locate_status = 1 }), 20)
received-locate_reply_example =
    received-locate_reply setting none giop_1_2 big 7 1 (omega arith) (omega arith)

append_copy-HasRoom_example : HasRoom (append_copy (send_buffer_use none giop_1_2) (5 ∷ []))
append_copy-HasRoom_example =
    append_copy-HasRoom (send_buffer_use none giop_1_2) (5 ∷ []) (send_buffer_use-HasRoom giop_1_2)
      (omega arith) (omega arith)

align_masked-align_value_example : align_masked 13 (2 ^ 3) ≡ align_value 13 (2 ^ 3)
align_masked-align_value_example = align_masked-align_value 13 3 (omega arith)

masked_by_3 : align_masked 13 3 ≡ 13
unfolding align_masked and_not
masked_by_3 = refl
