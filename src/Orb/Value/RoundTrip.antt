-- ===== src/Orb/Value/RoundTrip.antt =====
-- src/orb/orb-core/corba-any.c against src/orb/GIOP/giop-send-buffer.c: a value that one side puts into
-- a message is the value that the other side takes out of it.
use orbit.Base.{
  ℕ, ◌+◌, ◌≤◌, ◌<◌, ◌≡◌, refl, sym, subst, ap, ◌∙◌, List, [], ◌++◌, arith, length, length-append,
  append-nil, append_assoc, drop,
}
use orbit.Giop.Wire.{Endian, little, big, sender}
use orbit.Giop.Reader.{done, Wire}
use orbit.Giop.SendBuffer.Memory.{SendBuffer, Iovec, u32, header_bytes, gather, sent}
use orbit.Giop.SendBuffer.Vector.{area}
use orbit.Giop.SendBuffer.Payload.{IsSound, Grows}
use orbit.Giop.SendBuffer.Sent.{sent-IsSound}
use orbit.Giop.SendBuffer.Requests.{Setting}
use orbit.Orb.TypeCode.{TypeCode}
use orbit.Orb.Value.{Value, encode, HasType}
use orbit.Orb.Value.Marshal.{marshal_value}
use orbit.Orb.Value.Demarshal.{demarshal_value}
use orbit.Orb.Value.Encoding.{marshal_value-Grows}
use orbit.Orb.Value.Reading.{drop-append}
use orbit.Orb.Value.Decoding.{demarshal_value-encode}

-- A message as it arrives, on a machine of the byte order `host`.
abbrev pub arrived : Setting → Endian → ℕ → SendBuffer → Wire
arrived t host flags buf =
    let mem = sent t.host t.heap buf in
    record { host = host; flags = flags; mem = mem; end = length mem }

length-header_bytes : (e : Endian) (buf : SendBuffer) → length (header_bytes e buf) ≡ 12
length-header_bytes little buf = refl
length-header_bytes big buf = refl

-- What a step has appended stands at the end of the message that is sent.
pub sent-Grows :
    (t : Setting) (buf buf1 : SendBuffer) (rest : List Iovec) (bs : List ℕ)
    → IsSound t.heap buf rest
    → Grows t.heap buf rest bs buf1
    → (drop (buf.message_size + 12) (sent t.host t.heap buf1) ≡ bs ++ [])
      × (length (sent t.host t.heap buf1) ≡ buf.message_size + 12 + length bs)
sent-Grows t buf buf1 rest bs s (rest1, s1, grown) =
    let front = header_bytes t.host buf1 ++ gather (area t.heap buf) rest in
    let whole : sent t.host t.heap buf1 ≡ front ++ bs =
      sent-IsSound t.host t.heap buf1 rest1 s1
      ∙ ap (λ g. header_bytes t.host buf1 ++ g) grown
      ∙ sym (append_assoc (header_bytes t.host buf1) (gather (area t.heap buf) rest) bs) in
    let at : length front ≡ buf.message_size + 12 = omega (
      arith,
      length-append (header_bytes t.host buf1) (gather (area t.heap buf) rest),
      length-header_bytes t.host buf1,
      s.size,
    ) in
    (
      ap (λ m. drop (buf.message_size + 12) m) whole
          ∙ ap (λ n. drop n (front ++ bs)) (sym at)
          ∙ drop-append front bs
          ∙ sym (append-nil bs),
      ap length whole ∙ omega (arith, length-append front bs, at),
    )

-- The byte order of the flags is that of the sender.
read_as :
    (gap : ℕ → ℕ) (w : Wire) (e : Endian) (tc : TypeCode) (v : Value) (c : ℕ)
    → sender w.flags ≡ e
    → HasType tc v
    → drop c w.mem ≡ encode e gap tc v c ++ []
    → (c + length (encode e gap tc v c) ≤ w.end) × (w.end ≤ length w.mem)
    → demarshal_value tc w c ≡ done (v, c + length (encode e gap tc v c))
read_as gap w e tc v c order h at (fits, room) =
    subst
      (λ e'.
        drop c w.mem ≡ encode e' gap tc v c ++ []
        → c + length (encode e' gap tc v c) ≤ w.end
        → demarshal_value tc w c ≡ done (v, c + length (encode e' gap tc v c)))
      order (λ a f. demarshal_value-encode gap w tc v c [] room h a f) at fits

-- A value that is put behind whatever a sound message holds, where the message stays 28 bytes
-- below 2 ^ 32, is what a machine of either byte order, told the byte order of the sender, takes
-- out at that place of the message that is sent, and it reads up to the end.
pub demarshal_value-marshal_value :
    (t : Setting) (host : Endian) (flags : ℕ) (tc : TypeCode) (v : Value) (buf : SendBuffer)
    (rest : List Iovec)
    → sender flags ≡ t.host
    → HasType tc v
    → IsSound t.heap buf rest
    → (let bs = encode t.host t.gap tc v (buf.message_size + 12) in
        buf.message_size + length bs + 28 < u32)
    → (let w = arrived t host flags (marshal_value t tc v buf) in
        demarshal_value tc w (buf.message_size + 12) ≡ done (v, w.end))
demarshal_value-marshal_value t host flags tc v buf rest order h s fits =
    let buf1 = marshal_value t tc v buf in
    let bs = encode t.host t.gap tc v (buf.message_size + 12) in
    let (here, end) =
      sent-Grows t buf buf1 rest bs s (marshal_value-Grows t tc v buf rest h s fits) in
    read_as t.gap (arrived t host flags buf1) t.host tc v (buf.message_size + 12) order h here
      (omega (arith, end))
    ∙ ap (λ (n : ℕ). done (v, n)) (sym end)
