-- ===== src/Giop/SendBuffer/Sent.antt =====
-- src/orb/GIOP/giop-send-buffer.c: alignment, and the bytes of whole messages.
use orbit.Base.{
  ℕ, ◌+◌, ◌-◌, ◌%◌, ◌<◌, ◌≡◌, refl, sym, ap, ap₂, ◌∙◌, Option, none, some, List, [], ◌∷◌, ◌++◌,
  arith, append-nil, append_assoc, length, length-append, take-length, slice, ltb, ◌==◌, Bool-cases,
  inl, inr,
}
use orbit.Giop.Wire.{Endian, little, big, align_value, align_value_bounds}
use orbit.Giop.Message.{GiopVersion}
use orbit.Giop.SendBuffer.Memory.{
  Place, header, chunk, user, constant, Iovec, SendBuffer, u32, append_real, Heap, gather, align,
  tabulate, header_bytes, contents, sent,
}
use orbit.Giop.SendBuffer.Vector.{area, AllWritten, IsWritten}
use orbit.Giop.SendBuffer.Payload.{IsSound, Grows}
use orbit.Giop.SendBuffer.Append.{put_somewhere-Grows, in_use, length-tabulate, append-Grows}
use orbit.Giop.SendBuffer.Requests.{send_buffer_use, Setting, started, append_value}

-- The gap that `align` fills, in front of offset `ms` of the message.
abbrev pub gap_size : ℕ → ℕ → ℕ
gap_size ms boundary = align_value ms boundary - ms

-- The size of a grown message is the old one and the bytes.
pub grown_size :
    (heap : Heap) (buf buf' : SendBuffer) (rest : List Iovec) (bytes : List ℕ)
    → IsSound heap buf rest
    → Grows heap buf rest bytes buf'
    → buf'.message_size ≡ buf.message_size + length bytes
grown_size heap buf buf' rest bytes s (rest', s', g) =
    omega (arith, s.size, s'.size, ap length g, length-append (gather (area heap buf) rest) bytes)

align-Grows_by :
    (gap : ℕ → ℕ) (heap : Heap) (buf : SendBuffer) (rest : List Iovec) (boundary : ℕ)
    → IsSound heap buf rest
    → 0 < boundary
    → buf.message_size + 12 + boundary < u32
    → Grows heap buf rest
        (tabulate (gap_size (buf.message_size + 12) boundary) gap)
        (align gap buf boundary)
unfolding align
align-Grows_by gap heap buf rest boundary s pos fits =
    let n : ℕ = gap_size (buf.message_size + 12) boundary in
    let bounds = align_value_bounds (buf.message_size + 12) boundary pos in
    let ms : (buf.message_size + buf.header_size) % u32 ≡ buf.message_size + 12 =
      omega (arith, s.twelve) in
    elim (Bool-cases (n == 0)) [
      | inl aligned ↦
          let zero_gap : tabulate n gap ≡ [] =
            (let n0 : n ≡ 0 = ground arith in ap (λ k. tabulate k gap) n0) in
          rw (ms, aligned)
            (
              rest,
              s,
              sym (
                  ap (λ t. gather (area heap buf) rest ++ t) zero_gap
                  ∙ append-nil (gather (area heap buf) rest)),
            )
      | inr gapped ↦
          rw (ms, gapped)
            (put_somewhere-Grows heap buf rest (tabulate n gap) (ltb buf.indirect_left n) 0 s
              (in_use heap buf rest n s (ground arith))
              (omega (arith, length-tabulate n gap, bounds)))
    ]

-- On a sound message whose size stays below 32 bits, aligning to a boundary above 0 adds the bytes
-- of the gap and nothing else, and what comes next stands at the next multiple of the boundary,
-- counted from the start of the message.
pub align-Grows :
    (gap : ℕ → ℕ) (heap : Heap) (buf : SendBuffer) (rest : List Iovec) (boundary : ℕ)
    → IsSound heap buf rest
    → 0 < boundary
    → buf.message_size + 12 + boundary < u32
    → Grows heap buf rest
        (tabulate (gap_size (buf.message_size + 12) boundary) gap)
        (align gap buf boundary)
      × ((align gap buf boundary).message_size + 12 ≡ align_value (buf.message_size + 12) boundary)
align-Grows gap heap buf rest boundary s pos fits =
    let n : ℕ = gap_size (buf.message_size + 12) boundary in
    let g = align-Grows_by gap heap buf rest boundary s pos fits in
    (
      g,
      omega (
        arith,
        grown_size heap buf (align gap buf boundary) rest (tabulate n gap) s g,
        length-tabulate n gap,
        align_value_bounds (buf.message_size + 12) boundary pos,
      ),
    )

gather-contents :
    (host : Endian) (heap : Heap) (buf : SendBuffer) (rest : List Iovec)
    → AllWritten heap buf rest
    → gather (contents host heap buf) rest ≡ gather (area heap buf) rest
gather-contents host heap buf [] h = refl
gather-contents host heap buf (v ∷ vs) h =
    ap₂ (λ a b. slice v.base.offset v.len a ++ b)
      (at_place v.base.place (v.base.offset + v.len) h.0) (gather-contents host heap buf vs h.1)
  where
    at_place :
        (p : Place) (n : ℕ) → IsWritten heap buf p n → contents host heap buf p ≡ area heap buf p
    at_place header n e = elim e [ ]
    at_place (chunk i) n e = refl
    at_place (user i) n e = refl
    at_place (constant bs) n e = refl

header_whole :
    (host : Endian) (buf : SendBuffer) → slice 0 12 (header_bytes host buf) ≡ header_bytes host buf
header_whole little buf = refl
header_whole big buf = refl

-- A sound message is sent as its header, with the size of what follows it, and what was appended.
pub sent-IsSound :
    (host : Endian) (heap : Heap) (buf : SendBuffer) (rest : List Iovec)
    → IsSound heap buf rest
    → sent host heap buf ≡ header_bytes host buf ++ gather (area heap buf) rest
sent-IsSound host heap buf rest s =
    ap (gather (contents host heap buf)) s.vector
    ∙ ap₂ (λ a b. a ++ b) (header_whole host buf) (gather-contents host heap buf rest s.written)

-- A buffer begins a message sound and empty, whether it is new or has carried a message before.
pub send_buffer_use-IsSound :
    (heap : Heap) (recycled : Option SendBuffer) (version : GiopVersion)
    → IsSound heap (send_buffer_use recycled version) []
unfolding send_buffer_use append_real
send_buffer_use-IsSound heap none version = record {
  vector = refl;
  written = tt;
  last = refl;
  size = refl;
  twelve = refl;
  room = λ h. omega arith;
}
send_buffer_use-IsSound heap (some old) version = record {
  vector = ground arith;
  written = tt;
  last = refl;
  size = refl;
  twelve = refl;
  room = λ h. omega arith;
}

pub started-IsSound :
    (t : Setting) (recycled : Option SendBuffer) (version : GiopVersion) (type : ℕ)
    → IsSound t.heap (started t recycled version type) []
started-IsSound t recycled version type =
    let s = send_buffer_use-IsSound t.heap recycled version in
    record {
      vector = s.vector;
      written = s.written;
      last = s.last;
      size = s.size;
      twelve = s.twelve;
      room = s.room;
    }

pub Grows-trans :
    (heap : Heap) (buf buf1 buf2 : SendBuffer) (rest rest1 : List Iovec) (xs ys : List ℕ)
    → gather (area heap buf1) rest1 ≡ gather (area heap buf) rest ++ xs
    → Grows heap buf1 rest1 ys buf2
    → Grows heap buf rest (xs ++ ys) buf2
Grows-trans heap buf buf1 buf2 rest rest1 xs ys g1 (rest2, s2, g2) =
    (rest2, s2, g2 ∙ ap (λ z. z ++ ys) g1 ∙ append_assoc (gather (area heap buf) rest) xs ys)

-- A value that is passed by its address.
pub append_value-Grows :
    (t : Setting) (buf : SendBuffer) (rest : List Iovec) (bs : List ℕ)
    → IsSound t.heap buf rest
    → 0 < length bs
    → buf.message_size + length bs < u32
    → Grows t.heap buf rest bs (append_value t buf bs)
append_value-Grows t buf rest bs s pos fits =
    let (rest', s', g) =
      append-Grows t.heap buf rest (record { place = constant bs; offset = 0 }) (length bs) s
        (omega arith) (omega arith) fits in
    (rest', s', g ∙ ap (λ z. gather (area t.heap buf) rest ++ z) (take-length (length bs) bs refl))
