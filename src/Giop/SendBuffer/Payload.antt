-- ===== src/Giop/SendBuffer/Payload.antt =====
-- src/orb/GIOP/giop-send-buffer.c: appending adds exactly the bytes that were asked for to what will be
-- sent, wherever they are kept, and leaves what was appended before as it was.
use orbit.Base.{
  ℕ, ◌+◌, ◌≤◌, ◌<◌, ◌≡◌, sym, ap, subst, ◌∙◌, true, false, Option, none, some, List, [], ◌∷◌, ◌++◌,
  arith, append-nil, length, length-append, length-take, length-drop, drop, slice, Bool-cases, inl,
  inr,
}
use orbit.Giop.SendBuffer.Memory.{
  Place, header, chunk, user, constant, Ptr, Iovec, SendBuffer, u32, append_real, Heap, gather,
  extend_last, at_lastptr,
}
use orbit.Giop.SendBuffer.Vector.{
  area, IsWritten, AllWritten, end_of, gather-append, gather-extend_last, end_of-extend_last,
  end_of-append, AllWritten-extend_last, AllWritten-append, same_place→eq,
}

-- The first entry of every message.
abbrev pub header_iov : Iovec
header_iov = record { base = record { place = header; offset = 0 }; len = 12 }

-- A buffer whose vector is the header and `rest`.
pub record IsSound (heap : Heap) (buf : SendBuffer) (rest : List Iovec) : Type 0 where
  pub vector : buf.iovecs ≡ header_iov ∷ rest
  pub written : AllWritten heap buf rest
  pub last : buf.lastptr ≡ some (end_of header_iov rest)
  pub size : buf.message_size ≡ length (gather (area heap buf) rest)
  pub twelve : buf.header_size ≡ 12
  pub room : 0 < buf.indirect_left → 0 < buf.num_indirects_used

at_lastptr→eq : (o : Option Ptr) (q p : Ptr) → o ≡ some q → at_lastptr o p ≡ true → q ≡ p
at_lastptr→eq none q p e h = cc
at_lastptr→eq (some r) q p e h = ground (arith, same_place→eq r.place p.place)

-- What a step made of a buffer: it is sound again, and `bytes` stand behind what it held before.
abbrev pub Grows : Heap → SendBuffer → List Iovec → List ℕ → SendBuffer → Type 0
Grows heap buf rest bytes buf' =
    (rest' : List Iovec) × IsSound heap buf' rest'
    × (gather (area heap buf') rest' ≡ gather (area heap buf) rest ++ bytes)

pub length-slice :
    (off len : ℕ) (xs : List ℕ) → off + len ≤ length xs → length (slice off len xs) ≡ len
length-slice off len xs h = omega (arith, length-take len (drop off xs), length-drop off xs)

length-slice-IsWritten :
    (heap : Heap) (buf : SendBuffer) (p : Place) (off len : ℕ)
    → IsWritten heap buf p (off + len)
    → length (slice off len (area heap buf p)) ≡ len
length-slice-IsWritten heap buf header off len h = elim h [ ]
length-slice-IsWritten heap buf (chunk i) off len h = length-slice off len (buf.chunk_bytes i) h.1
length-slice-IsWritten heap buf (user i) off len h = length-slice off len (heap i) h
length-slice-IsWritten heap buf (constant bs) off len h = length-slice off len bs h

gather-entry :
    (heap : Heap) (buf : SendBuffer) (rest : List Iovec) (mem : Ptr) (len : ℕ)
    → gather (area heap buf) (rest ++ record { base = mem; len = len } ∷ [])
      ≡ gather (area heap buf) rest ++ slice mem.offset len (area heap buf mem.place)
gather-entry heap buf rest mem len =
    gather-append (area heap buf) rest (record { base = mem; len = len } ∷ [])
    ∙ ap (λ t. gather (area heap buf) rest ++ t)
        (append-nil (slice mem.offset len (area heap buf mem.place)))

-- The two ways to put an entry at the end of the vector: both add the bytes of the entry.
append_real-apart :
    (heap : Heap) (buf : SendBuffer) (rest : List Iovec) (mem : Ptr) (len : ℕ)
    → IsSound heap buf rest
    → IsWritten heap buf mem.place (mem.offset + len)
    → buf.message_size + len < u32
    → at_lastptr buf.lastptr mem ≡ false
    → Grows heap buf rest (slice mem.offset len (area heap buf mem.place)) (append_real buf mem len)
unfolding append_real
append_real-apart heap buf rest mem len s w fits apart =
    let entry : Iovec = record { base = mem; len = len } in
    (
      rest ++ entry ∷ [],
      record {
        vector = ground (arith, s.vector);
        written = AllWritten-append heap buf rest entry s.written w;
        last = ap some (sym (end_of-append header_iov rest entry));
        size = omega (
          arith,
          s.size,
          ap length (gather-entry heap buf rest mem len),
          length-append (gather (area heap buf) rest)
              (slice mem.offset len (area heap buf mem.place)),
          length-slice-IsWritten heap buf mem.place mem.offset len w,
        );
        twelve = s.twelve;
        room = s.room;
      },
      gather-entry heap buf rest mem len,
    )

append_real-joined :
    (heap : Heap) (buf : SendBuffer) (rest : List Iovec) (mem : Ptr) (len : ℕ)
    → IsSound heap buf rest
    → IsWritten heap buf mem.place (mem.offset + len)
    → buf.message_size + len < u32
    → at_lastptr buf.lastptr mem ≡ true
    → Grows heap buf rest (slice mem.offset len (area heap buf mem.place)) (append_real buf mem len)
unfolding append_real
append_real-joined heap buf [] mem len s w fits joined = absurd (
    subst (λ p. IsWritten heap buf p.place (p.offset + len))
      (sym (at_lastptr→eq buf.lastptr (end_of header_iov []) mem s.last joined)) w)
append_real-joined heap buf (v ∷ vs) mem len s w fits joined =
    let e : end_of v vs ≡ mem = at_lastptr→eq buf.lastptr (end_of v vs) mem s.last joined in
    let grown : gather (area heap buf) (extend_last (v ∷ vs) len)
        ≡ gather (area heap buf) (v ∷ vs) ++ slice mem.offset len (area heap buf mem.place) =
      gather-extend_last (area heap buf) v vs len
      ∙ ap (λ p. gather (area heap buf) (v ∷ vs) ++ slice p.offset len (area heap buf p.place)) e in
    (
      extend_last (v ∷ vs) len,
      record {
        vector = ground (arith, s.vector);
        written =
            AllWritten-extend_last heap buf v vs len s.written
              (subst (λ p. IsWritten heap buf p.place (p.offset + len)) (sym e) w);
        last = ap some (
            sym (
              end_of-extend_last header_iov v vs len
              ∙ ap {A = Ptr} {B = Ptr} (λ p. record p { offset = p.offset + len }) e));
        size = omega (
          arith,
          s.size,
          ap length grown,
          length-append (gather (area heap buf) (v ∷ vs))
              (slice mem.offset len (area heap buf mem.place)),
          length-slice-IsWritten heap buf mem.place mem.offset len w,
        );
        twelve = s.twelve;
        room = s.room;
      },
      grown,
    )

pub append_real-Grows :
    (heap : Heap) (buf : SendBuffer) (rest : List Iovec) (mem : Ptr) (len : ℕ)
    → IsSound heap buf rest
    → IsWritten heap buf mem.place (mem.offset + len)
    → buf.message_size + len < u32
    → Grows heap buf rest (slice mem.offset len (area heap buf mem.place)) (append_real buf mem len)
append_real-Grows heap buf rest mem len s w fits = elim (Bool-cases (at_lastptr buf.lastptr mem)) [
  | inl joined ↦ append_real-joined heap buf rest mem len s w fits joined
  | inr apart ↦ append_real-apart heap buf rest mem len s w fits apart
]
