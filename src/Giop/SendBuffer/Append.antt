-- ===== src/Giop/SendBuffer/Append.antt =====
-- src/orb/GIOP/giop-send-buffer.c: the calls that append to a message, and what they add to it.
use orbit.Base.{
  some, ◌==◌, ℕ, zero, suc, ◌+◌, ◌-◌, ◌≤◌, ◌<◌, ◌≡◌, refl, sym, ap, ap₂, ◌∙◌, Bool, true, false,
  List, [], ◌∷◌, ◌++◌, arith, length, length-append, slice, slice-append_end, ltb, leb, Bool-cases,
  inl, inr, if◌then◌else◌,
}
use orbit.Giop.SendBuffer.Memory.{
  Place, header, chunk, user, constant, Ptr, Iovec, SendBuffer, u32, update, append_real,
  get_next_indirect, indirect, put_indirect, append_copy, Heap, bytes_at, append, gather, tabulate,
}
use orbit.Giop.SendBuffer.Vector.{
  area, IsWritten, AllWritten, AllWrittenIn, IsWrittenIn, area_of, stored, gather-stored,
  AllWritten-stored,
}
use orbit.Giop.SendBuffer.Payload.{IsSound, Grows, append_real-Grows, length-slice}

stored-IsSound :
    (heap : Heap) (buf : SendBuffer) (rest : List Iovec) (bytes : List ℕ)
    → IsSound heap buf rest
    → IsSound heap (stored buf bytes) rest
stored-IsSound heap buf rest bytes s = record {
  vector = s.vector;
  written = AllWritten-stored heap buf bytes rest s.written;
  last = s.last;
  size = s.size ∙ ap length (sym (gather-stored heap buf bytes rest s.written));
  twelve = s.twelve;
  room = s.room;
}

put_indirect-Grows :
    (heap : Heap) (buf : SendBuffer) (rest : List Iovec) (bytes : List ℕ)
    → IsSound heap buf rest
    → 0 < buf.num_indirects_used
    → buf.message_size + length bytes < u32
    → Grows heap buf rest bytes (put_indirect buf bytes)
unfolding put_indirect append_real
put_indirect-Grows heap buf rest bytes s used fits =
    let i : ℕ = buf.num_indirects_used - 1 in
    let old : List ℕ = buf.chunk_bytes i in
    let (rest', s', grown) =
      append_real-Grows heap (stored buf bytes) rest (indirect buf) (length bytes)
        (stored-IsSound heap buf rest bytes s) (ground (arith, length-append old bytes)) fits in
    (
      rest',
      record {
        vector = s'.vector;
        written = s'.written;
        last = s'.last;
        size = s'.size;
        twelve = s'.twelve;
        room = λ h. used;
      },
      grown
          ∙ ap₂ (λ a b. a ++ b) (gather-stored heap buf bytes rest s.written)
              (ground (arith, slice-append_end old bytes (length old) (length bytes) refl refl)),
    )

next_at :
    (heap : Heap) (buf : SendBuffer) (p : Place) (off len : ℕ)
    → IsWritten heap buf p (off + len)
    → IsWrittenIn heap
        (buf.num_indirects_used + 1)
        (update buf.chunk_bytes buf.num_indirects_used [])
        p
        (off + len)
      × (slice off len (area_of heap (update buf.chunk_bytes buf.num_indirects_used []) p)
          ≡ slice off len (area heap buf p))
next_at heap buf header off len h = elim h [ ]
next_at heap buf (chunk i) off len h = ground arith
next_at heap buf (user i) off len h = (h, refl)
next_at heap buf (constant bs) off len h = (h, refl)

next_written :
    (heap : Heap) (buf : SendBuffer) (vs : List Iovec)
    → AllWritten heap buf vs
    → AllWrittenIn heap
        (buf.num_indirects_used + 1)
        (update buf.chunk_bytes buf.num_indirects_used [])
        vs
      × (gather (area_of heap (update buf.chunk_bytes buf.num_indirects_used [])) vs
          ≡ gather (area heap buf) vs)
next_written heap buf [] h = (tt, refl)
next_written heap buf (v ∷ vs) h =
    let (w, g) = next_at heap buf v.base.place v.base.offset v.len h.0 in
    let (ws, gs) = next_written heap buf vs h.1 in ((w, ws), ap₂ (λ a b. a ++ b) g gs)

get_next_indirect-Grows :
    (heap : Heap) (buf : SendBuffer) (rest : List Iovec) (hint : ℕ)
    → IsSound heap buf rest
    → IsSound heap (get_next_indirect buf hint) rest
      × (gather (area heap (get_next_indirect buf hint)) rest ≡ gather (area heap buf) rest)
      × (0 < (get_next_indirect buf hint).num_indirects_used)
unfolding get_next_indirect
get_next_indirect-Grows heap buf rest hint s =
    let (w, g) = next_written heap buf rest s.written in
    (
      record {
        vector = s.vector;
        written = w;
        last = s.last;
        size = s.size ∙ ap length (sym g);
        twelve = s.twelve;
        room = λ h. omega arith;
      },
      g,
      omega arith,
    )

-- The piece is copied to `indirect`, in the chunk in use or, if that has no room, in the next one.
pub put_somewhere-Grows :
    (heap : Heap) (buf : SendBuffer) (rest : List Iovec) (bytes : List ℕ) (needs : Bool) (hint : ℕ)
    → IsSound heap buf rest
    → (needs ≡ false → 0 < buf.num_indirects_used)
    → buf.message_size + length bytes < u32
    → Grows heap buf rest bytes
        (put_indirect (if needs then get_next_indirect buf hint else buf) bytes)
put_somewhere-Grows heap buf rest bytes false hint s used fits =
    put_indirect-Grows heap buf rest bytes s (used refl) fits
put_somewhere-Grows heap buf rest bytes true hint s used fits =
    let (s', g, pos) = get_next_indirect-Grows heap buf rest hint s in
    let (rest', s2, grown) =
      put_indirect-Grows heap (get_next_indirect buf hint) rest bytes s' pos
        (unfold get_next_indirect in fits) in
    (rest', s2, grown ∙ ap (λ t. t ++ bytes) g)

pub in_use :
    (heap : Heap) (buf : SendBuffer) (rest : List Iovec) (n : ℕ)
    → IsSound heap buf rest
    → 0 < n + buf.num_indirects_used
    → ltb buf.indirect_left n ≡ false
    → 0 < buf.num_indirects_used
in_use heap buf rest n s some_use e = ground (arith, s.room)

pub append_copy-Grows :
    (heap : Heap) (buf : SendBuffer) (rest : List Iovec) (bytes : List ℕ)
    → IsSound heap buf rest
    → 0 < length bytes + buf.num_indirects_used
    → buf.message_size + length bytes < u32
    → Grows heap buf rest bytes (append_copy buf bytes)
unfolding append_copy
append_copy-Grows heap buf rest bytes s some_use fits =
    put_somewhere-Grows heap buf rest bytes (ltb buf.indirect_left (length bytes)) (length bytes) s
      (in_use heap buf rest (length bytes) s some_use) fits

-- A piece in the memory of the caller, which the call reads or keeps a pointer to.
abbrev pub IsCallers : Heap → Ptr → ℕ → Type 0
IsCallers heap mem len = elim mem.place [
  | header ↦ ⊥
  | chunk i ↦ ⊥
  | user i ↦ mem.offset + len ≤ length (heap i)
  | constant bs ↦ mem.offset + len ≤ length bs
]

callers-IsWritten :
    (heap : Heap) (buf : SendBuffer) (p : Place) (off len : ℕ)
    → IsCallers heap (record { place = p; offset = off }) len
    → IsWritten heap buf p (off + len)
      × (slice off len (area heap buf p) ≡ bytes_at heap (record { place = p; offset = off }) len)
      × (length (bytes_at heap (record { place = p; offset = off }) len) ≡ len)
callers-IsWritten heap buf header off len h = elim h [ ]
callers-IsWritten heap buf (chunk i) off len h = elim h [ ]
callers-IsWritten heap buf (user i) off len h = (h, refl, length-slice off len (heap i) h)
callers-IsWritten heap buf (constant bs) off len h = (h, refl, length-slice off len bs h)

-- The message now ends in the buffer's own memory, with a copy of the bytes.
abbrev pub IsCopied : SendBuffer → List ℕ → Type 0
IsCopied buf bytes =
    (i : ℕ) × (old : List ℕ) × (buf.lastptr
      ≡ some (record { place = chunk i; offset = length old + length bytes }))
    × (buf.chunk_bytes i ≡ old ++ bytes)

put_indirect-IsCopied :
    (buf : SendBuffer) (bytes : List ℕ) → IsCopied (put_indirect buf bytes) bytes
unfolding put_indirect append_real
put_indirect-IsCopied buf bytes =
    let i = buf.num_indirects_used - 1 in
    let here : (i == i) ≡ true = ground arith in
    (
      i,
      buf.chunk_bytes i,
      refl,
      ap (λ b. if b then buf.chunk_bytes i ++ bytes else buf.chunk_bytes i) here,
    )

-- A sound message grows by the bytes at `mem`.
pub append-Grows :
    (heap : Heap) (buf : SendBuffer) (rest : List Iovec) (mem : Ptr) (len : ℕ)
    → IsSound heap buf rest
    → IsCallers heap mem len
    → 0 < len + buf.num_indirects_used
    → buf.message_size + len < u32
    → Grows heap buf rest (bytes_at heap mem len) (append heap buf mem len)
unfolding append
append-Grows heap buf rest mem len s own some_use fits = elim (Bool-cases (leb len 32)) [
  | inl small ↦ rw small (
      append_copy-Grows heap buf rest (bytes_at heap mem len) s
        (omega (arith, (callers-IsWritten heap buf mem.place mem.offset len own).2))
        (omega (arith, (callers-IsWritten heap buf mem.place mem.offset len own).2)))
  | inr large ↦ rw large (
      let (w, same, _) = callers-IsWritten heap buf mem.place mem.offset len own in
      rw (same) at (append_real-Grows heap buf rest mem len s w fits))
]

-- On a sound message, appending adds the bytes at `mem` behind what the message already holds, and
-- leaves the message sound, where the bytes are the caller's, the size still fits 32 bits, and it
-- is not a first append of no bytes. If there are at most 32 bytes, one of the buffer's own chunks
-- ends with a copy of them, and there the message ends; if there are more, the message ends behind
-- them in the caller's own memory, and nothing is written to the chunks.
pub append_lem :
    (heap : Heap) (buf : SendBuffer) (rest : List Iovec) (mem : Ptr) (len : ℕ)
    → IsSound heap buf rest
    → IsCallers heap mem len
    → 0 < len + buf.num_indirects_used
    → buf.message_size + len < u32
    → Grows heap buf rest (bytes_at heap mem len) (append heap buf mem len)
      × (len ≤ 32 → IsCopied (append heap buf mem len) (bytes_at heap mem len))
      × (32 < len
          → ((append heap buf mem len).lastptr ≡ some (record mem { offset = mem.offset + len }))
            × ((append heap buf mem len).chunk_bytes ≡ buf.chunk_bytes))
unfolding append append_copy append_real
append_lem heap buf rest mem len s own some_use fits = (
  append-Grows heap buf rest mem len s own some_use fits,
  λ small.
      (let e : leb len 32 ≡ true = ground arith in
        rw (append, e) (put_indirect-IsCopied _ (bytes_at heap mem len))),
  λ large.
      (let e : leb len 32 ≡ false = ground arith in (rw (append, e) refl, rw (append, e) refl)),
)

pub length-tabulate : (n : ℕ) (f : ℕ → ℕ) → length (tabulate n f) ≡ n
length-tabulate zero f = refl
length-tabulate (suc n) f = ap suc (length-tabulate n f)
