-- ===== src/Giop/SendBuffer/Vector.antt =====
-- src/orb/GIOP/giop-send-buffer.c: the vector of memory areas, and what storing more bytes leaves alone.
use orbit.Base.{
  ℕ, ◌+◌, ◌-◌, ◌≤◌, ◌<◌, ◌≡◌, refl, sym, ap, ap₂, subst, ◌∙◌, true, List, [], ◌∷◌, ◌++◌, arith,
  append-nil, append_assoc, length, length-append, slice, slice-append_le, slice-add,
}
use orbit.Giop.SendBuffer.Memory.{
  Place, header, chunk, user, constant, Ptr, Iovec, SendBuffer, update, Heap, gather, extend_last,
  same_place,
}

-- The areas of a message that do not change under later calls: all but the header.
abbrev pub area_of : Heap → (ℕ → List ℕ) → Place → List ℕ
area_of heap chunks header = []
area_of heap chunks (chunk i) = chunks i
area_of heap chunks (user n) = heap n
area_of heap chunks (constant bs) = bs

abbrev pub area : Heap → SendBuffer → Place → List ℕ
area heap buf = area_of heap buf.chunk_bytes

-- An entry of the vector lies in memory that has been written, and in a chunk that is in use.
abbrev pub IsWrittenIn : Heap → ℕ → (ℕ → List ℕ) → Place → ℕ → Type 0
IsWrittenIn heap used chunks header n = ⊥
IsWrittenIn heap used chunks (chunk i) n = (i < used) × (n ≤ length (chunks i))
IsWrittenIn heap used chunks (user i) n = n ≤ length (heap i)
IsWrittenIn heap used chunks (constant bs) n = n ≤ length bs

abbrev pub IsWritten : Heap → SendBuffer → Place → ℕ → Type 0
IsWritten heap buf = IsWrittenIn heap buf.num_indirects_used buf.chunk_bytes

abbrev pub AllWrittenIn : Heap → ℕ → (ℕ → List ℕ) → List Iovec → Type 0
AllWrittenIn heap used chunks [] = Unit
AllWrittenIn heap used chunks (v ∷ vs) =
    IsWrittenIn heap used chunks v.base.place (v.base.offset + v.len)
    × AllWrittenIn heap used chunks vs

abbrev pub AllWritten : Heap → SendBuffer → List Iovec → Type 0
AllWritten heap buf = AllWrittenIn heap buf.num_indirects_used buf.chunk_bytes

-- Storing bytes behind those in the chunk in use.
abbrev pub stored : SendBuffer → List ℕ → SendBuffer
stored buf bytes = record buf {
  chunk_bytes =
      update buf.chunk_bytes (buf.num_indirects_used - 1)
        (buf.chunk_bytes (buf.num_indirects_used - 1) ++ bytes);
}

area-stored :
    (heap : Heap) (buf : SendBuffer) (bytes : List ℕ) (p : Place) (off len : ℕ)
    → IsWritten heap buf p (off + len)
    → slice off len (area heap (stored buf bytes) p) ≡ slice off len (area heap buf p)
area-stored heap buf bytes header off len h = elim h [ ]
area-stored heap buf bytes (chunk i) off len h =
    ground (arith, slice-append_le off len (buf.chunk_bytes i) bytes)
area-stored heap buf bytes (user n) off len h = refl
area-stored heap buf bytes (constant bs) off len h = refl

pub gather-stored :
    (heap : Heap) (buf : SendBuffer) (bytes : List ℕ) (vs : List Iovec)
    → AllWritten heap buf vs
    → gather (area heap (stored buf bytes)) vs ≡ gather (area heap buf) vs
gather-stored heap buf bytes [] h = refl
gather-stored heap buf bytes (v ∷ vs) h =
    ap₂ (λ a b. a ++ b) (area-stored heap buf bytes v.base.place v.base.offset v.len h.0)
      (gather-stored heap buf bytes vs h.1)

-- Where the last entry of a vector ends.
abbrev pub end_of : Iovec → List Iovec → Ptr
end_of v [] = record { place = v.base.place; offset = v.base.offset + v.len }
end_of v (w ∷ vs) = end_of w vs

pub gather-append :
    (mem : Place → List ℕ) (vs ws : List Iovec)
    → gather mem (vs ++ ws) ≡ gather mem vs ++ gather mem ws
gather-append mem [] ws = refl
gather-append mem (v ∷ vs) ws =
    rw (gather-append mem vs ws) (sym (append_assoc _ (gather mem vs) (gather mem ws)))

pub gather-extend_last :
    (mem : Place → List ℕ) (v : Iovec) (vs : List Iovec) (len : ℕ)
    → gather mem (extend_last (v ∷ vs) len)
      ≡ gather mem (v ∷ vs) ++ slice (end_of v vs).offset len (mem (end_of v vs).place)
gather-extend_last mem v [] len =
    ap (λ t. t ++ []) (slice-add v.base.offset v.len len (mem v.base.place)) ∙ simp (append-nil)
gather-extend_last mem v (w ∷ vs) len =
    rw (gather-extend_last mem w vs len) (sym (append_assoc _ (gather mem (w ∷ vs)) _))

pub end_of-extend_last :
    (h v : Iovec) (vs : List Iovec) (len : ℕ)
    → end_of h (extend_last (v ∷ vs) len)
      ≡ record (end_of v vs) { offset = (end_of v vs).offset + len }
end_of-extend_last h v [] len = ground arith
end_of-extend_last h v (w ∷ vs) len = end_of-extend_last v w vs len

pub end_of-append :
    (h : Iovec) (vs : List Iovec) (v : Iovec)
    → end_of h (vs ++ v ∷ []) ≡ record (v.base) { offset = v.base.offset + v.len }
end_of-append h [] v = refl
end_of-append h (w ∷ vs) v = end_of-append w vs v

pub AllWritten-extend_last :
    (heap : Heap) (buf : SendBuffer) (v : Iovec) (vs : List Iovec) (len : ℕ)
    → AllWritten heap buf (v ∷ vs)
    → IsWritten heap buf (end_of v vs).place ((end_of v vs).offset + len)
    → AllWritten heap buf (extend_last (v ∷ vs) len)
AllWritten-extend_last heap buf v [] len h e =
    (subst (IsWritten heap buf v.base.place) (omega arith) e, tt)
AllWritten-extend_last heap buf v (w ∷ vs) len h e =
    (h.0, AllWritten-extend_last heap buf w vs len h.1 e)

pub AllWritten-append :
    (heap : Heap) (buf : SendBuffer) (vs : List Iovec) (v : Iovec)
    → AllWritten heap buf vs
    → IsWritten heap buf v.base.place (v.base.offset + v.len)
    → AllWritten heap buf (vs ++ v ∷ [])
AllWritten-append heap buf [] v h e = (e, tt)
AllWritten-append heap buf (w ∷ vs) v h e = (h.0, AllWritten-append heap buf vs v h.1 e)

pub AllWritten-stored :
    (heap : Heap) (buf : SendBuffer) (bytes : List ℕ) (vs : List Iovec)
    → AllWritten heap buf vs
    → AllWritten heap (stored buf bytes) vs
AllWritten-stored heap buf bytes [] h = tt
AllWritten-stored heap buf bytes (v ∷ vs) h =
    (at_place v.base.place (v.base.offset + v.len) h.0, AllWritten-stored heap buf bytes vs h.1)
  where
    at_place : (p : Place) (n : ℕ) → IsWritten heap buf p n → IsWritten heap (stored buf bytes) p n
    at_place header n e = e
    at_place (chunk i) n e = ground (arith, length-append (buf.chunk_bytes i) bytes)
    at_place (user i) n e = e
    at_place (constant bs) n e = e

pub same_place→eq : (p q : Place) → same_place p q ≡ true → p ≡ q
same_place→eq header header e = refl
same_place→eq (chunk i) (chunk j) e = ap chunk (ground arith)
same_place→eq (user i) (user j) e = ap user (ground arith)
same_place→eq header _ e = cc
same_place→eq (chunk i) _ e = cc
same_place→eq (user i) _ e = cc
same_place→eq (constant bs) _ e = cc
