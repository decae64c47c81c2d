-- ===== src/Giop/SendBuffer/Capacity.antt =====
-- src/orb/GIOP/giop-send-buffer.c: what is copied into a chunk stays inside it.
use orbit.Base.{
  ℕ, ◌+◌, ◌-◌, ◌*◌, ◌/◌, ◌^◌, ◌≤◌, ◌<◌, ◌≡◌, refl, ◌⊎◌, inl, inr, List, arith, length,
  length-append, ltb, leb, none, ◌%◌, Bool-cases, if◌then◌else◌, ◌==◌,
}
use orbit.Giop.SendBuffer.Memory.{
  SendBuffer, giop_chunk_size, new_chunk_size, get_next_indirect, put_indirect, append_copy,
  append_real, align, tabulate, u32, Iovec, Heap,
}
use orbit.Giop.Wire.{align_value, align_value_bounds}
use orbit.Giop.Message.{GiopVersion}
use orbit.Giop.SendBuffer.Append.{length-tabulate}
use orbit.Giop.SendBuffer.Payload.{IsSound, Grows}
use orbit.Giop.SendBuffer.Sent.{align-Grows, gap_size}
use orbit.Giop.SendBuffer.Requests.{send_buffer_use}

-- The chunk in use, if there is one, is filled and free to exactly its size, and every chunk that a
-- buffer has allocated has the standard size at least.
pub record HasRoom (buf : SendBuffer) : Type 0 where
  pub large : (i : ℕ) → i < buf.num_indirects_alloced → giop_chunk_size ≤ buf.chunk_size i
  pub allocated : buf.num_indirects_used ≤ buf.num_indirects_alloced
  pub filled :
      ((buf.num_indirects_used ≡ 0) × (buf.indirect_left ≡ 0))
      ⊎ ((0 < buf.num_indirects_used)
          × (length (buf.chunk_bytes (buf.num_indirects_used - 1)) + buf.indirect_left
              ≡ buf.chunk_size (buf.num_indirects_used - 1)))

new_chunk_size_bounds : (hint : ℕ) → giop_chunk_size ≤ new_chunk_size hint
new_chunk_size_bounds hint = ground arith

get_next_indirect-HasRoom :
    (buf : SendBuffer) (hint : ℕ)
    → HasRoom buf
    → HasRoom (get_next_indirect buf hint)
      × (0 < (get_next_indirect buf hint).num_indirects_used)
      × (giop_chunk_size ≤ (get_next_indirect buf hint).indirect_left)
unfolding get_next_indirect
get_next_indirect-HasRoom buf hint r =
    elim (Bool-cases (leb buf.num_indirects_alloced buf.num_indirects_used)) [
      | inl fresh ↦ rw fresh (
        record {
          large = λ i h. elim (Bool-cases (i == buf.num_indirects_used)) [
            | inl here ↦ rw here (new_chunk_size_bounds hint)
            | inr there ↦ rw there (r.large i (ground (arith, r.allocated)))
          ];
          allocated = omega (arith, r.allocated);
          filled = inr (ground arith, ground arith);
        },
        omega arith,
        new_chunk_size_bounds hint,
      )
      | inr reused ↦ rw reused (
        record {
          large = λ i h. elim (Bool-cases (i == buf.num_indirects_used)) [
            | inl here ↦ rw here (r.large buf.num_indirects_used (ground arith))
            | inr there ↦ rw there (r.large i h)
          ];
          allocated = ground arith;
          filled = inr (ground arith, ground arith);
        },
        omega arith,
        r.large buf.num_indirects_used (ground arith),
      )
    ]

put_indirect-HasRoom :
    (buf : SendBuffer) (bytes : List ℕ)
    → HasRoom buf
    → 0 < buf.num_indirects_used
    → length bytes ≤ buf.indirect_left
    → HasRoom (put_indirect buf bytes)
unfolding put_indirect append_real
put_indirect-HasRoom buf bytes r used fits = record {
  large = r.large;
  allocated = r.allocated;
  filled = inr (
    used,
    ground (arith, r.filled, length-append (buf.chunk_bytes (buf.num_indirects_used - 1)) bytes),
  );
}

put_somewhere-HasRoom :
    (buf : SendBuffer) (bytes : List ℕ) (hint : ℕ)
    → HasRoom buf
    → 0 < length bytes
    → length bytes ≤ giop_chunk_size
    → HasRoom (
        put_indirect
          (if ltb buf.indirect_left (length bytes) then get_next_indirect buf hint else buf)
          bytes)
put_somewhere-HasRoom buf bytes hint r some small =
    elim (Bool-cases (ltb buf.indirect_left (length bytes))) [
      | inl full ↦ rw full (
          let (r', used, left) = get_next_indirect-HasRoom buf hint r in
          put_indirect-HasRoom (get_next_indirect buf hint) bytes r' used (omega (arith, left)))
      | inr room ↦
          rw room (put_indirect-HasRoom buf bytes r (ground (arith, r.filled)) (ground arith))
    ]

-- Copying at least one byte and at most the standard size of a chunk, into a buffer whose chunk in
-- use is filled and free to exactly its size and whose other chunks have the standard size at
-- least, leaves the chunks so: nothing is written past the end of a chunk.
pub append_copy-HasRoom :
    (buf : SendBuffer) (bytes : List ℕ)
    → HasRoom buf
    → 0 < length bytes
    → length bytes ≤ giop_chunk_size
    → HasRoom (append_copy buf bytes)
unfolding append_copy
append_copy-HasRoom buf bytes r some small =
    put_somewhere-HasRoom buf bytes (length bytes) r some small

-- Aligning a buffer whose chunk in use is filled and free to exactly its size, and whose other
-- chunks have the standard size at least, to a boundary above 0 and at most that size, leaves the
-- chunks so: the gap is not written past the end of a chunk.
pub align-HasRoom :
    (gap : ℕ → ℕ) (buf : SendBuffer) (boundary : ℕ)
    → HasRoom buf
    → 0 < boundary
    → boundary ≤ giop_chunk_size
    → HasRoom (align gap buf boundary)
unfolding align
align-HasRoom gap buf boundary r pos small =
    let ms = (buf.message_size + buf.header_size) % u32 in
    let n = align_value ms boundary - ms in
    let size = length-tabulate n gap in
    elim (Bool-cases (n == 0)) [
      | inl aligned ↦ rw aligned r
      | inr gapped ↦ rw gapped (
          rw size at (
            put_somewhere-HasRoom buf (tabulate n gap) 0 r (ground (arith, size))
              (omega (arith, size, align_value_bounds ms boundary pos))))
    ]

-- On a sound message whose chunk in use is filled and free to exactly its size, and whose other
-- chunks have the standard size at least, aligning to a boundary that is a power of two and at
-- most that size, where the message stays a boundary below 2 ^ 32, appends fewer bytes than the
-- boundary, after which the message with its header ends at a multiple of the boundary and is
-- sound, and the chunks are again filled and free to exactly their sizes: the gap is not written
-- past the end of a chunk.
pub align-Places :
    (gap : ℕ → ℕ) (heap : Heap) (buf : SendBuffer) (rest : List Iovec) (k boundary : ℕ)
    → boundary ≡ 2 ^ k
    → 0 < boundary
    → boundary ≤ giop_chunk_size
    → IsSound heap buf rest
    → HasRoom buf
    → buf.message_size + 12 + boundary < u32
    → ((bytes : List ℕ) × Grows heap buf rest bytes (align gap buf boundary)
        × (length bytes < boundary))
      × ((q : ℕ) × ((align gap buf boundary).message_size + 12 ≡ q * boundary))
      × HasRoom (align gap buf boundary)
align-Places gap heap buf rest k boundary power pos small s r fits =
    let ms = buf.message_size + 12 in
    let (g, e) = align-Grows gap heap buf rest boundary s pos fits in
    (
      (
        tabulate (gap_size ms boundary) gap,
        g,
        omega
            (arith, length-tabulate (gap_size ms boundary) gap, align_value_bounds ms boundary pos),
      ),
      ((ms + (boundary - 1)) / boundary, e),
      align-HasRoom gap buf boundary r pos small,
    )

pub send_buffer_use-HasRoom : (version : GiopVersion) → HasRoom (send_buffer_use none version)
unfolding send_buffer_use append_real
send_buffer_use-HasRoom version = record {
  large = λ i h. absurd (omega arith);
  allocated = omega arith;
  filled = inl (refl, refl);
}
