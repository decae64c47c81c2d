-- ===== src/Giop/SendBuffer/Memory.antt =====
-- src/orb/GIOP/giop-send-buffer.c: the areas that a message is made of, and how a piece is appended.
use orbit.Base.{
  ℕ, zero, suc, ◌+◌, ◌-◌, ◌*◌, ◌/◌, ◌%◌, ◌^◌, Bool, true, false, Option, none, some, List, [], ◌∷◌,
  ◌++◌, ◌&&◌, not, ltb, leb, ◌==◌, if◌then◌else◌, length, slice,
}
use orbit.Giop.Wire.{Endian, align_value, bytes32, host_flag}
use orbit.Giop.Message.{GiopVersion, giop_1_0, giop_1_1, giop_1_2}

-- What a pointer can point into: the header inside the buffer, a chunk of the buffer, memory of the
-- caller, or a value that is passed by its address for the time of the call.
pub data Place : Type 0 where
  header : Place
  chunk user : ℕ → Place
  constant : List ℕ → Place

pub record Ptr : Type 0 where
  pub place : Place
  pub offset : ℕ

-- `struct iovec`
pub record Iovec : Type 0 where
  pub base : Ptr
  pub len : ℕ

-- `struct _GIOPSendBuffer`. `chunk_bytes i` is what stands in chunk `i` from its start to the place
-- where the next byte goes, so `indirect` points behind it in the chunk in use, the last one.
pub record SendBuffer : Type 0 where
  pub giop_version : GiopVersion
  pub message_type : ℕ
  pub message_size : ℕ
  pub header_size : ℕ
  pub iovecs : List Iovec
  pub num_alloced : ℕ
  pub lastptr : Option Ptr
  pub chunk_size : ℕ → ℕ
  pub chunk_bytes : ℕ → List ℕ
  pub num_indirects_alloced : ℕ
  pub num_indirects_used : ℕ
  pub indirect_left : ℕ

-- `CORBA_unsigned_long` has 32 bits.
abbrev pub u32 : ℕ
u32 = 2 ^ 32

-- `GIOP_CHUNK_SIZE`
abbrev pub giop_chunk_size : ℕ
giop_chunk_size = 2048

module _ {ℓ} {A : Type ℓ} where
  abbrev pub update : (ℕ → A) → ℕ → A → ℕ → A
  update f i v j = if j == i then v else f j

-- Pointers are equal if they point to one place of one area. (Two areas may lie side by side in
-- memory; joining their entries would send the same bytes.)
abbrev pub same_place : Place → Place → Bool
same_place header header = true
same_place (chunk i) (chunk j) = i == j
same_place (user i) (user j) = i == j
same_place _ _ = false

abbrev pub at_lastptr : Option Ptr → Ptr → Bool
at_lastptr none p = false
at_lastptr (some q) p = same_place q.place p.place && q.offset == p.offset

-- `buf->iovecs[num_used-1].iov_len += len`
abbrev pub extend_last : List Iovec → ℕ → List Iovec
extend_last [] len = []
extend_last (v ∷ []) len = record v { len = v.len + len } ∷ []
extend_last (v ∷ w ∷ vs) len = v ∷ extend_last (w ∷ vs) len

-- `giop_send_buffer_append_real`
unfoldable pub append_real : SendBuffer → Ptr → ℕ → SendBuffer
append_real buf mem len =
    let joined = at_lastptr buf.lastptr mem && ltb 0 (length buf.iovecs) in
    let full = leb buf.num_alloced (length buf.iovecs) in
    record buf {
      iovecs =
          if joined
          then extend_last buf.iovecs len
          else buf.iovecs ++ record { base = mem; len = len } ∷ [];
      num_alloced =
          if not joined && full
          then (if ltb buf.num_alloced 4 then 4 else buf.num_alloced) * 2
          else buf.num_alloced;
      message_size = (buf.message_size + len) % u32;
      lastptr = some (record mem { offset = mem.offset + len });
    }

-- The size of a new chunk: the hint rounded up to 8, and a standard chunk at least.
abbrev pub new_chunk_size : ℕ → ℕ
new_chunk_size for_size_hint =
    let rounded = (for_size_hint + 7) / 8 * 8 in
    if for_size_hint == 0
    then giop_chunk_size
    else if ltb rounded giop_chunk_size
    then giop_chunk_size
    else rounded

-- `get_next_indirect`: a new chunk, or the next one that an earlier message has left behind, which
-- is written over from its start.
unfoldable pub get_next_indirect : SendBuffer → ℕ → SendBuffer
get_next_indirect buf for_size_hint =
    let max = buf.num_indirects_used in
    let fresh = leb buf.num_indirects_alloced max in
    let size = if fresh then new_chunk_size for_size_hint else buf.chunk_size max in
    record buf {
      num_indirects_alloced =
          if fresh then buf.num_indirects_alloced + 1 else buf.num_indirects_alloced;
      chunk_size = update buf.chunk_size max size;
      chunk_bytes = update buf.chunk_bytes max [];
      indirect_left = size;
      num_indirects_used = max + 1;
    }

-- `buf->indirect`
abbrev pub indirect : SendBuffer → Ptr
indirect buf = record {
  place = chunk (buf.num_indirects_used - 1);
  offset = length (buf.chunk_bytes (buf.num_indirects_used - 1));
}

-- The bytes are stored at `buf->indirect`, appended to the message from there, and `buf->indirect` and
-- `buf->indirect_left` move on.
unfoldable pub put_indirect : SendBuffer → List ℕ → SendBuffer
put_indirect buf bytes =
    let i = buf.num_indirects_used - 1 in
    record (append_real buf (indirect buf) (length bytes)) {
      chunk_bytes = update buf.chunk_bytes i (buf.chunk_bytes i ++ bytes);
      indirect_left = buf.indirect_left - length bytes;
    }

-- `giop_send_buffer_append_copy`
unfoldable pub append_copy : SendBuffer → List ℕ → SendBuffer
append_copy buf bytes =
    put_indirect
      (if ltb buf.indirect_left (length bytes) then get_next_indirect buf (length bytes) else buf)
      bytes

-- The memory of the callers, which they leave alone until the message is sent.
abbrev pub Heap : Type 0
Heap = ℕ → List ℕ

abbrev pub bytes_at : Heap → Ptr → ℕ → List ℕ
bytes_at heap p len = elim p.place [
  | header ↦ []
  | chunk i ↦ []
  | user n ↦ slice p.offset len (heap n)
  | constant bs ↦ slice p.offset len bs
]

-- `giop_send_buffer_append`
unfoldable pub append : Heap → SendBuffer → Ptr → ℕ → SendBuffer
append heap buf mem len =
    if leb len 32 then append_copy buf (bytes_at heap mem len) else append_real buf mem len

abbrev pub tabulate : ℕ → (ℕ → ℕ) → List ℕ
tabulate zero f = []
tabulate (suc n) f = f n ∷ tabulate n f

-- `giop_send_buffer_align`. The bytes of the gap are cleared only in a build with ORBIT_PURIFY;
-- `gap` gives what they are. It is for boundaries up to the size of a chunk, as all its callers pass:
-- then `indirect_left` never has to go below 0.
unfoldable pub align : (ℕ → ℕ) → SendBuffer → ℕ → SendBuffer
align gap buf boundary =
    let ms = (buf.message_size + buf.header_size) % u32 in
    let align_amt = align_value ms boundary - ms in
    if align_amt == 0
    then buf
    else put_indirect (if ltb buf.indirect_left align_amt then get_next_indirect buf 0 else buf)
        (tabulate align_amt gap)

-- `giop_send_buffer_append_aligned` with a `mem` that is not NULL: what is stored is `bytes`.
unfoldable pub append_aligned : (ℕ → ℕ) → SendBuffer → List ℕ → SendBuffer
append_aligned gap buf0 bytes =
    let buf = align gap buf0 (length bytes) in
    put_indirect (if ltb buf.indirect_left (length bytes) then get_next_indirect buf 0 else buf)
      bytes

-- `giop_version_ids`
abbrev pub version_minor : GiopVersion → ℕ
version_minor giop_1_0 = 0
version_minor giop_1_1 = 1
version_minor giop_1_2 = 2

-- The header as it stands in the buffer when the message is sent.
abbrev pub header_bytes : Endian → SendBuffer → List ℕ
header_bytes host buf =
    b'G'
    ∷ b'I'
    ∷ b'O'
    ∷ b'P'
    ∷ 1
    ∷ version_minor buf.giop_version
    ∷ host_flag host
    ∷ buf.message_type
    ∷ bytes32 host buf.message_size

-- What the areas hold when the message is sent.
abbrev pub contents : Endian → Heap → SendBuffer → Place → List ℕ
contents host heap buf header = header_bytes host buf
contents host heap buf (chunk i) = buf.chunk_bytes i
contents host heap buf (user n) = heap n
contents host heap buf (constant bs) = bs

-- What `writev` sends for a vector.
abbrev pub gather : (Place → List ℕ) → List Iovec → List ℕ
gather mem [] = []
gather mem (v ∷ vs) = slice v.base.offset v.len (mem v.base.place) ++ gather mem vs

abbrev pub sent : Endian → Heap → SendBuffer → List ℕ
sent host heap buf = gather (contents host heap buf) buf.iovecs
