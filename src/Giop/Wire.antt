-- ===== src/Giop/Wire.antt =====
-- include/orbit/util/orbit-util.h and include/orbit/GIOP/giop-types.h: alignment, byte order, and
-- the machine words that the buffers read and write. A byte is a number below 256.
pub mod Masking
use orbit.Base.{
  ℕ, zero, suc, ◌+◌, ◌-◌, ◌*◌, ◌/◌, ◌%◌, ◌≤◌, ◌<◌, ◌≡◌, Bool, not, List, [], ◌∷◌, arith, ◌==◌,
  if◌then◌else◌,
}

-- `G_BYTE_ORDER` of the machine that the program was built for.
pub data Endian : Type 0 where
  little big : Endian

-- `GIOP_FLAG_ENDIANNESS`
abbrev pub host_flag : Endian → ℕ
host_flag little = 1
host_flag big = 0

-- `giop_endian_conversion_needed`: `GIOP_FLAG_LITTLE_ENDIAN` is bit 0 of the flags.
abbrev pub conversion_needed : Endian → ℕ → Bool
conversion_needed host flags = not ((flags % 2) == host_flag host)

-- `ALIGN_VALUE`, for a boundary that is a power of two, as it is wherever the program calls it: there
-- masking off the low bits rounds down to a multiple (Masking has the macro bit by bit).
abbrev pub align_value : ℕ → ℕ → ℕ
align_value this boundary = (this + (boundary - 1)) / boundary * boundary

abbrev pub byte_at : List ℕ → ℕ → ℕ
byte_at [] i = 0
byte_at (b ∷ bs) zero = b
byte_at (b ∷ bs) (suc i) = byte_at bs i

-- The word that four bytes in memory stand for on a machine.
abbrev pub word32 : Endian → ℕ → ℕ → ℕ → ℕ → ℕ
word32 little a b c d = a + b * 256 + c * 65536 + d * 16777216
word32 big a b c d = d + c * 256 + b * 65536 + a * 16777216

abbrev pub word16 : Endian → ℕ → ℕ → ℕ
word16 little a b = a + b * 256
word16 big a b = b + a * 256

-- `GUINT32_SWAP_LE_BE` and `GUINT16_SWAP_LE_BE`
pub swap32 : ℕ → ℕ
swap32 x = x % 256 * 16777216 + x / 256 % 256 * 65536 + x / 65536 % 256 * 256 + x / 16777216 % 256

pub swap16 : ℕ → ℕ
swap16 x = x % 256 * 256 + x / 256 % 256

-- The bytes that a machine stores for a word.
abbrev pub bytes32 : Endian → ℕ → List ℕ
bytes32 little x = x % 256 ∷ x / 256 % 256 ∷ x / 65536 % 256 ∷ x / 16777216 % 256 ∷ []
bytes32 big x = x / 16777216 % 256 ∷ x / 65536 % 256 ∷ x / 256 % 256 ∷ x % 256 ∷ []

abbrev pub bytes16 : Endian → ℕ → List ℕ
bytes16 little x = x % 256 ∷ x / 256 % 256 ∷ []
bytes16 big x = x / 256 % 256 ∷ x % 256 ∷ []

-- The order in which the sender of a message stored its words.
abbrev pub sender : ℕ → Endian
sender flags = if (flags % 2) == 1 then little else big

swap32-little :
    (a b c d : ℕ)
    → a < 256
    → b < 256
    → c < 256
    → d < 256
    → swap32 (word32 little a b c d) ≡ word32 big a b c d
unfolding swap32
swap32-little a b c d ha hb hc hd = omega arith

swap32-big :
    (a b c d : ℕ)
    → a < 256
    → b < 256
    → c < 256
    → d < 256
    → swap32 (word32 big a b c d) ≡ word32 little a b c d
unfolding swap32
swap32-big a b c d ha hb hc hd = omega arith

-- What the buffers compute: load in the host's order, swap if the message's order is the other.
abbrev pub convert32 : Endian → ℕ → ℕ → ℕ
convert32 host flags x = if conversion_needed host flags then swap32 x else x

abbrev pub convert16 : Endian → ℕ → ℕ → ℕ
convert16 host flags x = if conversion_needed host flags then swap16 x else x

pub convert32-word32 :
    (host : Endian) (flags a b c d : ℕ)
    → a < 256
    → b < 256
    → c < 256
    → d < 256
    → convert32 host flags (word32 host a b c d) ≡ word32 (sender flags) a b c d
convert32-word32 little flags a b c d ha hb hc hd = ground (arith, swap32-little a b c d)
convert32-word32 big flags a b c d ha hb hc hd = ground (arith, swap32-big a b c d)

pub align_value_bounds : (n b : ℕ) → 0 < b → (n ≤ align_value n b) × (align_value n b < n + b)
align_value_bounds n b h = grind arith
