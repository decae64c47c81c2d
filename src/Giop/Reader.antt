-- ===== src/Giop/Reader.antt =====
-- The steps that the decoders of src/orb/GIOP/giop-recv-buffer.c are made of: align `buf->cur`,
-- compare it with `buf->end`, load, advance. A load outside the memory of the body is a fault.
use orbit.Base.{ℕ, ◌+◌, ◌||◌, List, ltb, leb, if◌then◌else◌, length, slice}
use orbit.Giop.Wire.{Endian, align_value, byte_at, word32, word16, convert32, convert16}
use orbit.Giop.Message.{OctetSeq}

-- `broken` is the decoders' `return TRUE`.
pub data Outcome {ℓ} (A : Type ℓ) : Type ℓ where
  done : A → Outcome A
  broken fault : Outcome A

-- What the decoders read and do not change.
pub record Wire : Type 0 where
  pub host : Endian
  pub flags : ℕ
  pub mem : List ℕ
  pub end : ℕ

-- A step reads `buf->cur` and returns its new value.
abbrev pub Reader : Type 0 → Type 0
Reader A = Wire → ℕ → Outcome (A × ℕ)

infixl 5 ◌>>=◌ ◌>>◌
abbrev pub ◌>>=◌ : {A B : Type 0} → Reader A → (A → Reader B) → Reader B
◌>>=◌ m f w c = elim (m w c) [ done (a, c') ↦ f a w c' | broken ↦ broken | fault ↦ fault ]

abbrev pub ◌>>◌ : {B : Type 0} → Reader (Unit {0}) → Reader B → Reader B
m >> k = m >>= λ _. k

abbrev pub pure : {A : Type 0} → A → Reader A
pure a w c = done (a, c)

abbrev pub reject : {A : Type 0} → Reader A
reject w c = broken

-- `buf->cur = ALIGN_ADDRESS (buf->cur, boundary)`
abbrev pub align_cur : ℕ → Reader (Unit {0})
align_cur boundary w c = done (tt, align_value c boundary)

-- `if ((buf->cur + n) > buf->end) return TRUE;`
abbrev pub need : ℕ → Reader (Unit {0})
need n w c = if ltb w.end (c + n) then broken else done (tt, c)

-- `if ((buf->cur + n) > buf->end || (buf->cur + n) < buf->cur) return TRUE;` The second test
-- guards against an address that wraps, which 64-bit addresses and 32-bit lengths rule out.
abbrev pub need_len : ℕ → Reader (Unit {0})
need_len n w c = if ltb w.end (c + n) || ltb (c + n) c then broken else done (tt, c)

abbrev pub advance : ℕ → Reader (Unit {0})
advance n w c = done (tt, c + n)

abbrev pub peek_u8 : Reader ℕ
peek_u8 w c = if leb (c + 1) (length w.mem) then done (byte_at w.mem c, c) else fault

-- `*(guint32 *) buf->cur`, converted, and `buf->cur += 4`
unfoldable pub load_u32 : Reader ℕ
load_u32 w c =
    if leb (c + 4) (length w.mem)
    then done (
      convert32 w.host w.flags (
          word32 w.host (byte_at w.mem c) (byte_at w.mem (c + 1)) (byte_at w.mem (c + 2))
            (byte_at w.mem (c + 3))),
      c + 4,
    )
    else fault

unfoldable pub load_u16 : Reader ℕ
load_u16 w c =
    if leb (c + 2) (length w.mem)
    then done
        (convert16 w.host w.flags (word16 w.host (byte_at w.mem c) (byte_at w.mem (c + 1))), c + 2)
    else fault

-- `_buffer = buf->cur; buf->cur += len`, behind the test that the bytes are there.
unfoldable pub point_octets : ℕ → Reader OctetSeq
point_octets n = do need_len n; (λ w c. done (record { buffer = c; len = n }, c + n))

-- `memcpy (_buffer, buf->cur, len)`, behind the same test.
unfoldable pub copy_octets : ℕ → Reader (List ℕ)
copy_octets n = do
  need_len n
  (λ w c. if leb (c + n) (length w.mem) then done (slice c n w.mem, c + n) else fault)
