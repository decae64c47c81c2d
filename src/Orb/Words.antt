-- ===== src/Orb/Words.antt =====
-- Words of any size as the bytes that a machine stores for them.
use orbit.Base.{
  ℕ, zero, suc, ◌+◌, ◌*◌, ◌/◌, ◌%◌, ◌<◌, ◌≡◌, refl, ap, ◌∙◌, List, [], ◌∷◌, arith, length,
  if◌then◌else◌, Bool-cases, inl, inr, true, false, ◌==◌,
}
use mathlib.Core.List.{reverse, reverse-reverse, reverse-cons}
use orbit.Base.{length-append}
use orbit.Giop.Wire.{Endian, little, big, conversion_needed, sender}

-- 256 ^ n
abbrev pub bound : ℕ → ℕ
bound zero = 1
bound (suc n) = 256 * bound n

abbrev pub le_bytes : ℕ → ℕ → List ℕ
le_bytes zero x = []
le_bytes (suc n) x = x % 256 ∷ le_bytes n (x / 256)

abbrev pub of_le : List ℕ → ℕ
of_le [] = 0
of_le (b ∷ bs) = b + 256 * of_le bs

abbrev pub to_bytes : Endian → ℕ → ℕ → List ℕ
to_bytes little n x = le_bytes n x
to_bytes big n x = reverse (le_bytes n x)

abbrev pub of_bytes : Endian → List ℕ → ℕ
of_bytes little bs = of_le bs
of_bytes big bs = of_le (reverse bs)

of_le-le_bytes : (n x : ℕ) → x < bound n → of_le (le_bytes n x) ≡ x
of_le-le_bytes zero x h = omega arith
of_le-le_bytes (suc n) x h = omega (arith, of_le-le_bytes n (x / 256))

length-le_bytes : (n x : ℕ) → length (le_bytes n x) ≡ n
length-le_bytes zero x = refl
length-le_bytes (suc n) x = ap suc (length-le_bytes n (x / 256))

length-reverse : (xs : List ℕ) → length (reverse xs) ≡ length xs
length-reverse [] = refl
length-reverse (x ∷ xs) =
    omega
      (arith, ap length (reverse-cons x xs), length-append (reverse xs) (x ∷ []), length-reverse xs)

pub length-to_bytes : (e : Endian) (n x : ℕ) → length (to_bytes e n x) ≡ n
length-to_bytes little n x = length-le_bytes n x
length-to_bytes big n x = length-reverse (le_bytes n x) ∙ length-le_bytes n x

-- What a machine makes of the bytes of a word that it has copied out of a message, swapped if the
-- flags say so.
abbrev pub swapped : Endian → ℕ → List ℕ → ℕ
swapped host flags bs = of_bytes host (if conversion_needed host flags then reverse bs else bs)

-- A word is read as it was stored, on a machine of either byte order.
pub swapped-to_bytes :
    (host : Endian) (flags n x : ℕ)
    → x < bound n
    → swapped host flags (to_bytes (sender flags) n x) ≡ x
swapped-to_bytes little flags n x h = elim (Bool-cases ((flags % 2) == 1)) [
  | inl e ↦ rw (e) (of_le-le_bytes n x h)
  | inr e ↦ rw (e) (ap of_le (reverse-reverse (le_bytes n x)) ∙ of_le-le_bytes n x h)
]
swapped-to_bytes big flags n x h = elim (Bool-cases ((flags % 2) == 1)) [
  | inl e ↦
      let f : ((flags % 2) == 0) ≡ false = ground arith in
      rw (e, f) (ap of_le (reverse-reverse (le_bytes n x)) ∙ of_le-le_bytes n x h)
  | inr e ↦
      let f : ((flags % 2) == 0) ≡ true = ground arith in
      rw (e, f) (ap of_le (reverse-reverse (le_bytes n x)) ∙ of_le-le_bytes n x h)
]
