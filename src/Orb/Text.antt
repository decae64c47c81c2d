-- ===== src/Orb/Text.antt =====
-- The functions of the C library that src/orb/orb-core/corba-loc.c uses on strings, which are lists of
-- their bytes without the final 0.
use orbit.Base.{
  ℕ, ◌+◌, ◌*◌, ◌-◌, Bool, true, false, ◌&&◌, ◌||◌, Option, none, some, List, [], ◌∷◌, ◌++◌, ◌==◌,
  leb, if◌then◌else◌, arith, ◌≡◌, refl,
}

abbrev pub Str : Type 0
Str = List ℕ

abbrev pub contains : ℕ → Str → Bool
contains c [] = false
contains c (x ∷ xs) = x == c || contains c xs

-- `strchr`, with the string cut in two at what it finds.
abbrev pub split_first : ℕ → Str → Option (Str × Str)
split_first c [] = none
split_first c (x ∷ xs) =
    let rest = split_first c xs in
    if x == c then some ([], xs) else elim rest [ some (a, b) ↦ some (x ∷ a, b) | none ↦ none ]

-- `strrchr`, with the string cut in two at what it finds.
abbrev pub split_last : ℕ → Str → Option (Str × Str)
split_last c [] = none
split_last c (x ∷ xs) = elim (split_last c xs) [
  | some (a, b) ↦ some (x ∷ a, b)
  | none ↦ if x == c then some ([], xs) else none
]

-- `!strncmp (s, prefix, strlen (prefix))`
abbrev pub starts_with : Str → Str → Bool
starts_with [] s = true
starts_with (p ∷ ps) [] = false
starts_with (p ∷ ps) (x ∷ xs) = x == p && starts_with ps xs

abbrev pub is_digit : ℕ → Bool
is_digit c = leb b'0' c && leb c b'9'

abbrev pub all_digits : Str → Bool
all_digits [] = true
all_digits (c ∷ cs) = is_digit c && all_digits cs

-- `atoi` on leading digits. (Beyond an `int` its result is undefined; a string of other characters is
-- refused by its callers whatever it returns.)
abbrev pub atoi_from : ℕ → Str → ℕ
atoi_from n [] = n
atoi_from n (c ∷ cs) = if is_digit c then atoi_from (n * 10 + (c - b'0')) cs else n

abbrev pub atoi : Str → ℕ
atoi s = atoi_from 0 s

abbrev pub skip_slashes : Str → Str
skip_slashes [] = []
skip_slashes (c ∷ cs) = let rest = skip_slashes cs in if c == b'/' then rest else c ∷ cs

abbrev pub is_empty : Str → Bool
is_empty [] = true
is_empty (c ∷ cs) = false

pub contains-append :
    (c : ℕ) (xs ys : Str) → contains c (xs ++ ys) ≡ (contains c xs || contains c ys)
contains-append c [] ys = refl
contains-append c (x ∷ xs) ys = ground (arith, contains-append c xs ys)

pub split_first-append :
    (c : ℕ) (xs ys : Str) → contains c xs ≡ false → split_first c (xs ++ c ∷ ys) ≡ some (xs, ys)
split_first-append c [] ys h = ground arith
split_first-append c (x ∷ xs) ys h = ground (arith, split_first-append c xs ys)

pub split_last-absent : (c : ℕ) (xs : Str) → contains c xs ≡ false → split_last c xs ≡ none
split_last-absent c [] h = refl
split_last-absent c (x ∷ xs) h = ground (arith, split_last-absent c xs)

pub split_last-append :
    (c : ℕ) (xs ys : Str) → contains c ys ≡ false → split_last c (xs ++ c ∷ ys) ≡ some (xs, ys)
split_last-append c [] ys h = ground (arith, split_last-absent c ys)
split_last-append c (x ∷ xs) ys h = ground (arith, split_last-append c xs ys)
