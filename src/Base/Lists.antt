-- ===== src/Base/Lists.antt =====
-- Lists measured and indexed by native numbers, under the library's names.
use Prim.Native.Nat.{ℕ, zero, suc, ◌+◌, ◌-◌, ◌≤◌, min}
use mathlib.Core.Path.{◌≡◌, refl, sym, ap, ◌∙◌}
use mathlib.Core.List.{List, [], ◌∷◌, ◌++◌}
use mathlib.Core.Option.{Option, none, some}
use native.Mathlib.Omega.{arith}

module _ {ℓ} {A : Type ℓ} where
  abbrev pub length : List A → ℕ
  length [] = 0
  length (x ∷ xs) = suc (length xs)

  abbrev pub get_elem? : List A → ℕ → Option A
  get_elem? [] i = none
  get_elem? (x ∷ xs) zero = some x
  get_elem? (x ∷ xs) (suc i) = get_elem? xs i

  abbrev pub take : ℕ → List A → List A
  take zero xs = []
  take (suc n) [] = []
  take (suc n) (x ∷ xs) = x ∷ take n xs

  abbrev pub drop : ℕ → List A → List A
  drop zero xs = xs
  drop (suc n) [] = []
  drop (suc n) (x ∷ xs) = drop n xs

  abbrev pub replicate : ℕ → A → List A
  replicate zero a = []
  replicate (suc n) a = a ∷ replicate n a

  abbrev pub slice : ℕ → ℕ → List A → List A
  slice off len xs = take len (drop off xs)

  pub length-append : (xs ys : List A) → length (xs ++ ys) ≡ length xs + length ys
  length-append [] ys = omega arith
  length-append (x ∷ xs) ys = omega (arith, length-append xs ys)

  pub length-replicate : (n : ℕ) (a : A) → length (replicate n a) ≡ n
  length-replicate zero a = refl
  length-replicate (suc n) a = ap suc (length-replicate n a)

module _ {ℓ} {A : Type ℓ} where
  pub length-take : (n : ℕ) (xs : List A) → length (take n xs) ≡ min n (length xs)
  length-take zero xs = omega arith
  length-take (suc n) [] = omega arith
  length-take (suc n) (x ∷ xs) = omega (arith, length-take n xs)

  pub length-drop : (n : ℕ) (xs : List A) → length (drop n xs) ≡ length xs - n
  length-drop zero xs = omega arith
  length-drop (suc n) [] = omega arith
  length-drop (suc n) (x ∷ xs) = omega (arith, length-drop n xs)

  pub take-append_le : (n : ℕ) (xs ys : List A) → n ≤ length xs → take n (xs ++ ys) ≡ take n xs
  take-append_le zero xs ys h = refl
  take-append_le (suc n) [] ys h = absurd (omega arith)
  take-append_le (suc n) (x ∷ xs) ys h = ap (λ t. x ∷ t) (take-append_le n xs ys (omega arith))

  pub take-length : (n : ℕ) (xs : List A) → length xs ≡ n → take n xs ≡ xs
  take-length zero [] h = refl
  take-length zero (x ∷ xs) h = absurd (omega arith)
  take-length (suc n) [] h = refl
  take-length (suc n) (x ∷ xs) h = ap (λ t. x ∷ t) (take-length n xs (omega arith))

module _ {ℓ} {A : Type ℓ} where
  -- What is written behind a range leaves the range as it was.
  pub slice-append_le :
      (off len : ℕ) (xs ys : List A)
      → off + len ≤ length xs
      → slice off len (xs ++ ys) ≡ slice off len xs
  slice-append_le zero len xs ys h = take-append_le len xs ys (omega arith)
  slice-append_le (suc off) len [] ys h = absurd (omega arith)
  slice-append_le (suc off) len (x ∷ xs) ys h = slice-append_le off len xs ys (omega arith)

  -- What was appended is found at the old end.
  pub slice-append_end :
      (xs ys : List A) (off len : ℕ)
      → off ≡ length xs
      → len ≡ length ys
      → slice off len (xs ++ ys) ≡ ys
  slice-append_end [] ys zero len ho hl = take-length len ys (omega arith)
  slice-append_end [] ys (suc off) len ho hl = absurd (omega arith)
  slice-append_end (x ∷ xs) ys zero len ho hl = absurd (omega arith)
  slice-append_end (x ∷ xs) ys (suc off) len ho hl = slice-append_end xs ys off len (omega arith) hl

  take-split : (m n : ℕ) (xs : List A) → take (m + n) xs ≡ take m xs ++ take n (drop m xs)
  take-split zero n xs = ap (λ k. take k xs) (omega arith)
  take-split (suc m) n [] = take_nil (suc m + n) n
    where
      take_nil : (k j : ℕ) → take {A = A} k [] ≡ take j []
      take_nil zero zero = refl
      take_nil zero (suc j) = refl
      take_nil (suc k) zero = refl
      take_nil (suc k) (suc j) = refl
  take-split (suc m) n (x ∷ xs) =
      ap {B = List A} (λ k. take k (x ∷ xs)) (suc_first m n) ∙ ap (λ t. x ∷ t) (take-split m n xs)
    where
      suc_first : (a b : ℕ) → suc a + b ≡ suc (a + b)
      suc_first a b = omega arith

module _ {ℓ} {A : Type ℓ} where
  pub take-length_le : (n : ℕ) (xs : List A) → length xs ≤ n → take n xs ≡ xs
  take-length_le zero [] h = refl
  take-length_le zero (x ∷ xs) h = absurd (omega arith)
  take-length_le (suc n) [] h = refl
  take-length_le (suc n) (x ∷ xs) h = ap (λ t. x ∷ t) (take-length_le n xs (omega arith))

module _ {ℓ} {A : Type ℓ} where
  drop_nil : (n : ℕ) → drop {A = A} n [] ≡ []
  drop_nil zero = refl
  drop_nil (suc n) = refl

  pub drop-drop : (m n : ℕ) (xs : List A) → drop n (drop m xs) ≡ drop (m + n) xs
  drop-drop zero n xs = ap (λ k. drop k xs) (omega arith)
  drop-drop (suc m) n [] = drop_nil n ∙ sym (drop_nil (suc m + n))
  drop-drop (suc m) n (x ∷ xs) = drop-drop m n xs ∙ ap (λ k. drop k (x ∷ xs)) (suc_first m n)
    where
      suc_first : (a b : ℕ) → suc (a + b) ≡ suc a + b
      suc_first a b = omega arith

  -- Two ranges that lie side by side are one.
  pub slice-add :
      (off a b : ℕ) (xs : List A) → slice off (a + b) xs ≡ slice off a xs ++ slice (off + a) b xs
  slice-add off a b xs =
      take-split a b (drop off xs) ∙ ap (λ t. take a (drop off xs) ++ take b t) (drop-drop off a xs)
