-- ===== src/Base/Texts.antt =====
-- Texts as lists of codes, and whether two of them are the same.
use Prim.Native.Nat.{ℕ}
use mathlib.Core.Path.{◌≡◌, refl}
use mathlib.Core.Bool.{Bool, true, false}
use mathlib.Core.List.{List, [], ◌∷◌}
use native.Mathlib.Omega.{arith}
use orbit.Base.Tests.{◌==◌, if◌then◌else◌}

-- strcmp (a, b) == 0
abbrev pub same_text : List ℕ → List ℕ → Bool
same_text [] [] = true
same_text (a ∷ as') (b ∷ bs) = let rest = same_text as' bs in if a == b then rest else false
same_text _ _ = false

pub same_text_lem : (a s : List ℕ) → same_text a s ≡ true → a ≡ s
same_text_lem [] [] h = refl
same_text_lem [] (b ∷ s) h = cc
same_text_lem (x ∷ a) [] h = cc
same_text_lem (x ∷ a) (b ∷ s) h = ground (arith, same_text_lem a s)

pub same_text_self : (a : List ℕ) → same_text a a ≡ true
same_text_self [] = refl
same_text_self (x ∷ a) = let same : (x == x) ≡ true = ground arith in rw (same) (same_text_self a)
