-- ===== src/Linc/Writes.antt =====
-- linc2/src/linc-connection.c: the loop that writes takes bytes off the front of what it is given, in
-- their order, and what the socket did not take is what is left.
use orbit.Base.{
  ℕ, zero, suc, ◌+◌, ◌-◌, ◌≤◌, ◌≡◌, refl, sym, ap, ◌∙◌, Bool, true, List, [], ◌∷◌, ◌++◌, leb,
  length, drop, take, arith, length-append, length-drop, append_assoc, Bool-cases, inl, inr,
}
use orbit.Linc.Connection.{
  Vecs, bytes, Io, took, none_taken, interrupted, failed, written, advance, taken, is_empty,
  Written, write_data,
}

drop-append_ge :
    (n : ℕ) (xs ys : List ℕ) → length xs ≤ n → drop n (xs ++ ys) ≡ drop (n - length xs) ys
drop-append_ge n [] ys h = ap (λ k. drop k ys) (omega arith)
drop-append_ge zero (x ∷ xs) ys h = absurd (omega arith)
drop-append_ge (suc n) (x ∷ xs) ys h =
    drop-append_ge n xs ys (omega arith) ∙ ap (λ k. drop k ys) (omega arith)

drop-append_le : (n : ℕ) (xs ys : List ℕ) → n ≤ length xs → drop n (xs ++ ys) ≡ drop n xs ++ ys
drop-append_le zero xs ys h = refl
drop-append_le (suc n) [] ys h = absurd (omega arith)
drop-append_le (suc n) (x ∷ xs) ys h = drop-append_le n xs ys (omega arith)

drop_nil : (n : ℕ) → drop {A = ℕ} n [] ≡ []
drop_nil zero = refl
drop_nil (suc n) = refl

pub bytes-advance : (n : ℕ) (vs : Vecs) → bytes (advance n vs) ≡ drop n (bytes vs)
bytes-advance n [] = sym (drop_nil n)
bytes-advance n (v ∷ vs) = elim (Bool-cases (leb (length v) n)) [
  | inl all ↦
      rw (all)
        (bytes-advance (n - length v) vs ∙ sym (drop-append_ge n v (bytes vs) (ground arith)))
  | inr part ↦ rw (part) (sym (drop-append_le n v (bytes vs) (ground arith)))
]

-- No empty vector stands in front of bytes: the loop would stop at it.
abbrev pub IsTrimmed : Vecs → Type 0
IsTrimmed [] = Unit
IsTrimmed (v ∷ vs) = is_empty v ≡ true → bytes vs ≡ []

empty-length : (v : List ℕ) → is_empty v ≡ true → length v ≡ 0
empty-length [] h = refl
empty-length (b ∷ v) h = cc

advance-IsTrimmed : (n : ℕ) (vs : Vecs) → IsTrimmed (advance n vs)
advance-IsTrimmed n [] = tt
advance-IsTrimmed n (v ∷ vs) = elim (Bool-cases (leb (length v) n)) [
  | inl all ↦ rw (all) (advance-IsTrimmed (n - length v) vs)
  | inr part ↦ rw (part) (λ e. absurd (ground (arith, length-drop n v, empty-length (drop n v) e)))
]

take-drop : (n : ℕ) (xs : List ℕ) → take n xs ++ drop n xs ≡ xs
take-drop zero xs = refl
take-drop (suc n) [] = refl
take-drop (suc n) (x ∷ xs) = ap (λ t. x ∷ t) (take-drop n xs)

bytes-take_le : (m : ℕ) (vs : Vecs) → length (bytes (take m vs)) ≤ length (bytes vs)
bytes-take_le zero vs = omega arith
bytes-take_le (suc m) [] = omega arith
bytes-take_le (suc m) (v ∷ vs) =
    omega
      (arith, bytes-take_le m vs, length-append v (bytes (take m vs)), length-append v (bytes vs))

taken_le : (iov_max n : ℕ) (vs : Vecs) → taken iov_max n vs ≤ length (bytes vs)
taken_le iov_max n vs = ground (arith, bytes-take_le iov_max vs)

-- What holds of the end of the loop: nothing is lost, and where it reports success everything that the
-- vectors held has been taken.
abbrev pub IsWhole : Vecs → ℕ → Written → Type 0
IsWhole vecs total r =
    (r.sent ++ bytes r.left ≡ bytes vecs)
    × IsTrimmed r.left
    × ((n : ℕ) → r.status ≡ written n → (bytes r.left ≡ []) × (n ≡ total + length (bytes vecs)))

pub write_data-IsWhole :
    (iov_max : ℕ) (nonblocking : Bool) (rs : List Io) (vecs : Vecs) (total : ℕ)
    → IsTrimmed vecs
    → IsWhole vecs total (write_data iov_max nonblocking rs vecs total)
unfolding write_data
write_data-IsWhole iov_max nonblocking [] [] total h = (refl, tt, λ n e. ground arith)
write_data-IsWhole iov_max nonblocking [] ([] ∷ vs) total h =
    (refl, h, λ n e. (h refl, ground (arith, ap length (h refl))))
write_data-IsWhole iov_max nonblocking [] ((b ∷ v) ∷ vs) total h = (refl, h, λ n e. ground arith)
write_data-IsWhole iov_max nonblocking (took k ∷ rs) [] total h = (refl, tt, λ n e. ground arith)
write_data-IsWhole iov_max nonblocking (took k ∷ rs) ([] ∷ vs) total h =
    (refl, h, λ n e. (h refl, ground (arith, ap length (h refl))))
write_data-IsWhole iov_max nonblocking (took k ∷ rs) ((b ∷ v) ∷ vs) total h =
    let all = bytes ((b ∷ v) ∷ vs) in
    let n = taken iov_max k ((b ∷ v) ∷ vs) in
    let (whole, trim, ok) =
      write_data-IsWhole iov_max nonblocking rs (advance n ((b ∷ v) ∷ vs)) (total + n)
        (advance-IsTrimmed n ((b ∷ v) ∷ vs)) in
    let rest = bytes-advance n ((b ∷ v) ∷ vs) in
    (
      append_assoc (take n all) _ _ ∙ ap (λ t. take n all ++ t) (whole ∙ rest) ∙ take-drop n all,
      trim,
      λ m e.
          let (empty, count) = ok m e in
          (
            empty,
            omega (
              arith,
              count,
              ap length rest,
              length-drop n all,
              taken_le iov_max k ((b ∷ v) ∷ vs),
            ),
          ),
    )
write_data-IsWhole iov_max nonblocking (interrupted ∷ rs) [] total h =
    (refl, tt, λ n e. ground arith)
write_data-IsWhole iov_max nonblocking (interrupted ∷ rs) ([] ∷ vs) total h =
    (refl, h, λ n e. (h refl, ground (arith, ap length (h refl))))
write_data-IsWhole iov_max nonblocking (interrupted ∷ rs) ((b ∷ v) ∷ vs) total h =
    write_data-IsWhole iov_max nonblocking rs ((b ∷ v) ∷ vs) total h
write_data-IsWhole iov_max nonblocking (none_taken ∷ rs) [] total h =
    (refl, tt, λ n e. ground arith)
write_data-IsWhole iov_max nonblocking (none_taken ∷ rs) ([] ∷ vs) total h =
    (refl, h, λ n e. (h refl, ground (arith, ap length (h refl))))
write_data-IsWhole iov_max nonblocking (none_taken ∷ rs) ((b ∷ v) ∷ vs) total h =
    (refl, h, λ n e. ground arith)
write_data-IsWhole iov_max nonblocking (failed ∷ rs) [] total h = (refl, tt, λ n e. ground arith)
write_data-IsWhole iov_max nonblocking (failed ∷ rs) ([] ∷ vs) total h =
    (refl, h, λ n e. (h refl, ground (arith, ap length (h refl))))
write_data-IsWhole iov_max nonblocking (failed ∷ rs) ((b ∷ v) ∷ vs) total h =
    (refl, h, λ n e. ground arith)
