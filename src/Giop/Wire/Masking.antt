-- ===== src/Giop/Wire/Masking.antt =====
-- include/orbit/util/orbit-util.h: the macro ALIGN_VALUE, bit by bit.
use orbit.Base.{
  ℕ, zero, suc, ◌+◌, ◌*◌, ◌-◌, ◌/◌, ◌%◌, ◌^◌, ◌≤◌, ◌<◌, ◌≡◌, arith, ◌==◌, if◌then◌else◌, ◌∙◌,
}
use native.Mathlib.Nat.{div-div-eq-div-mul, zero-div, mod-eq_of_lt}
use orbit.Giop.Wire.{align_value}

-- `x & ~m` on words of `width` bits.
unfoldable pub and_not : ℕ → ℕ → ℕ → ℕ
and_not zero x m = 0
and_not (suc width) x m =
    let high = and_not width (x / 2) (m / 2) in (if (m % 2) == 1 then 0 else x % 2) + 2 * high

-- `ALIGN_VALUE` as it stands, on a `gulong` of 64 bits.
unfoldable pub align_masked : ℕ → ℕ → ℕ
align_masked this boundary =
    and_not 64 ((this + (boundary - 1)) % 0x10000000000000000) (boundary - 1)

and_not-nothing : (width x : ℕ) → x < 2 ^ width → and_not width x 0 ≡ x
unfolding and_not
and_not-nothing zero x h = omega arith
and_not-nothing (suc width) x h =
    let e = and_not-nothing width (x / 2) (omega arith) in omega (arith, e)

pow_pos : (k : ℕ) → 0 < 2 ^ k
pow_pos zero = omega arith
pow_pos (suc k) = let h = pow_pos k in omega (arith, h)

-- A mask of low bits, one bit longer than `p - 1`.
mask_bit : (p : ℕ) → 0 < p → (2 * p - 1) % 2 ≡ 1
mask_bit p h = omega arith

mask_rest : (p : ℕ) → 0 < p → (2 * p - 1) / 2 ≡ p - 1
mask_rest p h = omega arith

and_not-mask :
    (width x p : ℕ)
    → 0 < p
    → and_not width (x / 2) (p - 1) ≡ x / 2 / p * p
    → and_not (suc width) x (2 * p - 1) ≡ x / (2 * p) * (2 * p)
unfolding and_not
and_not-mask width x p h e =
    rw (mask_bit p h, mask_rest p h, e, div-div-eq-div-mul x 2 p) (twice (x / (2 * p)) p)
  where
    twice : (d p : ℕ) → 0 + 2 * (d * p) ≡ d * (2 * p)
    twice d p = ground arith

and_not-low : (width k x : ℕ) → x < 2 ^ width → and_not width x (2 ^ k - 1) ≡ x / 2 ^ k * 2 ^ k
unfolding and_not
and_not-low zero k x h = let e : x ≡ 0 = omega arith in rw (e, zero-div (2 ^ k)) (ground arith)
and_not-low (suc width) zero x h = and_not-nothing (suc width) x h ∙ omega arith
and_not-low (suc width) (suc k) x h =
    let e = and_not-low width k (x / 2) (omega arith) in
    let two : 2 ^ suc k ≡ 2 * 2 ^ k = omega arith in
    rw two (and_not-mask width x (2 ^ k) (pow_pos k) e)

-- The macro ALIGN_VALUE, which masks bits on words of 64 bits, gives for a boundary that is a
-- power of two, where nothing wraps, the next multiple of the boundary.
pub align_masked-align_value :
    (this k : ℕ)
    → this + 2 ^ k ≤ 0x10000000000000000
    → align_masked this (2 ^ k) ≡ align_value this (2 ^ k)
unfolding align_masked
align_masked-align_value this k fits =
    let pos = pow_pos k in
    let small : this + (2 ^ k - 1) < 2 ^ 64 = omega arith in
    let e : (this + (2 ^ k - 1)) % 0x10000000000000000 ≡ this + (2 ^ k - 1) = mod-eq_of_lt small in
    rw e (and_not-low 64 k _ small)
