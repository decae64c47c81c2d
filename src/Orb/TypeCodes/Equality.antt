-- ===== src/Orb/TypeCodes/Equality.antt =====
-- src/orb/orb-core/corba-typecode.c: `typecode_equiv_internal` decides whether two type codes are the
-- same when what does not count is taken away.
use orbit.Base.{
  ◌≡◌, refl, sym, ap, ◌∙◌, subst, Bool, true, false, not, ◌&&◌, ◌↔◌, ◌==◌, if◌then◌else◌,
  Bool-cases, inl, inr, arith,
}
use orbit.Orb.TypeCodes.{
  Scalars, CodeStruct, code, Codes, no_codes, codes, scalars, discriminator, subtypes, is_named,
  unaliased, seen, typecode_equiv, first_equiv, codes_equiv, is_there, same_case, case_of,
}
use orbit.Orb.TypeCodes.Shapes.{
  is_alias, stripped, bare, first_bare, bare_codes, both, both_true, switch-stripped,
}

-- What `bare` makes of a type code behind its aliases.
abbrev seen_shape : Bool → CodeStruct → CodeStruct
seen_shape strict t =
    stripped (scalars (seen strict t)) (bare_codes strict (discriminator (seen strict t)))
      (bare_codes strict (subtypes (seen strict t)))

bare-seen : (strict : Bool) (t : CodeStruct) → bare strict t ≡ seen_shape strict t
unfolding bare
bare-seen true (code o d cs) = refl
bare-seen false (code o d no_codes) = refl
bare-seen false (code o d (codes c cs)) = elim (Bool-cases (o.kind == 21)) [
  | inl e ↦
      ap
        (λ b.
          if b
          then bare false c
          else stripped o (bare_codes false d) (bare_codes false (codes c cs)))
        e
      ∙ bare-seen false c
      ∙ ap
          (λ b.
            let t = if b then unaliased c else code o d (codes c cs) in
            stripped (scalars t) (bare_codes false (discriminator t))
              (bare_codes false (subtypes t)))
          (sym e)
  | inr e ↦
      ap
        (λ b.
          if b
          then bare false c
          else stripped o (bare_codes false d) (bare_codes false (codes c cs)))
        e
      ∙ ap
          (λ b.
            let t = if b then unaliased c else code o d (codes c cs) in
            stripped (scalars t) (bare_codes false (discriminator t))
              (bare_codes false (subtypes t)))
          (sym e)
]

-- A test on both sides of an equivalence.
either :
    (b x y : Bool) (p q r : CodeStruct)
    → (b ≡ true → (x ≡ true) ↔ (p ≡ r))
    → (b ≡ false → (y ≡ true) ↔ (q ≡ r))
    → ((if b then x else y) ≡ true) ↔ ((if b then p else q) ≡ r)
either true x y p q r h k = h refl
either false x y p q r h k = k refl

from_right : (x : Bool) (q r s : CodeStruct) → r ≡ s → (x ≡ true) ↔ (q ≡ s) → (x ≡ true) ↔ (q ≡ r)
from_right x q r s e h = (λ a. h.0 a ∙ sym e, λ a. h.1 (a ∙ e))

either_alias :
    (b c x y : Bool) (p q r : CodeStruct)
    → b ≡ c
    → ((if b then x else y) ≡ true) ↔ ((if b then p else q) ≡ r)
    → ((if b then x else y) ≡ true) ↔ ((if c then p else q) ≡ r)
either_alias b c x y p q r e h =
    subst (λ d. ((if b then x else y) ≡ true) ↔ ((if d then p else q) ≡ r)) e h

same_alias :
    (strict : Bool) (o : Scalars) (cs : Codes)
    → (not strict && is_named o cs) ≡ (not strict && is_alias o cs)
same_alias strict o no_codes = refl
same_alias strict o (codes c cs) = refl

and_named : (b : Bool) (o : Scalars) → (not b && is_named o no_codes) ≡ true → ⊥
and_named true o e = cc
and_named false o e = cc

-- Every union in a type code has its discriminator.
unfoldable mutual
  pub HasDiscriminators : CodeStruct → Type 0
  HasDiscriminators (code o d cs) =
      (o.kind ≡ 16 → is_there d ≡ true) × HaveDiscriminators d × HaveDiscriminators cs

  pub HaveDiscriminators : Codes → Type 0
  HaveDiscriminators no_codes = Unit
  HaveDiscriminators (codes c cs) = HasDiscriminators c × HaveDiscriminators cs

-- The discriminator counts for unions only.
there_lem :
    (o t : Scalars) (there discs subs : Bool)
    → (o.kind ≡ 16 → there ≡ true)
    → same_case (case_of o.kind) o t (there && discs) subs
      ≡ same_case (case_of o.kind) o t discs subs
there_lem o t true discs subs h = refl
there_lem o t false discs subs h = elim (Bool-cases (o.kind == 16)) [
  | inl e ↦ let f = h (ground arith) in cc
  | inr e ↦ ground arith
]

counted :
    (strict : Bool) (o : Scalars) (d cs : Codes) (t : CodeStruct) {P : Type 0}
    → (o.kind ≡ 16 → is_there d ≡ true)
    → (let u = seen strict t in
        ((o.kind == (scalars u).kind
            && same_case
                (case_of o.kind)
                o
                (scalars u)
                (codes_equiv strict d (discriminator u))
                (codes_equiv strict cs (subtypes u)))
          ≡ true)
        ↔ P)
    → (let u = seen strict t in
        ((o.kind == (scalars u).kind
            && same_case
                (case_of o.kind)
                o
                (scalars u)
                (is_there d && codes_equiv strict d (discriminator u))
                (codes_equiv strict cs (subtypes u)))
          ≡ true)
        ↔ P)
counted strict o d cs t {P} there h =
    let u = seen strict t in
    subst (λ b. ((o.kind == (scalars u).kind && b) ≡ true) ↔ P)
      (sym (
        there_lem o (scalars u) (is_there d) (codes_equiv strict d (discriminator u))
          (codes_equiv strict cs (subtypes u)) there))
      h

mutual
  unfolding typecode_equiv bare HasDiscriminators

  typecode_equiv-bare_lem :
      (strict : Bool) (a t : CodeStruct)
      → HasDiscriminators a
      → (typecode_equiv strict a t ≡ true) ↔ (bare strict a ≡ bare strict t)
  typecode_equiv-bare_lem strict (code o d cs) t (there, in_d, in_cs) =
      either_alias (not strict && is_named o cs) (not strict && is_alias o cs) _ _ _ _
        (bare strict t) (same_alias strict o cs)
        (either (not strict && is_named o cs) _ _ _ _ (bare strict t)
          (first_equiv-bare strict o cs t in_cs)
          (λ e. from_right _ _ (bare strict t) (seen_shape strict t) (bare-seen strict t) (
            counted strict o d cs t there (
              switch-stripped o (scalars (seen strict t)) (bare_codes strict d)
                (bare_codes strict (discriminator (seen strict t))) (bare_codes strict cs)
                (bare_codes strict (subtypes (seen strict t)))
                (codes_equiv strict d (discriminator (seen strict t)))
                (codes_equiv strict cs (subtypes (seen strict t)))
                (codes_equiv-bare strict d (discriminator (seen strict t)) in_d)
                (codes_equiv-bare strict cs (subtypes (seen strict t)) in_cs)))))

  first_equiv-bare :
      (strict : Bool) (o : Scalars) (cs : Codes) (t : CodeStruct)
      → HaveDiscriminators cs
      → (not strict && is_named o cs) ≡ true
      → (first_equiv strict cs t ≡ true) ↔ (first_bare strict cs ≡ bare strict t)
  first_equiv-bare strict o no_codes t h e = absurd (and_named strict o e)
  first_equiv-bare strict o (codes c cs) t (h, hs) e = typecode_equiv-bare_lem strict c t h

  codes_equiv-bare :
      (strict : Bool) (cs es : Codes)
      → HaveDiscriminators cs
      → (codes_equiv strict cs es ≡ true) ↔ (bare_codes strict cs ≡ bare_codes strict es)
  codes_equiv-bare strict no_codes no_codes in_c = (λ e. refl, λ e. refl)
  codes_equiv-bare strict no_codes (codes e es) in_c = (λ h. cc, λ h. cc)
  codes_equiv-bare strict (codes c cs) no_codes in_c = (λ h. cc, λ h. cc)
  codes_equiv-bare strict (codes c cs) (codes e es) (in_c, in_cs) = (
    λ h.
        (let (a, b) = both _ _ h in
          ap (λ x. codes x (bare_codes strict cs)) ((typecode_equiv-bare_lem strict c e in_c).0 a)
          ∙ ap (λ xs. codes (bare strict e) xs) ((codes_equiv-bare strict cs es in_cs).0 b)),
    λ h.
        both_true _ _
          ((typecode_equiv-bare_lem strict c e in_c).1
            (ap (λ xs. elim xs [ no_codes ↦ bare strict c | codes x ys ↦ x ]) h))
          ((codes_equiv-bare strict cs es in_cs).1
            (ap (λ xs. elim xs [ no_codes ↦ no_codes | codes x ys ↦ ys ]) h)),
  )

-- Two type codes, as finite trees, of which the first has a discriminator in each of its unions,
-- are equal, or equivalent, exactly when nothing tells them apart but what does not count: names
-- of types and of members of structs, exceptions and unions, fields that the kind does not use,
-- and, for equivalence, aliases at any place that have a subtype.
pub typecode_equiv-bare :
    (strict : Bool) (a t : CodeStruct)
    → HasDiscriminators a
    → (typecode_equiv strict a t ≡ true) ↔ (bare strict a ≡ bare strict t)
typecode_equiv-bare = typecode_equiv-bare_lem
