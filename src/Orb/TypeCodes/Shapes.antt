-- ===== src/Orb/TypeCodes/Shapes.antt =====
-- src/orb/orb-core/corba-typecode.c: equality and equivalence of type codes against what they look at.
use orbit.Base.{
  ◌||◌, Bool-cases, inl, inr, ℕ, ◌≡◌, refl, sym, ap, ◌∙◌, subst, Bool, true, false, not, ◌&&◌, ◌↔◌,
  List, [], ◌∷◌, ◌==◌, if◌then◌else◌, same_text, same_text_lem, same_text_self, arith,
}
use orbit.Orb.TypeCodes.{
  Scalars, CodeStruct, code, Codes, no_codes, codes, scalars, discriminator, subtypes, Case,
  bounded, objref, members, union, enumeration, repeated, alias, recursive, fixed, primitive,
  case_of, same_names, same_case,
}

-- A struct with its kind only.
abbrev kind_only : ℕ → Scalars
kind_only k = record {
  kind = k;
  length = 0;
  name = [];
  repo_id = [];
  subnames = [];
  sublabels = [];
  default_index = 0;
  recurse_depth = 0;
  digits = 0;
  scale = 0;
}

-- What each kind of type is told apart by: strings, wide strings, sequences and arrays by their length;
-- objects, structs, unions, enumerations, aliases and exceptions by their repository id; enumerations
-- also by the names of their members, unions by their discriminator, labels and default, and all that
-- have subtypes by these; a recursive type by its depth, and a fixed one by its digits and scale.
abbrev pub has_length : ℕ → Bool
has_length k = k == 18 || (k == 19 || (k == 20 || k == 27))

abbrev pub has_repo_id : ℕ → Bool
has_repo_id k = k == 14 || (k == 15 || (k == 16 || (k == 17 || (k == 21 || k == 22))))

abbrev pub has_subtypes : ℕ → Bool
has_subtypes k = k == 15 || (k == 16 || (k == 19 || (k == 20 || (k == 21 || k == 22))))

-- What is left of a type code when what does not count is taken away.
abbrev pub stripped : Scalars → Codes → Codes → CodeStruct
stripped o ds ss =
    code
      (record {
        kind = o.kind;
        length = if has_length o.kind then o.length else 0;
        name = [];
        repo_id = if has_repo_id o.kind then o.repo_id else [];
        subnames = if o.kind == 17 then o.subnames else [];
        sublabels = if o.kind == 16 then o.sublabels else [];
        default_index = if o.kind == 16 then o.default_index else 0;
        recurse_depth = if o.kind == 0xffffffff then o.recurse_depth else 0;
        digits = if o.kind == 28 then o.digits else 0;
        scale = if o.kind == 28 then o.scale else 0;
      })
      (if o.kind == 16 then ds else no_codes) (if has_subtypes o.kind then ss else no_codes)

-- The same by the cases of the switch.
abbrev shaped : Case → Scalars → Codes → Codes → CodeStruct
shaped bounded o ds ss = code (record (kind_only o.kind) { length = o.length }) no_codes no_codes
shaped objref o ds ss = code (record (kind_only o.kind) { repo_id = o.repo_id }) no_codes no_codes
shaped members o ds ss = code (record (kind_only o.kind) { repo_id = o.repo_id }) no_codes ss
shaped union o ds ss =
    code
      (record (kind_only o.kind) {
        repo_id = o.repo_id;
        default_index = o.default_index;
        sublabels = o.sublabels;
      })
      ds ss
shaped enumeration o ds ss =
    code (record (kind_only o.kind) { repo_id = o.repo_id; subnames = o.subnames }) no_codes
      no_codes
shaped repeated o ds ss = code (record (kind_only o.kind) { length = o.length }) no_codes ss
shaped alias o ds ss = code (record (kind_only o.kind) { repo_id = o.repo_id }) no_codes ss
shaped recursive o ds ss =
    code (record (kind_only o.kind) { recurse_depth = o.recurse_depth }) no_codes no_codes
shaped fixed o ds ss =
    code (record (kind_only o.kind) { digits = o.digits; scale = o.scale }) no_codes no_codes
shaped primitive o ds ss = code (kind_only o.kind) no_codes no_codes

-- An alias of something.
abbrev pub is_alias : Scalars → Codes → Bool
is_alias o no_codes = false
is_alias o (codes c cs) = o.kind == 21

-- A type code without what does not count: names, the labels of structs, and, where it is not strict,
-- aliases.
unfoldable mutual
  pub bare : Bool → CodeStruct → CodeStruct
  bare strict (code o d cs) =
      let inner = first_bare strict cs in
      let ds = bare_codes strict d in
      let ss = bare_codes strict cs in
      if not strict && is_alias o cs then inner else stripped o ds ss

  pub first_bare : Bool → Codes → CodeStruct
  first_bare strict no_codes = code (kind_only 0) no_codes no_codes
  first_bare strict (codes c cs) = bare strict c

  pub bare_codes : Bool → Codes → Codes
  bare_codes strict no_codes = no_codes
  bare_codes strict (codes c cs) = codes (bare strict c) (bare_codes strict cs)

same_number : (a b : ℕ) → (a == b) ≡ true → a ≡ b
same_number a b e = ground arith

number_self : (a b : ℕ) → a ≡ b → (a == b) ≡ true
number_self a b e = ground arith

text_self : (a b : List ℕ) → a ≡ b → same_text a b ≡ true
text_self a b e = subst (λ x. same_text a x ≡ true) e (same_text_self a)

pub both : (a b : Bool) → (a && b) ≡ true → (a ≡ true) × (b ≡ true)
both true true e = (refl, refl)
both true false e = cc
both false b e = cc

pub both_true : (a b : Bool) → a ≡ true → b ≡ true → (a && b) ≡ true
both_true a b e f = rw (e, f) refl

same_names_lem : (ns ms : List (List ℕ)) → same_names ns ms ≡ true → ns ≡ ms
same_names_lem [] [] e = refl
same_names_lem [] (m ∷ ms) e = cc
same_names_lem (n ∷ ns) [] e = cc
same_names_lem (n ∷ ns) (m ∷ ms) e =
    let (a, b) = both (same_text n m) (same_names ns ms) e in
    ap (λ x. x ∷ ns) (same_text_lem n m a) ∙ ap (λ xs. m ∷ xs) (same_names_lem ns ms b)

same_names_self : (ns : List (List ℕ)) → same_names ns ns ≡ true
same_names_self [] = refl
same_names_self (n ∷ ns) =
    both_true (same_text n n) (same_names ns ns) (same_text_self n) (same_names_self ns)

shaped-kind : (c : Case) (o : Scalars) (ds ss : Codes) → (scalars (shaped c o ds ss)).kind ≡ o.kind
shaped-kind bounded o ds ss = refl
shaped-kind objref o ds ss = refl
shaped-kind members o ds ss = refl
shaped-kind union o ds ss = refl
shaped-kind enumeration o ds ss = refl
shaped-kind repeated o ds ss = refl
shaped-kind alias o ds ss = refl
shaped-kind recursive o ds ss = refl
shaped-kind fixed o ds ss = refl
shaped-kind primitive o ds ss = refl

-- The cases of the switch are those of the kinds.
stripped_at :
    (o : Scalars) (ds ss : Codes) (k : ℕ)
    → (o.kind == k) ≡ true
    → stripped (record o { kind = k }) ds ss ≡ shaped (case_of k) (record o { kind = k }) ds ss
    → stripped o ds ss ≡ shaped (case_of o.kind) o ds ss
stripped_at o ds ss k e h =
    subst
      (λ x.
        stripped (record o { kind = x }) ds ss ≡ shaped (case_of x) (record o { kind = x }) ds ss)
      (sym (same_number o.kind k e)) h

stripped-shaped : (o : Scalars) (ds ss : Codes) → stripped o ds ss ≡ shaped (case_of o.kind) o ds ss
stripped-shaped o ds ss = elim (Bool-cases (o.kind == 14)) [
  | inl e ↦ stripped_at o ds ss 14 e refl
  | inr f0 ↦ elim (Bool-cases (o.kind == 15)) [
    | inl e ↦ stripped_at o ds ss 15 e refl
    | inr f1 ↦ elim (Bool-cases (o.kind == 16)) [
      | inl e ↦ stripped_at o ds ss 16 e refl
      | inr f2 ↦ elim (Bool-cases (o.kind == 17)) [
        | inl e ↦ stripped_at o ds ss 17 e refl
        | inr f3 ↦ elim (Bool-cases (o.kind == 18)) [
          | inl e ↦ stripped_at o ds ss 18 e refl
          | inr f4 ↦ elim (Bool-cases (o.kind == 19)) [
            | inl e ↦ stripped_at o ds ss 19 e refl
            | inr f5 ↦ elim (Bool-cases (o.kind == 20)) [
              | inl e ↦ stripped_at o ds ss 20 e refl
              | inr f6 ↦ elim (Bool-cases (o.kind == 21)) [
                | inl e ↦ stripped_at o ds ss 21 e refl
                | inr f7 ↦ elim (Bool-cases (o.kind == 22)) [
                  | inl e ↦ stripped_at o ds ss 22 e refl
                  | inr f8 ↦ elim (Bool-cases (o.kind == 27)) [
                    | inl e ↦ stripped_at o ds ss 27 e refl
                    | inr f9 ↦ elim (Bool-cases (o.kind == 28)) [
                      | inl e ↦ stripped_at o ds ss 28 e refl
                      | inr f10 ↦ elim (Bool-cases (o.kind == 0xffffffff)) [
                        | inl e ↦ stripped_at o ds ss 0xffffffff e refl
                        | inr f11 ↦ rw (f0, f1, f2, f3, f4, f5, f6, f7, f8, f9, f10, f11) refl
                      ]
                    ]
                  ]
                ]
              ]
            ]
          ]
        ]
      ]
    ]
  ]
]

module _ (o t : Scalars) (ds es ss rs : Codes) (discs subs : Bool)
    (discs_lem : (discs ≡ true) ↔ (ds ≡ es)) (subs_lem : (subs ≡ true) ↔ (ss ≡ rs)) where
  same_case-shaped :
      (c : Case)
      → o.kind ≡ t.kind
      → (same_case c o t discs subs ≡ true) ↔ (shaped c o ds ss ≡ shaped c t es rs)
  same_case-shaped bounded k = (
    λ e. (let n = same_number o.length t.length e in rw (k, n) refl),
    λ e. number_self o.length t.length (ap (λ c. (scalars c).length) e),
  )
  same_case-shaped objref k = (
    λ e. (let i = same_text_lem o.repo_id t.repo_id e in rw (k, i) refl),
    λ e. text_self o.repo_id t.repo_id (ap (λ c. (scalars c).repo_id) e),
  )
  same_case-shaped members k = (
    λ e.
        (let (a, b) = both _ _ e in
          let i = same_text_lem o.repo_id t.repo_id a in let s = subs_lem.0 b in rw (k, i, s) refl),
    λ e.
        both_true _ _ (text_self o.repo_id t.repo_id (ap (λ c. (scalars c).repo_id) e))
          (subs_lem.1 (ap subtypes e)),
  )
  same_case-shaped union k = (
    λ e.
        (let (a, b) = both _ _ e in
          let (b, c) = both _ _ b in
          let (c, d) = both _ _ c in
          let (d, f) = both _ _ d in
          let i = same_text_lem o.repo_id t.repo_id a in
          let p = discs_lem.0 b in
          let x = same_number o.default_index t.default_index c in
          let s = subs_lem.0 d in
          let l = same_text_lem o.sublabels t.sublabels f in rw (k, i, p, x, s, l) refl),
    λ e. both_true _ _ (text_self o.repo_id t.repo_id (ap (λ c. (scalars c).repo_id) e)) (
        both_true _ _ (discs_lem.1 (ap discriminator e)) (
          both_true _ _
            (number_self o.default_index t.default_index (ap (λ c. (scalars c).default_index) e))
            (both_true _ _ (subs_lem.1 (ap subtypes e))
              (text_self o.sublabels t.sublabels (ap (λ c. (scalars c).sublabels) e))))),
  )
  same_case-shaped enumeration k = (
    λ e.
        (let (a, b) = both _ _ e in
          let i = same_text_lem o.repo_id t.repo_id a in
          let n = same_names_lem o.subnames t.subnames b in rw (k, i, n) refl),
    λ e. both_true _ _ (text_self o.repo_id t.repo_id (ap (λ c. (scalars c).repo_id) e)) (
        subst (λ x. same_names o.subnames x ≡ true) (ap (λ c. (scalars c).subnames) e)
          (same_names_self o.subnames)),
  )
  same_case-shaped repeated k = (
    λ e.
        (let (a, b) = both _ _ e in
          let n = same_number o.length t.length a in let s = subs_lem.0 b in rw (k, n, s) refl),
    λ e.
        both_true _ _ (number_self o.length t.length (ap (λ c. (scalars c).length) e))
          (subs_lem.1 (ap subtypes e)),
  )
  same_case-shaped alias k = (
    λ e.
        (let (a, b) = both _ _ e in
          let i = same_text_lem o.repo_id t.repo_id a in let s = subs_lem.0 b in rw (k, i, s) refl),
    λ e.
        both_true _ _ (text_self o.repo_id t.repo_id (ap (λ c. (scalars c).repo_id) e))
          (subs_lem.1 (ap subtypes e)),
  )
  same_case-shaped recursive k = (
    λ e. (let n = same_number o.recurse_depth t.recurse_depth e in rw (k, n) refl),
    λ e. number_self o.recurse_depth t.recurse_depth (ap (λ c. (scalars c).recurse_depth) e),
  )
  same_case-shaped fixed k = (
    λ e.
        (let (a, b) = both _ _ e in
          let d = same_number o.digits t.digits a in
          let s = same_number o.scale t.scale b in rw (k, d, s) refl),
    λ e.
        both_true _ _ (number_self o.digits t.digits (ap (λ c. (scalars c).digits) e))
          (number_self o.scale t.scale (ap (λ c. (scalars c).scale) e)),
  )
  same_case-shaped primitive k = (λ e. ap (λ x. code (kind_only x) no_codes no_codes) k, λ e. refl)

  switch-shaped :
      (o.kind == t.kind && same_case (case_of o.kind) o t discs subs ≡ true)
      ↔ (shaped (case_of o.kind) o ds ss ≡ shaped (case_of t.kind) t es rs)
  switch-shaped = (
    λ e.
        (let (a, b) = both (o.kind == t.kind) (same_case (case_of o.kind) o t discs subs) e in
          let k = same_number o.kind t.kind a in
          (same_case-shaped (case_of o.kind) k).0 b ∙ ap (λ x. shaped (case_of x) t es rs) k),
    λ e.
        (let k : o.kind ≡ t.kind =
            sym (shaped-kind (case_of o.kind) o ds ss)
            ∙ ap (λ c. (scalars c).kind) e
            ∙ shaped-kind (case_of t.kind) t es rs in
          both_true (o.kind == t.kind) (same_case (case_of o.kind) o t discs subs)
            (number_self o.kind t.kind k)
            ((same_case-shaped (case_of o.kind) k).1
              (e ∙ sym (ap (λ x. shaped (case_of x) t es rs) k)))),
  )

  pub switch-stripped :
      (o.kind == t.kind && same_case (case_of o.kind) o t discs subs ≡ true)
      ↔ (stripped o ds ss ≡ stripped t es rs)
  switch-stripped =
      let a = stripped-shaped o ds ss in
      let b = stripped-shaped t es rs in
      (λ e. a ∙ switch-shaped.0 e ∙ sym b, λ e. switch-shaped.1 (sym a ∙ e ∙ b))
