-- ===== src/Orb/Context/Search.antt =====
-- src/orb/orb-core/corba-context.c: what `CORBA_Context_get_values` finds.
use orbit.Base.{
  ℕ, ◌≡◌, ◌≢◌, refl, sym, ap, ◌∙◌, Bool, true, false, ◌||◌, Option, none, some, List, [], ◌∷◌, ◌++◌,
  if◌then◌else◌, same_text, same_text_lem, same_text_self, Bool-cases, inl, inr,
}
use orbit.Orb.Context.{
  Property, Frame, value_of, removed, set_one_value, list_has_key, search_props, ctx_get_values,
  ends_in_star, values, answer, get_values,
}

abbrev pub or_else : Option (List ℕ) → Option (List ℕ) → Option (List ℕ)
or_else none b = b
or_else (some v) b = some v

-- The value of a name in the innermost context that has one.
abbrev pub visible : List ℕ → List Frame → Option (List ℕ)
visible name [] = none
visible name (f ∷ fs) = or_else (value_of name f.mappings) (visible name fs)

-- How far a search goes: to the root, or no further than its start.
abbrev pub reached : Bool → List Frame → List Frame
reached restrict [] = []
reached restrict (f ∷ fs) = if restrict then f ∷ [] else f ∷ fs

or_else_assoc : (a b c : Option (List ℕ)) → or_else (or_else a b) c ≡ or_else a (or_else b c)
or_else_assoc none b c = refl
or_else_assoc (some v) b c = refl

or_else-none : (a : Option (List ℕ)) → or_else a none ≡ a
or_else-none none = refl
or_else-none (some v) = refl

value_of_append :
    (name : List ℕ) (vs ps : List Property)
    → value_of name (vs ++ ps) ≡ or_else (value_of name vs) (value_of name ps)
value_of_append name [] ps = refl
value_of_append name (v ∷ vs) ps = elim (Bool-cases (same_text v.prop_name name)) [
  | inl e ↦ rw (e) refl
  | inr e ↦ rw (e) (value_of_append name vs ps)
]

has_key :
    (vs : List Property) (name : List ℕ)
    → list_has_key vs name ≡ true
    → (v : List ℕ) × (value_of name vs ≡ some v)
has_key [] name e = cc
has_key (v ∷ vs) name e = elim (Bool-cases (same_text v.prop_name name)) [
  | inl f ↦ (v.value, (rw (f) refl))
  | inr f ↦
      (let (w, g) = has_key vs name (sym (ap (λ b. b || list_has_key vs name) f) ∙ e) in
        (w, (rw (f) g)))
]

-- An entry that is passed over has a value already.
passed :
    (name : List ℕ) (p : Property) (ps vs : List Property)
    → list_has_key vs p.prop_name ≡ true
    → or_else (value_of name vs) (value_of name ps)
      ≡ or_else (value_of name vs) (value_of name (p ∷ ps))
passed name p ps vs e = elim (Bool-cases (same_text p.prop_name name)) [
  | inl f ↦
      (let (v, g) = has_key vs p.prop_name e in
        let h : value_of name vs ≡ some v =
          ap (λ x. value_of x vs) (sym (same_text_lem p.prop_name name f)) ∙ g in
        ap (λ a. or_else a (value_of name ps)) h
        ∙ sym (ap (λ a. or_else a (value_of name (p ∷ ps))) h))
  | inr f ↦ rw (f) refl
]

taken :
    (name : List ℕ) (p : Property) (ps : List Property)
    → or_else (value_of name (p ∷ [])) (value_of name ps) ≡ value_of name (p ∷ ps)
taken name p ps = elim (Bool-cases (same_text p.prop_name name)) [
  | inl f ↦ rw (f) refl
  | inr f ↦ rw (f) refl
]

-- A search for a prefix of no characters takes every entry whose name is new.
search_props_lem :
    (prop name : List ℕ) (ps vs : List Property)
    → value_of name (search_props 0 prop ps vs) ≡ or_else (value_of name vs) (value_of name ps)
unfolding search_props
search_props_lem prop name [] vs = sym (or_else-none (value_of name vs))
search_props_lem prop name (p ∷ ps) vs = elim (Bool-cases (list_has_key vs p.prop_name)) [
  | inl e ↦
      ap (λ b. value_of name (search_props 0 prop ps (if b then vs else vs ++ p ∷ []))) e
      ∙ search_props_lem prop name ps vs
      ∙ passed name p ps vs e
  | inr e ↦
      ap (λ b. value_of name (search_props 0 prop ps (if b then vs else vs ++ p ∷ []))) e
      ∙ search_props_lem prop name ps (vs ++ p ∷ [])
      ∙ ap (λ a. or_else a (value_of name ps)) (value_of_append name vs (p ∷ []))
      ∙ or_else_assoc (value_of name vs) (value_of name (p ∷ [])) (value_of name ps)
      ∙ ap (or_else (value_of name vs)) (taken name p ps)
]

ctx_get_values_lem :
    (restrict : Bool) (prop name : List ℕ) (fs : List Frame) (vs : List Property)
    → value_of name (ctx_get_values restrict prop (some 0) fs vs)
      ≡ or_else (value_of name vs) (visible name (reached restrict fs))
unfolding ctx_get_values
ctx_get_values_lem restrict prop name [] vs = sym (or_else-none (value_of name vs))
ctx_get_values_lem true prop name (f ∷ fs) vs =
    search_props_lem prop name f.mappings vs
    ∙ ap (or_else (value_of name vs)) (sym (or_else-none (value_of name f.mappings)))
ctx_get_values_lem false prop name (f ∷ fs) vs =
    ctx_get_values_lem false prop name fs (search_props 0 prop f.mappings vs)
    ∙ ap (λ a. or_else a (visible name (reached false fs)))
        (search_props_lem prop name f.mappings vs)
    ∙ or_else_assoc (value_of name vs) (value_of name f.mappings) (visible name (reached false fs))
    ∙ ap (λ gs. or_else (value_of name vs) (or_else (value_of name f.mappings) (visible name gs)))
        (all_reached fs)
  where
    all_reached : (gs : List Frame) → reached false gs ≡ gs
    all_reached [] = refl
    all_reached (g ∷ gs) = refl

-- `get_values` without a start scope, for a name that is not empty and has no star at its end,
-- does not look at the name: it answers with all properties that are visible from the context, or
-- in it where the search is restricted, each with its innermost value.
pub get_values-visible :
    (fs : List Frame) (restrict : Bool) (prop : List ℕ)
    → prop ≢ []
    → ends_in_star prop ≡ false
    → (vs : List Property) × (get_values fs [] restrict prop ≡ answer vs)
      × ((name : List ℕ) → value_of name vs ≡ visible name (reached restrict fs))
unfolding get_values
get_values-visible fs restrict [] some_name no_star = absurd (some_name refl)
get_values-visible fs restrict (c ∷ s) some_name no_star = (
  ctx_get_values restrict (c ∷ s) (some 0) fs [],
  ap (λ b. answer (ctx_get_values restrict (c ∷ s) (some (if b then 1 else 0)) fs [])) no_star,
  λ name. ctx_get_values_lem restrict (c ∷ s) name fs [],
)

value_of-removed :
    (n m : List ℕ) (ps : List Property)
    → same_text n m ≡ false
    → value_of m (removed n ps) ≡ value_of m ps
value_of-removed n m [] e = refl
value_of-removed n m (p ∷ ps) e = elim (Bool-cases (same_text p.prop_name n)) [
  | inl f ↦
      ap (λ b. value_of m (if b then removed n ps else p ∷ removed n ps)) f
      ∙ value_of-removed n m ps e
      ∙ sym (
          ap (λ b. if b then some p.value else value_of m ps)
            (ap (λ x. same_text x m) (same_text_lem p.prop_name n f) ∙ e))
  | inr f ↦
      ap (λ b. value_of m (if b then removed n ps else p ∷ removed n ps)) f
      ∙ ap (λ q. if same_text p.prop_name m then some p.value else q) (value_of-removed n m ps e)
]

reached_head :
    (restrict : Bool) (name : List ℕ) (f : Frame) (fs : List Frame)
    → visible name (reached restrict (f ∷ fs))
      ≡ or_else (value_of name f.mappings) (if restrict then none else visible name fs)
reached_head true name f fs = refl
reached_head false name f fs = refl

answered :
    (name v : List ℕ) (vs : List Property) → value_of name vs ≡ some v → answer vs ≡ values vs
answered name v [] e = cc
answered name v (p ∷ vs) e = refl

-- After a property has been set in a context, `get_values` on that context without a start scope,
-- for any name that is not empty and has no star at its end, restricted to the context or not,
-- returns a list with the new value of that property, and with every other property as it was
-- visible before.
pub get_values-set_one_value :
    (f : Frame) (fs : List Frame) (restrict : Bool) (prop n v : List ℕ)
    → prop ≢ []
    → ends_in_star prop ≡ false
    → (vs : List Property) × (get_values (set_one_value n v f ∷ fs) [] restrict prop ≡ values vs)
      × (value_of n vs ≡ some v)
      × ((m : List ℕ)
          → same_text n m ≡ false
          → value_of m vs ≡ visible m (reached restrict (f ∷ fs)))
unfolding set_one_value
get_values-set_one_value f fs restrict prop n v some_name no_star =
    let g = set_one_value n v f in
    let (vs, e, found) = get_values-visible (g ∷ fs) restrict prop some_name no_star in
    let there : value_of n vs ≡ some v =
      found n
      ∙ reached_head restrict n g fs
      ∙ ap
          (λ b.
            or_else (if b then some v else value_of n (removed n f.mappings))
              (if restrict then none else visible n fs))
          (same_text_self n) in
    (
      vs,
      e ∙ answered n v vs there,
      there,
      λ m apart.
          found m
          ∙ reached_head restrict m g fs
          ∙ ap
              (λ b.
                or_else (if b then some v else value_of m (removed n f.mappings))
                  (if restrict then none else visible m fs))
              apart
          ∙ ap (λ a. or_else a (if restrict then none else visible m fs))
              (value_of-removed n m f.mappings apart)
          ∙ sym (reached_head restrict m f fs),
    )
