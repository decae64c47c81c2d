-- ===== src/Orb/Context/Tests.antt =====
-- src/orb/orb-core/corba-context.c at a context with one above it.
use orbit.Base.{ℕ, ◌≡◌, ◌≢◌, refl, List, [], ◌∷◌, true, false, some, same_text}
use orbit.Orb.Context.{
  Property, Frame, value_of, set_one_value, search_props, ctx_get_values, answer, values, inv_ident,
  get_values,
}
use orbit.Orb.Context.Search.{visible, reached, get_values-visible, get_values-set_one_value}

abbrev entry : ℕ → ℕ → Property
entry n v = record { prop_name = n ∷ []; value = v ∷ [] }

abbrev inner : Frame
inner = record { the_name = []; mappings = entry b'a' 1 ∷ entry b'b' 2 ∷ [] }

abbrev outer : Frame
outer = record { the_name = b'o' ∷ []; mappings = entry b'b' 3 ∷ entry b'c' 4 ∷ [] }

-- Asked for a, it answers a, b and c.
all_found :
    get_values (inner ∷ outer ∷ []) [] false (b'a' ∷ [])
    ≡ values (entry b'a' 1 ∷ entry b'b' 2 ∷ entry b'c' 4 ∷ [])
unfolding get_values ctx_get_values search_props
all_found = refl

not_in_scope : get_values (inner ∷ outer ∷ []) (b'x' ∷ []) false (b'a' ∷ []) ≡ inv_ident
unfolding get_values
not_in_scope = refl

no_text : {x : ℕ} {s : List ℕ} → (x ∷ s) ≢ []
no_text e = cc

get_values-visible_example :
    (vs : List Property) × (get_values (inner ∷ outer ∷ []) [] true (b'c' ∷ []) ≡ answer vs)
    × ((name : List ℕ) → value_of name vs ≡ visible name (reached true (inner ∷ outer ∷ [])))
get_values-visible_example = get_values-visible (inner ∷ outer ∷ []) true (b'c' ∷ []) no_text refl

get_values-set_one_value_example :
    (vs : List Property) × (get_values
        (set_one_value (b'b' ∷ []) (5 ∷ []) inner ∷ outer ∷ [])
        []
        false
        (b'b' ∷ [])
      ≡ values vs)
    × (value_of (b'b' ∷ []) vs ≡ some (5 ∷ []))
    × ((m : List ℕ)
        → same_text (b'b' ∷ []) m ≡ false
        → value_of m vs ≡ visible m (reached false (inner ∷ outer ∷ [])))
get_values-set_one_value_example =
    get_values-set_one_value inner (outer ∷ []) false (b'b' ∷ []) (b'b' ∷ []) (5 ∷ []) no_text refl
