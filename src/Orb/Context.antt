-- ===== src/Orb/Context.antt =====
-- src/orb/orb-core/corba-context.c: contexts, which map names of properties to values. A context is the
-- list of the tables from itself up to the root, which is all that a search looks at; a table is the
-- list of its entries in the order of `g_hash_table_foreach`, empty where there is none.

pub mod Search
mod Tests
use orbit.Base.{
  ℕ, zero, suc, Bool, true, false, not, ◌&&◌, ◌||◌, Option, none, some, List, [], ◌∷◌, ◌++◌, ◌==◌,
  if◌then◌else◌, same_text,
}

-- A name and its value.
pub record Property : Type 0 where
  pub prop_name : List ℕ
  pub value : List ℕ

-- `struct CORBA_Context_type`: `the_name` is empty where it is NULL.
pub record Frame : Type 0 where
  pub the_name : List ℕ
  pub mappings : List Property

-- `g_hash_table_lookup`, and the value under a name in an NVList.
abbrev pub value_of : List ℕ → List Property → Option (List ℕ)
value_of name [] = none
value_of name (p ∷ ps) =
    let rest = value_of name ps in if same_text p.prop_name name then some p.value else rest

abbrev pub removed : List ℕ → List Property → List Property
removed name [] = []
removed name (p ∷ ps) =
    let rest = removed name ps in if same_text p.prop_name name then rest else p ∷ rest

-- `CORBA_Context_set_one_value`
unfoldable pub set_one_value : List ℕ → List ℕ → Frame → Frame
set_one_value name value f = record f {
  mappings = record { prop_name = name; value = value } ∷ removed name f.mappings;
}

-- `list_has_key`
abbrev pub list_has_key : List Property → List ℕ → Bool
list_has_key [] key = false
list_has_key (p ∷ ps) key = same_text p.prop_name key || list_has_key ps key

-- Whether `strncmp` finds no difference.
abbrev pub same_start : ℕ → List ℕ → List ℕ → Bool
same_start zero a b = true
same_start (suc n) [] [] = true
same_start (suc n) (x ∷ a) (y ∷ b) = x == y && same_start n a b
same_start (suc n) a b = false

-- `search_props` for each entry of a table.
unfoldable pub search_props : ℕ → List ℕ → List Property → List Property → List Property
search_props len name [] values = values
search_props len name (p ∷ ps) values =
    let next =
      if not (same_start len p.prop_name name)
      then values
      else if list_has_key values p.prop_name
      then values
      else values ++ p ∷ [] in
    search_props len name ps next

-- `ctx_get_values`: `none` for a negative `is_wc`.
unfoldable pub ctx_get_values :
    Bool → List ℕ → Option ℕ → List Frame → List Property → List Property
ctx_get_values restrict name is_wc [] values = values
ctx_get_values restrict name is_wc (f ∷ fs) values =
    let found : List Property = elim is_wc [
      | none ↦ values
      | some len ↦ search_props len name f.mappings values
    ] in
    let above = ctx_get_values restrict name is_wc fs found in
    let go_up = if restrict then found else above in
    elim is_wc [
      | some len ↦ go_up
      | none ↦ elim (value_of name f.mappings) [
        | none ↦ go_up
        | some v ↦ values ++ record { prop_name = name; value = v } ∷ []
      ]
    ]

abbrev pub ends_in_star : List ℕ → Bool
ends_in_star [] = false
ends_in_star (c ∷ []) = c == b'*'
ends_in_star (c ∷ d ∷ s) = ends_in_star (d ∷ s)

-- The loop up to the context with the name.
abbrev pub scope : List ℕ → List Frame → List Frame
scope start [] = []
scope start (f ∷ fs) =
    let rest = scope start fs in if same_text f.the_name start then f ∷ fs else rest

-- What the call comes to: it returns a list, raises INV_IDENT or UNKNOWN, or reads in front of the name.
pub data Got : Type 0 where
  values : List Property → Got
  inv_ident unknown overread : Got

abbrev pub is_empty : List Property → Bool
is_empty [] = true
is_empty (p ∷ ps) = false

abbrev pub answer : List Property → Got
answer vs = if is_empty vs then unknown else values vs

abbrev pub collected : Bool → List ℕ → List Frame → Got
collected restrict [] fs = overread
collected restrict (c ∷ s) fs =
    answer (ctx_get_values restrict (c ∷ s) (some (if ends_in_star (c ∷ s) then 1 else 0)) fs [])

-- `CORBA_Context_get_values`: `start` is empty where `start_scope` is NULL or empty.
unfoldable pub get_values : List Frame → List ℕ → Bool → List ℕ → Got
get_values fs [] restrict name = collected restrict name fs
get_values fs (c ∷ start) restrict name = elim (scope (c ∷ start) fs) [
  | [] ↦ inv_ident
  | g ∷ gs ↦ collected restrict name (g ∷ gs)
]
