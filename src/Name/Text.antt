-- ===== src/Name/Text.antt =====
-- src/services/name/name-support.c: names as texts.
pub mod RoundTrip
use orbit.Base.{
  ℕ, Bool, true, false, not, ◌||◌, ◌&&◌, Option, none, some, List, [], ◌∷◌, ◌++◌, ◌==◌,
  if◌then◌else◌,
}
use orbit.Name.{Component, Name}

abbrev pub is_special : ℕ → Bool
is_special c = c == b'\\' || c == b'.' || c == b'/'

abbrev pub is_nil : List ℕ → Bool
is_nil [] = true
is_nil (c ∷ cs) = false

-- The loop of `ORBit_CosNaming_NameComponent_to_string` over `comp->id`, or over `comp->kind`.
abbrev pub escape : List ℕ → List ℕ
escape [] = []
escape (c ∷ s) = let rest = c ∷ escape s in if is_special c then b'\\' ∷ rest else rest

unfoldable pub component_to_string : Component → List ℕ
component_to_string c =
    if is_nil c.id && is_nil c.kind
    then b'.' ∷ []
    else escape c.id ++ (if is_nil c.kind then [] else b'.' ∷ escape c.kind)

-- `ORBit_CosNaming_Name_to_string`
unfoldable pub name_to_string : Name → List ℕ
name_to_string [] = []
name_to_string (c ∷ cs) = b'/' ∷ (component_to_string c ++ name_to_string cs)

-- What `ORBit_string_to_CosNaming_Name` keeps: the components below `pos`, those of the arrays at
-- `pos`, whether `append_to` is `kinds`, and `used`.
pub record Parse : Type 0 where
  pub before : Name
  pub id : List ℕ
  pub kind : List ℕ
  pub in_kind : Bool
  pub used : Bool

abbrev pub current : Parse → Component
current p = record { id = p.id; kind = p.kind }

-- `g_string_append_c`
abbrev pub append_c : ℕ → Parse → Parse
append_c c p =
    if p.in_kind then record p { kind = p.kind ++ c ∷ [] } else record p { id = p.id ++ c ∷ [] }

abbrev pub on_slash : Parse → Parse
on_slash p =
    if p.used
    then record {
      before = p.before ++ current p ∷ [];
      id = [];
      kind = [];
      in_kind = false;
      used = false;
    }
    else record p { in_kind = false }

abbrev pub finished : Parse → Name
finished p = if p.used then p.before ++ current p ∷ [] else p.before

abbrev pub fresh : Parse
fresh = record { before = []; id = []; kind = []; in_kind = false; used = false }

-- The loop over the text; `none` is its NULL, which it returns without an exception.
unfoldable mutual
  pub parse_from : List ℕ → Parse → Option Name
  parse_from [] p = some (finished p)
  parse_from (c ∷ s) p = elim (c == b'.') [
    | true ↦ elim p.in_kind [
      | true ↦ none
      | false ↦ parse_from s (record p { in_kind = true; used = true })
    ]
    | false ↦ elim (c == b'/') [
      | true ↦ parse_from s (on_slash p)
      | false ↦ elim (c == b'\\') [
        | true ↦ parse_escaped s p
        | false ↦ parse_from s (append_c c (record p { used = true }))
      ]
    ]
  ]

  -- Behind a backslash.
  pub parse_escaped : List ℕ → Parse → Option Name
  parse_escaped [] p = none
  parse_escaped (c ∷ s) p = elim (is_special c) [
    | true ↦ parse_from s (append_c c p)
    | false ↦ none
  ]

-- `ORBit_string_to_CosNaming_Name`
unfoldable pub string_to_name : List ℕ → Option Name
string_to_name s = parse_from s fresh
