-- ===== src/Orb/TypeCodes.antt =====
-- src/orb/orb-core/corba-typecode.c: type codes as objects, when two of them are equal or equivalent,
-- and what a program can ask of them. A type code is a finite tree: a type that contains itself has
-- `CORBA_tk_recursive` in it, or is not compared.
pub mod Shapes
pub mod Equality
pub mod Asking
mod Tests
use orbit.Base.{
  ℕ, Bool, true, false, not, ◌&&◌, ◌||◌, List, [], ◌∷◌, ◌==◌, if◌then◌else◌, same_text,
}

-- The fields of `struct CORBA_TypeCode_struct` that are not type codes. `kind` is the number of a
-- `CORBA_TCKind`; a label is its bit pattern.
pub record Scalars : Type 0 where
  pub kind : ℕ
  pub length : ℕ
  pub name : List ℕ
  pub repo_id : List ℕ
  pub subnames : List (List ℕ)
  pub sublabels : List ℕ
  pub default_index : ℕ
  pub recurse_depth : ℕ
  pub digits : ℕ
  pub scale : ℕ

-- The whole struct: its `discriminator`, one for a union and none otherwise, and its `subtypes`.
-- `sub_parts` is the number of the latter, and for an enumeration that of the names: so `tc_dec` makes
-- them. A sequence, an array and an alias have one subtype.
mutual
  pub data CodeStruct : Type 0 where
    code : Scalars → Codes → Codes → CodeStruct

  pub data Codes : Type 0 where
    no_codes : Codes
    codes : CodeStruct → Codes → Codes

abbrev pub scalars : CodeStruct → Scalars
scalars (code o d cs) = o

abbrev pub discriminator : CodeStruct → Codes
discriminator (code o d cs) = d

abbrev pub subtypes : CodeStruct → Codes
subtypes (code o d cs) = cs

-- The cases of the switch over the kind.
pub data Case : Type 0 where
  bounded objref members union enumeration repeated alias recursive fixed primitive : Case

abbrev pub case_of : ℕ → Case
case_of k =
    if k == 18 || k == 27
    then bounded
    else if k == 14
    then objref
    else if k == 15 || k == 22
    then members
    else if k == 16
    then union
    else if k == 17
    then enumeration
    else if k == 19 || k == 20
    then repeated
    else if k == 21
    then alias
    else if k == 0xffffffff
    then recursive
    else if k == 28
    then fixed
    else primitive

-- An alias, with its subtype.
abbrev pub is_named : Scalars → Codes → Bool
is_named o no_codes = false
is_named o (codes c cs) = o.kind == 21

-- The loop over the aliases at the top of a type code.
abbrev pub unaliased : CodeStruct → CodeStruct
unaliased (code o d no_codes) = code o d no_codes
unaliased (code o d (codes c cs)) =
    let inner = unaliased c in if is_named o (codes c cs) then inner else code o d (codes c cs)

abbrev pub seen : Bool → CodeStruct → CodeStruct
seen strict t = if strict then t else unaliased t

-- The loop over the names of an enumeration, or the labels of a union.
abbrev pub same_names : List (List ℕ) → List (List ℕ) → Bool
same_names [] [] = true
same_names (a ∷ ns) (b ∷ ms) = same_text a b && same_names ns ms
same_names ns ms = false

-- The switch, where the kinds are the same: `discs` and `subs` are what comes of the discriminators and
-- of the loop over the subtypes.
abbrev pub same_case : Case → Scalars → Scalars → Bool → Bool → Bool
same_case bounded o t discs subs = o.length == t.length
same_case objref o t discs subs = same_text o.repo_id t.repo_id
same_case members o t discs subs = same_text o.repo_id t.repo_id && subs
same_case union o t discs subs =
    same_text o.repo_id t.repo_id
    && (discs
        && (o.default_index == t.default_index && (subs && same_text o.sublabels t.sublabels)))
same_case enumeration o t discs subs =
    same_text o.repo_id t.repo_id && same_names o.subnames t.subnames
same_case repeated o t discs subs = o.length == t.length && subs
same_case alias o t discs subs = same_text o.repo_id t.repo_id && subs
same_case recursive o t discs subs = o.recurse_depth == t.recurse_depth
same_case fixed o t discs subs = o.digits == t.digits && o.scale == t.scale
same_case primitive o t discs subs = true

abbrev pub is_there : Codes → Bool
is_there no_codes = false
is_there (codes c cs) = true

-- `typecode_equiv_internal`; a union without a discriminator is not equal to anything.
unfoldable mutual
  pub typecode_equiv : Bool → CodeStruct → CodeStruct → Bool
  typecode_equiv strict (code o d cs) t =
      let inner = first_equiv strict cs t in
      let discs = is_there d && codes_equiv strict d (discriminator (seen strict t)) in
      let subs = codes_equiv strict cs (subtypes (seen strict t)) in
      if not strict && is_named o cs
      then inner
      else o.kind == (scalars (seen strict t)).kind
        && same_case (case_of o.kind) o (scalars (seen strict t)) discs subs

  -- With the alias taken away.
  pub first_equiv : Bool → Codes → CodeStruct → Bool
  first_equiv strict no_codes t = false
  first_equiv strict (codes c cs) t = typecode_equiv strict c t

  pub codes_equiv : Bool → Codes → Codes → Bool
  codes_equiv strict no_codes no_codes = true
  codes_equiv strict (codes c cs) (codes e es) =
      typecode_equiv strict c e && codes_equiv strict cs es
  codes_equiv strict cs es = false

-- `CORBA_TypeCode_equal` and `CORBA_TypeCode_equivalent`
abbrev pub typecode_equal : CodeStruct → CodeStruct → Bool
typecode_equal = typecode_equiv true

abbrev pub typecode_equivalent : CodeStruct → CodeStruct → Bool
typecode_equivalent = typecode_equiv false
