-- ===== src/Orb/TypeCodes/Tests.antt =====
-- src/orb/orb-core/corba-typecode.c at concrete type codes.
use orbit.Base.{ℕ, ◌≡◌, refl, List, [], ◌∷◌, true, false, ◌↔◌, ◌<◌, arith}
use orbit.Orb.TypeCodes.{
  Scalars, CodeStruct, code, no_codes, codes, typecode_equiv, typecode_equal, typecode_equivalent,
}
use orbit.Orb.TypeCodes.Shapes.{bare}
use orbit.Orb.TypeCodes.Equality.{HasDiscriminators, typecode_equiv-bare}
use orbit.Orb.TypeCodes.Asking.{
  member_name, member_type, member_count, answered, overread, bounds, member-bounds,
}

abbrev of_kind : ℕ → List ℕ → List (List ℕ) → Scalars
of_kind k id names = record {
  kind = k;
  length = 0;
  name = id;
  repo_id = id;
  subnames = names;
  sublabels = [];
  default_index = 0;
  recurse_depth = 0;
  digits = 0;
  scale = 0;
}

abbrev long : CodeStruct
long = code (of_kind 3 [] []) no_codes no_codes

abbrev named : CodeStruct
named = code (of_kind 21 (b'L' ∷ []) []) no_codes (codes long no_codes)

-- struct S { long a; }, and the same with an alias and another name for the member.
abbrev plain : CodeStruct
plain = code (of_kind 15 (b'S' ∷ []) ((b'a' ∷ []) ∷ [])) no_codes (codes long no_codes)

abbrev aliased : CodeStruct
aliased = code (of_kind 15 (b'S' ∷ []) ((b'b' ∷ []) ∷ [])) no_codes (codes named no_codes)

equivalent : typecode_equivalent plain aliased ≡ true
unfolding typecode_equiv
equivalent = refl

not_equal : typecode_equal plain aliased ≡ false
unfolding typecode_equiv
not_equal = refl

-- union U switch (long) { case 1: long a; }, and the same with an alias.
abbrev a_union : CodeStruct → CodeStruct
a_union member =
    code (record (of_kind 16 (b'U' ∷ []) ((b'a' ∷ []) ∷ [])) { sublabels = 1 ∷ [] })
      (codes long no_codes) (codes member no_codes)

long-HasDiscriminators : HasDiscriminators long
unfolding HasDiscriminators
long-HasDiscriminators = (λ e. absurd (omega arith), tt, tt)

a_union-HasDiscriminators : HasDiscriminators (a_union long)
unfolding HasDiscriminators
a_union-HasDiscriminators = (λ e. refl, (long-HasDiscriminators, tt), (long-HasDiscriminators, tt))

typecode_equiv-bare_example :
    (typecode_equiv false (a_union long) (a_union named) ≡ true)
    ↔ (bare false (a_union long) ≡ bare false (a_union named))
typecode_equiv-bare_example =
    typecode_equiv-bare false (a_union long) (a_union named) a_union-HasDiscriminators

one_member : member_count plain ≡ answered 1
unfolding member_count
one_member = refl

member-bounds_example :
    (0 < 1
      → ((name : List ℕ) × (member_name plain 0 ≡ answered name))
        × ((type : CodeStruct) × (member_type plain 0 ≡ answered type)))
    × ((member_name plain 1 ≡ overread) × (member_type plain 1 ≡ overread))
    × (1 < 0 → (member_name plain 0 ≡ bounds) × (member_type plain 0 ≡ bounds))
member-bounds_example = member-bounds plain 1 0 one_member refl refl
