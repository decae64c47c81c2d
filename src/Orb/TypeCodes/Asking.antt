-- ===== src/Orb/TypeCodes/Asking.antt =====
-- src/orb/orb-core/corba-typecode.c: what a program can ask of a type code. `overread` stands for a read
-- behind an array, or through a null pointer; `aborted` for an assertion that fails.
use orbit.Base.{
  ℕ, zero, suc, ◌<◌, ◌≤◌, ◌≡◌, refl, ap, ◌∙◌, Bool, true, false, not, ◌||◌, List, [], ◌∷◌, ◌==◌,
  if◌then◌else◌, ltb, length, arith,
}
use orbit.Orb.TypeCodes.{CodeStruct, Codes, no_codes, codes, scalars, discriminator, subtypes}

pub data Asked (A : Type 0) : Type 0 where
  answered : A → Asked A
  bad_kind bounds overread aborted : Asked A

abbrev pub count : Codes → ℕ
count no_codes = 0
count (codes c cs) = suc (count cs)

abbrev pub sub_parts : CodeStruct → ℕ
sub_parts t = if (scalars t).kind == 17 then length (scalars t).subnames else count (subtypes t)

abbrev pub code_at : ℕ → Codes → Asked CodeStruct
code_at n no_codes = overread
code_at zero (codes c cs) = answered c
code_at (suc n) (codes c cs) = code_at n cs

module _ {A : Type 0} where
  abbrev pub item_at : ℕ → List A → Asked A
  item_at n [] = overread
  item_at zero (x ∷ xs) = answered x
  item_at (suc n) (x ∷ xs) = item_at n xs

-- The kinds with members, and those with an id and a name; the last ones are the value types, native
-- and abstract interfaces.
abbrev pub has_members : ℕ → Bool
has_members k = k == 15 || (k == 16 || (k == 29 || (k == 17 || k == 22)))

abbrev pub has_id : ℕ → Bool
has_id k = k == 14 || (has_members k || (k == 21 || (k == 30 || (k == 31 || k == 32))))

-- `CORBA_TypeCode_kind`
abbrev pub typecode_kind : CodeStruct → ℕ
typecode_kind t = (scalars t).kind

-- `CORBA_TypeCode_id`
unfoldable pub typecode_id : CodeStruct → Asked (List ℕ)
typecode_id t = if has_id (scalars t).kind then answered (scalars t).repo_id else bad_kind

-- `CORBA_TypeCode_name`
unfoldable pub typecode_name : CodeStruct → Asked (List ℕ)
typecode_name t = if has_id (scalars t).kind then answered (scalars t).name else bad_kind

-- `CORBA_TypeCode_member_count`
unfoldable pub member_count : CodeStruct → Asked ℕ
member_count t = if has_members (scalars t).kind then answered (sub_parts t) else bad_kind

-- `CORBA_TypeCode_member_name`
unfoldable pub member_name : CodeStruct → ℕ → Asked (List ℕ)
member_name t index =
    if not (has_members (scalars t).kind)
    then bad_kind
    else if ltb (sub_parts t) index
    then bounds
    else item_at index (scalars t).subnames

-- `CORBA_TypeCode_member_type`
unfoldable pub member_type : CodeStruct → ℕ → Asked CodeStruct
member_type t index =
    if not (has_members (scalars t).kind)
    then bad_kind
    else if ltb (sub_parts t) index
    then bounds
    else code_at index (subtypes t)

-- `CORBA_TypeCode_member_label`: the label, which goes into an any with the type of the discriminator.
unfoldable pub member_label : CodeStruct → ℕ → Asked ℕ
member_label t index =
    if not ((scalars t).kind == 16)
    then bad_kind
    else if ltb (sub_parts t) index
    then bounds
    else item_at index (scalars t).sublabels

-- `CORBA_TypeCode_discriminator_type`
unfoldable pub discriminator_type : CodeStruct → Asked CodeStruct
discriminator_type t = if (scalars t).kind == 16 then code_at 0 (discriminator t) else bad_kind

-- `CORBA_TypeCode_default_index`
unfoldable pub typecode_default_index : CodeStruct → Asked ℕ
typecode_default_index t =
    if (scalars t).kind == 16 then answered (scalars t).default_index else bad_kind

-- `CORBA_TypeCode_length`
unfoldable pub typecode_length : CodeStruct → Asked ℕ
typecode_length t =
    let k = (scalars t).kind in
    if k == 18 || (k == 27 || (k == 19 || k == 20)) then answered (scalars t).length else bad_kind

-- `CORBA_TypeCode_content_type`
unfoldable pub content_type : CodeStruct → Asked CodeStruct
content_type t =
    let k = (scalars t).kind in
    if not (k == 19 || (k == 20 || (k == 30 || k == 21)))
    then bad_kind
    else if sub_parts t == 1
    then code_at 0 (subtypes t)
    else aborted

-- `CORBA_TypeCode_fixed_digits` and `CORBA_TypeCode_fixed_scale`
unfoldable pub fixed_digits : CodeStruct → Asked ℕ
fixed_digits t = if (scalars t).kind == 28 then answered (scalars t).digits else bad_kind

unfoldable pub fixed_scale : CodeStruct → Asked ℕ
fixed_scale t = if (scalars t).kind == 28 then answered (scalars t).scale else bad_kind

code_at-count : (cs : Codes) (n : ℕ) → count cs ≤ n → code_at n cs ≡ overread
code_at-count no_codes n h = refl
code_at-count (codes c cs) zero h = absurd (omega arith)
code_at-count (codes c cs) (suc n) h = code_at-count cs n (omega arith)

code_at_lem : (cs : Codes) (n : ℕ) → n < count cs → (c : CodeStruct) × (code_at n cs ≡ answered c)
code_at_lem no_codes n h = absurd (omega arith)
code_at_lem (codes c cs) zero h = (c, refl)
code_at_lem (codes c cs) (suc n) h = code_at_lem cs n (omega arith)

item_at-length : {A : Type 0} (xs : List A) (n : ℕ) → length xs ≤ n → item_at n xs ≡ overread
item_at-length [] n h = refl
item_at-length (x ∷ xs) zero h = absurd (omega arith)
item_at-length (x ∷ xs) (suc n) h = item_at-length xs n (omega arith)

item_at_lem :
    {A : Type 0} (xs : List A) (n : ℕ) → n < length xs → (x : A) × (item_at n xs ≡ answered x)
item_at_lem [] n h = absurd (omega arith)
item_at_lem (x ∷ xs) zero h = (x, refl)
item_at_lem (x ∷ xs) (suc n) h = item_at_lem xs n (omega arith)

-- What an answer to `member_count` tells.
counted :
    (b : Bool) (p n : ℕ) → (if b then answered p else bad_kind) ≡ answered n → (b ≡ true) × (p ≡ n)
counted true p n e = (
  refl,
  ap (λ a. elim a [ answered x ↦ x | bad_kind ↦ p | bounds ↦ p | overread ↦ p | aborted ↦ p ]) e,
)
counted false p n e = cc

-- The tests in front of an array, for a kind with members.
module _ {A : Type 0} (x : Asked A) where
  tested : Bool → ℕ → ℕ → Asked A
  tested b p i = if not b then bad_kind else if ltb p i then bounds else x

  tested_within : (b : Bool) (p i : ℕ) → b ≡ true → i ≤ p → tested b p i ≡ x
  unfolding tested
  tested_within b p i e h = ground arith

  tested_behind : (b : Bool) (p i : ℕ) → b ≡ true → p < i → tested b p i ≡ bounds
  unfolding tested
  tested_behind b p i e h = ground arith

-- A type code with as many names as types, for which `member_count` answers `n`, gives a name and
-- a type for every index below `n`, and raises Bounds for every index above `n`; but for the index
-- `n` itself it reads behind its names and behind its types.
pub member-bounds :
    (t : CodeStruct) (n index : ℕ)
    → member_count t ≡ answered n
    → length (scalars t).subnames ≡ n
    → count (subtypes t) ≡ n
    → (index < n
        → ((name : List ℕ) × (member_name t index ≡ answered name))
          × ((type : CodeStruct) × (member_type t index ≡ answered type)))
      × ((member_name t n ≡ overread) × (member_type t n ≡ overread))
      × (n < index → (member_name t index ≡ bounds) × (member_type t index ≡ bounds))
unfolding member_count member_name member_type tested
member-bounds t n index h names types =
    let (b, p) = counted (has_members (scalars t).kind) (sub_parts t) n h in
    let k = has_members (scalars t).kind in
    let m = sub_parts t in
    (
      λ i.
          (let (x, e) = item_at_lem (scalars t).subnames index (omega arith) in
            let (c, f) = code_at_lem (subtypes t) index (omega arith) in
            (
              (x, tested_within _ k m index b (omega arith) ∙ e),
              (c, tested_within _ k m index b (omega arith) ∙ f),
            )),
      (
        tested_within _ k m n b (omega arith) ∙ item_at-length (scalars t).subnames n (omega arith),
        tested_within _ k m n b (omega arith) ∙ code_at-count (subtypes t) n (omega arith),
      ),
      λ i. (tested_behind _ k m index b (omega arith), tested_behind _ k m index b (omega arith)),
    )
