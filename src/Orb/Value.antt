-- ===== src/Orb/Value.antt =====
-- src/orb/orb-core/corba-any.c: the values that type codes describe, and what stands for them in a
-- message. The layout of values in memory is not modelled.
pub mod Marshal
pub mod Appends
pub mod Encoding
pub mod Demarshal
pub mod Reading
pub mod Decoding
pub mod RoundTrip
pub mod Bounds
use orbit.Base.{
  ℕ, zero, suc, ◌+◌, ◌*◌, ◌<◌, ◌≡◌, Option, none, some, List, [], ◌∷◌, ◌++◌, ◌==◌, length,
  if◌then◌else◌,
}
use orbit.Giop.Wire.{Endian, align_value}
use orbit.Giop.SendBuffer.Memory.{tabulate}
use orbit.Giop.SendBuffer.Sent.{gap_size}
use orbit.Orb.Words.{to_bytes, bound}
use orbit.Orb.TypeCode.{
  Kind, size, TypeCode, Types, Cases, word, null, string, fixed, sequence, array, struct, union,
  alias, done, field, over, case, union_switch, union_tag,
}

-- A word is its bit pattern, a text its bytes without the final 0; `items` are the elements of a
-- sequence or an array or the members of a structure, and `choice` is the discriminator and the value
-- of a union.
mutual
  pub data Value : Type 0 where
    nothing : Value
    number : ℕ → Value
    text : List ℕ → Value
    items : Values → Value
    choice : ℕ → Value → Value

  pub data Values : Type 0 where
    nil : Values
    cons : Value → Values → Values

abbrev pub count : Values → ℕ
count nil = 0
count (cons v vs) = suc (count vs)

-- The case of a union that is in use.
abbrev pub chosen : Kind → Option ℕ → Cases → ℕ → Option ℕ
chosen k d cs x = elim (union_switch k x) [ none ↦ none | some label ↦ union_tag d cs label ]

module _ (e : Endian) (gap : ℕ → ℕ) where
  abbrev pub pad : ℕ → ℕ → List ℕ
  pad p boundary = tabulate (gap_size p boundary) gap

  abbrev pub encode_word : ℕ → ℕ → ℕ → List ℕ
  encode_word n x p = if n == 1 then x ∷ [] else pad p n ++ to_bytes e n x

  abbrev pub encode_all : (Value → ℕ → List ℕ) → Values → ℕ → List ℕ
  encode_all one nil p = []
  encode_all one (cons v vs) p = let bs = one v p in bs ++ encode_all one vs (p + length bs)

  -- The bytes of a value that begins at place `p` of a message, the padding in front of it included,
  -- as the code lays them out: each word stands at a multiple of its size.
  unfoldable mutual
    pub encode : TypeCode → Value → ℕ → List ℕ
    encode (word k) (number x) p = encode_word (size k) x p
    encode string (text s) p = encode_word 4 (length s + 1) p ++ (s ++ 0 ∷ [])
    encode (sequence t) (items vs) p =
        let bs = encode_word 4 (count vs) p in bs ++ encode_all (encode t) vs (p + length bs)
    encode (array n t) (items vs) p = encode_all (encode t) vs p
    encode (struct ts) (items vs) p = encode_fields ts vs p
    encode (union k d cs) (choice x v) p =
        let bs = encode_word (size k) x p in
        bs ++ encode_case (chosen k d cs x) cs v (p + length bs)
    encode (alias t) v p = encode t v p
    encode t v p = []

    pub encode_fields : Types → Values → ℕ → List ℕ
    encode_fields (field t ts) (cons v vs) p =
        let bs = encode t v p in bs ++ encode_fields ts vs (p + length bs)
    encode_fields ts vs p = []

    pub encode_case : Option ℕ → Cases → Value → ℕ → List ℕ
    encode_case none cs v p = []
    encode_case (some i) over v p = []
    encode_case (some zero) (case l t cs) v p = encode t v p
    encode_case (some (suc i)) (case l t cs) v p = encode_case (some i) cs v p

abbrev pub AllText : List ℕ → Type 0
AllText [] = Unit
AllText (c ∷ cs) = (0 < c) × (c < 256) × AllText cs

abbrev pub AllHave : (Value → Type 0) → Values → Type 0
AllHave P nil = Unit
AllHave P (cons v vs) = P v × AllHave P vs

-- The discriminator has a kind that the code can read.
abbrev pub IsSwitch : Option ℕ → Type 0
IsSwitch none = ⊥
IsSwitch (some label) = Unit

-- A value of a type: words fit their size, texts hold no 0 and are shorter than 2 ^ 31 bytes, a
-- sequence has less than 2 ^ 32 elements and an array as many as its type says, one at least.
unfoldable mutual
  pub HasType : TypeCode → Value → Type 0
  HasType (word k) (number x) = x < bound (size k)
  HasType null nothing = Unit
  HasType string (text s) = AllText s × (length s + 1 < 0x80000000)
  HasType (sequence t) (items vs) = AllHave (HasType t) vs × (count vs < bound 4)
  HasType (array n t) (items vs) = AllHave (HasType t) vs × (count vs ≡ n) × (0 < n)
  HasType (struct ts) (items vs) = HaveTypes ts vs
  HasType (union k d cs) (choice x v) =
      (x < bound (size k)) × IsSwitch (union_switch k x) × HasCase (chosen k d cs x) cs v
  HasType (alias t) v = HasType t v
  HasType t v = ⊥

  pub HaveTypes : Types → Values → Type 0
  HaveTypes done nil = Unit
  HaveTypes (field t ts) (cons v vs) = HasType t v × HaveTypes ts vs
  HaveTypes ts vs = ⊥

  pub HasCase : Option ℕ → Cases → Value → Type 0
  HasCase none cs nothing = Unit
  HasCase (some zero) (case l t cs) v = HasType t v
  HasCase (some (suc i)) (case l t cs) v = HasCase (some i) cs v
  HasCase i cs v = ⊥
