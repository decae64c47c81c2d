-- ===== src/Orb/Value/Bounds.antt =====
-- src/orb/orb-core/corba-any.c: what `ORBit_demarshal_value` makes of bytes that nobody vouches for.
use orbit.Base.{
  ℕ, zero, suc, ◌+◌, ◌-◌, ◌<◌, ◌≤◌, ◌≡◌, refl, sym, ap, subst, ◌∙◌, Bool, true, false, Option, none,
  some, List, [], ◌∷◌, ◌++◌, ◌==◌, length, arith, leb, ltb, Bool-cases, inl, inr, drop, drop-drop,
  if◌then◌else◌,
}
use orbit.Giop.Wire.{sender}
use orbit.Giop.Reader.{
  done, broken, fault, Reader, Wire, ◌>>=◌, ◌>>◌, pure, need_len, advance, copy_octets,
}
use orbit.Giop.Demarshal.Safety.{Within, outcome-Within, UpTo}
use orbit.Orb.TypeCode.{
  Kind, size, TypeCode, Types, Cases, word, null, string, fixed, sequence, array, struct, union,
  alias, field, over, case, is_octet, union_switch, union_tag,
}
use orbit.Orb.Value.{Value, number, text, items, choice, cons, AllText, IsSwitch, encode_word}
use orbit.Orb.Value.Reading.{bind_done, drop-append, word-Decodes}
use orbit.Orb.Value.Demarshal.{
  load, demarshal_word, dup, string_dup, string_of, demarshal_string, repeat, numbers,
  demarshal_elements, demarshal_value, demarshal_fields, demarshal_case, switched,
}

-- The code can read the discriminators of all unions.
unfoldable mutual
  pub IsReadable : TypeCode → Type 0
  IsReadable (sequence t) = IsReadable t
  IsReadable (array n t) = IsReadable t
  IsReadable (struct ts) = AreReadable ts
  IsReadable (union k d cs) = ((x : ℕ) → IsSwitch (union_switch k x)) × HaveReadable cs
  IsReadable (alias t) = IsReadable t
  IsReadable t = Unit

  pub AreReadable : Types → Type 0
  AreReadable (field t ts) = IsReadable t × AreReadable ts
  AreReadable ts = Unit

  pub HaveReadable : Cases → Type 0
  HaveReadable (case l t cs) = IsReadable t × HaveReadable cs
  HaveReadable over = Unit

dup-found :
    (xs : List ℕ) (n : ℕ) (rest : List ℕ) → drop n xs ≡ 0 ∷ rest → (s : List ℕ) × (dup xs ≡ done s)
dup-found [] zero rest e = cc
dup-found [] (suc n) rest e = cc
dup-found (zero ∷ xs) n rest e = ([], refl)
dup-found (suc x ∷ xs) zero rest e = cc
dup-found (suc x ∷ xs) (suc n) rest e =
    let (s, found) = dup-found xs n rest e in (suc x ∷ s, rw (found) refl)

module _ (w : Wire) (room : w.end ≤ length w.mem) where
  then-Within :
      {A B : Type 0} (m : Reader A) (k : A → Reader B) (c : ℕ)
      → Within (UpTo w.end) (m w c)
      → ((a : A) (c1 : ℕ) → c1 ≤ w.end → Within (UpTo w.end) (k a w c1))
      → Within (UpTo w.end) ((m >>= k) w c)
  then-Within m k c p q = outcome-Within (UpTo w.end) (UpTo w.end) (m w c) (λ a c1. k a w c1) p q

  map-Within :
      {A B : Type 0} (m : Reader A) (f : A → B) (c : ℕ)
      → Within (UpTo w.end) (m w c)
      → Within (UpTo w.end) ((m >>= λ x. pure (f x)) w c)
  map-Within m f c p = then-Within m (λ x. pure (f x)) c p (λ a c1 h. h)

  word-Within : (n c : ℕ) → Within (UpTo w.end) (demarshal_word n w c)
  unfolding demarshal_word load
  word-Within n c = ground arith

  octets-Within : (n c : ℕ) → Within (UpTo w.end) (copy_octets n w c)
  unfolding copy_octets
  octets-Within n c = ground arith

  repeat-Within :
      (m : Reader Value)
      → ((c : ℕ) → c ≤ w.end → Within (UpTo w.end) (m w c))
      → (n c : ℕ) → c ≤ w.end
      → Within (UpTo w.end) (repeat n m w c)
  repeat-Within m each zero c h = h
  repeat-Within m each (suc n) c h =
      then-Within m (λ v. repeat n m >>= λ vs. pure (cons v vs)) c (each c h)
        (λ v c1 h1. map-Within (repeat n m) (λ vs. cons v vs) c1 (repeat-Within m each n c1 h1))

  elements-Within :
      (block : Bool) (n : ℕ) (m : Reader Value)
      → ((c : ℕ) → c ≤ w.end → Within (UpTo w.end) (m w c))
      → (c : ℕ) → c ≤ w.end
      → Within (UpTo w.end) (demarshal_elements block n m w c)
  unfolding demarshal_elements
  elements-Within block n m each c h = elim (Bool-cases (n == 0)) [
    | inl empty ↦ rw (empty) h
    | inr more ↦ rw (more) (by_kind block)
  ]
    where
      by_kind :
          (b : Bool)
          → Within
              (UpTo w.end)
              ((if b then copy_octets n >>= (λ bs. pure (numbers bs)) else repeat n m) w c)
      by_kind true = map-Within (copy_octets n) numbers c (octets-Within n c)
      by_kind false = repeat-Within m each n c h

  -- A 0 stands right behind the message.
  module _ (rest : List ℕ) (ended : drop w.end w.mem ≡ 0 ∷ rest) where
    string_dup-found : (c : ℕ) → c ≤ w.end → (s : List ℕ) × (string_dup w c ≡ done (s, c))
    string_dup-found c h =
        let (s, found) =
          dup-found (drop c w.mem) (w.end - c) rest
            (drop-drop c (w.end - c) w.mem ∙ ap (λ n. drop n w.mem) (omega arith) ∙ ended) in
        (s, ap (λ r. elim r [ done x ↦ done (x, c) | broken ↦ broken | fault ↦ fault ]) found)

    text-Within : (i c : ℕ) → c ≤ w.end → Within (UpTo w.end) (string_of i w c)
    text-Within i c h = elim (Bool-cases (leb 0x80000000 i)) [
      | inl negative ↦ rw (negative) tt
      | inr positive ↦ rw (positive) (
          outcome-Within (λ _ c1. c1 + i ≤ w.end) (UpTo w.end) (need_len i w c)
            (λ _ c1. (string_dup >>= λ x. advance i >> pure x) w c1) (ground arith)
            (λ _ c1 near.
              let (s, copied) = string_dup-found c1 (omega arith) in
              subst (Within (UpTo w.end))
                (sym (bind_done string_dup (λ x. advance i >> pure x) w c1 c1 s copied)) near))
    ]

    switch-Within :
        (o d : Option ℕ) (cs : Cases)
        → IsSwitch o
        → (c : ℕ) → ((i : Option ℕ) → Within (UpTo w.end) (demarshal_case i cs w c))
        → Within (UpTo w.end) ((switched o (λ label. demarshal_case (union_tag d cs label) cs)) w c)
    switch-Within none d cs s c each = absurd s
    switch-Within (some label) d cs s c each = each (union_tag d cs label)

    string-Within : (c : ℕ) → Within (UpTo w.end) (demarshal_string w c)
    unfolding demarshal_string
    string-Within c =
        then-Within (demarshal_word 4) string_of c (word-Within 4 c)
          (λ i c1 h1. text-Within i c1 h1)

    mutual
      unfolding demarshal_value IsReadable

      value-Within :
          (tc : TypeCode)
          → IsReadable tc
          → (c : ℕ) → c ≤ w.end
          → Within (UpTo w.end) (demarshal_value tc w c)
      value-Within (word k) r c h =
          map-Within (demarshal_word (size k)) number c (word-Within (size k) c)
      value-Within null r c h = h
      value-Within string r c h = map-Within demarshal_string text c (string-Within c)
      value-Within fixed r c h = tt
      value-Within (sequence t) r c h =
          then-Within (demarshal_word 4)
            (λ n. demarshal_elements (is_octet t) n (demarshal_value t) >>= λ us. pure (items us)) c
            (word-Within 4 c)
            (λ n c1 h1.
              map-Within (demarshal_elements (is_octet t) n (demarshal_value t)) items c1 (
                elements-Within (is_octet t) n (demarshal_value t) (λ c2 h2. value-Within t r c2 h2)
                  c1 h1))
      value-Within (array n t) r c h =
          map-Within (repeat n (demarshal_value t)) items c
            (repeat-Within (demarshal_value t) (λ c2 h2. value-Within t r c2 h2) n c h)
      value-Within (struct ts) r c h =
          map-Within (demarshal_fields ts) items c (fields-Within ts r c h)
      value-Within (union k d cs) r c h =
          then-Within (demarshal_word (size k))
            (λ y.
              (switched (union_switch k y) (λ label. demarshal_case (union_tag d cs label) cs))
              >>= λ u. pure (choice y u))
            c (word-Within (size k) c)
            (λ y c1 h1.
              map-Within
                (switched (union_switch k y) (λ label. demarshal_case (union_tag d cs label) cs))
                (λ u. choice y u) c1
                (switch-Within (union_switch k y) d cs (r.0 y) c1
                  (λ i. case-Within i cs r.1 c1 h1)))
      value-Within (alias t) r c h = value-Within t r c h

      fields-Within :
          (ts : Types)
          → AreReadable ts
          → (c : ℕ) → c ≤ w.end
          → Within (UpTo w.end) (demarshal_fields ts w c)
      fields-Within orbit.Orb.TypeCode.done r c h = h
      fields-Within (field t ts) r c h =
          then-Within (demarshal_value t) (λ u. demarshal_fields ts >>= λ us. pure (cons u us)) c
            (value-Within t r.0 c h)
            (λ u c1 h1.
              map-Within (demarshal_fields ts) (λ us. cons u us) c1 (fields-Within ts r.1 c1 h1))

      case-Within :
          (i : Option ℕ) (cs : Cases)
          → HaveReadable cs
          → (c : ℕ) → c ≤ w.end
          → Within (UpTo w.end) (demarshal_case i cs w c)
      case-Within none cs r c h = h
      case-Within (some i) over r c h = h
      case-Within (some zero) (case l t cs) r c h = value-Within t r.0 c h
      case-Within (some (suc i)) (case l t cs) r c h = case-Within (some i) cs r.1 c h

bind_fault :
    {A B : Type 0} (m : Reader A) (k : A → Reader B) (w : Wire) (c : ℕ)
    → m w c ≡ fault
    → (m >>= k) w c ≡ fault
bind_fault m k w c e =
    ap (λ r. elim r [ done (x, c') ↦ k x w c' | broken ↦ broken | fault ↦ fault ]) e

dup-unended : (s : List ℕ) → AllText s → dup s ≡ fault
dup-unended [] h = refl
dup-unended (zero ∷ s) h = absurd (omega (arith, h.0))
dup-unended (suc b ∷ s) h = rw (dup-unended s h.2) refl

-- A string of as many bytes as its length says, none of them 0, that ends the memory of the
-- message, is read past that memory.
pub string_overread :
    (gap : ℕ → ℕ) (w : Wire) (s : List ℕ) (c : ℕ)
    → AllText s
    → length s < 0x80000000
    → drop c w.mem ≡ encode_word (sender w.flags) gap 4 (length s) c ++ s
    → c + length (encode_word (sender w.flags) gap 4 (length s) c) + length s ≡ w.end
    → w.end ≤ length w.mem
    → demarshal_value string w c ≡ fault
unfolding demarshal_value demarshal_string
string_overread gap w s c h small at end room =
    let bs = encode_word (sender w.flags) gap 4 (length s) c in
    let c1 = c + length bs in
    let behind : drop c1 w.mem ≡ s =
      sym (drop-drop c (length bs) w.mem) ∙ ap (drop (length bs)) at ∙ drop-append bs s in
    let positive : leb 0x80000000 (length s) ≡ false = ground arith in
    let enough : ltb w.end (c1 + length s) ≡ false = ground arith in
    let forward : ltb (c1 + length s) c1 ≡ false = ground arith in
    let copied : string_dup w c1 ≡ fault =
      ap (λ r. elim r [ done x ↦ done (x, c1) | broken ↦ broken | fault ↦ fault ])
        (ap dup behind ∙ dup-unended s h) in
    let body : string_of (length s) w c1 ≡ fault = rw (positive) (
      bind_done (need_len (length s)) (λ _. string_dup >>= λ x. advance (length s) >> pure x) w c1
        c1 tt (rw (enough, forward) refl)
      ∙ bind_fault string_dup (λ x. advance (length s) >> pure x) w c1 copied) in
    bind_fault (demarshal_word 4 >>= string_of) (λ x. pure (text x)) w c
      (bind_done (demarshal_word 4) string_of w c c1 (length s)
          (word-Decodes gap w room 4 (length s) (omega arith) (omega arith) c (s, at) (omega arith))
        ∙ body)
