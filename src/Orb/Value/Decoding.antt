-- ===== src/Orb/Value/Decoding.antt =====
-- src/orb/orb-core/corba-any.c: `ORBit_demarshal_value` reads back what stands for a value.
use orbit.Base.{
  ℕ, zero, suc, ◌+◌, ◌≤◌, ◌≡◌, refl, sym, ap, ap₂, ◌∙◌, subst, true, false, Option, none, some,
  List, ◌++◌, ◌==◌, length, arith, Bool-cases, inl, inr, drop,
}
use orbit.Giop.Wire.{sender}
use orbit.Giop.Reader.{done, Wire, ◌>>=◌, pure, copy_octets}
use orbit.Orb.TypeCode.{
  Kind, size, TypeCode, Types, Cases, word, null, string, fixed, sequence, array, struct, union,
  alias, field, over, case, is_octet, union_switch, union_tag, boolean, char, octet,
}
use orbit.Orb.Value.{
  Value, Values, nothing, number, text, items, choice, nil, cons, count, chosen, encode_word,
  encode_all, encode, encode_fields, encode_case, AllHave, IsSwitch, HasType, HaveTypes, HasCase,
}
use orbit.Orb.Value.Marshal.{octet_of, octets}
use orbit.Orb.Value.Encoding.{size_bounds, length-octets, encode_all-octets}
use orbit.Orb.Value.Demarshal.{
  demarshal_word, demarshal_string, repeat, numbers, demarshal_elements, demarshal_value,
  demarshal_fields, demarshal_case, switched,
}
use orbit.Orb.Value.Reading.{
  At, bind_done, Decodes, then-Decodes, pure-Decodes, map-Decodes, word-Decodes, string-Decodes,
  repeat-Decodes, octets-Decodes,
}

number-octet_of :
    (k : TypeCode) (u : Value) → is_octet k ≡ true → HasType k u → number (octet_of u) ≡ u
unfolding HasType
number-octet_of (word k) (number x) e hu = refl
number-octet_of k u e hu = ground arith

numbers-octets :
    (tc : TypeCode) (vs : Values)
    → is_octet tc ≡ true
    → AllHave (HasType tc) vs
    → numbers (octets vs) ≡ vs
numbers-octets tc nil o h = refl
numbers-octets tc (cons v vs) o h =
    ap₂ cons (number-octet_of tc v o h.0) (numbers-octets tc vs o h.1)

module _ (gap : ℕ → ℕ) (w : Wire) (room : w.end ≤ length w.mem) where
  elements-Decodes :
      (tc : TypeCode) (vs : Values)
      → ((v : Value)
          → HasType tc v
          → Decodes w (demarshal_value tc) (encode (sender w.flags) gap tc v) v)
      → AllHave (HasType tc) vs
      → Decodes w
          (demarshal_elements (is_octet tc) (count vs) (demarshal_value tc))
          (encode_all (sender w.flags) gap (encode (sender w.flags) gap tc) vs)
          vs
  unfolding demarshal_elements
  elements-Decodes tc nil each h = pure-Decodes gap w room nil
  elements-Decodes tc (cons v vs) each h = elim (Bool-cases (is_octet tc)) [
    | inl block ↦ λ c at fits.
        let bs = octets (cons v vs) in
        let same : encode_all (sender w.flags) gap (encode (sender w.flags) gap tc) (cons v vs) c
            ≡ bs =
          encode_all-octets (sender w.flags) gap tc (cons v vs) c block h in
        let read : copy_octets (count (cons v vs)) w c ≡ done (bs, c + length bs) =
          (subst (λ n. copy_octets n w c ≡ done (bs, c + length bs)) (length-octets (cons v vs))
            (octets-Decodes gap w room bs c (subst (At w.mem c) same at)
              (omega (arith, ap length same)))) in
        let more : (count (cons v vs) == 0) ≡ false = ground arith in
        rw (more, block, same)
          (bind_done (copy_octets (count (cons v vs))) (λ xs. pure (numbers xs)) w c (c + length bs)
              bs read
            ∙ rw (numbers-octets tc (cons v vs) block h) refl)
    | inr apart ↦
        let more : (count (cons v vs) == 0) ≡ false = ground arith in
        rw (more, apart)
          (repeat-Decodes gap w room (demarshal_value tc) (encode (sender w.flags) gap tc)
            (HasType tc) (cons v vs) each h)
  ]

  -- The value of a union, behind its discriminator.
  switch-Decodes :
      (o : Option ℕ) (d : Option ℕ) (cs : Cases) (v : Value)
      → IsSwitch o
      → ((i : Option ℕ)
          → HasCase i cs v
          → Decodes w (demarshal_case i cs) (encode_case (sender w.flags) gap i cs v) v)
      → HasCase (elim o [ none ↦ none | some label ↦ union_tag d cs label ]) cs v
      → Decodes w
          (switched o (λ label. demarshal_case (union_tag d cs label) cs))
          (encode_case
            (sender w.flags)
            gap
            (elim o [ none ↦ none | some label ↦ union_tag d cs label ])
            cs
            v)
          v
  switch-Decodes none d cs v s each h = absurd s
  switch-Decodes (some label) d cs v s each h = each (union_tag d cs label) h

  mutual
    unfolding encode HasType demarshal_value

    value-Decodes :
        (tc : TypeCode) (v : Value)
        → HasType tc v
        → Decodes w (demarshal_value tc) (encode (sender w.flags) gap tc v) v
    value-Decodes (word k) (number x) h =
        map-Decodes gap w room (demarshal_word (size k)) number
          (encode_word (sender w.flags) gap (size k) x) x
          (word-Decodes gap w room (size k) x (size_bounds k).0 h)
    value-Decodes null nothing h = pure-Decodes gap w room nothing
    value-Decodes string (text s) h =
        map-Decodes gap w room demarshal_string text (encode (sender w.flags) gap string (text s)) s
          (string-Decodes gap w room s h.0 h.1)
    value-Decodes (sequence tc) (items vs) h =
        then-Decodes gap w room (demarshal_word 4)
          (λ n. demarshal_elements (is_octet tc) n (demarshal_value tc) >>= λ us. pure (items us))
          (encode_word (sender w.flags) gap 4 (count vs))
          (encode_all (sender w.flags) gap (encode (sender w.flags) gap tc) vs) (count vs)
          (items vs) (word-Decodes gap w room 4 (count vs) (omega arith) h.1)
          (map-Decodes gap w room (demarshal_elements (is_octet tc) (count vs) (demarshal_value tc))
            items (encode_all (sender w.flags) gap (encode (sender w.flags) gap tc) vs) vs
            (elements-Decodes tc vs (λ v hv. value-Decodes tc v hv) h.0))
    value-Decodes (array n tc) (items vs) h =
        map-Decodes gap w room (repeat n (demarshal_value tc)) items
          (encode_all (sender w.flags) gap (encode (sender w.flags) gap tc) vs) vs
          (rw (sym h.1) (
            repeat-Decodes gap w room (demarshal_value tc) (encode (sender w.flags) gap tc)
              (HasType tc) vs (λ v hv. value-Decodes tc v hv) h.0))
    value-Decodes (struct ts) (items vs) h =
        map-Decodes gap w room (demarshal_fields ts) items
          (encode_fields (sender w.flags) gap ts vs) vs (fields-Decodes ts vs h)
    value-Decodes (union k d cs) (choice x v) h =
        then-Decodes gap w room (demarshal_word (size k))
          (λ y.
            (switched (union_switch k y) (λ label. demarshal_case (union_tag d cs label) cs))
            >>= λ u. pure (choice y u))
          (encode_word (sender w.flags) gap (size k) x)
          (encode_case (sender w.flags) gap (chosen k d cs x) cs v) x (choice x v)
          (word-Decodes gap w room (size k) x (size_bounds k).0 h.0)
          (map-Decodes gap w room
            (switched (union_switch k x) (λ label. demarshal_case (union_tag d cs label) cs))
            (λ u. choice x u) (encode_case (sender w.flags) gap (chosen k d cs x) cs v) v
            (switch-Decodes (union_switch k x) d cs v h.1 (λ i hi. case-Decodes i cs v hi) h.2))
    value-Decodes (alias tc) v h = value-Decodes tc v h
    value-Decodes tc v h = elim h [ ]

    fields-Decodes :
        (ts : Types) (vs : Values)
        → HaveTypes ts vs
        → Decodes w (demarshal_fields ts) (encode_fields (sender w.flags) gap ts vs) vs
    fields-Decodes orbit.Orb.TypeCode.done nil h = pure-Decodes gap w room nil
    fields-Decodes (field tc ts) (cons v vs) h =
        then-Decodes gap w room (demarshal_value tc)
          (λ u. demarshal_fields ts >>= λ us. pure (cons u us)) (encode (sender w.flags) gap tc v)
          (encode_fields (sender w.flags) gap ts vs) v (cons v vs) (value-Decodes tc v h.0)
          (map-Decodes gap w room (demarshal_fields ts) (λ us. cons v us)
            (encode_fields (sender w.flags) gap ts vs) vs (fields-Decodes ts vs h.1))
    fields-Decodes ts vs h = elim h [ ]

    case-Decodes :
        (i : Option ℕ) (cs : Cases) (v : Value)
        → HasCase i cs v
        → Decodes w (demarshal_case i cs) (encode_case (sender w.flags) gap i cs v) v
    case-Decodes none cs nothing h = pure-Decodes gap w room nothing
    case-Decodes (some zero) (case l tc cs) v h = value-Decodes tc v h
    case-Decodes (some (suc i)) (case l tc cs) v h = case-Decodes (some i) cs v h
    case-Decodes i cs v h = elim h [ ]

-- Demarshalling reads back what `encode` says.
pub demarshal_value-encode :
    (gap : ℕ → ℕ) (w : Wire) (tc : TypeCode) (v : Value) (c : ℕ) (rest : List ℕ)
    → w.end ≤ length w.mem
    → HasType tc v
    → drop c w.mem ≡ encode (sender w.flags) gap tc v c ++ rest
    → c + length (encode (sender w.flags) gap tc v c) ≤ w.end
    → demarshal_value tc w c ≡ done (v, c + length (encode (sender w.flags) gap tc v c))
demarshal_value-encode gap w tc v c rest room h at fits =
    value-Decodes gap w room tc v h c (rest, at) fits
