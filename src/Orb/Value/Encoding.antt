-- ===== src/Orb/Value/Encoding.antt =====
-- src/orb/orb-core/corba-any.c: `ORBit_marshal_value` appends the bytes that stand for the value.
use orbit.Base.{
  ℕ, zero, suc, ◌+◌, ◌<◌, ◌≤◌, ◌≡◌, refl, sym, ap, true, Option, none, some, List, [], ◌∷◌, length,
  arith, length-append, take-length, Bool-cases, inl, inr,
}
use orbit.Giop.SendBuffer.Memory.{SendBuffer, Iovec, u32, constant, bytes_at, align}
use orbit.Giop.Wire.{Endian}
use orbit.Orb.Words.{to_bytes, length-to_bytes}
use orbit.Giop.SendBuffer.Append.{append-Grows}
use orbit.Giop.SendBuffer.Payload.{IsSound, Grows}
use orbit.Giop.SendBuffer.Sent.{align-Grows}
use orbit.Giop.SendBuffer.Requests.{Setting, append_value}
use orbit.Orb.TypeCode.{
  Kind, size, TypeCode, Types, Cases, word, null, string, sequence, array, struct, union, alias,
  done, field, over, case, is_octet, short, ushort, wchar, long, ulong, enumeration, float, double,
  boolean, char, octet, longlong, ulonglong, longdouble,
}
use orbit.Orb.Value.{
  Value, Values, nothing, number, text, items, choice, nil, cons, count, chosen, encode_word,
  encode_all, encode, encode_fields, encode_case, HasType, HaveTypes, HasCase, AllHave,
}
use orbit.Orb.Value.Marshal.{
  octet_of, octets, marshal_word, marshal_elements, marshal_value, marshal_fields, marshal_case,
}
use orbit.Orb.Value.Appends.{
  Appends, then-Grows, then-Appends, none-Appends, word-Appends, header-Appends, string-Appends,
  all-Appends, used-append_value,
}

pub size_bounds : (k : Kind) → (0 < size k) × (size k ≤ 16)
size_bounds short = omega arith
size_bounds ushort = omega arith
size_bounds wchar = omega arith
size_bounds long = omega arith
size_bounds ulong = omega arith
size_bounds enumeration = omega arith
size_bounds float = omega arith
size_bounds double = omega arith
size_bounds boolean = omega arith
size_bounds char = omega arith
size_bounds octet = omega arith
size_bounds longlong = omega arith
size_bounds ulonglong = omega arith
size_bounds longdouble = omega arith

-- Octets have no padding: one by one and as a block they are the same bytes.
pub length-octets : (vs : Values) → length (octets vs) ≡ count vs
length-octets nil = refl
length-octets (cons v vs) = ap suc (length-octets vs)

append_block-Grows :
    (t : Setting) (buf : SendBuffer) (rest : List Iovec) (bs : List ℕ)
    → IsSound t.heap buf rest
    → 0 < length bs + buf.num_indirects_used
    → buf.message_size + length bs < u32
    → Grows t.heap buf rest bs (append_value t buf bs)
append_block-Grows t buf rest bs s used fits =
    let at : bytes_at t.heap (record { place = constant bs; offset = 0 }) (length bs) ≡ bs =
      take-length (length bs) bs refl in
    rw (at) at (
      append-Grows t.heap buf rest (record { place = constant bs; offset = 0 }) (length bs) s
        (omega arith) used fits)

module _ (e : Endian) (gap : ℕ → ℕ) where
  encode-octet_of :
      (tc : TypeCode) (v : Value) (p : ℕ)
      → is_octet tc ≡ true
      → HasType tc v
      → encode e gap tc v p ≡ octet_of v ∷ []
  unfolding encode HasType
  encode-octet_of (word boolean) (number x) p o h = refl
  encode-octet_of (word char) (number x) p o h = refl
  encode-octet_of (word octet) (number x) p o h = refl
  encode-octet_of tc v p o h = ground arith

  pub encode_all-octets :
      (tc : TypeCode) (vs : Values) (p : ℕ)
      → is_octet tc ≡ true
      → AllHave (HasType tc) vs
      → encode_all e gap (encode e gap tc) vs p ≡ octets vs
  encode_all-octets tc nil p o h = refl
  encode_all-octets tc (cons v vs) p o h =
      rw (encode-octet_of tc v p o h.0)
        (ap (λ bs. octet_of v ∷ bs) (encode_all-octets tc vs (p + 1) o h.1))

module _ (t : Setting) where
  -- The elements of a list: a block of no bytes needs a chunk in front of it.
  elements-Grows :
      (tc : TypeCode) (vs : Values)
      → ((v : Value) → HasType tc v → Appends t (encode t.host t.gap tc v) (marshal_value t tc v))
      → AllHave (HasType tc) vs
      → (buf : SendBuffer) (rest : List Iovec) → IsSound t.heap buf rest
      → 0 < count vs + buf.num_indirects_used
      → (let bs = encode_all t.host t.gap (encode t.host t.gap tc) vs (buf.message_size + 12) in
          buf.message_size + length bs + 28 < u32)
      → Grows t.heap buf rest
          (encode_all t.host t.gap (encode t.host t.gap tc) vs (buf.message_size + 12))
          (marshal_elements t (is_octet tc) (marshal_value t tc) vs buf)
  elements-Grows tc vs each h buf rest s used fits = elim (Bool-cases (is_octet tc)) [
    | inl block ↦
        let same = encode_all-octets t.host t.gap tc vs (buf.message_size + 12) block h in
        rw (block, same)
          (append_block-Grows t buf rest (octets vs) s (omega (arith, length-octets vs))
            (omega (arith, ap length same)))
    | inr apart ↦ rw (apart) (
        all-Appends t (encode t.host t.gap tc) (marshal_value t tc) (HasType tc) vs each h buf rest
          s fits)
  ]

  sequence_lem :
      (tc : TypeCode) (vs : Values)
      → ((v : Value) → HasType tc v → Appends t (encode t.host t.gap tc v) (marshal_value t tc v))
      → AllHave (HasType tc) vs
      → Appends t
          (encode t.host t.gap (sequence tc) (items vs))
          (marshal_value t (sequence tc) (items vs))
  unfolding encode marshal_value
  sequence_lem tc vs each h buf rest s fits =
      let p = buf.message_size + 12 in
      let w = to_bytes t.host 4 (count vs) in
      let xs = encode_word t.host t.gap 4 (count vs) p in
      let ys = encode_all t.host t.gap (encode t.host t.gap tc) vs (p + length xs) in
      let buf0 = align t.gap buf 4 in
      let buf1 = append_value t buf0 w in
      let four = length-to_bytes t.host 4 (count vs) in
      let len = length-append xs ys in
      let (rest0, s0, _) = (align-Grows t.gap t.heap buf rest 4 s (omega arith) (omega arith)).0 in
      let used : 0 < buf1.num_indirects_used =
        used-append_value t buf0 rest0 w s0 (omega (arith, four)) (omega (arith, four)) in
      then-Grows t buf buf1 _ rest xs ys s
        (header-Appends t (count vs) buf rest s (omega (arith, len)))
        (λ rest1 s1 size.
          let at : buf1.message_size + 12 ≡ p + length xs = omega (arith, size) in
          rw (sym at) (
            elements-Grows tc vs each h buf1 rest1 s1 (omega arith)
              (rw (at) (omega (arith, size, len)))))

  mutual
    unfolding encode HasType marshal_value

    value_lem :
        (tc : TypeCode) (v : Value)
        → HasType tc v
        → Appends t (encode t.host t.gap tc v) (marshal_value t tc v)
    value_lem (word k) (number x) h = word-Appends t (size k) x (size_bounds k).0 (size_bounds k).1
    value_lem null nothing h = none-Appends t
    value_lem string (text s) h = string-Appends t s
    value_lem (sequence tc) (items vs) h = sequence_lem tc vs (λ v hv. value_lem tc v hv) h.0
    value_lem (array n tc) (items vs) h = λ buf rest s fits.
        elements-Grows tc vs (λ v hv. value_lem tc v hv) h.0 buf rest s (omega (arith, h.1, h.2))
          fits
    value_lem (struct ts) (items vs) h = fields_lem ts vs h
    value_lem (union k d cs) (choice x v) h =
        then-Appends t (encode_word t.host t.gap (size k) x)
          (encode_case t.host t.gap (chosen k d cs x) cs v) (marshal_word t (size k) x)
          (marshal_case t (chosen k d cs x) cs v)
          (word-Appends t (size k) x (size_bounds k).0 (size_bounds k).1)
          (case_lem (chosen k d cs x) cs v h.2)
    value_lem (alias tc) v h = value_lem tc v h
    value_lem tc v h = elim h [ ]

    fields_lem :
        (ts : Types) (vs : Values)
        → HaveTypes ts vs
        → Appends t (encode_fields t.host t.gap ts vs) (marshal_fields t ts vs)
    fields_lem done nil h = none-Appends t
    fields_lem (field tc ts) (cons v vs) h =
        then-Appends t (encode t.host t.gap tc v) (encode_fields t.host t.gap ts vs)
          (marshal_value t tc v) (marshal_fields t ts vs) (value_lem tc v h.0)
          (fields_lem ts vs h.1)
    fields_lem ts vs h = elim h [ ]

    case_lem :
        (i : Option ℕ) (cs : Cases) (v : Value)
        → HasCase i cs v
        → Appends t (encode_case t.host t.gap i cs v) (marshal_case t i cs v)
    case_lem none cs v h = none-Appends t
    case_lem (some i) over v h = none-Appends t
    case_lem (some zero) (case l tc cs) v h = value_lem tc v h
    case_lem (some (suc i)) (case l tc cs) v h = case_lem (some i) cs v h

pub marshal_value-Grows :
    (t : Setting) (tc : TypeCode) (v : Value) (buf : SendBuffer) (rest : List Iovec)
    → HasType tc v
    → IsSound t.heap buf rest
    → (let bs = encode t.host t.gap tc v (buf.message_size + 12) in
        buf.message_size + length bs + 28 < u32)
    → Grows t.heap buf rest
        (encode t.host t.gap tc v (buf.message_size + 12))
        (marshal_value t tc v buf)
marshal_value-Grows t tc v buf rest h s fits = value_lem t tc v h buf rest s fits
