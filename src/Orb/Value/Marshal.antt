-- ===== src/Orb/Value/Marshal.antt =====
-- src/orb/orb-core/corba-any.c: values are appended to a message as the bytes that stand for them.
use orbit.Base.{
  ℕ, zero, suc, ◌+◌, Bool, Option, none, some, List, [], ◌∷◌, ◌++◌, ◌==◌, length, if◌then◌else◌,
}
use orbit.Giop.SendBuffer.Memory.{SendBuffer, constant, append_aligned, align}
use orbit.Giop.SendBuffer.Requests.{Setting, append_value, append_string}
use orbit.Orb.Words.{to_bytes}
use orbit.Orb.TypeCode.{
  size, TypeCode, Types, Cases, word, string, sequence, array, struct, union, alias, field, over,
  case, is_octet,
}
use orbit.Orb.Value.{Value, Values, number, text, items, choice, nil, cons, count, chosen}

-- The block of bytes that a list of octets is.
abbrev pub octet_of : Value → ℕ
octet_of (number x) = x
octet_of v = 0

abbrev pub octets : Values → List ℕ
octets nil = []
octets (cons v vs) = octet_of v ∷ octets vs

abbrev pub marshal_all : (Value → SendBuffer → SendBuffer) → Values → SendBuffer → SendBuffer
marshal_all one nil buf = buf
marshal_all one (cons v vs) buf = marshal_all one vs (one v buf)

module _ (t : Setting) where
  -- The cases of `ORBit_marshal_value` for words.
  unfoldable pub marshal_word : ℕ → ℕ → SendBuffer → SendBuffer
  marshal_word n x buf =
      if n == 1 then append_value t buf (x ∷ []) else append_aligned t.gap buf (to_bytes t.host n x)

  -- The elements of a sequence or an array.
  abbrev pub marshal_elements :
      Bool → (Value → SendBuffer → SendBuffer) → Values → SendBuffer → SendBuffer
  marshal_elements block one vs buf =
      if block then append_value t buf (octets vs) else marshal_all one vs buf

  -- `ORBit_marshal_value`, without its cases for any, object references, type codes, principals and wide
  -- strings, whose type codes are not modelled. A kind that it cannot encode is a g_error, after which nothing is sent.
  unfoldable mutual
    pub marshal_value : TypeCode → Value → SendBuffer → SendBuffer
    marshal_value (word k) (number x) buf = marshal_word (size k) x buf
    marshal_value string (text s) buf =
        append_string t buf (record { place = constant (s ++ 0 ∷ []); offset = 0 }) (length s + 1)
    marshal_value (sequence tc) (items vs) buf =
        marshal_elements (is_octet tc) (marshal_value tc) vs
          (append_value t (align t.gap buf 4) (to_bytes t.host 4 (count vs)))
    marshal_value (array n tc) (items vs) buf =
        marshal_elements (is_octet tc) (marshal_value tc) vs buf
    marshal_value (struct ts) (items vs) buf = marshal_fields ts vs buf
    marshal_value (union k d cs) (choice x v) buf =
        marshal_case (chosen k d cs x) cs v (marshal_word (size k) x buf)
    marshal_value (alias tc) v buf = marshal_value tc v buf
    marshal_value tc v buf = buf

    pub marshal_fields : Types → Values → SendBuffer → SendBuffer
    marshal_fields (field tc ts) (cons v vs) buf = marshal_fields ts vs (marshal_value tc v buf)
    marshal_fields ts vs buf = buf

    pub marshal_case : Option ℕ → Cases → Value → SendBuffer → SendBuffer
    marshal_case none cs v buf = buf
    marshal_case (some i) over v buf = buf
    marshal_case (some zero) (case l tc cs) v buf = marshal_value tc v buf
    marshal_case (some (suc i)) (case l tc cs) v buf = marshal_case (some i) cs v buf
