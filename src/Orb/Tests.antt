-- ===== src/Orb/Tests.antt =====
-- src/orb/orb-core/corba-loc.c at concrete locations.
use orbit.Base.{
  ℕ, ◌+◌, ◌<◌, length, ap, ◌≡◌, refl, none, some, List, [], ◌∷◌, ◌++◌, arith, if◌then◌else◌, ◌==◌,
}
use orbit.Giop.Message.{giop_1_2}
use orbit.Giop.Reader.{done, fault}
use orbit.Orb.Text.{Str}
use orbit.Orb.CorbaLoc.{internet, corbaloc_from, corbaloc_parse}
use orbit.Orb.CorbaLoc.Printed.{IsHost, IsDecimal, corbaloc_parse-corbaloc_from}
use orbit.Giop.Wire.{big, little, align_value}
use orbit.Giop.Reader.{Wire}
use orbit.Giop.SendBuffer.Memory.{SendBuffer, Heap, u32}
use orbit.Giop.SendBuffer.Payload.{IsSound}
use orbit.Giop.SendBuffer.Sent.{send_buffer_use-IsSound}
use orbit.Giop.SendBuffer.Requests.{Setting, send_buffer_use}
use orbit.Orb.TypeCode.{
  TypeCode, Types, Cases, word, string, sequence, array, struct, union, field, over, case, octet,
  long, short, ushort, double, union_switch, union_tag, gather_alloc_info, c_align, size,
  union_overrun,
}
use orbit.Orb.Value.{Value, number, text, items, choice, nil, cons, encode, HasType}
use orbit.Orb.Value.Marshal.{marshal_value}
use orbit.Orb.Value.Demarshal.{demarshal_value}
use orbit.Orb.Value.RoundTrip.{arrived, demarshal_value-marshal_value}
use orbit.Orb.Value.Bounds.{string_overread}

-- Splitting at commas, and printing the port 80.
abbrev split_commas_from : Str → Str → List Str
split_commas_from acc [] = acc ∷ []
split_commas_from acc (c ∷ cs) =
    let more = split_commas_from (acc ++ c ∷ []) cs in
    let next = split_commas_from [] cs in if c == b',' then acc ∷ next else more

abbrev split_commas : Str → List Str
split_commas [] = []
split_commas (c ∷ cs) = split_commas_from [] (c ∷ cs)

abbrev decimal_80 : ℕ → Str
decimal_80 n = b'8' ∷ b'0' ∷ []

abbrev a_host : Str
a_host = b'h' ∷ []

a_host-IsHost : IsHost a_host
a_host-IsHost = record { some_name = refl; no_colon = refl }

decimal_80-IsDecimal : IsDecimal 80 (decimal_80 80)
decimal_80-IsDecimal = record { some_digits = refl; digits = refl; value = refl }

corbaloc_parse-corbaloc_from_example :
    (loc : Str) × (corbaloc_from decimal_80 (internet giop_1_2 a_host 80 none ∷ []) (7 ∷ [])
      ≡ done loc)
    × (corbaloc_parse split_commas loc ≡ some (internet giop_1_2 a_host 80 none ∷ [], 7 ∷ []))
corbaloc_parse-corbaloc_from_example =
    corbaloc_parse-corbaloc_from split_commas decimal_80 giop_1_2 a_host 80 (7 ∷ []) a_host-IsHost
      decimal_80-IsDecimal (omega arith) (omega arith, tt) refl refl

-- A structure of an octet, a string, a sequence of longs, and a union of a string and a short.
abbrev a_struct : TypeCode
a_struct = struct (
    field (word octet) (
      field string (
        field (sequence (word long)) (
          field (union ushort none (case 0 string (case 7 (word short) over)))
            orbit.Orb.TypeCode.done))))

abbrev a_value : Value
a_value = items (
    cons (number 5) (
      cons (text (b'h' ∷ b'i' ∷ [])) (
        cons (items (cons (number 1) (cons (number 258) nil))) (cons (choice 7 (number 515)) nil))))

a_value-HasType : HasType a_struct a_value
unfolding HasType union_switch union_tag
a_value-HasType = ground arith

abbrev no_heap : Heap
no_heap i = []

abbrev setting : Setting
setting = record { host = big; heap = no_heap; gap = λ i. 0 }

abbrev begun : SendBuffer
begun = send_buffer_use none giop_1_2

begun-IsSound : IsSound no_heap begun []
begun-IsSound = send_buffer_use-IsSound no_heap none giop_1_2

begun_size : begun.message_size ≡ 0
unfolding send_buffer_use
begun_size = refl

encoded :
    encode big (λ i. 0) a_struct a_value (begun.message_size + 12)
    ≡ 5 ∷ 0 ∷ 0 ∷ 0 ∷ 0 ∷ 0 ∷ 0 ∷ 3 ∷ b'h' ∷ b'i' ∷ 0 ∷ 0 ∷ 0 ∷ 0 ∷ 0 ∷ 2 ∷ 0 ∷ 0 ∷ 0 ∷ 1 ∷ 0 ∷ 0
      ∷ 1 ∷ 2 ∷ 0 ∷ 7 ∷ 2 ∷ 3 ∷ []
unfolding encode send_buffer_use union_switch union_tag
encoded = refl

a_value_fits :
    begun.message_size
      + length (encode big (λ i. 0) a_struct a_value (begun.message_size + 12))
      + 28
    < u32
a_value_fits = omega (arith, begun_size, ap length encoded)

demarshal_value-marshal_value_example :
    let w = arrived setting little 0 (marshal_value setting a_struct a_value begun) in
    demarshal_value a_struct w (begun.message_size + 12) ≡ done (a_value, w.end)
demarshal_value-marshal_value_example =
    demarshal_value-marshal_value setting little 0 a_struct a_value begun [] refl a_value-HasType
      begun-IsSound a_value_fits

-- The text "hi", without a 0 and with one behind it.
abbrev unended : Wire
unended = record { host = little; flags = 1; mem = 2 ∷ 0 ∷ 0 ∷ 0 ∷ b'h' ∷ b'i' ∷ []; end = 6 }

abbrev ended : Wire
ended = record unended { mem = 2 ∷ 0 ∷ 0 ∷ 0 ∷ b'h' ∷ b'i' ∷ 0 ∷ [] }

string_overread_example : demarshal_value string unended 0 ≡ fault
string_overread_example =
    string_overread (λ i. 0) unended (b'h' ∷ b'i' ∷ []) 0 (omega arith) (omega arith) refl refl
      (omega arith)

union_overrun_example :
    let body = array 3 (word long) in
    let u = union octet none (case 0 (word double) (case 1 (word octet) (case 2 body over))) in
    gather_alloc_info u + 4 ≡ align_value (size octet) (c_align u) + gather_alloc_info body
union_overrun_example = union_overrun 0 0 1 2 none (omega arith)
