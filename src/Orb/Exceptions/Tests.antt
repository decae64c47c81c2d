-- ===== src/Orb/Exceptions/Tests.antt =====
-- src/orb/orb-core/orbit-small.c: concrete exceptions.
use orbit.Base.{ℕ, ◌+◌, ◌≡◌, refl, ap, subst, some, none, List, [], ◌∷◌, arith, length}
use orbit.Giop.Message.{giop_1_2}
use orbit.Giop.Wire.{big, little}
use orbit.Giop.Reader.{done, Wire}
use orbit.Giop.SendBuffer.Memory.{SendBuffer, Heap}
use orbit.Giop.SendBuffer.Payload.{IsSound}
use orbit.Giop.SendBuffer.Sent.{send_buffer_use-IsSound}
use orbit.Giop.SendBuffer.Requests.{Setting, send_buffer_use}
use orbit.Orb.TypeCode.{word, long}
use orbit.Orb.Value.{number, encode, HasType}
use orbit.Orb.Exceptions.{
  Declared, Exception, user, user_exception, find_declared, send_exception, handle_exception_array,
}
use orbit.Orb.Exceptions.Returned.{AllIds, handle_exception_array-no_id}
use orbit.Orb.Exceptions.RoundTrip.{
  IsId, IsSendable, Returns, exception_bytes, handle_exception_array-send_exception,
}

-- An operation that declares the exceptions "N" and "A", each a long.
abbrev declared : List Declared
declared =
    record { repo_id = b'N' ∷ []; type = word long }
    ∷ record { repo_id = b'A' ∷ []; type = word long }
    ∷ []

declared-AllIds : AllIds declared
declared-AllIds = ground arith

abbrev unknown_id : List ℕ
unknown_id = b'U' ∷ []

unknown_id-IsId : IsId unknown_id
unknown_id-IsId = ground arith

abbrev raised : Exception
raised = user (b'A' ∷ []) (some (number 7))

long_7-HasType : HasType (word long) (number 7)
unfolding HasType
long_7-HasType = omega arith

raised_type :
    (d : Declared) → find_declared declared (b'A' ∷ []) ≡ some d → HasType d.type (number 7)
raised_type d e =
    subst (λ x. HasType x (number 7)) (ap (λ o. elim o [ some x ↦ x.type | none ↦ word long ]) e)
      long_7-HasType

raised-IsSendable : IsSendable declared raised
raised-IsSendable = (ground arith, raised_type)

abbrev no_heap : Heap
no_heap i = []

abbrev setting : Setting
setting = record { host = big; heap = no_heap; gap = λ i. 0 }

abbrev begun : SendBuffer
begun = send_buffer_use none giop_1_2

begun-IsSound : IsSound no_heap begun []
begun-IsSound = send_buffer_use-IsSound no_heap none giop_1_2

begun_size : begun.message_size ≡ 0
unfolding send_buffer_use
begun_size = refl

raised_bytes :
    exception_bytes big (λ i. 0) unknown_id declared raised (begun.message_size + 12)
    ≡ 0 ∷ 0 ∷ 0 ∷ 2 ∷ b'A' ∷ 0 ∷ 0 ∷ 0 ∷ 0 ∷ 0 ∷ 0 ∷ 7 ∷ []
unfolding encode send_buffer_use
raised_bytes = refl

handle_exception_array-send_exception_example :
    Returns setting little 0 declared
      (begun.message_size + 12)
      (send_exception setting unknown_id declared raised begun)
      raised
handle_exception_array-send_exception_example =
    handle_exception_array-send_exception setting little 0 unknown_id declared raised begun [] refl
      declared-AllIds unknown_id-IsId raised-IsSendable begun-IsSound
      (omega (arith, begun_size, ap length raised_bytes))

-- A reply with an empty id and the long 7.
abbrev no_id : Wire
no_id = record { host = little; flags = 1; mem = 0 ∷ 0 ∷ 0 ∷ 0 ∷ 7 ∷ 0 ∷ 0 ∷ 0 ∷ []; end = 8 }

handle_exception_array-no_id_example :
    handle_exception_array declared user_exception no_id 0
    ≡ done (user (b'N' ∷ []) (some (number 7)))
unfolding encode
handle_exception_array-no_id_example =
    handle_exception_array-no_id (λ i. 0) no_id (record { repo_id = b'N' ∷ []; type = word long })
      (record { repo_id = b'A' ∷ []; type = word long } ∷ []) (number 7) 0 [] (omega arith)
      long_7-HasType (refl, omega arith)
