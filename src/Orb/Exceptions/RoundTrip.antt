-- ===== src/Orb/Exceptions/RoundTrip.antt =====
-- src/orb/orb-core/orbit-small.c, from end to end: the exception that a servant raises and the one that
-- the caller gets.
use orbit.Base.{
  ℕ, ◌+◌, ◌<◌, ◌≤◌, ◌≡◌, refl, ap, subst, ◌∙◌, Option, none, some, List, [], ◌++◌, length, drop,
  arith,
}
use orbit.Giop.Wire.{Endian, sender}
use orbit.Giop.Reader.{done}
use orbit.Giop.SendBuffer.Memory.{SendBuffer, Iovec, u32, append_aligned}
use orbit.Giop.SendBuffer.Payload.{IsSound, Grows}
use orbit.Giop.SendBuffer.Requests.{Setting}
use orbit.Orb.Value.{Value, text, encode, encode_word, HasType, AllText}
use orbit.Orb.TypeCode.{string}
use orbit.Orb.Words.{bound, to_bytes}
use orbit.Orb.Value.Marshal.{marshal_value, marshal_word}
use orbit.Orb.Value.Encoding.{marshal_value-Grows}
use orbit.Orb.Value.Appends.{then-Appends, string-Appends}
use orbit.Orb.Value.RoundTrip.{arrived, sent-Grows}
use orbit.Orb.Exceptions.{
  Declared, Exception, user, system, system_exception, marshal_maybe, Major, user_exception,
  find_declared, append_text, send_user_exception, handle_exception_array,
}
use orbit.Orb.Exceptions.{Major, send_exception, send_system_exception}
use orbit.Orb.Value.Appends.{word-Appends, Appends}
use orbit.Orb.Exceptions.Returned.{AllIds, found_id, user_exception_read, system_exception_read}

-- The bytes of a user exception.
abbrev body : Endian → (ℕ → ℕ) → Declared → List ℕ → Value → ℕ → List ℕ
body e gap d id v c =
    let bs = encode e gap string (text id) c in bs ++ encode e gap d.type v (c + length bs)

send_user_exception-Grows :
    (t : Setting) (ds : List Declared) (id : List ℕ) (d : Declared) (v : Value) (buf : SendBuffer)
    (rest : List Iovec)
    → HasType d.type v
    → IsSound t.heap buf rest
    → (let bs = body t.host t.gap d id v (buf.message_size + 12) in
        buf.message_size + length bs + 28 < u32)
    → Grows t.heap buf rest
        (body t.host t.gap d id v (buf.message_size + 12))
        (marshal_value t d.type v (append_text t buf id))
unfolding encode
send_user_exception-Grows t ds id d v buf rest h s fits =
    then-Appends t (encode t.host t.gap string (text id)) (encode t.host t.gap d.type v)
      (λ b. append_text t b id) (marshal_value t d.type v) (string-Appends t id)
      (λ b r sb fb. marshal_value-Grows t d.type v b r h sb fb) buf rest s fits

-- The bytes of a system exception.
abbrev system_bytes : Endian → (ℕ → ℕ) → List ℕ → ℕ → ℕ → ℕ → List ℕ
system_bytes e gap id minor completed p =
    let bs = encode e gap string (text id) p in
    let ms = bs ++ encode_word e gap 4 minor (p + length bs) in
    ms ++ encode_word e gap 4 completed (p + length ms)

send_system_exception-Grows :
    (t : Setting) (id : List ℕ) (minor completed : ℕ)
    → Appends t
        (system_bytes t.host t.gap id minor completed)
        (send_system_exception t id minor completed)
unfolding encode send_system_exception
send_system_exception-Grows t id minor completed =
    then-Appends t
      (λ p.
        let bs = encode t.host t.gap string (text id) p in
        bs ++ encode_word t.host t.gap 4 minor (p + length bs))
      (encode_word t.host t.gap 4 completed)
      (λ b. append_aligned t.gap (append_text t b id) (to_bytes t.host 4 minor))
      (λ b. append_aligned t.gap b (to_bytes t.host 4 completed))
      (then-Appends t (encode t.host t.gap string (text id)) (encode_word t.host t.gap 4 minor)
        (λ b. append_text t b id) (λ b. append_aligned t.gap b (to_bytes t.host 4 minor))
        (string-Appends t id)
        (λ b r s f.
          unfold marshal_word in word-Appends t 4 minor (omega arith) (omega arith) b r s f))
      (λ b r s f.
        unfold marshal_word in word-Appends t 4 completed (omega arith) (omega arith) b r s f)

-- What the caller is to get: an exception that is not declared arrives as UNKNOWN.
abbrev pub received : List ℕ → List Declared → Exception → Exception
received unknown ds (system id minor completed) = system id minor completed
received unknown ds (user id v) = elim (find_declared ds id) [
  | none ↦ system (some unknown) 0 2
  | some d ↦ user id v
]
received unknown ds marshal_maybe = marshal_maybe

-- The bytes that stand for it behind the header of the reply.
abbrev pub exception_bytes : Endian → (ℕ → ℕ) → List ℕ → List Declared → Exception → ℕ → List ℕ
exception_bytes e gap unknown ds (system (some id) minor completed) p =
    system_bytes e gap id minor completed p
exception_bytes e gap unknown ds (user id (some v)) p = elim (find_declared ds id) [
  | none ↦ system_bytes e gap unknown 0 2 p
  | some d ↦ body e gap d id v p
]
exception_bytes e gap unknown ds x p = []

abbrev pub IsId : List ℕ → Type 0
IsId id = AllText id × (length id + 1 < 0x80000000)

-- An exception with an id that is a text, and a value of the type that is declared for it.
abbrev pub IsSendable : List Declared → Exception → Type 0
IsSendable ds (system (some id) minor completed) =
    IsId id × (minor < bound 4) × (completed < bound 4)
IsSendable ds (user id (some v)) =
    IsId id × ((d : Declared) → find_declared ds id ≡ some d → HasType d.type v)
IsSendable ds x = ⊥

module _ (t : Setting) (host : Endian) (flags : ℕ) (order : sender flags ≡ t.host)
    (ds : List Declared) (ids : AllIds ds) (buf : SendBuffer) (rest : List Iovec)
    (sound : IsSound t.heap buf rest) where
  system_returned :
      (id : List ℕ) (minor completed : ℕ)
      → IsId id
      → (minor < bound 4) × (completed < bound 4)
      → buf.message_size
          + length (system_bytes t.host t.gap id minor completed (buf.message_size + 12))
          + 28
        < u32
      → handle_exception_array ds system_exception
          (arrived t host flags (send_system_exception t id minor completed buf))
          (buf.message_size + 12)
        ≡ done (system (some id) minor completed)
  system_returned id minor completed (hid, small) words fits =
      let p = buf.message_size + 12 in
      let buf1 = send_system_exception t id minor completed buf in
      let w = arrived t host flags buf1 in
      let (at, end) =
        sent-Grows t buf buf1 rest (system_bytes t.host t.gap id minor completed p) sound
          (send_system_exception-Grows t id minor completed buf rest sound fits) in
      subst
        (λ e.
          drop p w.mem ≡ system_bytes e t.gap id minor completed p ++ []
          → p + length (system_bytes e t.gap id minor completed p) ≤ w.end
          → handle_exception_array ds system_exception w p
            ≡ done (system (some id) minor completed))
        order
        (λ a f.
          system_exception_read t.gap w (omega arith) ds id minor completed p hid small words
            (a, f))
        at (omega (arith, end))

  user_returned :
      (id : List ℕ) (d : Declared) (v : Value)
      → IsId id
      → find_declared ds id ≡ some d
      → HasType d.type v
      → buf.message_size + length (body t.host t.gap d id v (buf.message_size + 12)) + 28 < u32
      → handle_exception_array ds user_exception
          (arrived t host flags (marshal_value t d.type v (append_text t buf id)))
          (buf.message_size + 12)
        ≡ done (user id (some v))
  user_returned id d v (hid, small) found h fits =
      let p = buf.message_size + 12 in
      let buf1 = marshal_value t d.type v (append_text t buf id) in
      let w = arrived t host flags buf1 in
      let (at, end) =
        sent-Grows t buf buf1 rest (body t.host t.gap d id v p) sound
          (send_user_exception-Grows t ds id d v buf rest h sound fits) in
      subst
        (λ e.
          drop p w.mem ≡ body e t.gap d id v p ++ []
          → p + length (body e t.gap d id v p) ≤ w.end
          → handle_exception_array ds user_exception w p ≡ done (user d.repo_id (some v)))
        order
        (λ a f. user_exception_read t.gap w (omega arith) ds id d v p ids hid small found h (a, f))
        at (omega (arith, end))
      ∙ ap (λ (i : List ℕ). done (user i (some v))) (found_id ds id d found)

-- What has been sent, and what the caller makes of it.
abbrev pub Returns :
    Setting → Endian → ℕ → List Declared → ℕ → Option (Major × SendBuffer) → Exception → Type 0
Returns t host flags ds p none x = ⊥
Returns t host flags ds p (some (major, buf1)) x =
    handle_exception_array ds major (arrived t host flags buf1) p ≡ done x

-- An exception arrives as it was raised: put behind whatever a sound reply holds, where the reply
-- stays 28 bytes below 2 ^ 32, and read at that place by a machine of either byte order that is
-- told the byte order of the sender, a system exception gives its id, `minor` and `completed`, a
-- declared user exception its id and value, and one that is not declared the system exception
-- UNKNOWN with 0 and COMPLETED_MAYBE, where ids are texts shorter than 2 ^ 31 bytes, the declared
-- ids are texts, numbers fit 32 bits, and the value has the declared type.
pub handle_exception_array-send_exception :
    (t : Setting) (host : Endian) (flags : ℕ) (unknown : List ℕ) (ds : List Declared)
    (x : Exception) (buf : SendBuffer) (rest : List Iovec)
    → sender flags ≡ t.host
    → AllIds ds
    → IsId unknown
    → IsSendable ds x
    → IsSound t.heap buf rest
    → (let bs = exception_bytes t.host t.gap unknown ds x (buf.message_size + 12) in
        buf.message_size + length bs + 28 < u32)
    → Returns t host flags ds
        (buf.message_size + 12)
        (send_exception t unknown ds x buf)
        (received unknown ds x)
unfolding send_exception send_user_exception
handle_exception_array-send_exception t host flags unknown ds (system (some id) minor completed) buf
      rest order ids known (hid, hm, hc) s fits =
    system_returned t host flags order ds ids buf rest s id minor completed hid (hm, hc) fits
handle_exception_array-send_exception t host flags unknown ds (user id (some v)) buf rest order ids
      known (hid, typed) s fits =
    go (find_declared ds id) refl fits
  where
    p : ℕ
    p = buf.message_size + 12

    sent_as : Option Declared → Option (Major × SendBuffer)
    sent_as o =
        let sent : Option SendBuffer = elim o [
          | none ↦ none
          | some d ↦ some (marshal_value t d.type v (append_text t buf id))
        ] in
        elim sent [
          | some buf1 ↦ some (user_exception, buf1)
          | none ↦ some (system_exception, send_system_exception t unknown 0 2 buf)
        ]

    bytes_as : Option Declared → List ℕ
    bytes_as o = elim o [
      | none ↦ system_bytes t.host t.gap unknown 0 2 p
      | some d ↦ body t.host t.gap d id v p
    ]

    got_as : Option Declared → Exception
    got_as o = elim o [ none ↦ system (some unknown) 0 2 | some d ↦ user id (some v) ]

    go :
        (o : Option Declared)
        → find_declared ds id ≡ o
        → buf.message_size + length (bytes_as o) + 28 < u32
        → Returns t host flags ds p (sent_as o) (got_as o)
    go none e f =
        system_returned t host flags order ds ids buf rest s unknown 0 2 known
          (omega arith, omega arith) f
    go (some d) e f = user_returned t host flags order ds ids buf rest s id d v hid e (typed d e) f
handle_exception_array-send_exception t host flags unknown ds x buf rest order ids known h s fits =
    elim h [ ]
