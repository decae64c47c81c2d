-- ===== src/Orb/Value/Appends.antt =====
-- src/orb/orb-core/corba-any.c: the steps that append words, texts and lists of values to a message.
use orbit.Base.{
  ℕ, ◌+◌, ◌/◌, ◌<◌, ◌≤◌, ◌≡◌, refl, sym, subst, true, false, List, [], ◌∷◌, ◌++◌, ◌==◌, length,
  if◌then◌else◌, arith, length-append, append-nil, append_assoc, take-length, leb, ltb, Bool-cases,
  inl, inr,
}
use orbit.Giop.Wire.{Endian, little, big, bytes32}
use orbit.Giop.SendBuffer.Memory.{
  SendBuffer, Iovec, u32, constant, append, append_real, append_copy, append_aligned, align,
  put_indirect, get_next_indirect, gather, bytes_at,
}
use orbit.Giop.SendBuffer.Vector.{area}
use orbit.Giop.SendBuffer.Payload.{IsSound, Grows}
use orbit.Giop.SendBuffer.Append.{append-Grows, append_copy-Grows, put_somewhere-Grows, in_use}
use orbit.Giop.SendBuffer.Sent.{grown_size, align-Grows, Grows-trans, append_value-Grows}
use orbit.Giop.SendBuffer.Requests.{Setting, append_value, append_string}
use orbit.Orb.Words.{to_bytes, length-to_bytes}
use orbit.Orb.Value.{Value, Values, nil, cons, pad, encode_word, encode_all, AllHave}
use orbit.Orb.Value.Marshal.{marshal_word, marshal_all}

module _ (t : Setting) where
  -- A step appends the bytes of a value to any sound message with room for them.
  abbrev pub Appends : (ℕ → List ℕ) → (SendBuffer → SendBuffer) → Type 0
  Appends bytes step =
      (buf : SendBuffer) (rest : List Iovec)
      → IsSound t.heap buf rest
      → buf.message_size + length (bytes (buf.message_size + 12)) + 28 < u32
      → Grows t.heap buf rest (bytes (buf.message_size + 12)) (step buf)

  -- One step after another.
  pub then-Grows :
      (buf buf1 buf2 : SendBuffer) (rest : List Iovec) (xs ys : List ℕ)
      → IsSound t.heap buf rest
      → Grows t.heap buf rest xs buf1
      → ((rest1 : List Iovec)
          → IsSound t.heap buf1 rest1
          → buf1.message_size ≡ buf.message_size + length xs
          → Grows t.heap buf1 rest1 ys buf2)
      → Grows t.heap buf rest (xs ++ ys) buf2
  then-Grows buf buf1 buf2 rest xs ys s g k =
      Grows-trans t.heap buf buf1 buf2 rest g.0 xs ys g.2
        (k g.0 g.1 (grown_size t.heap buf buf1 rest xs s g))

  pub then-Appends :
      (bytes more : ℕ → List ℕ) (step next : SendBuffer → SendBuffer)
      → Appends bytes step
      → Appends more next
      → Appends (λ p. bytes p ++ more (p + length (bytes p))) (λ buf. next (step buf))
  then-Appends bytes more step next a b buf rest s fits =
      let p = buf.message_size + 12 in
      let xs = bytes p in
      let len = length-append xs (more (p + length xs)) in
      then-Grows buf (step buf) (next (step buf)) rest xs (more (p + length xs)) s
        (a buf rest s (omega (arith, len)))
        (λ rest1 s1 size.
          let at : (step buf).message_size + 12 ≡ p + length xs = omega (arith, size) in
          subst (λ q. Grows t.heap (step buf) rest1 (more q) (next (step buf))) at
            (b (step buf) rest1 s1 (
              subst (λ q. (step buf).message_size + length (more q) + 28 < u32) (sym at)
                (omega (arith, len, size)))))

  pub none-Appends : Appends (λ p. []) (λ buf. buf)
  none-Appends buf rest s fits = (rest, s, sym (append-nil (gather (area t.heap buf) rest)))

  value-Appends : (bs : List ℕ) → 0 < length bs → Appends (λ p. bs) (λ buf. append_value t buf bs)
  value-Appends bs pos buf rest s fits = append_value-Grows t buf rest bs s pos (omega arith)

  pad-Appends :
      (boundary : ℕ)
      → 0 < boundary
      → boundary ≤ 16
      → Appends (λ p. pad t.host t.gap p boundary) (λ buf. align t.gap buf boundary)
  pad-Appends boundary pos small buf rest s fits =
      (align-Grows t.gap t.heap buf rest boundary s pos (omega arith)).0

  put-Appends :
      (bs : List ℕ)
      → 0 < length bs
      → Appends
          (λ p. bs)
          (λ buf.
            put_indirect
              (if ltb buf.indirect_left (length bs) then get_next_indirect buf 0 else buf)
              bs)
  put-Appends bs pos buf rest s fits =
      put_somewhere-Grows t.heap buf rest bs (ltb buf.indirect_left (length bs)) 0 s
        (in_use t.heap buf rest (length bs) s (omega arith)) (omega arith)

  aligned-Appends :
      (n x : ℕ)
      → 0 < n
      → n ≤ 16
      → Appends
          (λ p. pad t.host t.gap p n ++ to_bytes t.host n x)
          (λ buf. append_aligned t.gap buf (to_bytes t.host n x))
  unfolding append_aligned
  aligned-Appends n x pos small =
      let bs = to_bytes t.host n x in
      let len = length-to_bytes t.host n x in
      subst (λ k. Appends (λ p. pad t.host t.gap p k ++ bs) (λ buf. append_aligned t.gap buf bs))
        len
        (then-Appends (λ p. pad t.host t.gap p (length bs)) (λ p. bs)
          (λ buf. align t.gap buf (length bs)) _
          (pad-Appends (length bs) (omega (arith, len)) (omega (arith, len)))
          (put-Appends bs (omega (arith, len))))

  pub word-Appends :
      (n x : ℕ) → 0 < n → n ≤ 16 → Appends (encode_word t.host t.gap n x) (marshal_word t n x)
  unfolding marshal_word append_aligned
  word-Appends n x pos small = elim (Bool-cases (n == 1)) [
    | inl one ↦ rw one (value-Appends (x ∷ []) (omega arith))
    | inr more ↦ rw more (aligned-Appends n x pos small)
  ]

  pub header-Appends :
      (x : ℕ)
      → Appends
          (encode_word t.host t.gap 4 x)
          (λ buf. append_value t (align t.gap buf 4) (to_bytes t.host 4 x))
  header-Appends x =
      then-Appends (λ p. pad t.host t.gap p 4) (λ p. to_bytes t.host 4 x) (λ buf. align t.gap buf 4)
        (λ buf. append_value t buf (to_bytes t.host 4 x))
        (pad-Appends 4 (omega arith) (omega arith))
        (value-Appends (to_bytes t.host 4 x) (omega (arith, length-to_bytes t.host 4 x)))

  same-Appends :
      (bytes more : ℕ → List ℕ) (step : SendBuffer → SendBuffer)
      → ((p : ℕ) → bytes p ≡ more p)
      → Appends bytes step
      → Appends more step
  same-Appends bytes more step same a buf rest s fits =
      let p = buf.message_size + 12 in
      subst (λ bs. Grows t.heap buf rest bs (step buf)) (same p)
        (a buf rest s (subst (λ bs. buf.message_size + length bs + 28 < u32) (sym (same p)) fits))

  -- A piece that is copied leaves a chunk in use.
  pub used-append_value :
      (buf : SendBuffer) (rest : List Iovec) (bs : List ℕ)
      → IsSound t.heap buf rest
      → 0 < length bs
      → length bs ≤ 32
      → 0 < (append_value t buf bs).num_indirects_used
  unfolding append append_copy put_indirect append_real get_next_indirect
  used-append_value buf rest bs s pos small =
      let at = take-length (length bs) bs refl in
      let few : leb (length bs) 32 ≡ true = ground arith in
      elim (Bool-cases (ltb buf.indirect_left (length bs))) [
        | inl full ↦ rw (few, at, full) (omega arith)
        | inr left ↦ rw (few, at, left) (s.room (ground arith))
      ]

  -- The length word and the text of a string, together in a chunk or one by one.
  text-Appends :
      (w s : List ℕ)
      → length w ≡ 4
      → 0 < length s
      → Appends
          (λ p. w ++ s)
          (λ buf.
            if leb (4 + length s) buf.indirect_left
            then put_indirect buf
                (w ++ bytes_at t.heap (record { place = constant s; offset = 0 }) (length s))
            else append t.heap
                (append_copy buf w)
                (record { place = constant s; offset = 0 })
                (length s))
  text-Appends w s four pos buf rest sound fits =
      let at : bytes_at t.heap (record { place = constant s; offset = 0 }) (length s) ≡ s =
        take-length (length s) s refl in
      let len = length-append w s in
      elim (Bool-cases (leb (4 + length s) buf.indirect_left)) [
        | inl one ↦
            rw (one, at)
              (put_somewhere-Grows t.heap buf rest (w ++ s) false 0 sound
                (λ _. sound.room (ground arith)) (omega (arith, len)))
        | inr two ↦ rw (two) (
            then-Grows buf (append_copy buf w) _ rest w s sound
              (append_copy-Grows t.heap buf rest w sound (omega (arith, four)) (omega (arith, len)))
              (λ rest1 s1 size. rw (at) at (
                append-Grows t.heap (append_copy buf w) rest1
                  (record { place = constant s; offset = 0 }) (length s) s1 (omega arith)
                  (omega (arith, pos)) (omega (arith, size, len)))))
      ]

  pub all-Appends :
      (bytes : Value → ℕ → List ℕ) (step : Value → SendBuffer → SendBuffer) (P : Value → Type 0)
      (vs : Values)
      → ((v : Value) → P v → Appends (bytes v) (step v))
      → AllHave P vs
      → Appends (encode_all t.host t.gap bytes vs) (marshal_all step vs)
  all-Appends bytes step P nil each h = none-Appends
  all-Appends bytes step P (cons v vs) each h =
      then-Appends (bytes v) (encode_all t.host t.gap bytes vs) (step v) (marshal_all step vs)
        (each v h.0) (all-Appends bytes step P vs each h.1)

  bytes32_lem : (e : Endian) (x : ℕ) → to_bytes e 4 x ≡ bytes32 e x
  bytes32_lem little x =
      let two : x / 256 / 256 ≡ x / 65536 = omega arith in
      let three : x / 65536 / 256 ≡ x / 16777216 = omega arith in rw (two, three) refl
  bytes32_lem big x =
      let two : x / 256 / 256 ≡ x / 65536 = omega arith in
      let three : x / 65536 / 256 ≡ x / 16777216 = omega arith in rw (two, three) refl

  pub string-Appends :
      (s : List ℕ)
      → Appends
          (λ p. encode_word t.host t.gap 4 (length s + 1) p ++ (s ++ 0 ∷ []))
          (λ buf.
            append_string t buf
              (record { place = constant (s ++ 0 ∷ []); offset = 0 })
              (length s + 1))
  unfolding append_string
  string-Appends s =
      let text = s ++ 0 ∷ [] in
      let w = to_bytes t.host 4 (length s + 1) in
      let len : length text ≡ length s + 1 = length-append s (0 ∷ []) in
      same-Appends (λ p. pad t.host t.gap p 4 ++ (w ++ text)) _
        (λ buf. append_string t buf (record { place = constant text; offset = 0 }) (length s + 1))
        (λ p. sym (append_assoc (pad t.host t.gap p 4) w text))
        (rw (sym (bytes32_lem t.host (length s + 1)), sym len)
          (then-Appends (λ p. pad t.host t.gap p 4) (λ p. to_bytes t.host 4 (length text) ++ text)
            (λ buf. align t.gap buf 4) _ (pad-Appends 4 (omega arith) (omega arith))
            (text-Appends (to_bytes t.host 4 (length text)) text
              (length-to_bytes t.host 4 (length text)) (omega (arith, len)))))
