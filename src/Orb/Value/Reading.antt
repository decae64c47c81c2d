-- ===== src/Orb/Value/Reading.antt =====
-- src/orb/orb-core/corba-any.c: the steps that read words, texts and lists of values from a message.
use orbit.Base.{
  ℕ, zero, suc, ◌+◌, ◌<◌, ◌≤◌, ◌≡◌, refl, sym, ap, ◌∙◌, subst, true, false, List, [], ◌∷◌, ◌++◌,
  ◌==◌, length, if◌then◌else◌, arith, length-append, append_assoc, leb, ltb, Bool-cases, inl, inr,
  drop, take, slice, drop-drop,
}
use orbit.Giop.Wire.{align_value_bounds, byte_at, sender}
use orbit.Giop.SendBuffer.Append.{length-tabulate}
use orbit.Giop.SendBuffer.Sent.{gap_size}
use orbit.Giop.Reader.{
  done, broken, fault, Reader, Wire, ◌>>=◌, ◌>>◌, pure, align_cur, need, need_len, advance, peek_u8,
  copy_octets,
}
use orbit.Orb.Words.{to_bytes, bound, length-to_bytes, swapped-to_bytes}
use orbit.Orb.TypeCode.{string}
use orbit.Orb.Value.{
  Value, Values, text, nil, cons, count, pad, encode_word, encode_all, encode, AllText, AllHave,
}
use orbit.Orb.Value.Demarshal.{
  load, demarshal_word, dup, string_dup, string_of, demarshal_string, repeat,
}

-- The bytes stand at a place of the memory.
abbrev pub At : List ℕ → ℕ → List ℕ → Type 0
At mem c bs = (rest : List ℕ) × (drop c mem ≡ bs ++ rest)

pub drop-append : (xs ys : List ℕ) → drop (length xs) (xs ++ ys) ≡ ys
drop-append [] ys = refl
drop-append (x ∷ xs) ys = drop-append xs ys

pub At-append : (mem : List ℕ) (c : ℕ) (xs ys : List ℕ) → At mem c (xs ++ ys) → At mem c xs
At-append mem c xs ys (rest, e) = (ys ++ rest, e ∙ append_assoc xs ys rest)

pub At-behind :
    (mem : List ℕ) (c : ℕ) (xs ys : List ℕ) → At mem c (xs ++ ys) → At mem (c + length xs) ys
At-behind mem c xs ys (rest, e) = (
  rest,
  sym (drop-drop c (length xs) mem)
      ∙ ap (drop (length xs)) (e ∙ append_assoc xs ys rest)
      ∙ drop-append xs (ys ++ rest),
)

pub At-slice : (mem : List ℕ) (c : ℕ) (xs : List ℕ) → At mem c xs → slice c (length xs) mem ≡ xs
At-slice mem c xs (rest, e) = ap (take (length xs)) e ∙ go xs
  where
    go : (ys : List ℕ) → take (length ys) (ys ++ rest) ≡ ys
    go [] = refl
    go (y ∷ ys) = ap (λ zs. y ∷ zs) (go ys)

byte_at-drop : (mem : List ℕ) (c : ℕ) → byte_at mem c ≡ byte_at (drop c mem) 0
byte_at-drop [] zero = refl
byte_at-drop [] (suc c) = refl
byte_at-drop (b ∷ bs) zero = refl
byte_at-drop (b ∷ bs) (suc c) = byte_at-drop bs c

pub bind_done :
    {A B : Type 0} (m : Reader A) (k : A → Reader B) (w : Wire) (c c1 : ℕ) (a : A)
    → m w c ≡ done (a, c1)
    → (m >>= k) w c ≡ k a w c1
bind_done m k w c c1 a e =
    ap (λ r. elim r [ done (x, c') ↦ k x w c' | broken ↦ broken | fault ↦ fault ]) e

-- A step reads the bytes that stand for its result, wherever they stand in a message.
abbrev pub Decodes : {A : Type 0} → Wire → Reader A → (ℕ → List ℕ) → A → Type 0
Decodes w m bytes a =
    (c : ℕ)
    → At w.mem c (bytes c)
    → c + length (bytes c) ≤ w.end
    → m w c ≡ done (a, c + length (bytes c))

module _ (gap : ℕ → ℕ) (w : Wire) (room : w.end ≤ length w.mem) where
  pub then-Decodes :
      {A B : Type 0} (m : Reader A) (k : A → Reader B) (bytes more : ℕ → List ℕ) (a : A) (b : B)
      → Decodes w m bytes a
      → Decodes w (k a) more b
      → Decodes w (m >>= k) (λ p. bytes p ++ more (p + length (bytes p))) b
  then-Decodes m k bytes more a b dm dk c at fits =
      let xs = bytes c in
      let ys = more (c + length xs) in
      let len = length-append xs ys in
      bind_done m k w c (c + length xs) a (dm c (At-append w.mem c xs ys at) (omega (arith, len)))
      ∙ dk (c + length xs) (At-behind w.mem c xs ys at) (omega (arith, len))
      ∙ ap (λ (n : ℕ). done (b, n)) (omega (arith, len))

  same-Decodes :
      {A : Type 0} (m : Reader A) (bytes more : ℕ → List ℕ) (a : A)
      → ((p : ℕ) → bytes p ≡ more p)
      → Decodes w m bytes a
      → Decodes w m more a
  same-Decodes m bytes more a same d c at fits =
      subst (λ bs. m w c ≡ done (a, c + length bs)) (same c)
        (d c (subst (At w.mem c) (sym (same c)) at) (omega (arith, ap length (same c))))

  pub pure-Decodes : {A : Type 0} (a : A) → Decodes w (pure a) (λ p. []) a
  pure-Decodes a c at fits = ap (λ (n : ℕ). done (a, n)) (omega arith)

  -- A step and what is made of its result.
  pub map-Decodes :
      {A B : Type 0} (m : Reader A) (f : A → B) (bytes : ℕ → List ℕ) (a : A)
      → Decodes w m bytes a
      → Decodes w (m >>= λ x. pure (f x)) bytes (f a)
  map-Decodes m f bytes a d c at fits =
      bind_done m (λ x. pure (f x)) w c (c + length (bytes c)) a (d c at fits)

  need-Decodes :
      {A : Type 0} (n : ℕ) (m : Reader A) (bytes : ℕ → List ℕ) (a : A)
      → ((p : ℕ) → n ≤ length (bytes p))
      → Decodes w m bytes a
      → Decodes w (need n >> m) bytes a
  need-Decodes n m bytes a many d c at fits =
      let enough : ltb w.end (c + n) ≡ false = (let h = many c in ground arith) in
      bind_done (need n) (λ _. m) w c c tt (rw (enough) refl) ∙ d c at fits

  pad-Decodes : (n : ℕ) → 0 < n → Decodes w (align_cur n) (λ p. pad w.host gap p n) tt
  pad-Decodes n pos c at fits =
      ap (λ (k : ℕ). done (tt, k))
        (omega (arith, length-tabulate (gap_size c n) gap, align_value_bounds c n pos))

  load-Decodes : (n x : ℕ) → x < bound n → Decodes w (load n) (λ p. to_bytes (sender w.flags) n x) x
  unfolding load
  load-Decodes n x small c at fits =
      let bs = to_bytes (sender w.flags) n x in
      let len : length bs ≡ n = length-to_bytes (sender w.flags) n x in
      let here : leb (c + n) (length w.mem) ≡ true = ground (arith, len) in
      let read : slice c n w.mem ≡ bs =
        ap (λ k. slice c k w.mem) (sym len) ∙ At-slice w.mem c bs at in
      rw (here, read, len, swapped-to_bytes w.host w.flags n x small) refl

  octet-Decodes :
      (x : ℕ) → Decodes w (need 1 >> (peek_u8 >>= λ y. advance 1 >> pure y)) (λ p. x ∷ []) x
  octet-Decodes x =
      need-Decodes 1 (peek_u8 >>= λ y. advance 1 >> pure y) (λ p. x ∷ []) x (λ p. omega arith)
        (λ c at fits.
          let here : leb (c + 1) (length w.mem) ≡ true = ground arith in
          let read : byte_at w.mem c ≡ x = byte_at-drop w.mem c ∙ ap (λ bs. byte_at bs 0) at.1 in
          bind_done peek_u8 (λ y. advance 1 >> pure y) w c c x (rw (here, read) refl))

  pub word-Decodes :
      (n x : ℕ)
      → 0 < n
      → x < bound n
      → Decodes w (demarshal_word n) (encode_word (sender w.flags) gap n x) x
  unfolding demarshal_word
  word-Decodes n x pos small = elim (Bool-cases (n == 1)) [
    | inl one ↦ rw (one) (octet-Decodes x)
    | inr more ↦ rw (more) (
        then-Decodes (align_cur n) (λ _. need n >> load n) (λ p. pad w.host gap p n)
          (λ p. to_bytes (sender w.flags) n x) tt x (pad-Decodes n pos)
          (need-Decodes n (load n) (λ p. to_bytes (sender w.flags) n x) x
            (λ p. omega (arith, length-to_bytes (sender w.flags) n x)) (load-Decodes n x small)))
  ]

  pub dup_lem : (s rest : List ℕ) → AllText s → dup (s ++ 0 ∷ rest) ≡ done s
  dup_lem [] rest h = refl
  dup_lem (zero ∷ s) rest h = absurd (omega (arith, h.0))
  dup_lem (suc b ∷ s) rest h = rw (dup_lem s rest h.2) refl

  text-Decodes :
      (s : List ℕ)
      → AllText s
      → length s + 1 < 0x80000000
      → Decodes w (string_of (length s + 1)) (λ p. s ++ 0 ∷ []) s
  text-Decodes s h small c (rest, at) fits =
      let i = length s + 1 in
      let len : length (s ++ 0 ∷ []) ≡ i = length-append s (0 ∷ []) in
      let short : leb 0x80000000 i ≡ false = ground arith in
      let enough : ltb w.end (c + i) ≡ false = ground (arith, len) in
      let forward : ltb (c + i) c ≡ false = ground arith in
      let copied : string_dup w c ≡ done (s, c) =
        (let e : dup (drop c w.mem) ≡ done s =
            ap dup (at ∙ append_assoc s (0 ∷ []) rest) ∙ dup_lem s rest h in
          ap (λ r. elim r [ done x ↦ done (x, c) | broken ↦ broken | fault ↦ fault ]) e) in
      rw (short, len)
        (bind_done (need_len i) (λ _. string_dup >>= λ x. advance i >> pure x) w c c tt
            (rw (enough, forward) refl)
          ∙ bind_done string_dup (λ x. advance i >> pure x) w c c s copied)

  pub string-Decodes :
      (s : List ℕ)
      → AllText s
      → length s + 1 < 0x80000000
      → Decodes w demarshal_string (encode (sender w.flags) gap string (text s)) s
  unfolding demarshal_string encode
  string-Decodes s h small =
      then-Decodes (demarshal_word 4) string_of (encode_word (sender w.flags) gap 4 (length s + 1))
        (λ p. s ++ 0 ∷ []) (length s + 1) s
        (word-Decodes 4 (length s + 1) (omega arith) (omega arith)) (text-Decodes s h small)

  pub repeat-Decodes :
      (m : Reader Value) (bytes : Value → ℕ → List ℕ) (P : Value → Type 0) (vs : Values)
      → ((v : Value) → P v → Decodes w m (bytes v) v)
      → AllHave P vs
      → Decodes w (repeat (count vs) m) (encode_all (sender w.flags) gap bytes vs) vs
  repeat-Decodes m bytes P nil each h = pure-Decodes nil
  repeat-Decodes m bytes P (cons v vs) each h =
      then-Decodes m (λ x. repeat (count vs) m >>= λ xs. pure (cons x xs)) (bytes v)
        (encode_all (sender w.flags) gap bytes vs) v (cons v vs) (each v h.0)
        (map-Decodes (repeat (count vs) m) (λ xs. cons v xs)
          (encode_all (sender w.flags) gap bytes vs) vs (repeat-Decodes m bytes P vs each h.1))

  pub octets-Decodes : (bs : List ℕ) → Decodes w (copy_octets (length bs)) (λ p. bs) bs
  unfolding copy_octets
  octets-Decodes bs c at fits =
      let enough : ltb w.end (c + length bs) ≡ false = ground arith in
      let forward : ltb (c + length bs) c ≡ false = ground arith in
      let here : leb (c + length bs) (length w.mem) ≡ true = ground arith in
      bind_done (need_len (length bs))
        (λ _ u p.
          if leb (p + length bs) (length u.mem)
          then done (slice p (length bs) u.mem, p + length bs)
          else fault)
        w c c tt (rw (enough, forward) refl)
      ∙ rw (here, At-slice w.mem c bs at) refl
