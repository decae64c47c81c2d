-- ===== src/Orb/Exceptions/Returned.antt =====
-- src/orb/orb-core/orbit-small.c: what a caller gets of the exception that was sent to it.
use orbit.Base.{
  ℕ, zero, suc, ◌+◌, ◌<◌, ◌≤◌, ◌≡◌, refl, sym, ap, subst, ◌∙◌, false, none, some, List, [], ◌∷◌,
  ◌++◌, ◌==◌, if◌then◌else◌, length, drop, arith, length-append, append_assoc, Bool-cases, inl, inr,
  same_text, same_text_lem,
}
use orbit.Giop.Wire.{sender}
use orbit.Giop.Reader.{done, broken, fault, Wire, ◌>>=◌, pure}
use orbit.Orb.Value.{Value, text, encode, encode_word, HasType, AllText}
use orbit.Orb.TypeCode.{string}
use orbit.Orb.Words.{bound}
use orbit.Orb.Value.Demarshal.{demarshal_word, dup}
use orbit.Orb.Value.Reading.{At, At-append, At-behind, bind_done, word-Decodes, dup_lem}
use orbit.Orb.Value.Decoding.{demarshal_value-encode}
use orbit.Orb.Exceptions.{
  Declared, user, system, system_exception, system_body, id_at, marshal_maybe, user_exception,
  find_declared, strcmp, find_at, demarshal_user, user_body, first_declared, here, repoid,
  exception_body, handle_exception_array,
}

-- The ids of the declared exceptions are texts.
abbrev pub AllIds : List Declared → Type 0
AllIds [] = Unit
AllIds (d ∷ ds) = AllText d.repo_id × AllIds ds

strcmp-same_text :
    (a s rest : List ℕ) → AllText a → AllText s → strcmp a (s ++ 0 ∷ rest) ≡ done (same_text a s)
strcmp-same_text [] [] rest ha hs = refl
strcmp-same_text [] (zero ∷ s) rest ha hs = absurd (omega (arith, hs.0))
strcmp-same_text [] (suc b ∷ s) rest ha hs = refl
strcmp-same_text (x ∷ a) [] rest ha hs =
    let differ : (x == 0) ≡ false = (let pos = ha.0 in ground arith) in rw (differ) refl
strcmp-same_text (x ∷ a) (b ∷ s) rest ha hs = elim (Bool-cases (x == b)) [
  | inl same ↦ rw (same) (strcmp-same_text a s rest ha.2 hs.2)
  | inr differ ↦ rw (differ) refl
]

find_at-find_declared :
    (ds : List Declared) (s rest : List ℕ)
    → AllIds ds
    → AllText s
    → find_at ds (s ++ 0 ∷ rest) ≡ done (find_declared ds s)
find_at-find_declared [] s rest hd hs = refl
find_at-find_declared (d ∷ ds) s rest hd hs =
    let first = strcmp-same_text d.repo_id s rest hd.0 hs in
    elim (Bool-cases (same_text d.repo_id s)) [
      | inl same ↦ rw (find_at, first, same) refl
      | inr differ ↦ rw (find_at, first, differ) (find_at-find_declared ds s rest hd.1 hs)
    ]

pub found_id :
    (ds : List Declared) (s : List ℕ) (d : Declared) → find_declared ds s ≡ some d → d.repo_id ≡ s
found_id [] s d h = cc
found_id (e ∷ ds) s d h = elim (Bool-cases (same_text e.repo_id s)) [
  | inl same ↦
      let first : some e ≡ some d =
        subst (λ b. (if b then some e else find_declared ds s) ≡ some d) same h in
      ap (λ o. elim o [ some x ↦ x.repo_id | none ↦ e.repo_id ]) (sym first)
      ∙ same_text_lem e.repo_id s same
  | inr differ ↦
      found_id ds s d (subst (λ b. (if b then some e else find_declared ds s) ≡ some d) differ h)
]

-- The id and the value as they are read.
module _ (gap : ℕ → ℕ) (w : Wire) (room : w.end ≤ length w.mem) where
  pub user_exception_read :
      (ds : List Declared) (id : List ℕ) (d : Declared) (v : Value) (c : ℕ)
      → AllIds ds
      → AllText id
      → length id + 1 < 0x80000000
      → find_declared ds id ≡ some d
      → HasType d.type v
      → (let bs = encode (sender w.flags) gap string (text id) c in
          let vs = encode (sender w.flags) gap d.type v (c + length bs) in
          (drop c w.mem ≡ (bs ++ vs) ++ []) × (c + length (bs ++ vs) ≤ w.end))
      → handle_exception_array ds user_exception w c ≡ done (user d.repo_id (some v))
  unfolding handle_exception_array exception_body user_body demarshal_user encode
  user_exception_read ds id d v c ids hid small found h (at, fits) =
      let word = encode_word (sender w.flags) gap 4 (length id + 1) c in
      let txt = id ++ 0 ∷ [] in
      let bs = word ++ txt in
      let vs = encode (sender w.flags) gap d.type v (c + length bs) in
      let c1 = c + length word in
      let c2 = c1 + (length id + 1) in
      let len = length-append word txt in
      let len_id : length txt ≡ length id + 1 = length-append id (0 ∷ []) in
      let len_all = length-append bs vs in
      let first : At w.mem c bs = At-append w.mem c bs vs ([], at) in
      let length_read : demarshal_word 4 w c ≡ done (length id + 1, c1) =
        word-Decodes gap w room 4 (length id + 1) (omega arith) (omega arith) c
          (At-append w.mem c word txt first) (omega (arith, len, len_all)) in
      let (more, id_here) = At-behind w.mem c word txt first in
      let placed : repoid (length id + 1) w c1 ≡ done (some c1, c2) =
        (let some_id : (length id + 1 == 0) ≡ false = ground arith in rw (some_id) refl) in
      let known : find_at ds (drop c1 w.mem) ≡ done (some d) =
        ap (find_at ds) (id_here ∙ append_assoc id (0 ∷ []) more)
        ∙ find_at-find_declared ds id more ids hid
        ∙ ap done found in
      let value_place : c2 ≡ c + length bs = omega (arith, len, len_id) in
      let (more_value, value_here) = At-behind w.mem c bs vs ([], at) in
      let value_read : demarshal_user d w c2
          ≡ done (user d.repo_id (some v), c + length bs + length vs) =
        subst
          (λ n. demarshal_user d w n ≡ done (user d.repo_id (some v), c + length bs + length vs))
          (sym value_place)
          (ap
            (λ r. elim r [
              | done (x, c') ↦ done (user d.repo_id (some x), c')
              | broken ↦ done (user d.repo_id none, c + length bs)
              | fault ↦ fault
            ])
            (demarshal_value-encode gap w d.type v (c + length bs) more_value room h value_here
              (omega (arith, len_all)))) in
      ap (λ r. elim r [ done (e, c') ↦ done e | broken ↦ done marshal_maybe | fault ↦ fault ])
        (bind_done (demarshal_word 4) (λ n. repoid n >>= λ place. user_body ds place) w c c1
            (length id + 1) length_read
          ∙ bind_done (repoid (length id + 1)) (λ place. user_body ds place) w c1 c2 (some c1)
              placed
          ∙ ap
              (λ r. elim r [
                | done none ↦ done (marshal_maybe, c2)
                | done (some x) ↦ demarshal_user x w c2
                | broken ↦ broken
                | fault ↦ fault
              ])
              known
          ∙ value_read)

  -- The id, `minor` and `completed` as they are read.
  pub system_exception_read :
      (ds : List Declared) (id : List ℕ) (minor completed c : ℕ)
      → AllText id
      → length id + 1 < 0x80000000
      → (minor < bound 4) × (completed < bound 4)
      → (let bs = encode (sender w.flags) gap string (text id) c in
          let ms = encode_word (sender w.flags) gap 4 minor (c + length bs) in
          let cs = encode_word (sender w.flags) gap 4 completed (c + length (bs ++ ms)) in
          (drop c w.mem ≡ ((bs ++ ms) ++ cs) ++ []) × (c + length ((bs ++ ms) ++ cs) ≤ w.end))
      → handle_exception_array ds system_exception w c ≡ done (system (some id) minor completed)
  unfolding handle_exception_array exception_body system_body encode
  system_exception_read ds id minor completed c hid small (hm, hc) (at, fits) =
      let word = encode_word (sender w.flags) gap 4 (length id + 1) c in
      let txt = id ++ 0 ∷ [] in
      let bs = word ++ txt in
      let ms = encode_word (sender w.flags) gap 4 minor (c + length bs) in
      let cs = encode_word (sender w.flags) gap 4 completed (c + length (bs ++ ms)) in
      let c1 = c + length word in
      let c2 = c1 + (length id + 1) in
      let c3 = c + length bs + length ms in
      let len = length-append word txt in
      let len_id : length txt ≡ length id + 1 = length-append id (0 ∷ []) in
      let len_bm = length-append bs ms in
      let len_all = length-append (bs ++ ms) cs in
      let both : At w.mem c (bs ++ ms) = At-append w.mem c (bs ++ ms) cs ([], at) in
      let first : At w.mem c bs = At-append w.mem c bs ms both in
      let length_read : demarshal_word 4 w c ≡ done (length id + 1, c1) =
        word-Decodes gap w room 4 (length id + 1) (omega arith) (omega arith) c
          (At-append w.mem c word txt first) (omega (arith, len, len_bm, len_all)) in
      let (more, id_here) = At-behind w.mem c word txt first in
      let placed : repoid (length id + 1) w c1 ≡ done (some c1, c2) =
        (let some_id : (length id + 1 == 0) ≡ false = ground arith in rw (some_id) refl) in
      let minor_place : c2 ≡ c + length bs = omega (arith, len, len_id) in
      let minor_read : demarshal_word 4 w c2 ≡ done (minor, c3) =
        subst (λ n. demarshal_word 4 w n ≡ done (minor, c3)) (sym minor_place)
          (word-Decodes gap w room 4 minor (omega arith) hm (c + length bs)
            (At-behind w.mem c bs ms both) (omega (arith, len_bm, len_all))) in
      let completed_place : c3 ≡ c + length (bs ++ ms) = omega (arith, len_bm) in
      let completed_read : demarshal_word 4 w c3 ≡ done (completed, c3 + length cs) =
        subst (λ n. demarshal_word 4 w n ≡ done (completed, n + length cs)) (sym completed_place)
          (word-Decodes gap w room 4 completed (omega arith) hc (c + length (bs ++ ms))
            (At-behind w.mem c (bs ++ ms) cs ([], at)) (omega (arith, len_all))) in
      let copied : dup (drop c1 w.mem) ≡ done id =
        ap dup (id_here ∙ append_assoc id (0 ∷ []) more) ∙ dup_lem gap w room id more hid in
      ap (λ r. elim r [ done (e, c') ↦ done e | broken ↦ done marshal_maybe | fault ↦ fault ])
        (bind_done (demarshal_word 4) (λ n. repoid n >>= λ place. system_body place) w c c1
            (length id + 1) length_read
          ∙ bind_done (repoid (length id + 1)) (λ place. system_body place) w c1 c2 (some c1) placed
          ∙ bind_done (demarshal_word 4)
              (λ m. demarshal_word 4 >>= λ k. id_at (some c1) >>= λ i. pure (system i m k)) w c2 c3
              minor minor_read
          ∙ bind_done (demarshal_word 4) (λ k. id_at (some c1) >>= λ i. pure (system i minor k)) w
              c3 (c3 + length cs) completed completed_read
          ∙ bind_done (id_at (some c1)) (λ i. pure (system i minor completed)) w (c3 + length cs)
              (c3 + length cs) (some id)
              (ap
                (λ r. elim r [
                  | done i ↦ done (some i, c3 + length cs)
                  | broken ↦ broken
                  | fault ↦ fault
                ])
                copied))

  -- No id, and the value.
  no_id_read :
      (d : Declared) (ds : List Declared) (v : Value) (c : ℕ) (rest : List ℕ)
      → HasType d.type v
      → (let bs = encode_word (sender w.flags) gap 4 0 c in
          let vs = encode (sender w.flags) gap d.type v (c + length bs) in
          (drop c w.mem ≡ (bs ++ vs) ++ rest) × (c + length (bs ++ vs) ≤ w.end))
      → handle_exception_array (d ∷ ds) user_exception w c ≡ done (user d.repo_id (some v))
  unfolding handle_exception_array exception_body user_body first_declared demarshal_user
  no_id_read d ds v c rest h (at, fits) =
      let bs = encode_word (sender w.flags) gap 4 0 c in
      let vs = encode (sender w.flags) gap d.type v (c + length bs) in
      let len = length-append bs vs in
      let length_read : demarshal_word 4 w c ≡ done (0, c + length bs) =
        word-Decodes gap w room 4 0 (omega arith) (omega arith) c
          (At-append w.mem c bs vs (rest, at)) (omega (arith, len)) in
      let (more, value_here) = At-behind w.mem c bs vs (rest, at) in
      ap (λ r. elim r [ done (e, c') ↦ done e | broken ↦ done marshal_maybe | fault ↦ fault ])
        (bind_done (demarshal_word 4) (λ n. repoid n >>= λ place. user_body (d ∷ ds) place) w c
            (c + length bs) 0 length_read
          ∙ ap
              (λ r. elim r [
                | done (x, c') ↦ done (user d.repo_id (some x), c')
                | broken ↦ done (user d.repo_id none, c + length bs)
                | fault ↦ fault
              ])
              (demarshal_value-encode gap w d.type v (c + length bs) more room h value_here
                (omega (arith, len))))

-- A reply with a user exception whose id has the length 0, followed by a value of the type of the
-- first declared exception, within the message, is taken for that exception.
pub handle_exception_array-no_id :
    (gap : ℕ → ℕ) (w : Wire) (d : Declared) (ds : List Declared) (v : Value) (c : ℕ) (rest : List ℕ)
    → w.end ≤ length w.mem
    → HasType d.type v
    → (let bs = encode_word (sender w.flags) gap 4 0 c in
        let vs = encode (sender w.flags) gap d.type v (c + length bs) in
        (drop c w.mem ≡ (bs ++ vs) ++ rest) × (c + length (bs ++ vs) ≤ w.end))
    → handle_exception_array (d ∷ ds) user_exception w c ≡ done (user d.repo_id (some v))
handle_exception_array-no_id gap w d ds v c rest room h here =
    no_id_read gap w room d ds v c rest h here
