-- ===== src/Name/Text/RoundTrip.antt =====
-- src/services/name/name-support.c: what a name becomes that is printed and read again.
use orbit.Base.{
  ℕ, ◌≡◌, refl, sym, ap, ◌∙◌, Bool, true, false, not, ◌||◌, Option, none, some, List, [], ◌∷◌, ◌++◌,
  ◌==◌, if◌then◌else◌, ◌≢◌, ◌↔◌, length, suc, ◌≤◌, subst, arith, append-nil, append_assoc,
  Bool-cases, inl, inr,
}
use orbit.Name.{Component, Name}
use orbit.Name.Text.{
  is_special, is_nil, escape, component_to_string, name_to_string, Parse, append_c, parse_from,
  parse_escaped, string_to_name,
}

abbrev pub has_plain : List ℕ → Bool
has_plain [] = false
has_plain (c ∷ s) = not (is_special c) || has_plain s

-- A component that the parser keeps apart from the next one.
abbrev pub is_kept : Component → Bool
is_kept c = is_nil c.id || not (is_nil c.kind) || has_plain c.id

-- What is read back: a component that is not kept is put in front of the next one's id.
abbrev pub read_back : List ℕ → Name → Name
read_back pre [] = []
read_back pre (c ∷ cs) =
    let apart = record { id = pre ++ c.id; kind = c.kind } ∷ read_back [] cs in
    let merged = read_back (pre ++ c.id) cs in if is_kept c then apart else merged

abbrev st : Name → List ℕ → List ℕ → Bool → Bool → Parse
st b i k m u = record { before = b; id = i; kind = k; in_kind = m; used = u }

or_false : (u : Bool) → (u || false) ≡ u
or_false true = refl
or_false false = refl

plain_tests :
    (c : ℕ)
    → is_special c ≡ false
    → ((c == b'.') ≡ false) × ((c == b'/') ≡ false) × ((c == b'\\') ≡ false)
plain_tests c h = ground arith

special_read :
    (c : ℕ) (s : List ℕ) (p : Parse)
    → is_special c ≡ true
    → parse_escaped (c ∷ s) p ≡ parse_from s (append_c c p)
unfolding parse_from
special_read c s p h = ap (λ x. elim x [ true ↦ parse_from s (append_c c p) | false ↦ none ]) h

plain_read :
    (c : ℕ) (s : List ℕ) (p : Parse)
    → is_special c ≡ false
    → parse_from (c ∷ s) p ≡ parse_from s (append_c c (record p { used = true }))
unfolding parse_from
plain_read c s p h =
    let (dot, slash, backslash) = plain_tests c h in rw (parse_from, dot, slash, backslash) refl

-- What has been escaped is added as it was.
escaped_id :
    (s rest : List ℕ) (b : Name) (i k : List ℕ) (u : Bool)
    → parse_from (escape s ++ rest) (st b i k false u)
      ≡ parse_from rest (st b (i ++ s) k false (u || has_plain s))
unfolding parse_from
escaped_id [] rest b i k u = rw (append-nil i, or_false u) refl
escaped_id (c ∷ s) rest b i k u = elim (Bool-cases (is_special c)) [
  | inl special ↦ rw (special) (
      special_read c (escape s ++ rest) (st b i k false u) special
      ∙ escaped_id s rest b (i ++ c ∷ []) k u
      ∙ ap (λ x. parse_from rest (st b x k false (u || has_plain s))) (append_assoc i (c ∷ []) s))
  | inr plain ↦ rw (plain) (
      plain_read c (escape s ++ rest) (st b i k false u) plain
      ∙ escaped_id s rest b (i ++ c ∷ []) k true
      ∙ ap (λ x. parse_from rest (st b x k false true)) (append_assoc i (c ∷ []) s)
      ∙ ap (λ x. parse_from rest (st b (i ++ c ∷ s) k false x)) (or_true u))
]
  where
    or_true : (v : Bool) → true ≡ (v || true)
    or_true true = refl
    or_true false = refl

escaped_kind :
    (s rest : List ℕ) (b : Name) (i k : List ℕ)
    → parse_from (escape s ++ rest) (st b i k true true)
      ≡ parse_from rest (st b i (k ++ s) true true)
unfolding parse_from
escaped_kind [] rest b i k = rw (append-nil k) refl
escaped_kind (c ∷ s) rest b i k =
    let step =
      escaped_kind s rest b i (k ++ c ∷ [])
      ∙ ap (λ x. parse_from rest (st b i x true true)) (append_assoc k (c ∷ []) s) in
    elim (Bool-cases (is_special c)) [
      | inl special ↦
          rw (special) (special_read c (escape s ++ rest) (st b i k true true) special ∙ step)
      | inr plain ↦ rw (plain) (plain_read c (escape s ++ rest) (st b i k true true) plain ∙ step)
    ]

-- Whether a '.' has been printed.
abbrev has_dot : Component → Bool
has_dot c = not (is_nil c.kind) || is_nil c.id

component_read :
    (i k rest : List ℕ) (b : Name) (pre : List ℕ)
    → (let c : Component = record { id = i; kind = k } in
        parse_from (component_to_string c ++ rest) (st b pre [] false false)
        ≡ parse_from rest (st b (pre ++ i) k (has_dot c) (is_kept c)))
unfolding parse_from component_to_string
component_read [] [] rest b pre = rw (append-nil pre) refl
component_read [] (x ∷ k) rest b pre = rw (append-nil pre) (escaped_kind (x ∷ k) rest b pre [])
component_read (y ∷ i) [] rest b pre =
    rw (append-nil (escape (y ∷ i))) (escaped_id (y ∷ i) rest b pre [] false)
component_read (y ∷ i) (x ∷ k) rest b pre =
    rw (append_assoc (escape (y ∷ i)) (b'.' ∷ escape (x ∷ k)) rest) (
      escaped_id (y ∷ i) (b'.' ∷ (escape (x ∷ k) ++ rest)) b pre [] false
      ∙ escaped_kind (x ∷ k) rest b (pre ++ y ∷ i) [])

-- The end of a component, kept or not.
kept_apart : (c : Component) → is_kept c ≡ false → c.kind ≡ []
kept_apart c h = go c.id c.kind h
  where
    go : (i k : List ℕ) → is_kept (record { id = i; kind = k }) ≡ false → k ≡ []
    go [] k e = cc
    go (x ∷ i) [] e = refl
    go (x ∷ i) (y ∷ k) e = cc

if_behind :
    (kept : Bool) (b x y : Name)
    → some (if kept then b ++ x else b ++ y) ≡ some (b ++ (if kept then x else y))
if_behind true b x y = refl
if_behind false b x y = refl

read_on :
    (cs : Name) (b : Name) (i k : List ℕ) (m u : Bool)
    → (u ≡ false → k ≡ [])
    → parse_from (name_to_string cs) (st b i k m u)
      ≡ some (if u then b ++ record { id = i; kind = k } ∷ read_back [] cs else b ++ read_back i cs)
unfolding parse_from name_to_string
read_on [] b i k m true h = refl
read_on [] b i k m false h = ap some (sym (append-nil b))
read_on (c ∷ cs) b i k m true h =
    component_read c.id c.kind (name_to_string cs) (b ++ record { id = i; kind = k } ∷ []) []
    ∙ read_on cs (b ++ record { id = i; kind = k } ∷ []) c.id c.kind (has_dot c) (is_kept c)
        (kept_apart c)
    ∙ if_behind (is_kept c) (b ++ record { id = i; kind = k } ∷ []) _ _
    ∙ ap some (append_assoc b (record { id = i; kind = k } ∷ []) (read_back [] (c ∷ cs)))
read_on (c ∷ cs) b i k m false h = rw (h refl) (
    component_read c.id c.kind (name_to_string cs) b i
    ∙ read_on cs b (i ++ c.id) c.kind (has_dot c) (is_kept c) (kept_apart c)
    ∙ if_behind (is_kept c) b _ _)

string_to_name-name_to_string_any :
    (n : Name) → string_to_name (name_to_string n) ≡ some (read_back [] n)
unfolding string_to_name
string_to_name-name_to_string_any n = read_on n [] [] [] false false (λ e. refl)

abbrev pub AllKept : Name → Type 0
AllKept [] = Unit
AllKept (c ∷ cs) = (is_kept c ≡ true) × AllKept cs

read_back_kept : (n : Name) → AllKept n → read_back [] n ≡ n
read_back_kept [] h = refl
read_back_kept (c ∷ cs) (kept, more) = rw (kept) (ap (λ t. c ∷ t) (read_back_kept cs more))

length-read_back : (cs : Name) (pre : List ℕ) → length (read_back pre cs) ≤ length cs
length-read_back [] pre = omega arith
length-read_back (c ∷ cs) pre =
    ground (arith, length-read_back cs [], length-read_back cs (pre ++ c.id))

all_kept : (cs : Name) (pre : List ℕ) → length (read_back pre cs) ≡ length cs → AllKept cs
all_kept [] pre h = tt
all_kept (c ∷ cs) pre h = elim (Bool-cases (is_kept c)) [
  | inl kept ↦
      let same : suc (length (read_back [] cs)) ≡ suc (length cs) =
        subst
          (λ b.
            length (
              if b
              then record { id = pre ++ c.id; kind = c.kind } ∷ read_back [] cs
              else read_back (pre ++ c.id) cs)
            ≡ suc (length cs))
          kept h in
      (kept, all_kept cs [] (omega arith))
  | inr lost ↦
      let same : length (read_back (pre ++ c.id) cs) ≡ suc (length cs) =
        subst
          (λ b.
            length (
              if b
              then record { id = pre ++ c.id; kind = c.kind } ∷ read_back [] cs
              else read_back (pre ++ c.id) cs)
            ≡ suc (length cs))
          lost h in
      absurd (omega (arith, length-read_back cs (pre ++ c.id)))
]

some_name : Option Name → Name
some_name none = []
some_name (some n) = n

-- A name that is written as a text is read back as it was if and only if each of its components
-- has an empty id, or a kind that is not empty, or a character in its id other than a dot, a slash
-- and a backslash.
pub string_to_name-name_to_string :
    (n : Name) → (string_to_name (name_to_string n) ≡ some n) ↔ AllKept n
unfolding some_name
string_to_name-name_to_string n =
    let back = string_to_name-name_to_string_any n in
    (
      λ e. all_kept n [] (ap (λ o. length (some_name o)) (sym back ∙ e)),
      λ h. back ∙ ap some (read_back_kept n h),
    )

lost_special :
    (i : List ℕ) → i ≢ [] → has_plain i ≡ false → is_kept (record { id = i; kind = [] }) ≡ false
lost_special [] some_id special = absurd (some_id refl)
lost_special (x ∷ i) some_id special = special

-- A component that is not kept is lost at the end of a name, and run together with the next one before
-- others that are kept.
pub string_to_name-merged :
    (i : List ℕ) (c : Component) (n : Name)
    → i ≢ []
    → has_plain i ≡ false
    → AllKept (c ∷ n)
    → (let special : Component = record { id = i; kind = [] } in
        (string_to_name (name_to_string (special ∷ [])) ≡ some [])
        × (string_to_name (name_to_string (special ∷ c ∷ n))
            ≡ some (record { id = i ++ c.id; kind = c.kind } ∷ n)))
string_to_name-merged i c n some_id special (kept, more) =
    let lost = lost_special i some_id special in
    (
      string_to_name-name_to_string_any _
          ∙ ap (λ b. some (if b then record { id = i; kind = [] } ∷ [] else [])) lost,
      string_to_name-name_to_string_any _
          ∙ rw (lost, kept)
              (ap (λ t. some (record { id = i ++ c.id; kind = c.kind } ∷ t))
                (read_back_kept n more)),
    )
