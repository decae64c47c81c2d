-- ===== src/Orb/CorbaLoc/Printed.antt =====
-- src/orb/orb-core/corba-loc.c: what is printed is parsed again.
use orbit.Base.{
  ℕ, ◌≤◌, ◌≡◌, refl, sym, ◌∙◌, Bool, true, false, none, some, List, [], ◌∷◌, ◌++◌, arith,
  append_assoc, append-nil,
}
use orbit.Giop.Message.{GiopVersion, giop_1_0, giop_1_1, giop_1_2}
use orbit.Giop.Reader.{done}
use orbit.Orb.Text.{
  Str, contains, all_digits, atoi, is_empty, split_first-append, split_last-append,
}
use orbit.Orb.Url.{url_encode, AllBytes, url_decode-url_encode, contains-url_encode}
use orbit.Orb.CorbaLoc.{
  iiop_parts, iiop_parse, internet, profile_iiop, profile_of, corbaloc_parse, corbaloc_from,
  profile_text, profiles_text, version_str, corbaloc_prefix,
}

-- A host name that the syntax can carry.
pub record IsHost (host : Str) : Type 0 where
  pub some_name : is_empty host ≡ false
  pub no_colon : contains b':' host ≡ false

-- What `%d` prints for a port.
pub record IsDecimal (n : ℕ) (text : Str) : Type 0 where
  pub some_digits : is_empty text ≡ false
  pub digits : all_digits text ≡ true
  pub value : atoi text ≡ n

iiop_parts-version_str :
    (v : GiopVersion) (host text : Str) (port : ℕ)
    → IsHost host
    → IsDecimal port text
    → port ≤ 65535
    → iiop_parts false (version_str v) host text
      ≡ some (record { version = v; host = host; port = port; ssl = false })
unfolding iiop_parts
iiop_parts-version_str giop_1_0 host text port h d small =
    ground (arith, h.some_name, d.some_digits, d.digits, d.value)
iiop_parts-version_str giop_1_1 host text port h d small =
    ground (arith, h.some_name, d.some_digits, d.digits, d.value)
iiop_parts-version_str giop_1_2 host text port h d small =
    ground (arith, h.some_name, d.some_digits, d.digits, d.value)

-- The text of an internet profile, without the key.
abbrev pub iiop_text : GiopVersion → Str → Str → Str
iiop_text v host text =
    b'i' ∷ b'i' ∷ b'o' ∷ b'p' ∷ b':' ∷ (version_str v ++ b'@' ∷ (host ++ b':' ∷ text))

profile_of-iiop_text :
    (v : GiopVersion) (host text : Str) (port : ℕ)
    → IsHost host
    → IsDecimal port text
    → port ≤ 65535
    → profile_of (iiop_text v host text) ≡ some (internet v host port none)
unfolding profile_of profile_iiop iiop_parse
profile_of-iiop_text giop_1_0 host text port h d small = ground (
  arith,
  split_first-append b':' host text h.no_colon,
  iiop_parts-version_str giop_1_0 host text port h d small,
)
profile_of-iiop_text giop_1_1 host text port h d small = ground (
  arith,
  split_first-append b':' host text h.no_colon,
  iiop_parts-version_str giop_1_1 host text port h d small,
)
profile_of-iiop_text giop_1_2 host text port h d small = ground (
  arith,
  split_first-append b':' host text h.no_colon,
  iiop_parts-version_str giop_1_2 host text port h d small,
)

unfoldable pub located : GiopVersion → Str → Str → List ℕ → Str
located v host text key = iiop_text v host text ++ b'/' ∷ url_encode key

printed_tail :
    (host text url : Str)
    → (host ++ b':' ∷ (text ++ b'/' ∷ url)) ++ [] ≡ (host ++ b':' ∷ text) ++ b'/' ∷ url
printed_tail host text url = append-nil _ ∙ sym (append_assoc host (b':' ∷ text) (b'/' ∷ url))

is_empty-url_encode : (key : List ℕ) → is_empty key ≡ false → is_empty (url_encode key) ≡ false
unfolding url_encode
is_empty-url_encode [] h = h
is_empty-url_encode (k ∷ ks) h = refl

printed_lem :
    (decimal : ℕ → Str) (v : GiopVersion) (host : Str) (port : ℕ) (key : List ℕ)
    → corbaloc_from decimal (internet v host port none ∷ []) key
      ≡ done (corbaloc_prefix ++ located v host (decimal port) key)
unfolding corbaloc_from profiles_text profile_text located
printed_lem decimal giop_1_0 host port key =
    rw (printed_tail host (decimal port) (url_encode key)) refl
printed_lem decimal giop_1_1 host port key =
    rw (printed_tail host (decimal port) (url_encode key)) refl
printed_lem decimal giop_1_2 host port key =
    rw (printed_tail host (decimal port) (url_encode key)) refl

parsed_lem :
    (strsplit : Str → List Str) (v : GiopVersion) (host text : Str) (port : ℕ) (key : List ℕ)
    → IsHost host
    → IsDecimal port text
    → port ≤ 65535
    → AllBytes key
    → is_empty key ≡ false
    → strsplit (iiop_text v host text) ≡ iiop_text v host text ∷ []
    → corbaloc_parse strsplit (corbaloc_prefix ++ located v host text key)
      ≡ some (internet v host port none ∷ [], key)
unfolding corbaloc_parse located
parsed_lem strsplit v host text port key h d small bytes some_key whole =
    rw
      (
        corbaloc_parse,
        split_last-append b'/' (iiop_text v host text) (url_encode key)
            (contains-url_encode b'/' key bytes refl refl),
        is_empty-url_encode key some_key,
        url_decode-url_encode key bytes,
        whole,
        profile_of-iiop_text v host text port h d small,
      )
      refl

-- One internet profile without SSL, on a host whose name is not empty and has no ':', and with a
-- port of 16 bits that is printed in decimal, is printed as a location with any key of bytes that
-- is not empty, and where the location without its prefix and key is not split at commas, it is
-- parsed as that profile and that key.
pub corbaloc_parse-corbaloc_from :
    (strsplit : Str → List Str) (decimal : ℕ → Str) (v : GiopVersion) (host : Str) (port : ℕ)
    (key : List ℕ)
    → IsHost host
    → IsDecimal port (decimal port)
    → port ≤ 65535
    → AllBytes key
    → is_empty key ≡ false
    → strsplit (iiop_text v host (decimal port)) ≡ iiop_text v host (decimal port) ∷ []
    → (loc : Str) × (corbaloc_from decimal (internet v host port none ∷ []) key ≡ done loc)
      × (corbaloc_parse strsplit loc ≡ some (internet v host port none ∷ [], key))
corbaloc_parse-corbaloc_from strsplit decimal v host port key h d small bytes some_key whole = (
  corbaloc_prefix ++ located v host (decimal port) key,
  printed_lem decimal v host port key,
  parsed_lem strsplit v host (decimal port) port key h d small bytes some_key whole,
)

all_digits-slash : (xs ys : Str) → all_digits (xs ++ b'/' ∷ ys) ≡ false
all_digits-slash [] ys = refl
all_digits-slash (x ∷ xs) ys = ground (arith, all_digits-slash xs ys)

iiop_parts-slash :
    (ssl : Bool) (ver host xs ys : Str) → iiop_parts ssl ver host (xs ++ b'/' ∷ ys) ≡ none
unfolding iiop_parts
iiop_parts-slash ssl ver host xs ys = ground (arith, all_digits-slash xs ys)

profile_of-slash :
    (v : GiopVersion) (host xs ys : Str)
    → contains b':' host ≡ false
    → profile_of (iiop_text v host (xs ++ b'/' ∷ ys)) ≡ none
unfolding profile_of profile_iiop iiop_parse
profile_of-slash giop_1_0 host xs ys h = ground (
  arith,
  split_first-append b':' host (xs ++ b'/' ∷ ys) h,
  iiop_parts-slash false (version_str giop_1_0) host xs ys,
)
profile_of-slash giop_1_1 host xs ys h = ground (
  arith,
  split_first-append b':' host (xs ++ b'/' ∷ ys) h,
  iiop_parts-slash false (version_str giop_1_1) host xs ys,
)
profile_of-slash giop_1_2 host xs ys h = ground (
  arith,
  split_first-append b':' host (xs ++ b'/' ∷ ys) h,
  iiop_parts-slash false (version_str giop_1_2) host xs ys,
)

-- The text in front of the last key of a location with two profiles.
abbrev pub two_text : GiopVersion → Str → Str → GiopVersion → Str → Str → List ℕ → Str
two_text v host text v' host' text' key = located v host text key ++ b',' ∷ iiop_text v' host' text'

two_lem :
    (decimal : ℕ → Str) (v v' : GiopVersion) (host host' : Str) (port port' : ℕ) (key : List ℕ)
    → corbaloc_from decimal (internet v host port none ∷ internet v' host' port' none ∷ []) key
      ≡ done (
          corbaloc_prefix
          ++ (two_text v host (decimal port) v' host' (decimal port') key ++ b'/' ∷ url_encode key))
unfolding corbaloc_from profiles_text profile_text located
two_lem decimal v v' host host' port port' key = simp (append_assoc, append-nil)

located_lem :
    (v : GiopVersion) (host text : Str) (key : List ℕ)
    → located v host text key ≡ iiop_text v host (text ++ b'/' ∷ url_encode key)
unfolding located
located_lem v host text key = simp append_assoc

-- The location that is printed for two internet profiles without SSL, where the first host has no
-- ':', the key is made of bytes, and the text is split at the comma between the profiles, is
-- refused by the parser: the key that stands behind the first profile is taken for a part of its
-- port.
pub corbaloc_parse-two :
    (strsplit : Str → List Str) (decimal : ℕ → Str) (v v' : GiopVersion) (host host' : Str)
    (port port' : ℕ) (key : List ℕ)
    → contains b':' host ≡ false
    → AllBytes key
    → strsplit (two_text v host (decimal port) v' host' (decimal port') key)
      ≡ located v host (decimal port) key ∷ iiop_text v' host' (decimal port') ∷ []
    → (loc : Str) × (corbaloc_from decimal
          (internet v host port none ∷ internet v' host' port' none ∷ [])
          key
        ≡ done loc)
      × (corbaloc_parse strsplit loc ≡ none)
unfolding corbaloc_parse
corbaloc_parse-two strsplit decimal v v' host host' port port' key h bytes split = (
  _,
  two_lem decimal v v' host host' port port' key,
  ground (
    arith,
    split_last-append b'/' (two_text v host (decimal port) v' host' (decimal port') key)
        (url_encode key) (contains-url_encode b'/' key bytes refl refl),
    split,
    located_lem v host (decimal port) key,
    profile_of-slash v host (decimal port) (url_encode key) h,
  ),
)
