-- ===== src/Orb/CorbaLoc.antt =====
-- src/orb/orb-core/corba-loc.c: object locations as text (`corbaloc:`). `strsplit` stands for GLib's
-- g_strsplit at commas and `decimal` for the `%d` of its printf.
pub mod Printed
use orbit.Base.{
  ℕ, ◌+◌, ◌*◌, ◌-◌, ◌%◌, ◌/◌, Bool, true, false, ◌&&◌, ◌||◌, not, Option, none, some, List, [], ◌∷◌,
  ◌++◌, ◌==◌, ltb, leb, if◌then◌else◌, arith, ◌≡◌, ◌<◌, ap, ◌∙◌, refl,
}
use orbit.Giop.Message.{GiopVersion, giop_1_0, giop_1_1, giop_1_2}
use orbit.Giop.Reader.{Outcome, done, broken, fault}
use orbit.Orb.Text.{
  Str, contains, split_first, split_last, starts_with, all_digits, atoi, skip_slashes, is_empty,
}
use orbit.Orb.Url.{url_decode, url_encode}

-- What the parser finds in an internet profile.
pub record Iiop : Type 0 where
  pub version : GiopVersion
  pub host : Str
  pub port : ℕ
  pub ssl : Bool

abbrev version_named : Str → Option GiopVersion
version_named s =
    if starts_with (b'1' ∷ b'.' ∷ b'0' ∷ []) s
    then some giop_1_0
    else if starts_with (b'1' ∷ b'.' ∷ b'1' ∷ []) s
    then some giop_1_1
    else if starts_with (b'1' ∷ b'.' ∷ b'2' ∷ []) s
    then some giop_1_2
    else none

-- Which prefix an internet profile has, and whether that asks for SSL.
abbrev iiop_ssl : Str → Option Bool
iiop_ssl p =
    if starts_with (b':' ∷ []) p || starts_with (b'i' ∷ b'i' ∷ b'o' ∷ b'p' ∷ b':' ∷ []) p
    then some false
    else if starts_with (b'i' ∷ b'i' ∷ b'o' ∷ b'p' ∷ b's' ∷ b':' ∷ []) p
        || starts_with (b's' ∷ b's' ∷ b'l' ∷ b'i' ∷ b'o' ∷ b'p' ∷ b':' ∷ []) p
    then some true
    else none

-- The tests on the three parts, which stand for "1.0" or "1.1" and `OMG_LOCATOR` where the text has
-- none.
unfoldable pub iiop_parts : Bool → Str → Str → Str → Option Iiop
iiop_parts ssl ver host port =
    if is_empty ver || is_empty host || is_empty port
    then none
    else if ltb 65535 (atoi port) || not (all_digits port)
    then none
    else elim (version_named ver) [
      | none ↦ none
      | some v ↦ some (record { version = v; host = host; port = atoi port; ssl = ssl })
    ]

abbrev host_and_port : Bool → Str → Str → Option Iiop
host_and_port ssl ver tok = elim (split_first b':' tok) [
  | some (host, port) ↦ iiop_parts ssl ver host port
  | none ↦ iiop_parts ssl ver tok (b'2' ∷ b'8' ∷ b'0' ∷ b'9' ∷ [])
]

-- `corbaloc_profile_iiop_parse`
unfoldable pub iiop_parse : Str → Option Iiop
iiop_parse profile = elim (iiop_ssl profile) [
  | none ↦ none
  | some ssl ↦ elim (split_first b':' profile) [
    | none ↦ none
    | some (scheme, rest) ↦
        let tok = skip_slashes rest in
        elim (split_first b'@' tok) [
          | some (ver, tok') ↦ host_and_port ssl ver tok'
          | none ↦
              host_and_port ssl (if ssl then b'1' ∷ b'.' ∷ b'1' ∷ [] else b'1' ∷ b'.' ∷ b'0' ∷ [])
                tok
        ]
  ]
]

-- `corbaloc_profile_uiop_parse`: it steps back onto the last '/', or onto the ':' if there is none.
unfoldable pub uiop_parse : Str → Option (Str × ℕ)
uiop_parse profile =
    if not (starts_with (b'u' ∷ b'i' ∷ b'o' ∷ b'p' ∷ b':' ∷ []) profile)
    then none
    else elim (split_first b':' profile) [
      | none ↦ none
      | some (scheme, rest) ↦
          let back = if starts_with (b'/' ∷ []) rest then b'/' else b':' in
          elim (split_last b':' (back ∷ skip_slashes rest)) [
            | none ↦ none
            | some (path, port) ↦
                if ltb 65535 (atoi port) || not (all_digits port) || is_empty path
                then none
                else some (path, atoi port)
          ]
    ]

-- `IOP_TAG_INTERNET_IOP_info` with the port of its SSL component, if it has one, and
-- `IOP_TAG_ORBIT_SPECIFIC_info`; `other` is a profile of any other kind.
pub data Profile : Type 0 where
  internet : GiopVersion → Str → ℕ → Option ℕ → Profile
  local : Str → ℕ → Profile
  other : Profile

abbrev is_1_0 : GiopVersion → Bool
is_1_0 giop_1_0 = true
is_1_0 _ = false

-- `corbaloc_profile_iiop` and `corbaloc_profile_uiop`
unfoldable pub profile_iiop : Str → Option Profile
profile_iiop token = elim (iiop_parse token) [
  | none ↦ none
  | some i ↦
      if i.ssl && is_1_0 i.version
      then none
      else if i.ssl
      then some (internet i.version i.host 0 (some i.port))
      else some (internet i.version i.host i.port none)
]

unfoldable pub profile_uiop : Str → Option Profile
profile_uiop token = elim (uiop_parse token) [
  | none ↦ none
  | some (path, port) ↦ some (local path port)
]

-- The `switch` on the first character of a token.
unfoldable pub profile_of : Str → Option Profile
profile_of [] = none
profile_of (c ∷ cs) =
    if c == b':' || c == b'i' || c == b's'
    then profile_iiop (c ∷ cs)
    else if c == b'u'
    then profile_uiop (c ∷ cs)
    else none

abbrev pub profiles_of : List Str → Option (List Profile)
profiles_of [] = some []
profiles_of (t ∷ ts) = elim (profile_of t) [
  | none ↦ none
  | some p ↦ elim (profiles_of ts) [ none ↦ none | some ps ↦ some (p ∷ ps) ]
]

abbrev pub corbaloc_prefix : Str
corbaloc_prefix = b'c' ∷ b'o' ∷ b'r' ∷ b'b' ∷ b'a' ∷ b'l' ∷ b'o' ∷ b'c' ∷ b':' ∷ []

abbrev pub drop_prefix : Str → Str
drop_prefix (a ∷ b ∷ c ∷ d ∷ e ∷ f ∷ g ∷ h ∷ i ∷ s) = s
drop_prefix s = s

-- `ORBit_corbaloc_parse`: the profiles, and the key that each of them gets; `none` is NULL.
unfoldable pub corbaloc_parse : (Str → List Str) → Str → Option (List Profile × List ℕ)
corbaloc_parse strsplit corbaloc =
    let loc = if starts_with corbaloc_prefix corbaloc then drop_prefix corbaloc else corbaloc in
    elim (split_last b'/' loc) [
      | none ↦ none
      | some (front, okey) ↦ if is_empty okey then none else elim (url_decode okey) [
        | none ↦ none
        | some key ↦ elim (profiles_of (strsplit front)) [
          | none ↦ none
          | some [] ↦ none
          | some (p ∷ ps) ↦ some (p ∷ ps, key)
        ]
      ]
    ]

-- `giop_version_str`
abbrev pub version_str : GiopVersion → Str
version_str giop_1_0 = b'1' ∷ b'.' ∷ b'0' ∷ []
version_str giop_1_1 = b'1' ∷ b'.' ∷ b'1' ∷ []
version_str giop_1_2 = b'1' ∷ b'.' ∷ b'2' ∷ []

-- One profile in the loop of `ORBit_corbaloc_from`; a component for SSL without a port fails an
-- assertion (a fault).
unfoldable pub profile_text : (ℕ → Str) → List ℕ → Profile → Outcome Str
profile_text decimal key (internet v host port none) = done (
    b'i'
    ∷ b'i'
    ∷ b'o'
    ∷ b'p'
    ∷ b':'
    ∷ (version_str v ++ b'@' ∷ (host ++ b':' ∷ (decimal port ++ b'/' ∷ url_encode key))))
profile_text decimal key (internet v host port (some ssl)) =
    if ssl == 0
    then fault
    else done (
        b's'
        ∷ b's'
        ∷ b'l'
        ∷ b'i'
        ∷ b'o'
        ∷ b'p'
        ∷ b':'
        ∷ (version_str v ++ b'@' ∷ (host ++ b':' ∷ (decimal ssl ++ b'/' ∷ url_encode key))))
profile_text decimal key (local path port) = done (
    b'u'
    ∷ b'i'
    ∷ b'o'
    ∷ b'p'
    ∷ b':'
    ∷ (path ++ b':' ∷ ((if port == 0 then [] else decimal port) ++ b'/' ∷ url_encode key)))
profile_text decimal key other = broken

-- The loop of `ORBit_corbaloc_from`, with `first_profile`.
unfoldable pub profiles_text : (ℕ → Str) → List ℕ → Bool → List Profile → Outcome Str
profiles_text decimal key first [] = done []
profiles_text decimal key first (p ∷ ps) =
    let behind = profiles_text decimal key false ps in
    let same = profiles_text decimal key first ps in
    elim (profile_text decimal key p) [
      | broken ↦ same
      | fault ↦ fault
      | done t ↦ elim behind [
        | broken ↦ broken
        | fault ↦ fault
        | done s ↦ done ((if first then [] else b',' ∷ []) ++ (t ++ s))
      ]
    ]

-- `as_corbaloc`
abbrev pub as_corbaloc : List Profile → Bool
as_corbaloc [] = false
as_corbaloc (internet v host port ssl ∷ ps) = true
as_corbaloc (local path port ∷ ps) = true
as_corbaloc (other ∷ ps) = as_corbaloc ps

-- `ORBit_corbaloc_from`; `broken` is its NULL.
unfoldable pub corbaloc_from : (ℕ → Str) → List Profile → List ℕ → Outcome Str
corbaloc_from decimal ps key =
    if as_corbaloc ps
    then elim (profiles_text decimal key true ps) [
      | done s ↦ done (corbaloc_prefix ++ s)
      | broken ↦ broken
      | fault ↦ fault
    ]
    else broken
