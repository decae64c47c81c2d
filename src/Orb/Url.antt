-- ===== src/Orb/Url.antt =====
-- src/orb/orb-core/corba-loc.c: object keys as text, `%xx` for each byte.
use orbit.Base.{
  ℕ, ◌+◌, ◌*◌, ◌-◌, ◌%◌, ◌/◌, Bool, true, false, ◌&&◌, ◌||◌, not, Option, none, some, List, [], ◌∷◌,
  ◌==◌, ltb, leb, if◌then◌else◌, arith, ◌≡◌, ◌<◌, refl,
}
use orbit.Orb.Text.{Str, contains, is_digit}

-- `tolower` and `isxdigit` of the C locale
abbrev pub to_lower : ℕ → ℕ
to_lower c = if leb b'A' c && leb c b'Z' then c + 32 else c

abbrev pub is_xdigit : ℕ → Bool
is_xdigit c = is_digit c || (leb b'a' (to_lower c) && leb (to_lower c) b'f')

-- `orbit_from_xdigit` of a hexadecimal digit
unfoldable pub from_xdigit : ℕ → ℕ
from_xdigit c = if is_digit (to_lower c) then to_lower c - b'0' else to_lower c - b'a' + 10

abbrev pub push : ℕ → Option Str → Option Str
push c none = none
push c (some s) = some (c ∷ s)

-- `orbit_url_decode`
unfoldable pub url_decode : Str → Option (List ℕ)
url_decode [] = some []
url_decode (c ∷ []) = if c == b'%' then none else some (c ∷ [])
url_decode (c ∷ a ∷ []) = let rest = url_decode (a ∷ []) in if c == b'%' then none else push c rest
url_decode (c ∷ a ∷ b ∷ s) =
    let rest = url_decode (a ∷ b ∷ s) in
    let behind = url_decode s in
    if not (c == b'%')
    then push c rest
    else if is_xdigit a && is_xdigit b
    then push (from_xdigit a * 16 + from_xdigit b) behind
    else none

-- `%02x`
abbrev pub hex_digit : ℕ → ℕ
hex_digit n = if ltb n 10 then b'0' + n else b'a' + (n - 10)

-- The loop `g_string_append_printf (str, "%%%02x", object_key->_buffer [i])`
unfoldable pub url_encode : List ℕ → Str
url_encode [] = []
url_encode (k ∷ ks) = b'%' ∷ hex_digit (k / 16) ∷ hex_digit (k % 16) ∷ url_encode ks

-- A list of bytes.
abbrev pub AllBytes : List ℕ → Type 0
AllBytes [] = Unit
AllBytes (k ∷ ks) = (k < 256) × AllBytes ks

hex_digit_lem :
    (n : ℕ) → n < 16 → (is_xdigit (hex_digit n) ≡ true) × (from_xdigit (hex_digit n) ≡ n)
unfolding from_xdigit
hex_digit_lem n h = (ground arith, ground arith)

-- Any object key, written byte by byte as `%xx`, is read back as it was.
pub url_decode-url_encode : (key : List ℕ) → AllBytes key → url_decode (url_encode key) ≡ some key
unfolding url_decode url_encode
url_decode-url_encode [] h = refl
url_decode-url_encode (k ∷ ks) h = ground (
  arith,
  hex_digit_lem (k / 16) (omega (arith, h.0)),
  hex_digit_lem (k % 16) (omega arith),
  url_decode-url_encode ks h.1,
)

hex_digit-apart : (c n : ℕ) → n < 16 → is_xdigit c ≡ false → (hex_digit n == c) ≡ false
hex_digit-apart c n h x = ground arith

pub contains-url_encode :
    (c : ℕ) (key : List ℕ)
    → AllBytes key
    → is_xdigit c ≡ false
    → (c == b'%') ≡ false
    → contains c (url_encode key) ≡ false
unfolding url_encode
contains-url_encode c [] h x p = refl
contains-url_encode c (k ∷ ks) h x p = ground (
  arith,
  hex_digit-apart c (k / 16) (omega (arith, h.0)) x,
  hex_digit-apart c (k % 16) (omega arith) x,
  contains-url_encode c ks h.1 x p,
)
