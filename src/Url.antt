-- ===== src/Url.antt =====
-- The parts of Go's net/url that path.go and firezone.go call: percent-escaping of one path
-- segment and of a whole path, its inverse, and the two forms of a URL's path.
pub mod Escape
pub mod Encoded
use firezone_sdk_go.Common.{
  ℕ, ◌+◌, ◌-◌, ◌*◌, ◌/◌, ◌%◌, Bool, true, false, not, ◌&&◌, ◌||◌, Option, none, some, List, [], ◌∷◌,
  ◌++◌, Bytes, codes, leb, ltb, ◌==◌, if◌then◌else◌, is_empty, bytes_eq,
}

-- A number below 16 as an upper-case hexadecimal digit, and back from either case.
unfoldable pub upperhex : ℕ → ℕ
upperhex n = if ltb n 10 then n + b'0' else n - 10 + b'A'

abbrev pub between : ℕ → ℕ → ℕ → Bool
between lo hi c = leb lo c && leb c hi

unfoldable pub unhex : ℕ → Option ℕ
unhex c =
    if between b'0' b'9' c
    then some (c - b'0')
    else if between b'a' b'f' c
    then some (c - b'a' + 10)
    else if between b'A' b'F' c
    then some (c - b'A' + 10)
    else none

abbrev pub one_of : Bytes → ℕ → Bool
one_of [] c = false
one_of (b ∷ bs) c = c == b || one_of bs c

-- Letters, digits and the four marks that no mode escapes.
unfoldable pub is_unreserved : ℕ → Bool
is_unreserved c =
    between b'a' b'z' c || between b'A' b'Z' c || between b'0' b'9' c || one_of (codes "-_.~") c

-- `shouldEscape(c, encodePathSegment)`
unfoldable pub should_escape_segment : ℕ → Bool
unfolding is_unreserved
should_escape_segment c =
    if is_unreserved c
    then false
    else if one_of (codes "$&+,/:;=?@") c
    then one_of (codes "/;,?") c
    else true

-- `shouldEscape(c, encodePath)`
unfoldable pub should_escape_path : ℕ → Bool
unfolding is_unreserved
should_escape_path c =
    if is_unreserved c then false else if one_of (codes "$&+,/:;=?@") c then c == b'?' else true

-- `escape` in one mode: "%" and two digits for each byte that the mode escapes.
unfoldable pub escape_byte : (ℕ → Bool) → ℕ → Bytes
unfolding upperhex
escape_byte mode c = if mode c then b'%' ∷ upperhex (c / 16) ∷ upperhex (c % 16) ∷ [] else c ∷ []

unfoldable pub escape : (ℕ → Bool) → Bytes → Bytes
unfolding escape_byte
escape mode [] = []
escape mode (c ∷ s) = escape_byte mode c ++ escape mode s

unfoldable pub path_escape : Bytes → Bytes
unfolding escape should_escape_segment
path_escape s = escape should_escape_segment s

-- Where the loop of `unescape` stands: between characters, behind "%", or behind "%" and a digit.
pub data Place : Type 0 where
  plain : Place
  percent : Place
  digit : ℕ → Place

infixl 5 ◌>>=◌
abbrev pub ◌>>=◌ {ℓ κ} : {A : Type ℓ} {B : Type κ} → Option A → (A → Option B) → Option B
none >>= k = none
some a >>= k = k a

abbrev pub push : ℕ → Option Bytes → Option Bytes
push c none = none
push c (some s) = some (c ∷ s)

-- `none` is the EscapeError of a "%" without two hexadecimal digits.
unfoldable pub unescape_from : Place → Bytes → Option Bytes
unescape_from plain [] = some []
unescape_from percent [] = none
unescape_from (digit d) [] = none
unescape_from plain (c ∷ s) = elim (c == b'%') [
  | true ↦ unescape_from percent s
  | false ↦ push c (unescape_from plain s)
]
unescape_from percent (c ∷ s) = elim (unhex c) [ none ↦ none | some d ↦ unescape_from (digit d) s ]
unescape_from (digit d) (c ∷ s) = elim (unhex c) [
  | none ↦ none
  | some e ↦ push (d * 16 + e) (unescape_from plain s)
]

unfoldable pub path_unescape : Bytes → Option Bytes
unfolding unescape_from
path_unescape s = unescape_from plain s

-- `url.URL`; the user information and the opaque form, which the SDK does not look at, are left
-- out.
pub record Url : Type 0 where
  pub scheme : Bytes
  pub host : Bytes
  pub path : Bytes
  pub raw_path : Bytes
  pub force_query : Bool
  pub raw_query : Bytes
  pub fragment : Bytes

-- A byte that `validEncoded` accepts in a path.
unfoldable pub valid_byte : ℕ → Bool
unfolding should_escape_path
valid_byte c = one_of (codes "!$&'()*+,;=:@[]%") c || not (should_escape_path c)

unfoldable pub valid_encoded : Bytes → Bool
valid_encoded [] = true
valid_encoded (c ∷ s) = valid_byte c && valid_encoded s

-- `RawPath` stands for `Path` if it is a valid encoding of it.
unfoldable pub decodes_to : Bytes → Bytes → Bool
decodes_to raw path = elim (path_unescape raw) [ none ↦ false | some p ↦ bytes_eq p path ]

-- `URL.EscapedPath`, the form that `URL.String` sends.
unfoldable pub escaped_path : Url → Bytes
escaped_path u =
    if not (is_empty u.raw_path) && valid_encoded u.raw_path && decodes_to u.raw_path u.path
    then u.raw_path
    else if bytes_eq u.path (codes "*")
    then codes "*"
    else escape should_escape_path u.path
