-- ===== src/Url/Encoded.antt =====
-- What `URL.EscapedPath` returns is a valid encoding of the path, also with a part appended.
use firezone_sdk_go.Common.{
  ℕ, ◌+◌, ◌*◌, ◌≡◌, ◌≢◌, refl, sym, ap, ◌∙◌, Bool, true, false, not, ◌&&◌, Option, none, some, [],
  ◌∷◌, ◌++◌, Bytes, codes, arith, Bool-cases, Option-cases, ◌==◌, IsBytes, holds_below,
  holds_below-eq-true, bytes_eq, bytes_eq_iff, inl, inr, is_empty, ◌↔◌, ◌<◌, ◌⊎◌, ==_iff,
}
use firezone_sdk_go.Url.{
  unhex, should_escape_path, should_escape_segment, escape, escape_byte, Place, plain, percent,
  digit, push, unescape_from, path_unescape, Url, valid_byte, valid_encoded, decodes_to,
  escaped_path,
}
use firezone_sdk_go.Url.Escape.{
  prepend, push-prepend, unescape_kept, unescape_percent, unescape_digit, path_unescape-escape,
}

push_inv :
    (c : ℕ) (o : Option Bytes) (r : Bytes)
    → push c o ≡ some r
    → (t : Bytes) × (o ≡ some t) × (r ≡ c ∷ t)
push_inv c none r e = cc
push_inv c (some t) r e = (t, refl, ground arith)

prepend-nil : (o : Option Bytes) → prepend [] o ≡ o
prepend-nil none = refl
prepend-nil (some t) = refl

unescape_nil : (r : Bytes) → unescape_from plain [] ≡ some r → r ≡ []
unfolding unescape_from
unescape_nil r e = ground arith

unescape_at_percent : (s : Bytes) → unescape_from plain (b'%' ∷ s) ≡ unescape_from percent s
unfolding unescape_from
unescape_at_percent s = refl

module _ (c : ℕ) (s r : Bytes) where
  -- One round of the loop that ends well goes on behind the byte that it read.
  plain_step :
      unescape_from plain (c ∷ s) ≡ some r
      → ((c ≡ b'%') × (unescape_from percent s ≡ some r))
        ⊎ ((c ≢ b'%') × ((t : Bytes) × (unescape_from plain s ≡ some t) × (r ≡ c ∷ t)))
  unfolding unescape_from
  plain_step e = elim (Bool-cases (c == b'%')) [
    | inl h ↦ inl ((==_iff c b'%').0 h, rw (h, unescape_from) at e)
    | inr h ↦ inr (ground arith, push_inv c (unescape_from plain s) r (rw (h, unescape_from) at e))
  ]

  percent_step :
      unescape_from percent (c ∷ s) ≡ some r
      → (d : ℕ) × (unhex c ≡ some d) × (unescape_from (digit d) s ≡ some r)
  unfolding unescape_from
  percent_step e = elim (Option-cases (unhex c)) [
    | inl h ↦ cc (rw (h, unescape_from) at e)
    | inr (d, h) ↦ (d, h, rw (h, unescape_from) at e)
  ]

  digit_step :
      (d : ℕ)
      → unescape_from (digit d) (c ∷ s) ≡ some r
      → (k : ℕ) × (unhex c ≡ some k)
        × ((t : Bytes) × (unescape_from plain s ≡ some t) × (r ≡ (d * 16 + k) ∷ t))
  unfolding unescape_from
  digit_step d e = elim (Option-cases (unhex c)) [
    | inl h ↦ cc (rw (h, unescape_from) at e)
    | inr (k, h) ↦
        (k, h, push_inv (d * 16 + k) (unescape_from plain s) r (rw (h, unescape_from) at e))
  ]

-- A text that decodes keeps its meaning in front of any other.
pub unescape-append :
    (m : Place) (s t r : Bytes)
    → unescape_from m s ≡ some r
    → unescape_from m (s ++ t) ≡ prepend r (unescape_from plain t)
unescape-append plain [] t r e =
    sym (prepend-nil (unescape_from plain t))
    ∙ ap (λ x. prepend x (unescape_from plain t)) (sym (unescape_nil r e))
unescape-append percent [] t r e = unfold unescape_from in cc e
unescape-append (digit d) [] t r e = unfold unescape_from in cc e
unescape-append plain (c ∷ s) t r e = elim (plain_step c s r e) [
  | inl (h, e') ↦
      ap (λ x. unescape_from plain (x ∷ s ++ t)) h
      ∙ unescape_at_percent (s ++ t)
      ∙ unescape-append percent s t r e'
  | inr (h, (r', e', q)) ↦
      unescape_kept c (s ++ t) h
      ∙ ap (push c) (unescape-append plain s t r' e')
      ∙ push-prepend c r' (unescape_from plain t)
      ∙ ap (λ x. prepend x (unescape_from plain t)) (sym q)
]
unescape-append percent (c ∷ s) t r e =
    let (d, h, e') = percent_step c s r e in
    unescape_percent c d (s ++ t) h ∙ unescape-append (digit d) s t r e'
unescape-append (digit d) (c ∷ s) t r e =
    let (k, h, rest) = digit_step c s r d e in
    let (r', e', q) = rest in
    unescape_digit d c k (s ++ t) h
    ∙ ap (push (d * 16 + k)) (unescape-append plain s t r' e')
    ∙ push-prepend (d * 16 + k) r' (unescape_from plain t)
    ∙ ap (λ x. prepend x (unescape_from plain t)) (sym q)

-- Taking "/" off the end of a text that decodes leaves one that decodes.
pub unescape-trim :
    (m : Place) (s r : Bytes)
    → unescape_from m (s ++ b'/' ∷ []) ≡ some r
    → (t : Bytes) × (unescape_from m s ≡ some t)
unescape-trim plain [] r e = unfold unescape_from in ([], refl)
unescape-trim percent [] r e = unfold unescape_from unhex in cc e
unescape-trim (digit d) [] r e = unfold unescape_from unhex in cc e
unescape-trim plain (c ∷ s) r e = elim (plain_step c (s ++ b'/' ∷ []) r e) [
  | inl (h, e') ↦
      let (t, e'') = unescape-trim percent s r e' in
      (t, ap (λ x. unescape_from plain (x ∷ s)) h ∙ unescape_at_percent s ∙ e'')
  | inr (h, (r', e', q)) ↦
      let (t, e'') = unescape-trim plain s r' e' in (c ∷ t, unescape_kept c s h ∙ ap (push c) e'')
]
unescape-trim percent (c ∷ s) r e =
    let (d, h, e') = percent_step c (s ++ b'/' ∷ []) r e in
    let (t, e'') = unescape-trim (digit d) s r e' in (t, unescape_percent c d s h ∙ e'')
unescape-trim (digit d) (c ∷ s) r e =
    let (k, h, rest) = digit_step c (s ++ b'/' ∷ []) r d e in
    let (r', e', q) = rest in
    let (t, e'') = unescape-trim plain s r' e' in
    ((d * 16 + k) ∷ t, unescape_digit d c k s h ∙ ap (push (d * 16 + k)) e'')

and_true : {a b : Bool} → a ≡ true → b ≡ true → (a && b) ≡ true
and_true p q = ground arith

is_empty_ne : (s : Bytes) → s ≢ [] → is_empty s ≡ false
is_empty_ne [] n = absurd (n refl)
is_empty_ne (c ∷ s) n = refl

pub valid_encoded-append :
    (s t : Bytes) → valid_encoded (s ++ t) ≡ (valid_encoded s && valid_encoded t)
unfolding valid_encoded
valid_encoded-append [] t = refl
valid_encoded-append (c ∷ s) t = ground (arith, valid_encoded-append s t)

-- A mode whose every byte is written validly.
abbrev pub WritesValid : (ℕ → Bool) → Type 0
WritesValid mode = (c : ℕ) → c < 256 → valid_encoded (escape_byte mode c) ≡ true

pub valid_encoded-escape :
    (mode : ℕ → Bool) (s : Bytes)
    → WritesValid mode
    → IsBytes s
    → valid_encoded (escape mode s) ≡ true
unfolding escape
valid_encoded-escape mode [] w h = unfold valid_encoded in refl
valid_encoded-escape mode (c ∷ s) w (lt, h) =
    valid_encoded-append (escape_byte mode c) (escape mode s)
    ∙ and_true (w c lt) (valid_encoded-escape mode s w h)

path_table : holds_below (λ c. valid_encoded (escape_byte should_escape_path c)) 256 ≡ true
unfolding holds_below valid_encoded valid_byte escape_byte should_escape_path
path_table = refl

segment_table : holds_below (λ c. valid_encoded (escape_byte should_escape_segment c)) 256 ≡ true
unfolding holds_below valid_encoded valid_byte escape_byte should_escape_path should_escape_segment
segment_table = refl

pub path_mode_valid : WritesValid should_escape_path
path_mode_valid c h = holds_below-eq-true _ 256 h path_table

pub segment_mode_valid : WritesValid should_escape_segment
segment_mode_valid c h = holds_below-eq-true _ 256 h segment_table

pub decodes_to_iff :
    (raw path : Bytes) → (decodes_to raw path ≡ true) ↔ (path_unescape raw ≡ some path)
unfolding decodes_to
decodes_to_iff raw path = elim (Option-cases (path_unescape raw)) [
  | inl e ↦ rw (e, decodes_to) (λ h. cc, λ h. cc)
  | inr (p, e) ↦
      rw (e, decodes_to)
        (λ h. ap some ((bytes_eq_iff p path).0 h), λ h. (bytes_eq_iff p path).1 (cc))
]

-- The three ways in which `EscapedPath` finds its result.
data IsEncoding (u : Url) : Type 0 where
  raw :
      valid_encoded u.raw_path ≡ true
      → path_unescape u.raw_path ≡ some u.path
      → escaped_path u ≡ u.raw_path
      → IsEncoding u
  star : u.path ≡ codes "*" → escaped_path u ≡ codes "*" → IsEncoding u
  default : escaped_path u ≡ escape should_escape_path u.path → IsEncoding u

escaped_path-IsEncoding : (u : Url) → IsEncoding u
unfolding escaped_path
escaped_path-IsEncoding u =
    elim (Bool-cases
      (not (is_empty u.raw_path) && valid_encoded u.raw_path && decodes_to u.raw_path u.path)) [
        | inl h ↦
            raw (ground arith) ((decodes_to_iff u.raw_path u.path).0 (ground arith)) (rw h refl)
        | inr h ↦ elim (Bool-cases (bytes_eq u.path (codes "*"))) [
          | inl k ↦ star ((bytes_eq_iff u.path (codes "*")).0 k) (rw (h, k) refl)
          | inr k ↦ default (rw (h, k) refl)
        ]
      ]

-- `EscapedPath` is always a valid encoding of the path.
pub escaped_path_valid : (u : Url) → IsBytes u.path → valid_encoded (escaped_path u) ≡ true
escaped_path_valid u h = elim (escaped_path-IsEncoding u) [
  | raw v d e ↦ rw e v
  | star p e ↦ rw e (unfold valid_encoded valid_byte in refl)
  | default e ↦ rw e (valid_encoded-escape should_escape_path u.path path_mode_valid h)
]

pub escaped_path_decodes : (u : Url) → IsBytes u.path → path_unescape (escaped_path u) ≡ some u.path
escaped_path_decodes u h = elim (escaped_path-IsEncoding u) [
  | raw v d e ↦ rw e d
  | star p e ↦ rw (e, p) (unfold path_unescape unescape_from in refl)
  | default e ↦
      rw e (path_unescape-escape should_escape_path u.path (unfold should_escape_path in refl) h)
]

-- A URL whose two path fields agree keeps its escaped form.
pub escaped_path_raw :
    (u : Url)
    → u.raw_path ≢ []
    → valid_encoded u.raw_path ≡ true
    → path_unescape u.raw_path ≡ some u.path
    → escaped_path u ≡ u.raw_path
unfolding escaped_path
escaped_path_raw u n v d = rw (is_empty_ne u.raw_path n, v, (decodes_to_iff u.raw_path u.path).1 d)
