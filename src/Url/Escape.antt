-- ===== src/Url/Escape.antt =====
-- Percent-escaping: what the escaped text holds, and that unescaping reads it back.
use firezone_sdk_go.Common.{
  ℕ, ◌+◌, ◌*◌, ◌/◌, ◌%◌, ◌<◌, ◌≡◌, ◌≢◌, refl, sym, ap, ◌∙◌, Bool, true, Option, none, some, [], ◌∷◌,
  ◌++◌, Bytes, arith, Bool-cases, All, All-append, IsBytes, inl, inr, append-nil, append_assoc,
}
use firezone_sdk_go.Url.{
  upperhex, unhex, escape_byte, escape, plain, percent, digit, push, unescape_from, path_unescape,
}

unhex-upperhex : (n : ℕ) → n < 16 → unhex (upperhex n) ≡ some n
unfolding unhex upperhex
unhex-upperhex n h = ground arith

-- Put a decoded text in front of a result.
abbrev pub prepend : Bytes → Option Bytes → Option Bytes
prepend s none = none
prepend s (some t) = some (s ++ t)

pub push-prepend : (c : ℕ) (s : Bytes) (o : Option Bytes) → push c (prepend s o) ≡ prepend (c ∷ s) o
push-prepend c s none = refl
push-prepend c s (some t) = refl

pub unescape_percent :
    (h d : ℕ) (s : Bytes)
    → unhex h ≡ some d
    → unescape_from percent (h ∷ s) ≡ unescape_from (digit d) s
unfolding unescape_from
unescape_percent h d s e = rw (e, unescape_from)

pub unescape_digit :
    (d h e : ℕ) (s : Bytes)
    → unhex h ≡ some e
    → unescape_from (digit d) (h ∷ s) ≡ push (d * 16 + e) (unescape_from plain s)
unfolding unescape_from
unescape_digit d h e s p = rw (p, unescape_from)

unescape_hidden :
    (c : ℕ) (s : Bytes)
    → c < 256
    → unescape_from plain (b'%' ∷ upperhex (c / 16) ∷ upperhex (c % 16) ∷ s)
      ≡ push c (unescape_from plain s)
unescape_hidden c s h =
    unfold unescape_from in
    unescape_percent (upperhex (c / 16)) (c / 16) (upperhex (c % 16) ∷ s)
      (unhex-upperhex (c / 16) (omega arith))
    ∙ unescape_digit (c / 16) (upperhex (c % 16)) (c % 16) s (unhex-upperhex (c % 16) (omega arith))
    ∙ ap (λ k. push k (unescape_from plain s)) (omega arith)

pub unescape_kept :
    (c : ℕ) (s : Bytes) → c ≢ b'%' → unescape_from plain (c ∷ s) ≡ push c (unescape_from plain s)
unfolding unescape_from
unescape_kept c s h = ground arith

unescape_byte :
    (mode : ℕ → Bool) (c : ℕ) (rest : Bytes)
    → mode b'%' ≡ true
    → c < 256
    → unescape_from plain (escape_byte mode c ++ rest) ≡ push c (unescape_from plain rest)
unfolding escape_byte
unescape_byte mode c rest m h = elim (Bool-cases (mode c)) [
  | inl hidden ↦ rw hidden (unescape_hidden c rest h)
  | inr kept ↦ rw kept (unescape_kept c rest (λ e. cc (ap mode e)))
]

-- Whatever text a mode escapes, unescaping reads it back and goes on behind it.
pub unescape-escape :
    (mode : ℕ → Bool) (s rest : Bytes)
    → mode b'%' ≡ true
    → IsBytes s
    → unescape_from plain (escape mode s ++ rest) ≡ prepend s (unescape_from plain rest)
unfolding escape
unescape-escape mode [] rest m h = ground arith
unescape-escape mode (c ∷ s) rest m (lt, h) =
    ap (unescape_from plain) (append_assoc (escape_byte mode c) (escape mode s) rest)
    ∙ unescape_byte mode c (escape mode s ++ rest) m lt
    ∙ ap (push c) (unescape-escape mode s rest m h)
    ∙ push-prepend c s (unescape_from plain rest)

pub path_unescape-escape :
    (mode : ℕ → Bool) (s : Bytes)
    → mode b'%' ≡ true
    → IsBytes s
    → path_unescape (escape mode s) ≡ some s
unfolding path_unescape
path_unescape-escape mode s m h =
    ap (unescape_from plain) (sym (append-nil (escape mode s)))
    ∙ unescape-escape mode s [] m h
    ∙ unfold unescape_from in ap some (append-nil s)

-- A property of every byte that a mode writes.
pub All-escape :
    (P : ℕ → Type 0) (mode : ℕ → Bool) (s : Bytes)
    → ((c : ℕ) → c < 256 → All P (escape_byte mode c))
    → IsBytes s
    → All P (escape mode s)
unfolding escape
All-escape P mode [] keep h = tt
All-escape P mode (c ∷ s) keep (lt, h) =
    All-append P (escape_byte mode c) (escape mode s) (keep c lt) (All-escape P mode s keep h)
