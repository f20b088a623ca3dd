-- ===== src/PostureFields/Reading.antt =====
-- A duration of ISO 8601 that has time units only, as a server reads it.
use firezone_sdk_go.Common.{
  span, span-append, ℕ, zero, suc, ◌+◌, ◌*◌, ◌/◌, ◌%◌, ◌≡◌, ◌≢◌, refl, ap, ◌∙◌, Bool, true, false,
  ◌&&◌, ◌||◌, Option, none, some, [], ◌∷◌, ◌++◌, Bytes, All, ltb, ◌==◌, if◌then◌else◌, is_empty,
  arith, Bool-cases, inl, inr,
}
use firezone_sdk_go.Decimal.{emit, is_digit, read_digits}
use firezone_sdk_go.PostureFields.Duration.{hour, minute}

-- The bytes of an amount.
abbrev pub is_numeral : ℕ → Bool
is_numeral c = is_digit c || c == b'.'

abbrev before_letter : ℕ → Bytes → Bytes → Bytes → Option Bytes × Bytes
before_letter letter s number [] = (none, s)
before_letter letter s number (d ∷ rest) = if d == letter then (some number, rest) else (none, s)

-- The amount in front of that letter, if the text starts with one, and the text behind it.
unfoldable pub unit_at : ℕ → Bytes → Option Bytes × Bytes
unfolding span
unit_at letter s = let cut = span is_numeral s in before_letter letter s cut.0 cut.1

abbrev pub amount : (Bytes → Option ℕ) → ℕ → Option Bytes → Option ℕ
amount read unit none = some 0
amount read unit (some number) = elim (read number) [ none ↦ none | some n ↦ some (n * unit) ]

abbrev pub sum : Option ℕ → Option ℕ → Option ℕ
sum (some a) (some b) = some (a + b)
sum _ _ = none

-- "PT", hours, minutes and seconds, each of them optional, in nanoseconds.
unfoldable pub read_parts : (Bytes → Option ℕ) → Bytes → Option ℕ
unfolding unit_at
read_parts read_seconds s =
    let h = unit_at b'H' s in
    let m = unit_at b'M' h.1 in
    let x = unit_at b'S' m.1 in
    if is_empty x.1
    then sum (amount (λ t. some (read_digits 0 t)) hour h.0)
        (sum (amount (λ t. some (read_digits 0 t)) minute m.0) (amount read_seconds 1 x.0))
    else none

unfoldable pub read_duration : (Bytes → Option ℕ) → Bytes → Option ℕ
unfolding read_parts
read_duration read_seconds (p ∷ t ∷ s) =
    if p == b'P' && t == b'T' then read_parts read_seconds s else none
read_duration read_seconds _ = none

abbrev pub Numeral : Bytes → Type 0
Numeral = All (λ c. is_numeral c ≡ true)

unit_here :
    (letter : ℕ) (number rest : Bytes)
    → Numeral number
    → is_numeral letter ≡ false
    → unit_at letter (number ++ letter ∷ rest) ≡ (some number, rest)
unfolding unit_at
unit_here letter number rest h e =
    ap (λ cut. before_letter letter (number ++ letter ∷ rest) cut.0 cut.1)
      (span-append is_numeral number letter rest h e)
    ∙ ground arith

unit_other :
    (letter d : ℕ) (number rest : Bytes)
    → Numeral number
    → is_numeral d ≡ false
    → d ≢ letter
    → unit_at letter (number ++ d ∷ rest) ≡ (none, number ++ d ∷ rest)
unfolding unit_at
unit_other letter d number rest h e n =
    ap (λ cut. before_letter letter (number ++ d ∷ rest) cut.0 cut.1)
      (span-append is_numeral number d rest h e)
    ∙ ground arith

-- An optional amount with its letter, in front of a text.
abbrev pub piece : ℕ → Option Bytes → Bytes → Bytes
piece letter none rest = rest
piece letter (some number) rest = number ++ letter ∷ rest

abbrev pub NumeralIfAny : Option Bytes → Type 0
NumeralIfAny none = Unit
NumeralIfAny (some number) = Numeral number

read_last : (x : Option Bytes) → NumeralIfAny x → unit_at b'S' (piece b'S' x []) ≡ (x, [])
unfolding unit_at
read_last none hx = refl
read_last (some number) hx = unit_here b'S' number [] hx refl

read_minutes :
    (m x : Option Bytes)
    → NumeralIfAny m
    → NumeralIfAny x
    → unit_at b'M' (piece b'M' m (piece b'S' x [])) ≡ (m, piece b'S' x [])
unfolding unit_at
read_minutes (some number) x hm hx = unit_here b'M' number (piece b'S' x []) hm refl
read_minutes none none hm hx = refl
read_minutes none (some number) hm hx =
    unit_other b'M' b'S' number [] hx refl (λ e. omega (arith, e))

read_hours :
    (h m x : Option Bytes)
    → NumeralIfAny h
    → NumeralIfAny m
    → NumeralIfAny x
    → unit_at b'H' (piece b'H' h (piece b'M' m (piece b'S' x [])))
      ≡ (h, piece b'M' m (piece b'S' x []))
unfolding unit_at
read_hours (some number) m x hh hm hx =
    unit_here b'H' number (piece b'M' m (piece b'S' x [])) hh refl
read_hours none (some number) x hh hm hx =
    unit_other b'H' b'M' number (piece b'S' x []) hm refl (λ e. omega (arith, e))
read_hours none none none hh hm hx = refl
read_hours none none (some number) hh hm hx =
    unit_other b'H' b'S' number [] hx refl (λ e. omega (arith, e))

-- The pieces of a duration are read one by one.
pub read_parts-piece :
    (read_seconds : Bytes → Option ℕ) (h m x : Option Bytes)
    → NumeralIfAny h
    → NumeralIfAny m
    → NumeralIfAny x
    → read_parts read_seconds (piece b'H' h (piece b'M' m (piece b'S' x [])))
      ≡ sum
          (amount (λ t. some (read_digits 0 t)) hour h)
          (sum (amount (λ t. some (read_digits 0 t)) minute m) (amount read_seconds 1 x))
unfolding read_parts
read_parts-piece read_seconds h m x hh hm hx =
    rw (read_hours h m x hh hm hx, read_minutes m x hm hx, read_last x hx) refl

pub emit-Numeral : (f n : ℕ) (out : Bytes) → Numeral out → Numeral (emit f n out)
unfolding emit
emit-Numeral zero n out h = h
emit-Numeral (suc f) n out h =
    let shown : Numeral ((b'0' + n % 10) ∷ out) = (ground arith, h) in
    let rest = emit-Numeral f (n / 10) ((b'0' + n % 10) ∷ out) shown in
    elim (Bool-cases (ltb n 10)) [ inl last ↦ rw last shown | inr more ↦ rw more rest ]
