-- ===== src/Decimal/Laws.antt =====
-- Reading a printed number back.
use native.Mathlib.Nat.{pow-suc}
use firezone_sdk_go.Common.{
  ℕ, zero, suc, ◌+◌, ◌*◌, ◌/◌, ◌%◌, ◌^◌, ◌≤◌, ◌<◌, pos, max_int64, ◌≡◌, refl, true, false, some, [],
  ◌∷◌, Bytes, arith, ◌≢◌, is_empty, ap, ◌∙◌,
}
use firezone_sdk_go.Decimal.{emit, format, read_digits, starts_digit, signed, scan_int}

tenth_fits : (n f : ℕ) → n < 10 ^ suc f → n / 10 < 10 ^ f
tenth_fits n f h = omega (arith, pow-suc 10 f)

last_digit :
    (n m : ℕ) (out : Bytes)
    → read_digits m ((b'0' + n % 10) ∷ out) ≡ read_digits (m * 10 + n % 10) out
unfolding read_digits
last_digit n m out = ground arith

-- The printed digits stand for the number.
pub read_digits-emit :
    (f n : ℕ) (out : Bytes) → n < 10 ^ f → 0 < f → read_digits 0 (emit f n out) ≡ read_digits n out
unfolding emit
read_digits-emit zero n out h p = absurd (omega arith)
read_digits-emit (suc zero) n out h p = ground (arith, last_digit n 0 out)
read_digits-emit (suc (suc f)) n out h p = ground (
  arith,
  last_digit n 0 out,
  last_digit n (n / 10) out,
  tenth_fits n (suc f),
  read_digits-emit (suc f) (n / 10) ((b'0' + n % 10) ∷ out),
)

starts_digit-emit :
    (f n : ℕ) (out : Bytes) → starts_digit out ≡ true → starts_digit (emit f n out) ≡ true
unfolding emit
starts_digit-emit zero n out h = h
starts_digit-emit (suc f) n out h =
    ground (arith, starts_digit-emit f (n / 10) ((b'0' + n % 10) ∷ out))

starts_digit-emit-suc : (f n : ℕ) (out : Bytes) → starts_digit (emit (suc f) n out) ≡ true
unfolding emit
starts_digit-emit-suc f n out = ground (arith, starts_digit-emit f (n / 10) ((b'0' + n % 10) ∷ out))

scan_int_at_digit : (s : Bytes) → starts_digit s ≡ true → scan_int s ≡ signed false s
unfolding scan_int
scan_int_at_digit [] h = cc
scan_int_at_digit (c ∷ s) h = ground arith

signed_digits :
    (s : Bytes) (n : ℕ)
    → starts_digit s ≡ true
    → read_digits 0 s ≡ n
    → n ≤ max_int64
    → signed false s ≡ some (pos n)
unfolding signed
signed_digits s n h e le = ground arith

-- A printed number that fits an int64 is read back.
pub scan_int-format : (n : ℕ) → n ≤ max_int64 → scan_int (format n) ≡ some (pos n)
unfolding format
scan_int-format n h =
    let digits = starts_digit-emit-suc 19 n [] in
    scan_int_at_digit (emit 20 n []) digits
    ∙ signed_digits (emit 20 n []) n digits
        (unfold read_digits in read_digits-emit 20 n [] (omega arith) (omega arith)) h

format_ne_nil : (n : ℕ) → format n ≢ []
unfolding format
format_ne_nil n e = cc (starts_digit-emit-suc 19 n [], ap starts_digit e)

pub format-nonempty : (n : ℕ) → is_empty (format n) ≡ false
format-nonempty n = no_empty (format n) (format_ne_nil n)
  where
    no_empty : (s : Bytes) → s ≢ [] → is_empty s ≡ false
    no_empty [] h = absurd (h refl)
    no_empty (c ∷ s) h = refl
