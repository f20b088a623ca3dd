-- ===== src/Decimal.antt =====
-- strconv and fmt, as far as the SDK uses them on integers: printing a number in decimal, and
-- reading one from the front of a text.
pub mod Laws
use firezone_sdk_go.Common.{
  ℕ, zero, suc, ◌+◌, ◌-◌, ◌*◌, ◌/◌, ◌%◌, ◌^◌, ℤ, pos, negsuc, max_int64, Bool, true, false, ◌&&◌,
  ◌||◌, Option, none, some, List, [], ◌∷◌, Bytes, ltb, leb, ◌==◌, if◌then◌else◌,
}

-- The digits of `n` in front of `out`; the fuel bounds their number.
unfoldable pub emit : ℕ → ℕ → Bytes → Bytes
emit zero n out = out
emit (suc fuel) n out =
    let shown = (b'0' + n % 10) ∷ out in
    let rest = emit fuel (n / 10) shown in if ltb n 10 then shown else rest

-- `strconv.Itoa` of a number that is not negative: 20 digits hold every 64-bit integer.
unfoldable pub format : ℕ → Bytes
unfolding emit
format n = emit 20 n []

unfoldable pub format_int : ℤ → Bytes
unfolding format
format_int (pos n) = format n
format_int (negsuc n) = b'-' ∷ format (suc n)

abbrev pub is_digit : ℕ → Bool
is_digit c = leb b'0' c && leb c b'9'

-- The value of the digits at the front of a text, behind those read already.
unfoldable pub read_digits : ℕ → Bytes → ℕ
read_digits n [] = n
read_digits n (c ∷ s) =
    let more = read_digits (n * 10 + (c - b'0')) s in if is_digit c then more else n

abbrev pub starts_digit : Bytes → Bool
starts_digit [] = false
starts_digit (c ∷ s) = is_digit c

-- The integer -n.
abbrev pub negative : ℕ → ℤ
negative zero = pos 0
negative (suc n) = negsuc n

-- `ParseInt` of a sign and the digits behind it: `none` if there is none, or if the number does
-- not fit an int64.
unfoldable pub signed : Bool → Bytes → Option ℤ
unfolding read_digits
signed minus s =
    let n = read_digits 0 s in
    if starts_digit s
    then (if minus
        then (if leb n (max_int64 + 1) then some (negative n) else none)
        else if leb n max_int64
        then some (pos n)
        else none)
    else none

-- The blanks that `SkipSpace` passes over. A line feed is an error.
abbrev is_blank : ℕ → Bool
is_blank c = c == 9 || c == 11 || c == 12 || c == 13 || c == b' '

-- `fmt.Sscanf(s, "%d", &n)`: blanks, a sign, digits; what follows them is not read.
unfoldable pub scan_int : Bytes → Option ℤ
unfolding signed
scan_int [] = none
scan_int (c ∷ s) =
    let rest = scan_int s in
    if is_blank c
    then rest
    else if c == b'+'
    then signed false s
    else if c == b'-'
    then signed true s
    else signed false (c ∷ s)
