-- ===== src/PostureFields/Times.antt =====
-- testdata/openapi.json, the format date-time: the form of a time in RFC 3339.
use firezone_sdk_go.Common.{
  Bool, false, ◌&&◌, ◌||◌, ◌==◌, if◌then◌else◌, is_empty, Option, none, some, [], ◌∷◌, Bytes, codes,
}
use firezone_sdk_go.Decimal.{is_digit, starts_digit}

-- What follows a text of that form, where the letter d stands for a digit.
abbrev take_form : Bytes → Bytes → Option Bytes
take_form [] s = some s
take_form (_ ∷ _) [] = none
take_form (t ∷ ts) (c ∷ s) =
    let rest = take_form ts s in if (if t == b'd' then is_digit c else c == t) then rest else none

abbrev skip_digits : Bytes → Bytes
skip_digits [] = []
skip_digits (c ∷ s) = let rest = skip_digits s in if is_digit c then rest else c ∷ s

abbrev skip_fraction : Bytes → Bytes
skip_fraction [] = []
skip_fraction (c ∷ s) = if c == b'.' && starts_digit s then skip_digits s else c ∷ s

abbrev is_form : Bytes → Bytes → Bool
is_form form s = elim (take_form form s) [ none ↦ false | some rest ↦ is_empty rest ]

-- UTC, or an offset in hours and minutes.
abbrev is_zone : Bytes → Bool
is_zone [] = false
is_zone (c ∷ s) = c == b'Z' && is_empty s || (c == b'+' || c == b'-') && is_form (codes "dd:dd") s

abbrev pub is_date_time : Bytes → Bool
is_date_time s = elim (take_form (codes "dddd-dd-ddTdd:dd:dd") s) [
  | none ↦ false
  | some rest ↦ is_zone (skip_fraction rest)
]
