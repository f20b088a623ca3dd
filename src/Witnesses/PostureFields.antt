-- ===== src/Witnesses/PostureFields.antt =====
-- Concrete cases of the theorems on the typed posture fields and on durations.
use firezone_sdk_go.Common.{
  ℕ, ◌*◌, ◌≡◌, ◌↔◌, refl, ap, true, false, pos, Option, some, [], ◌∷◌, Bytes, codes, inr, find,
  arith,
}
use firezone_sdk_go.Client.{second}
use firezone_sdk_go.Decimal.{emit, read_digits}
use firezone_sdk_go.Decimal.Laws.{read_digits-emit}
use firezone_sdk_go.Error.{ok}
use firezone_sdk_go.Genposture.{string_field}
use firezone_sdk_go.Json.{Json}
use firezone_sdk_go.Posture.{marshal, with_rows}
use firezone_sdk_go.Posture.Operators.{rows_all}
use firezone_sdk_go.PostureFields.Schema.{Conforms}
use firezone_sdk_go.PostureFields.Times.{is_date_time}
use firezone_sdk_go.PostureFields.StringField
use firezone_sdk_go.PostureFields.Typed.{string_is_in}
use firezone_sdk_go.PostureFields.Accepted.{TypedLeaf-Conforms}
use firezone_sdk_go.PostureFields.Methods.{Offers}
use firezone_sdk_go.PostureFields.Offered.{schema_offers, typed_operator_iff}
use firezone_sdk_go.PostureFields.Duration.{iso_duration}
use firezone_sdk_go.PostureFields.Reading.{emit-Numeral, read_duration}
use firezone_sdk_go.PostureFields.Durations.{WritesSeconds, read_duration-iso_duration}

TypedLeaf-Conforms_example :
    (j : Json) × (marshal (
        with_rows rows_all (
          StringField.is_in
            (record { name = codes "intune.compliance_state" })
            (some (codes "compliant" ∷ []))))
      ≡ ok j)
    × Conforms (codes "enum_string") (codes "intune.compliance_state") j
unfolding find StringField.is_in
TypedLeaf-Conforms_example =
    TypedLeaf-Conforms (λ (t : Bytes). t) (λ (p : Bytes). p) (λ d. []) (codes "enum_string")
      rows_all
      (string_is_in (record { name = codes "intune.compliance_state" })
        (some (codes "compliant" ∷ [])))
      refl (λ e. cc e) (inr (inr refl, refl)) refl

typed_operator_iff_example :
    Offers
      (λ (t : Bytes). t)
      (λ (p : Bytes). p)
      (λ d. [])
      string_field
      (codes "santa.model")
      (codes "matches")
    ↔ (schema_offers (codes "string") (codes "matches") ≡ true)
unfolding find
typed_operator_iff_example =
    typed_operator_iff (λ (t : Bytes). t) (λ (p : Bytes). p) (λ d. []) (codes "string")
      (codes "santa.model") (codes "matches") [] refl

-- A way to write seconds that stands in for strconv.FormatFloat: the nanoseconds as an integer.
abbrev nanoseconds : ℕ → Bytes
nanoseconds d = emit 20 d []

abbrev read_nanoseconds : Bytes → Option ℕ
read_nanoseconds s = some (read_digits 0 s)

nanoseconds_read : WritesSeconds read_nanoseconds nanoseconds
nanoseconds_read d lt = (
  emit-Numeral 20 d [] tt,
  ap some (unfold read_digits in read_digits-emit 20 d [] (omega arith) (omega arith)),
)

read_duration-iso_duration_example :
    read_duration read_nanoseconds (iso_duration nanoseconds (pos (3723 * second)))
    ≡ some (3723 * second)
unfolding read_digits
read_duration-iso_duration_example =
    read_duration-iso_duration read_nanoseconds nanoseconds nanoseconds_read (pos (3723 * second))
      (omega arith) refl

utc_time_test : is_date_time (codes "2024-01-02T03:04:05Z") ≡ true
utc_time_test = refl

offset_time_test : is_date_time (codes "2024-01-02T03:04:05.25+01:00") ≡ true
offset_time_test = refl

no_zone_test : is_date_time (codes "2024-01-02T03:04:05") ≡ false
no_zone_test = refl
