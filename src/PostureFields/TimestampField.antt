-- ===== src/PostureFields/TimestampField.antt =====
-- posture_fields.go: a timestamp attribute.
-- `utc_text` is `t.UTC().Format(time.RFC3339)`, of package time.
use firezone_sdk_go.Common.{ℕ, ℤ, Bytes}
use firezone_sdk_go.Value.{nil_value, a_string}
use firezone_sdk_go.Posture.{PostureNode, posture_check}
use firezone_sdk_go.Posture.Operators.{
  operator_after, operator_before, operator_does_not_exist, operator_exists,
  operator_not_within_last, operator_within_last,
}
use firezone_sdk_go.PostureFields.Values.{field_check}
use firezone_sdk_go.PostureFields.Duration.{iso_duration}

pub record PostureTimestampField : Type 0 where
  pub name : Bytes

unfoldable pub before : {T : Type 0} → (T → Bytes) → PostureTimestampField → T → PostureNode
unfolding field_check posture_check
before utc_text f t = field_check f.name operator_before (a_string (utc_text t))

unfoldable pub after : {T : Type 0} → (T → Bytes) → PostureTimestampField → T → PostureNode
unfolding field_check posture_check
after utc_text f t = field_check f.name operator_after (a_string (utc_text t))

unfoldable pub within_last : (ℕ → Bytes) → PostureTimestampField → ℤ → PostureNode
unfolding field_check posture_check iso_duration
within_last seconds_text f d =
    field_check f.name operator_within_last (a_string (iso_duration seconds_text d))

unfoldable pub not_within_last : (ℕ → Bytes) → PostureTimestampField → ℤ → PostureNode
unfolding field_check posture_check iso_duration
not_within_last seconds_text f d =
    field_check f.name operator_not_within_last (a_string (iso_duration seconds_text d))

unfoldable pub exists : PostureTimestampField → PostureNode
unfolding field_check posture_check
exists f = field_check f.name operator_exists nil_value

unfoldable pub does_not_exist : PostureTimestampField → PostureNode
unfolding field_check posture_check
does_not_exist f = field_check f.name operator_does_not_exist nil_value
