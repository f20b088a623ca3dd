-- ===== src/PostureFields/FloatField.antt =====
-- posture_fields.go: a floating-point attribute.
use firezone_sdk_go.Common.{Bytes}
use firezone_sdk_go.Value.{nil_value, a_float, Float64}
use firezone_sdk_go.Posture.{PostureNode, posture_check}
use firezone_sdk_go.Posture.Operators.{
  operator_does_not_exist, operator_eq, operator_exists, operator_gt, operator_gte, operator_lt,
  operator_lte, operator_ne,
}
use firezone_sdk_go.PostureFields.Values.{field_check}

pub record PostureFloatField : Type 0 where
  pub name : Bytes

unfoldable pub eq : PostureFloatField → Float64 → PostureNode
unfolding field_check posture_check
eq f v = field_check f.name operator_eq (a_float v)

unfoldable pub ne : PostureFloatField → Float64 → PostureNode
unfolding field_check posture_check
ne f v = field_check f.name operator_ne (a_float v)

unfoldable pub gt : PostureFloatField → Float64 → PostureNode
unfolding field_check posture_check
gt f v = field_check f.name operator_gt (a_float v)

unfoldable pub gte : PostureFloatField → Float64 → PostureNode
unfolding field_check posture_check
gte f v = field_check f.name operator_gte (a_float v)

unfoldable pub lt : PostureFloatField → Float64 → PostureNode
unfolding field_check posture_check
lt f v = field_check f.name operator_lt (a_float v)

unfoldable pub lte : PostureFloatField → Float64 → PostureNode
unfolding field_check posture_check
lte f v = field_check f.name operator_lte (a_float v)

unfoldable pub exists : PostureFloatField → PostureNode
unfolding field_check posture_check
exists f = field_check f.name operator_exists nil_value

unfoldable pub does_not_exist : PostureFloatField → PostureNode
unfolding field_check posture_check
does_not_exist f = field_check f.name operator_does_not_exist nil_value
