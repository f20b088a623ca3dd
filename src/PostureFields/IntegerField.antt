-- ===== src/PostureFields/IntegerField.antt =====
-- posture_fields.go: an integer attribute.
use firezone_sdk_go.Common.{ℤ, Bytes}
use firezone_sdk_go.Value.{nil_value, an_int}
use firezone_sdk_go.Posture.{PostureNode, posture_check}
use firezone_sdk_go.Posture.Operators.{
  operator_does_not_exist, operator_eq, operator_exists, operator_gt, operator_gte, operator_lt,
  operator_lte, operator_ne,
}
use firezone_sdk_go.PostureFields.Values.{field_check}

pub record PostureIntegerField : Type 0 where
  pub name : Bytes

unfoldable pub eq : PostureIntegerField → ℤ → PostureNode
unfolding field_check posture_check
eq f v = field_check f.name operator_eq (an_int v)

unfoldable pub ne : PostureIntegerField → ℤ → PostureNode
unfolding field_check posture_check
ne f v = field_check f.name operator_ne (an_int v)

unfoldable pub gt : PostureIntegerField → ℤ → PostureNode
unfolding field_check posture_check
gt f v = field_check f.name operator_gt (an_int v)

unfoldable pub gte : PostureIntegerField → ℤ → PostureNode
unfolding field_check posture_check
gte f v = field_check f.name operator_gte (an_int v)

unfoldable pub lt : PostureIntegerField → ℤ → PostureNode
unfolding field_check posture_check
lt f v = field_check f.name operator_lt (an_int v)

unfoldable pub lte : PostureIntegerField → ℤ → PostureNode
unfolding field_check posture_check
lte f v = field_check f.name operator_lte (an_int v)

unfoldable pub exists : PostureIntegerField → PostureNode
unfolding field_check posture_check
exists f = field_check f.name operator_exists nil_value

unfoldable pub does_not_exist : PostureIntegerField → PostureNode
unfolding field_check posture_check
does_not_exist f = field_check f.name operator_does_not_exist nil_value
