-- ===== src/PostureFields/VersionField.antt =====
-- posture_fields.go: a version attribute.
use firezone_sdk_go.Common.{Bytes}
use firezone_sdk_go.Value.{nil_value, a_string}
use firezone_sdk_go.Posture.{PostureNode, posture_check}
use firezone_sdk_go.Posture.Operators.{
  operator_does_not_exist, operator_exists, operator_gt, operator_gte, operator_is, operator_is_not,
  operator_lt, operator_lte,
}
use firezone_sdk_go.PostureFields.Values.{field_check}

pub record PostureVersionField : Type 0 where
  pub name : Bytes

unfoldable pub is : PostureVersionField → Bytes → PostureNode
unfolding field_check posture_check
is f v = field_check f.name operator_is (a_string v)

unfoldable pub is_not : PostureVersionField → Bytes → PostureNode
unfolding field_check posture_check
is_not f v = field_check f.name operator_is_not (a_string v)

unfoldable pub gt : PostureVersionField → Bytes → PostureNode
unfolding field_check posture_check
gt f v = field_check f.name operator_gt (a_string v)

unfoldable pub gte : PostureVersionField → Bytes → PostureNode
unfolding field_check posture_check
gte f v = field_check f.name operator_gte (a_string v)

unfoldable pub lt : PostureVersionField → Bytes → PostureNode
unfolding field_check posture_check
lt f v = field_check f.name operator_lt (a_string v)

unfoldable pub lte : PostureVersionField → Bytes → PostureNode
unfolding field_check posture_check
lte f v = field_check f.name operator_lte (a_string v)

unfoldable pub exists : PostureVersionField → PostureNode
unfolding field_check posture_check
exists f = field_check f.name operator_exists nil_value

unfoldable pub does_not_exist : PostureVersionField → PostureNode
unfolding field_check posture_check
does_not_exist f = field_check f.name operator_does_not_exist nil_value
