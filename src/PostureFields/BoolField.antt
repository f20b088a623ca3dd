-- ===== src/PostureFields/BoolField.antt =====
-- posture_fields.go: a boolean attribute.
use firezone_sdk_go.Common.{Bool, Bytes}
use firezone_sdk_go.Value.{nil_value, a_bool}
use firezone_sdk_go.Posture.{PostureNode, posture_check}
use firezone_sdk_go.Posture.Operators.{operator_does_not_exist, operator_exists, operator_is}
use firezone_sdk_go.PostureFields.Values.{field_check}

pub record PostureBoolField : Type 0 where
  pub name : Bytes

unfoldable pub is : PostureBoolField → Bool → PostureNode
unfolding field_check posture_check
is f v = field_check f.name operator_is (a_bool v)

unfoldable pub exists : PostureBoolField → PostureNode
unfolding field_check posture_check
exists f = field_check f.name operator_exists nil_value

unfoldable pub does_not_exist : PostureBoolField → PostureNode
unfolding field_check posture_check
does_not_exist f = field_check f.name operator_does_not_exist nil_value
