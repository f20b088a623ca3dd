-- ===== src/PostureFields/JsonField.antt =====
-- posture_fields.go: a structured attribute.
use firezone_sdk_go.Common.{Bytes}
use firezone_sdk_go.Value.{nil_value}
use firezone_sdk_go.Posture.{PostureNode, posture_check}
use firezone_sdk_go.Posture.Operators.{
  operator_does_not_exist, operator_exists, operator_is_empty, operator_is_not_empty,
}
use firezone_sdk_go.PostureFields.Values.{field_check}

pub record PostureJsonField : Type 0 where
  pub name : Bytes

unfoldable pub is_empty : PostureJsonField → PostureNode
unfolding field_check posture_check
is_empty f = field_check f.name operator_is_empty nil_value

unfoldable pub is_not_empty : PostureJsonField → PostureNode
unfolding field_check posture_check
is_not_empty f = field_check f.name operator_is_not_empty nil_value

unfoldable pub exists : PostureJsonField → PostureNode
unfolding field_check posture_check
exists f = field_check f.name operator_exists nil_value

unfoldable pub does_not_exist : PostureJsonField → PostureNode
unfolding field_check posture_check
does_not_exist f = field_check f.name operator_does_not_exist nil_value
