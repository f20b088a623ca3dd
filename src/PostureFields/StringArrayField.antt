-- ===== src/PostureFields/StringArrayField.antt =====
-- posture_fields.go: an attribute that holds a list of strings.
use firezone_sdk_go.Common.{Bytes}
use firezone_sdk_go.Value.{nil_value, a_string, a_strings, Variadic}
use firezone_sdk_go.Posture.{PostureNode, posture_check}
use firezone_sdk_go.Posture.Operators.{
  operator_contains, operator_contains_all_of, operator_contains_any_of, operator_does_not_contain,
  operator_does_not_exist, operator_exists, operator_is_empty, operator_is_not_empty,
}
use firezone_sdk_go.PostureFields.Values.{field_check, non_nil}

pub record PostureStringArrayField : Type 0 where
  pub name : Bytes

unfoldable pub contains : PostureStringArrayField → Bytes → PostureNode
unfolding field_check posture_check
contains f v = field_check f.name operator_contains (a_string v)

unfoldable pub does_not_contain : PostureStringArrayField → Bytes → PostureNode
unfolding field_check posture_check
does_not_contain f v = field_check f.name operator_does_not_contain (a_string v)

unfoldable pub contains_any_of : PostureStringArrayField → Variadic Bytes → PostureNode
unfolding field_check posture_check
contains_any_of f values = field_check f.name operator_contains_any_of (a_strings (non_nil values))

unfoldable pub contains_all_of : PostureStringArrayField → Variadic Bytes → PostureNode
unfolding field_check posture_check
contains_all_of f values = field_check f.name operator_contains_all_of (a_strings (non_nil values))

unfoldable pub is_empty : PostureStringArrayField → PostureNode
unfolding field_check posture_check
is_empty f = field_check f.name operator_is_empty nil_value

unfoldable pub is_not_empty : PostureStringArrayField → PostureNode
unfolding field_check posture_check
is_not_empty f = field_check f.name operator_is_not_empty nil_value

unfoldable pub exists : PostureStringArrayField → PostureNode
unfolding field_check posture_check
exists f = field_check f.name operator_exists nil_value

unfoldable pub does_not_exist : PostureStringArrayField → PostureNode
unfolding field_check posture_check
does_not_exist f = field_check f.name operator_does_not_exist nil_value
