-- ===== src/PostureFields/StringField.antt =====
-- posture_fields.go: a string attribute.
use firezone_sdk_go.Common.{Bytes}
use firezone_sdk_go.Value.{nil_value, a_string, a_strings, Variadic}
use firezone_sdk_go.Posture.{PostureNode, posture_check}
use firezone_sdk_go.Posture.Operators.{
  operator_contains, operator_does_not_contain, operator_does_not_exist, operator_does_not_match,
  operator_ends_with, operator_exists, operator_is, operator_is_in, operator_is_not,
  operator_is_not_in, operator_matches, operator_starts_with,
}
use firezone_sdk_go.PostureFields.Values.{field_check, non_nil}

pub record PostureStringField : Type 0 where
  pub name : Bytes

unfoldable pub is : PostureStringField → Bytes → PostureNode
unfolding field_check posture_check
is f v = field_check f.name operator_is (a_string v)

unfoldable pub is_not : PostureStringField → Bytes → PostureNode
unfolding field_check posture_check
is_not f v = field_check f.name operator_is_not (a_string v)

unfoldable pub contains : PostureStringField → Bytes → PostureNode
unfolding field_check posture_check
contains f v = field_check f.name operator_contains (a_string v)

unfoldable pub does_not_contain : PostureStringField → Bytes → PostureNode
unfolding field_check posture_check
does_not_contain f v = field_check f.name operator_does_not_contain (a_string v)

unfoldable pub starts_with : PostureStringField → Bytes → PostureNode
unfolding field_check posture_check
starts_with f v = field_check f.name operator_starts_with (a_string v)

unfoldable pub ends_with : PostureStringField → Bytes → PostureNode
unfolding field_check posture_check
ends_with f v = field_check f.name operator_ends_with (a_string v)

unfoldable pub is_in : PostureStringField → Variadic Bytes → PostureNode
unfolding field_check posture_check
is_in f values = field_check f.name operator_is_in (a_strings (non_nil values))

unfoldable pub is_not_in : PostureStringField → Variadic Bytes → PostureNode
unfolding field_check posture_check
is_not_in f values = field_check f.name operator_is_not_in (a_strings (non_nil values))

unfoldable pub matches : PostureStringField → Bytes → PostureNode
unfolding field_check posture_check
matches f v = field_check f.name operator_matches (a_string v)

unfoldable pub does_not_match : PostureStringField → Bytes → PostureNode
unfolding field_check posture_check
does_not_match f v = field_check f.name operator_does_not_match (a_string v)

unfoldable pub exists : PostureStringField → PostureNode
unfolding field_check posture_check
exists f = field_check f.name operator_exists nil_value

unfoldable pub does_not_exist : PostureStringField → PostureNode
unfolding field_check posture_check
does_not_exist f = field_check f.name operator_does_not_exist nil_value
