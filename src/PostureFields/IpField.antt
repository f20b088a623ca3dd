-- ===== src/PostureFields/IpField.antt =====
-- posture_fields.go: an IP address attribute.
-- `text` is the method String of a prefix, of package net/netip.
use firezone_sdk_go.Common.{some, Bytes}
use firezone_sdk_go.Value.{nil_value, a_strings, Variadic}
use firezone_sdk_go.Posture.{PostureNode, posture_check}
use firezone_sdk_go.Posture.Operators.{
  operator_does_not_exist, operator_exists, operator_is_in_cidr, operator_is_not_in_cidr,
}
use firezone_sdk_go.PostureFields.Values.{field_check, prefix_strings}

pub record PostureIpField : Type 0 where
  pub name : Bytes

unfoldable pub in_cidr : {P : Type 0} → (P → Bytes) → PostureIpField → Variadic P → PostureNode
unfolding field_check posture_check
in_cidr text f prefixes =
    field_check f.name operator_is_in_cidr (a_strings (some (prefix_strings text prefixes)))

unfoldable pub not_in_cidr : {P : Type 0} → (P → Bytes) → PostureIpField → Variadic P → PostureNode
unfolding field_check posture_check
not_in_cidr text f prefixes =
    field_check f.name operator_is_not_in_cidr (a_strings (some (prefix_strings text prefixes)))

unfoldable pub exists : PostureIpField → PostureNode
unfolding field_check posture_check
exists f = field_check f.name operator_exists nil_value

unfoldable pub does_not_exist : PostureIpField → PostureNode
unfolding field_check posture_check
does_not_exist f = field_check f.name operator_does_not_exist nil_value
