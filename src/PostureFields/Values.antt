-- ===== src/PostureFields/Values.antt =====
-- posture_fields.go: the leaf that the typed fields build, and the values in it.
use firezone_sdk_go.Common.{none, some, List, [], Bytes, codes, map}
use firezone_sdk_go.Value.{Any, Variadic}
use firezone_sdk_go.Posture.{PostureNode, posture_check}

unfoldable pub field_check : Bytes → Bytes → Any → PostureNode
unfolding posture_check
field_check name operator value = posture_check name operator value

abbrev pub posture_version_latest : Bytes
posture_version_latest = codes "@latest"

abbrev pub non_nil : Variadic Bytes → Variadic Bytes
non_nil none = some []
non_nil (some values) = some values

abbrev pub prefix_strings {ℓ} : {P : Type ℓ} → (P → Bytes) → Variadic P → List Bytes
prefix_strings text none = []
prefix_strings text (some prefixes) = map text prefixes
