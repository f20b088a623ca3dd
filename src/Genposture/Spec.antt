-- ===== src/Genposture/Spec.antt =====
-- internal/genposture/main.go: what `load` decodes of the OpenAPI document.
use firezone_sdk_go.Common.{Option, none, some, List, [], Bytes, codes, Map}
use firezone_sdk_go.Json.{
  Json, null, obj, Fields, end, field, member, to_string, to_strings, to_list, to_struct, put_first,
  ◌>>=◌,
}

-- One alternative of `oneOf`, with the members of its `field` property.
pub record LeafSchema : Type 0 where
  pub description : Bytes
  pub names : List Bytes

pub record Schema : Type 0 where
  pub description : Bytes
  pub one_of : List LeafSchema

-- A struct inside a struct.
unfoldable pub sub_struct : Bytes → Fields → Option Fields
unfolding member to_struct
sub_struct k fs = elim (member k fs) [ none ↦ some end | some j ↦ to_struct j ]

unfoldable pub decode_leaf : Json → Option LeafSchema
unfolding sub_struct to_string to_strings
decode_leaf j = do
  leaf ← to_struct j
  properties ← sub_struct (codes "properties") leaf
  fs ← sub_struct (codes "field") properties
  description ← to_string (member (codes "description") fs)
  names ← to_strings (member (codes "enum") fs)
  some (record { description = description; names = names })

unfoldable pub decode_schema : Json → Option Schema
unfolding decode_leaf to_list
decode_schema j = do
  fs ← to_struct j
  description ← to_string (member (codes "description") fs)
  one_of ← to_list decode_leaf (member (codes "oneOf") fs)
  some (record { description = description; one_of = one_of })

unfoldable pub decode_schemas : Fields → Option (Map Schema)
unfolding decode_schema
decode_schemas end = some []
decode_schemas (field k j fs) = do
  schema ← decode_schema j
  rest ← decode_schemas fs
  some (put_first k schema rest)

abbrev pub schemas_member : Option Json → Option (Map Schema)
schemas_member none = some []
schemas_member (some null) = some []
schemas_member (some (obj fs)) = decode_schemas fs
schemas_member (some _) = none

-- The field `Components.Schemas` of the document.
unfoldable pub decode_doc : Json → Option (Map Schema)
unfolding decode_schemas
decode_doc j = do
  fs ← to_struct j
  components ← sub_struct (codes "components") fs
  schemas_member (member (codes "schemas") components)
