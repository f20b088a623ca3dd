-- ===== src/PostureFields/Typed.antt =====
-- The leaves that the typed fields build.
use firezone_sdk_go.Common.{ℕ, ℤ, Bool, Bytes, Map}
use firezone_sdk_go.Genposture.{
  FieldType, bool_field, string_field, integer_field, float_field, version_field, timestamp_field,
  ip_field, json_field, string_array_field,
}
use firezone_sdk_go.Value.{Float64, Variadic}
use firezone_sdk_go.Posture.{PostureNode}
use firezone_sdk_go.PostureFields.Schema.{
  Shape, boolean_operators, string_operators, integer_operators, float_operators, version_operators,
  datetime_operators, ip_operators, json_operators, string_array_operators,
}
use firezone_sdk_go.PostureFields.BoolField
use firezone_sdk_go.PostureFields.StringField
use firezone_sdk_go.PostureFields.IntegerField
use firezone_sdk_go.PostureFields.FloatField
use firezone_sdk_go.PostureFields.VersionField
use firezone_sdk_go.PostureFields.TimestampField
use firezone_sdk_go.PostureFields.IpField
use firezone_sdk_go.PostureFields.JsonField
use firezone_sdk_go.PostureFields.StringArrayField
use firezone_sdk_go.PostureFields.BoolField.{PostureBoolField}
use firezone_sdk_go.PostureFields.StringField.{PostureStringField}
use firezone_sdk_go.PostureFields.IntegerField.{PostureIntegerField}
use firezone_sdk_go.PostureFields.FloatField.{PostureFloatField}
use firezone_sdk_go.PostureFields.VersionField.{PostureVersionField}
use firezone_sdk_go.PostureFields.TimestampField.{PostureTimestampField}
use firezone_sdk_go.PostureFields.IpField.{PostureIpField}
use firezone_sdk_go.PostureFields.JsonField.{PostureJsonField}
use firezone_sdk_go.PostureFields.StringArrayField.{PostureStringArrayField}

abbrev pub operators_of : FieldType → Map Shape
operators_of bool_field = boolean_operators
operators_of string_field = string_operators
operators_of integer_field = integer_operators
operators_of float_field = float_operators
operators_of version_field = version_operators
operators_of timestamp_field = datetime_operators
operators_of ip_field = ip_operators
operators_of json_field = json_operators
operators_of string_array_field = string_array_operators

module _ {T P : Type 0} (utc_text : T → Bytes) (prefix_text : P → Bytes)
    (seconds_text : ℕ → Bytes) where
  -- What a caller can build from a field of that type and name, by one call of one of its methods.
  pub data TypedLeaf : FieldType → Bytes → PostureNode → Type 0 where
    bool_is : (f : PostureBoolField) (v : Bool) → TypedLeaf bool_field f.name (BoolField.is f v)
    bool_exists : (f : PostureBoolField) → TypedLeaf bool_field f.name (BoolField.exists f)
    bool_does_not_exist :
        (f : PostureBoolField) → TypedLeaf bool_field f.name (BoolField.does_not_exist f)
    string_is :
        (f : PostureStringField) (v : Bytes) → TypedLeaf string_field f.name (StringField.is f v)
    string_is_not :
        (f : PostureStringField) (v : Bytes)
        → TypedLeaf string_field f.name (StringField.is_not f v)
    string_contains :
        (f : PostureStringField) (v : Bytes)
        → TypedLeaf string_field f.name (StringField.contains f v)
    string_does_not_contain :
        (f : PostureStringField) (v : Bytes)
        → TypedLeaf string_field f.name (StringField.does_not_contain f v)
    string_starts_with :
        (f : PostureStringField) (v : Bytes)
        → TypedLeaf string_field f.name (StringField.starts_with f v)
    string_ends_with :
        (f : PostureStringField) (v : Bytes)
        → TypedLeaf string_field f.name (StringField.ends_with f v)
    string_is_in :
        (f : PostureStringField) (values : Variadic Bytes)
        → TypedLeaf string_field f.name (StringField.is_in f values)
    string_is_not_in :
        (f : PostureStringField) (values : Variadic Bytes)
        → TypedLeaf string_field f.name (StringField.is_not_in f values)
    string_matches :
        (f : PostureStringField) (v : Bytes)
        → TypedLeaf string_field f.name (StringField.matches f v)
    string_does_not_match :
        (f : PostureStringField) (v : Bytes)
        → TypedLeaf string_field f.name (StringField.does_not_match f v)
    string_exists : (f : PostureStringField) → TypedLeaf string_field f.name (StringField.exists f)
    string_does_not_exist :
        (f : PostureStringField) → TypedLeaf string_field f.name (StringField.does_not_exist f)
    integer_eq :
        (f : PostureIntegerField) (v : ℤ) → TypedLeaf integer_field f.name (IntegerField.eq f v)
    integer_ne :
        (f : PostureIntegerField) (v : ℤ) → TypedLeaf integer_field f.name (IntegerField.ne f v)
    integer_gt :
        (f : PostureIntegerField) (v : ℤ) → TypedLeaf integer_field f.name (IntegerField.gt f v)
    integer_gte :
        (f : PostureIntegerField) (v : ℤ) → TypedLeaf integer_field f.name (IntegerField.gte f v)
    integer_lt :
        (f : PostureIntegerField) (v : ℤ) → TypedLeaf integer_field f.name (IntegerField.lt f v)
    integer_lte :
        (f : PostureIntegerField) (v : ℤ) → TypedLeaf integer_field f.name (IntegerField.lte f v)
    integer_exists :
        (f : PostureIntegerField) → TypedLeaf integer_field f.name (IntegerField.exists f)
    integer_does_not_exist :
        (f : PostureIntegerField) → TypedLeaf integer_field f.name (IntegerField.does_not_exist f)
    float_eq :
        (f : PostureFloatField) (v : Float64) → TypedLeaf float_field f.name (FloatField.eq f v)
    float_ne :
        (f : PostureFloatField) (v : Float64) → TypedLeaf float_field f.name (FloatField.ne f v)
    float_gt :
        (f : PostureFloatField) (v : Float64) → TypedLeaf float_field f.name (FloatField.gt f v)
    float_gte :
        (f : PostureFloatField) (v : Float64) → TypedLeaf float_field f.name (FloatField.gte f v)
    float_lt :
        (f : PostureFloatField) (v : Float64) → TypedLeaf float_field f.name (FloatField.lt f v)
    float_lte :
        (f : PostureFloatField) (v : Float64) → TypedLeaf float_field f.name (FloatField.lte f v)
    float_exists : (f : PostureFloatField) → TypedLeaf float_field f.name (FloatField.exists f)
    float_does_not_exist :
        (f : PostureFloatField) → TypedLeaf float_field f.name (FloatField.does_not_exist f)
    version_is :
        (f : PostureVersionField) (v : Bytes) → TypedLeaf version_field f.name (VersionField.is f v)
    version_is_not :
        (f : PostureVersionField) (v : Bytes)
        → TypedLeaf version_field f.name (VersionField.is_not f v)
    version_gt :
        (f : PostureVersionField) (v : Bytes) → TypedLeaf version_field f.name (VersionField.gt f v)
    version_gte :
        (f : PostureVersionField) (v : Bytes)
        → TypedLeaf version_field f.name (VersionField.gte f v)
    version_lt :
        (f : PostureVersionField) (v : Bytes) → TypedLeaf version_field f.name (VersionField.lt f v)
    version_lte :
        (f : PostureVersionField) (v : Bytes)
        → TypedLeaf version_field f.name (VersionField.lte f v)
    version_exists :
        (f : PostureVersionField) → TypedLeaf version_field f.name (VersionField.exists f)
    version_does_not_exist :
        (f : PostureVersionField) → TypedLeaf version_field f.name (VersionField.does_not_exist f)
    timestamp_before :
        (f : PostureTimestampField) (t : T)
        → TypedLeaf timestamp_field f.name (TimestampField.before utc_text f t)
    timestamp_after :
        (f : PostureTimestampField) (t : T)
        → TypedLeaf timestamp_field f.name (TimestampField.after utc_text f t)
    timestamp_within_last :
        (f : PostureTimestampField) (d : ℤ)
        → TypedLeaf timestamp_field f.name (TimestampField.within_last seconds_text f d)
    timestamp_not_within_last :
        (f : PostureTimestampField) (d : ℤ)
        → TypedLeaf timestamp_field f.name (TimestampField.not_within_last seconds_text f d)
    timestamp_exists :
        (f : PostureTimestampField) → TypedLeaf timestamp_field f.name (TimestampField.exists f)
    timestamp_does_not_exist :
        (f : PostureTimestampField)
        → TypedLeaf timestamp_field f.name (TimestampField.does_not_exist f)
    ip_in_cidr :
        (f : PostureIpField) (prefixes : Variadic P)
        → TypedLeaf ip_field f.name (IpField.in_cidr prefix_text f prefixes)
    ip_not_in_cidr :
        (f : PostureIpField) (prefixes : Variadic P)
        → TypedLeaf ip_field f.name (IpField.not_in_cidr prefix_text f prefixes)
    ip_exists : (f : PostureIpField) → TypedLeaf ip_field f.name (IpField.exists f)
    ip_does_not_exist : (f : PostureIpField) → TypedLeaf ip_field f.name (IpField.does_not_exist f)
    json_is_empty : (f : PostureJsonField) → TypedLeaf json_field f.name (JsonField.is_empty f)
    json_is_not_empty :
        (f : PostureJsonField) → TypedLeaf json_field f.name (JsonField.is_not_empty f)
    json_exists : (f : PostureJsonField) → TypedLeaf json_field f.name (JsonField.exists f)
    json_does_not_exist :
        (f : PostureJsonField) → TypedLeaf json_field f.name (JsonField.does_not_exist f)
    string_array_contains :
        (f : PostureStringArrayField) (v : Bytes)
        → TypedLeaf string_array_field f.name (StringArrayField.contains f v)
    string_array_does_not_contain :
        (f : PostureStringArrayField) (v : Bytes)
        → TypedLeaf string_array_field f.name (StringArrayField.does_not_contain f v)
    string_array_contains_any_of :
        (f : PostureStringArrayField) (values : Variadic Bytes)
        → TypedLeaf string_array_field f.name (StringArrayField.contains_any_of f values)
    string_array_contains_all_of :
        (f : PostureStringArrayField) (values : Variadic Bytes)
        → TypedLeaf string_array_field f.name (StringArrayField.contains_all_of f values)
    string_array_is_empty :
        (f : PostureStringArrayField)
        → TypedLeaf string_array_field f.name (StringArrayField.is_empty f)
    string_array_is_not_empty :
        (f : PostureStringArrayField)
        → TypedLeaf string_array_field f.name (StringArrayField.is_not_empty f)
    string_array_exists :
        (f : PostureStringArrayField)
        → TypedLeaf string_array_field f.name (StringArrayField.exists f)
    string_array_does_not_exist :
        (f : PostureStringArrayField)
        → TypedLeaf string_array_field f.name (StringArrayField.does_not_exist f)
