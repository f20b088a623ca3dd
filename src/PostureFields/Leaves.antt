-- ===== src/PostureFields/Leaves.antt =====
-- The leaf that each method of a typed field builds.
use firezone_sdk_go.Common.{
  Bool, suc, length, leb, not, ◌&&◌, ◌||◌, bytes_eq, codes, ap, if◌then◌else◌, holds_key, keys, ℕ,
  true, ◌≡◌, ◌≢◌, refl, Option, none, some, [], ◌∷◌, Bytes, find, map, List,
}
use firezone_sdk_go.Json.{Json, str, items_of}
use firezone_sdk_go.Genposture.{FieldType}
use firezone_sdk_go.Error.{ok}
use firezone_sdk_go.Value.{
  Any, Float64, Variadic, whole, text, finite, not_finite, nil_value, a_bool, an_int, a_float,
  a_string, a_strings, value_json, encode_any,
}
use firezone_sdk_go.Posture.{PostureNode, posture_check}
use firezone_sdk_go.Posture.Operators.{
  operator_after, operator_before, operator_contains, operator_contains_all_of,
  operator_contains_any_of, operator_does_not_contain, operator_does_not_exist,
  operator_does_not_match, operator_ends_with, operator_eq, operator_exists, operator_gt,
  operator_gte, operator_is, operator_is_empty, operator_is_in, operator_is_in_cidr,
  operator_is_not, operator_is_not_empty, operator_is_not_in, operator_is_not_in_cidr, operator_lt,
  operator_lte, operator_matches, operator_ne, operator_not_within_last, operator_starts_with,
  operator_within_last,
}
use firezone_sdk_go.PostureFields.Values.{field_check, non_nil, prefix_strings}
use firezone_sdk_go.PostureFields.Times.{is_date_time}
use firezone_sdk_go.PostureFields.Schema.{
  Shape, fits, count, all_short, a_text_list, a_number, takes,
}
use firezone_sdk_go.PostureFields.BoolField
use firezone_sdk_go.PostureFields.StringField
use firezone_sdk_go.PostureFields.IntegerField
use firezone_sdk_go.PostureFields.FloatField
use firezone_sdk_go.PostureFields.VersionField
use firezone_sdk_go.PostureFields.TimestampField
use firezone_sdk_go.PostureFields.IpField
use firezone_sdk_go.PostureFields.JsonField
use firezone_sdk_go.PostureFields.StringArrayField
use firezone_sdk_go.PostureFields.Typed.{
  TypedLeaf, operators_of, bool_is, bool_exists, bool_does_not_exist, string_is, string_is_not,
  string_contains, string_does_not_contain, string_starts_with, string_ends_with, string_is_in,
  string_is_not_in, string_matches, string_does_not_match, string_exists, string_does_not_exist,
  integer_eq, integer_ne, integer_gt, integer_gte, integer_lt, integer_lte, integer_exists,
  integer_does_not_exist, float_eq, float_ne, float_gt, float_gte, float_lt, float_lte,
  float_exists, float_does_not_exist, version_is, version_is_not, version_gt, version_gte,
  version_lt, version_lte, version_exists, version_does_not_exist, timestamp_before,
  timestamp_after, timestamp_within_last, timestamp_not_within_last, timestamp_exists,
  timestamp_does_not_exist, ip_in_cidr, ip_not_in_cidr, ip_exists, ip_does_not_exist, json_is_empty,
  json_is_not_empty, json_exists, json_does_not_exist, string_array_contains,
  string_array_does_not_contain, string_array_contains_any_of, string_array_contains_all_of,
  string_array_is_empty, string_array_is_not_empty, string_array_exists,
  string_array_does_not_exist,
}

-- Within the limits of the API: a regular expression has at most 256 bytes and any other text 1024,
-- a time has the form of RFC 3339, a duration is not PT0S, which stands for one that is not
-- positive, a list has 1 to 100 texts, and a float is finite.
abbrev pub short_text : Bytes → Bytes → Bool
short_text operator s =
    if bytes_eq operator operator_matches || bytes_eq operator operator_does_not_match
    then leb (length s) 256
    else if bytes_eq operator operator_before || bytes_eq operator operator_after
    then leb (length s) 1024 && is_date_time s
    else if bytes_eq operator operator_within_last || bytes_eq operator operator_not_within_last
    then leb (length s) 1024 && not (bytes_eq s (codes "PT0S"))
    else leb (length s) 1024

abbrev pub short_texts : List Bytes → Bool
short_texts [] = true
short_texts (s ∷ ss) = leb (length s) 1024 && short_texts ss

abbrev pub Limited : Bytes → Any → Type 0
Limited operator nil_value = Unit
Limited operator (a_bool b) = Unit
Limited operator (an_int n) = Unit
Limited operator (a_float (finite x)) = Unit
Limited operator (a_string s) = short_text operator s ≡ true
Limited operator (a_strings (some ss)) =
    (leb 1 (length ss) && leb (length ss) 100 && short_texts ss) ≡ true
Limited operator _ = ⊥

texts_count : (ss : List Bytes) → count (items_of (map str ss)) ≡ length ss
texts_count [] = refl
texts_count (s ∷ ss) = ap suc (texts_count ss)

texts_short : (ss : List Bytes) → all_short (items_of (map str ss)) ≡ short_texts ss
texts_short [] = refl
texts_short (s ∷ ss) = ap (λ b. leb (length s) 1024 && b) (texts_short ss)

-- The value is written, as one of that shape.
abbrev pub Written : Shape → Any → Type 0
Written shape value = (jv : Option Json) × (value_json value ≡ ok jv) × (fits shape jv ≡ true)

list-Written :
    (operator : Bytes) (ss : List Bytes)
    → Limited operator (a_strings (some ss))
    → Written a_text_list (a_strings (some ss))
unfolding value_json encode_any
list-Written operator ss h = (_, refl, rw (texts_count ss) (rw (texts_short ss) h))

texts-Written :
    (operator : Bytes) (values : Variadic Bytes)
    → Limited operator (a_strings (non_nil values))
    → Written a_text_list (a_strings (non_nil values))
texts-Written operator none h = cc
texts-Written operator (some ss) h = list-Written operator ss h

float-Written :
    (operator : Bytes) (v : Float64) → Limited operator (a_float v) → Written a_number (a_float v)
unfolding value_json encode_any
float-Written operator (finite (whole n)) h = (_, refl, refl)
float-Written operator (finite (text s)) h = (_, refl, refl)
float-Written operator not_finite h = absurd h

-- A check of that field by an operator of its type, with a value that the operator takes.
pub record Leaf (type : FieldType) (name : Bytes) (n : PostureNode) : Type 0 where
  pub operator : Bytes
  pub value : Any
  pub is_check : n ≡ posture_check name operator value
  pub names_operator : operator ≢ []
  pub offered : holds_key operator (keys (operators_of type)) ≡ true
  pub taken :
      Limited operator value
      → (jv : Option Json) × (value_json value ≡ ok jv)
        × (takes (operators_of type) operator jv ≡ true)

check :
    (type : FieldType) (name operator : Bytes) (value : Any)
    → operator ≢ []
    → holds_key operator (keys (operators_of type)) ≡ true
    → (Limited operator value
        → (jv : Option Json) × (value_json value ≡ ok jv)
          × (takes (operators_of type) operator jv ≡ true))
    → Leaf type name (posture_check name operator value)
check type name operator value h among taken = record {
  operator = operator;
  value = value;
  is_check = refl;
  names_operator = h;
  offered = among;
  taken = taken;
}

module _ {T P : Type 0} (utc_text : T → Bytes) (prefix_text : P → Bytes)
    (seconds_text : ℕ → Bytes) where
  pub typed_leaf :
      {type : FieldType} {name : Bytes} {n : PostureNode}
      → TypedLeaf utc_text prefix_text seconds_text type name n
      → Leaf type name n
  unfolding field_check find value_json encode_any BoolField.is BoolField.exists
      BoolField.does_not_exist StringField.is StringField.is_not StringField.contains
      StringField.does_not_contain StringField.starts_with StringField.ends_with StringField.is_in
      StringField.is_not_in StringField.matches StringField.does_not_match StringField.exists
      StringField.does_not_exist IntegerField.eq IntegerField.ne IntegerField.gt IntegerField.gte
      IntegerField.lt IntegerField.lte IntegerField.exists IntegerField.does_not_exist FloatField.eq
      FloatField.ne FloatField.gt FloatField.gte FloatField.lt FloatField.lte FloatField.exists
      FloatField.does_not_exist VersionField.is VersionField.is_not VersionField.gt VersionField.gte
      VersionField.lt VersionField.lte VersionField.exists VersionField.does_not_exist
      TimestampField.before TimestampField.after TimestampField.within_last
      TimestampField.not_within_last TimestampField.exists TimestampField.does_not_exist
      IpField.in_cidr IpField.not_in_cidr IpField.exists IpField.does_not_exist JsonField.is_empty
      JsonField.is_not_empty JsonField.exists JsonField.does_not_exist StringArrayField.contains
      StringArrayField.does_not_contain StringArrayField.contains_any_of
      StringArrayField.contains_all_of StringArrayField.is_empty StringArrayField.is_not_empty
      StringArrayField.exists StringArrayField.does_not_exist
  typed_leaf (bool_is f v) = check _ _ operator_is _ (λ e. cc e) refl (λ _. (_, refl, refl))
  typed_leaf (bool_exists f) = check _ _ operator_exists _ (λ e. cc e) refl (λ _. (_, refl, refl))
  typed_leaf (bool_does_not_exist f) =
      check _ _ operator_does_not_exist _ (λ e. cc e) refl (λ _. (_, refl, refl))
  typed_leaf (string_is f v) = check _ _ operator_is _ (λ e. cc e) refl (λ h. (_, refl, h))
  typed_leaf (string_is_not f v) = check _ _ operator_is_not _ (λ e. cc e) refl (λ h. (_, refl, h))
  typed_leaf (string_contains f v) =
      check _ _ operator_contains _ (λ e. cc e) refl (λ h. (_, refl, h))
  typed_leaf (string_does_not_contain f v) =
      check _ _ operator_does_not_contain _ (λ e. cc e) refl (λ h. (_, refl, h))
  typed_leaf (string_starts_with f v) =
      check _ _ operator_starts_with _ (λ e. cc e) refl (λ h. (_, refl, h))
  typed_leaf (string_ends_with f v) =
      check _ _ operator_ends_with _ (λ e. cc e) refl (λ h. (_, refl, h))
  typed_leaf (string_is_in f values) =
      check _ _ operator_is_in _ (λ e. cc e) refl (texts-Written operator_is_in values)
  typed_leaf (string_is_not_in f values) =
      check _ _ operator_is_not_in _ (λ e. cc e) refl (texts-Written operator_is_not_in values)
  typed_leaf (string_matches f v) =
      check _ _ operator_matches _ (λ e. cc e) refl (λ h. (_, refl, h))
  typed_leaf (string_does_not_match f v) =
      check _ _ operator_does_not_match _ (λ e. cc e) refl (λ h. (_, refl, h))
  typed_leaf (string_exists f) = check _ _ operator_exists _ (λ e. cc e) refl (λ _. (_, refl, refl))
  typed_leaf (string_does_not_exist f) =
      check _ _ operator_does_not_exist _ (λ e. cc e) refl (λ _. (_, refl, refl))
  typed_leaf (integer_eq f v) = check _ _ operator_eq _ (λ e. cc e) refl (λ _. (_, refl, refl))
  typed_leaf (integer_ne f v) = check _ _ operator_ne _ (λ e. cc e) refl (λ _. (_, refl, refl))
  typed_leaf (integer_gt f v) = check _ _ operator_gt _ (λ e. cc e) refl (λ _. (_, refl, refl))
  typed_leaf (integer_gte f v) = check _ _ operator_gte _ (λ e. cc e) refl (λ _. (_, refl, refl))
  typed_leaf (integer_lt f v) = check _ _ operator_lt _ (λ e. cc e) refl (λ _. (_, refl, refl))
  typed_leaf (integer_lte f v) = check _ _ operator_lte _ (λ e. cc e) refl (λ _. (_, refl, refl))
  typed_leaf (integer_exists f) =
      check _ _ operator_exists _ (λ e. cc e) refl (λ _. (_, refl, refl))
  typed_leaf (integer_does_not_exist f) =
      check _ _ operator_does_not_exist _ (λ e. cc e) refl (λ _. (_, refl, refl))
  typed_leaf (float_eq f v) = check _ _ operator_eq _ (λ e. cc e) refl (float-Written operator_eq v)
  typed_leaf (float_ne f v) = check _ _ operator_ne _ (λ e. cc e) refl (float-Written operator_ne v)
  typed_leaf (float_gt f v) = check _ _ operator_gt _ (λ e. cc e) refl (float-Written operator_gt v)
  typed_leaf (float_gte f v) =
      check _ _ operator_gte _ (λ e. cc e) refl (float-Written operator_gte v)
  typed_leaf (float_lt f v) = check _ _ operator_lt _ (λ e. cc e) refl (float-Written operator_lt v)
  typed_leaf (float_lte f v) =
      check _ _ operator_lte _ (λ e. cc e) refl (float-Written operator_lte v)
  typed_leaf (float_exists f) = check _ _ operator_exists _ (λ e. cc e) refl (λ _. (_, refl, refl))
  typed_leaf (float_does_not_exist f) =
      check _ _ operator_does_not_exist _ (λ e. cc e) refl (λ _. (_, refl, refl))
  typed_leaf (version_is f v) = check _ _ operator_is _ (λ e. cc e) refl (λ h. (_, refl, h))
  typed_leaf (version_is_not f v) = check _ _ operator_is_not _ (λ e. cc e) refl (λ h. (_, refl, h))
  typed_leaf (version_gt f v) = check _ _ operator_gt _ (λ e. cc e) refl (λ h. (_, refl, h))
  typed_leaf (version_gte f v) = check _ _ operator_gte _ (λ e. cc e) refl (λ h. (_, refl, h))
  typed_leaf (version_lt f v) = check _ _ operator_lt _ (λ e. cc e) refl (λ h. (_, refl, h))
  typed_leaf (version_lte f v) = check _ _ operator_lte _ (λ e. cc e) refl (λ h. (_, refl, h))
  typed_leaf (version_exists f) =
      check _ _ operator_exists _ (λ e. cc e) refl (λ _. (_, refl, refl))
  typed_leaf (version_does_not_exist f) =
      check _ _ operator_does_not_exist _ (λ e. cc e) refl (λ _. (_, refl, refl))
  typed_leaf (timestamp_before f t) =
      check _ _ operator_before _ (λ e. cc e) refl (λ h. (_, refl, h))
  typed_leaf (timestamp_after f t) = check _ _ operator_after _ (λ e. cc e) refl (λ h. (_, refl, h))
  typed_leaf (timestamp_within_last f d) =
      check _ _ operator_within_last _ (λ e. cc e) refl (λ h. (_, refl, h))
  typed_leaf (timestamp_not_within_last f d) =
      check _ _ operator_not_within_last _ (λ e. cc e) refl (λ h. (_, refl, h))
  typed_leaf (timestamp_exists f) =
      check _ _ operator_exists _ (λ e. cc e) refl (λ _. (_, refl, refl))
  typed_leaf (timestamp_does_not_exist f) =
      check _ _ operator_does_not_exist _ (λ e. cc e) refl (λ _. (_, refl, refl))
  typed_leaf (ip_in_cidr f prefixes) =
      check _ _ operator_is_in_cidr _ (λ e. cc e) refl
        (list-Written operator_is_in_cidr (prefix_strings prefix_text prefixes))
  typed_leaf (ip_not_in_cidr f prefixes) =
      check _ _ operator_is_not_in_cidr _ (λ e. cc e) refl
        (list-Written operator_is_not_in_cidr (prefix_strings prefix_text prefixes))
  typed_leaf (ip_exists f) = check _ _ operator_exists _ (λ e. cc e) refl (λ _. (_, refl, refl))
  typed_leaf (ip_does_not_exist f) =
      check _ _ operator_does_not_exist _ (λ e. cc e) refl (λ _. (_, refl, refl))
  typed_leaf (json_is_empty f) =
      check _ _ operator_is_empty _ (λ e. cc e) refl (λ _. (_, refl, refl))
  typed_leaf (json_is_not_empty f) =
      check _ _ operator_is_not_empty _ (λ e. cc e) refl (λ _. (_, refl, refl))
  typed_leaf (json_exists f) = check _ _ operator_exists _ (λ e. cc e) refl (λ _. (_, refl, refl))
  typed_leaf (json_does_not_exist f) =
      check _ _ operator_does_not_exist _ (λ e. cc e) refl (λ _. (_, refl, refl))
  typed_leaf (string_array_contains f v) =
      check _ _ operator_contains _ (λ e. cc e) refl (λ h. (_, refl, h))
  typed_leaf (string_array_does_not_contain f v) =
      check _ _ operator_does_not_contain _ (λ e. cc e) refl (λ h. (_, refl, h))
  typed_leaf (string_array_contains_any_of f values) =
      check _ _ operator_contains_any_of _ (λ e. cc e) refl
        (texts-Written operator_contains_any_of values)
  typed_leaf (string_array_contains_all_of f values) =
      check _ _ operator_contains_all_of _ (λ e. cc e) refl
        (texts-Written operator_contains_all_of values)
  typed_leaf (string_array_is_empty f) =
      check _ _ operator_is_empty _ (λ e. cc e) refl (λ _. (_, refl, refl))
  typed_leaf (string_array_is_not_empty f) =
      check _ _ operator_is_not_empty _ (λ e. cc e) refl (λ _. (_, refl, refl))
  typed_leaf (string_array_exists f) =
      check _ _ operator_exists _ (λ e. cc e) refl (λ _. (_, refl, refl))
  typed_leaf (string_array_does_not_exist f) =
      check _ _ operator_does_not_exist _ (λ e. cc e) refl (λ _. (_, refl, refl))
