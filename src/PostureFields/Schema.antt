-- ===== src/PostureFields/Schema.antt =====
-- testdata/openapi.json, PolicyPostureLeaf: the operators that the API accepts for each type of an
-- attribute, and the value that each takes. The list of the fields of a type is the document's, which
-- Genposture reads. What the policy parser checks beyond the schema is left out: the syntax of
-- regular expressions, versions and prefixes.
use firezone_sdk_go.Common.{
  ℕ, suc, length, leb, not, ◌&&◌, bytes_eq, Bool, true, false, ◌≡◌, ◌⊎◌, Option, none, some, List,
  [], ◌∷◌, Bytes, codes, Map, find, holds_key,
}
use firezone_sdk_go.Json.{
  Json, null, bool, int, literal, str, arr, obj, Items, nil, cons, Fields, member, end, field,
}
use firezone_sdk_go.Posture.{has_prefix}
use firezone_sdk_go.PostureFields.Times.{is_date_time}

pub data Shape : Type 0 where
  no_value a_boolean an_integer a_number a_text a_regex a_time a_duration a_text_list : Shape

abbrev pub count : Items → ℕ
count nil = 0
count (cons _ js) = suc (count js)

abbrev pub all_short : Items → Bool
all_short nil = true
all_short (cons (str s) js) = leb (length s) 1024 && all_short js
all_short (cons _ js) = false

-- A value that takes none is left out or null. A text has at most 1024 bytes, a regular expression
-- 256, and a list 1 to 100 items. A time has the form of RFC 3339. A duration is not the one that the SDK writes for what is not
-- positive.
abbrev pub fits : Shape → Option Json → Bool
fits no_value none = true
fits no_value (some null) = true
fits a_boolean (some (bool b)) = true
fits an_integer (some (int n)) = true
fits a_number (some (int n)) = true
fits a_number (some (literal s)) = true
fits a_text (some (str s)) = leb (length s) 1024
fits a_regex (some (str s)) = leb (length s) 256
fits a_time (some (str s)) = leb (length s) 1024 && is_date_time s
fits a_duration (some (str s)) = leb (length s) 1024 && not (bytes_eq s (codes "PT0S"))
fits a_text_list (some (arr js)) = leb 1 (count js) && leb (count js) 100 && all_short js
fits _ _ = false

abbrev pub boolean_operators : Map Shape
boolean_operators =
    (codes "is", a_boolean) ∷ (codes "exists", no_value) ∷ (codes "does_not_exist", no_value) ∷ []

abbrev pub string_operators : Map Shape
string_operators =
    (codes "is", a_text)
    ∷ (codes "is_not", a_text)
    ∷ (codes "contains", a_text)
    ∷ (codes "does_not_contain", a_text)
    ∷ (codes "starts_with", a_text)
    ∷ (codes "ends_with", a_text)
    ∷ (codes "is_in", a_text_list)
    ∷ (codes "is_not_in", a_text_list)
    ∷ (codes "matches", a_regex)
    ∷ (codes "does_not_match", a_regex)
    ∷ (codes "exists", no_value)
    ∷ (codes "does_not_exist", no_value)
    ∷ []

abbrev pub integer_operators : Map Shape
integer_operators =
    (codes "eq", an_integer)
    ∷ (codes "ne", an_integer)
    ∷ (codes "gt", an_integer)
    ∷ (codes "gte", an_integer)
    ∷ (codes "lt", an_integer)
    ∷ (codes "lte", an_integer)
    ∷ (codes "exists", no_value)
    ∷ (codes "does_not_exist", no_value)
    ∷ []

abbrev pub float_operators : Map Shape
float_operators =
    (codes "eq", a_number)
    ∷ (codes "ne", a_number)
    ∷ (codes "gt", a_number)
    ∷ (codes "gte", a_number)
    ∷ (codes "lt", a_number)
    ∷ (codes "lte", a_number)
    ∷ (codes "exists", no_value)
    ∷ (codes "does_not_exist", no_value)
    ∷ []

abbrev pub version_operators : Map Shape
version_operators =
    (codes "is", a_text)
    ∷ (codes "is_not", a_text)
    ∷ (codes "gt", a_text)
    ∷ (codes "gte", a_text)
    ∷ (codes "lt", a_text)
    ∷ (codes "lte", a_text)
    ∷ (codes "exists", no_value)
    ∷ (codes "does_not_exist", no_value)
    ∷ []

abbrev pub datetime_operators : Map Shape
datetime_operators =
    (codes "before", a_time)
    ∷ (codes "after", a_time)
    ∷ (codes "within_last", a_duration)
    ∷ (codes "not_within_last", a_duration)
    ∷ (codes "exists", no_value)
    ∷ (codes "does_not_exist", no_value)
    ∷ []

abbrev pub ip_operators : Map Shape
ip_operators =
    (codes "is_in_cidr", a_text_list)
    ∷ (codes "is_not_in_cidr", a_text_list)
    ∷ (codes "exists", no_value)
    ∷ (codes "does_not_exist", no_value)
    ∷ []

abbrev pub json_operators : Map Shape
json_operators =
    (codes "is_empty", no_value)
    ∷ (codes "is_not_empty", no_value)
    ∷ (codes "exists", no_value)
    ∷ (codes "does_not_exist", no_value)
    ∷ []

abbrev pub string_array_operators : Map Shape
string_array_operators =
    (codes "contains", a_text)
    ∷ (codes "does_not_contain", a_text)
    ∷ (codes "contains_any_of", a_text_list)
    ∷ (codes "contains_all_of", a_text_list)
    ∷ (codes "is_empty", no_value)
    ∷ (codes "is_not_empty", no_value)
    ∷ (codes "exists", no_value)
    ∷ (codes "does_not_exist", no_value)
    ∷ []

abbrev pub leaf_schemas : Map (Map Shape)
leaf_schemas =
    (codes "boolean", boolean_operators)
    ∷ (codes "string", string_operators)
    ∷ (codes "enum_string", string_operators)
    ∷ (codes "integer", integer_operators)
    ∷ (codes "float", float_operators)
    ∷ (codes "version", version_operators)
    ∷ (codes "datetime", datetime_operators)
    ∷ (codes "ip", ip_operators)
    ∷ (codes "ipv4", ip_operators)
    ∷ (codes "ipv6", ip_operators)
    ∷ (codes "json", json_operators)
    ∷ (codes "string_array", string_array_operators)
    ∷ []

-- Whether one of these operators takes the value.
abbrev pub takes : Map Shape → Bytes → Option Json → Bool
takes operators operator value = elim (find operator operators) [
  | none ↦ false
  | some s ↦ fits s value
]

-- Whether an attribute of that type accepts the operator with the value.
abbrev pub accepts : Bytes → Bytes → Option Json → Bool
accepts spec_type operator value = elim (find spec_type leaf_schemas) [
  | none ↦ false
  | some operators ↦ takes operators operator value
]

-- Rows are "any" or "all", and no part of a comparison of the device's own record.
abbrev pub RowsAccepted : Bytes → Option Json → Type 0
RowsAccepted name none = Unit
RowsAccepted name (some j) =
    ((j ≡ str (codes "any")) ⊎ (j ≡ str (codes "all")))
    × (has_prefix name (codes "firezone.") ≡ false)

-- The keys of an object, each of them one of those given.
abbrev pub KeysAmong : List Bytes → Fields → Type 0
KeysAmong ks end = Unit
KeysAmong ks (field k _ fs) = (holds_key k ks ≡ true) × KeysAmong ks fs

-- A comparison of that attribute, of that type, which the API accepts.
pub record Conforms (spec_type name : Bytes) (j : Json) : Type 0 where
  pub members : Fields
  pub operator : Bytes
  pub is_object : j ≡ obj members
  pub known : KeysAmong (codes "field" ∷ codes "op" ∷ codes "rows" ∷ codes "value" ∷ []) members
  pub names_field : member (codes "field") members ≡ some (str name)
  pub names_operator : member (codes "op") members ≡ some (str operator)
  pub rows_fit : RowsAccepted name (member (codes "rows") members)
  pub value_fits : accepts spec_type operator (member (codes "value") members) ≡ true
