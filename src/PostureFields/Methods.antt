-- ===== src/PostureFields/Methods.antt =====
-- A method of a typed field for each operator of the API's schema.
use firezone_sdk_go.Common.{ℕ, pos, true, ◌≡◌, refl, none, [], Bytes, keys, All}
use firezone_sdk_go.Genposture.{
  FieldType, bool_field, string_field, integer_field, float_field, version_field, timestamp_field,
  ip_field, json_field, string_array_field,
}
use firezone_sdk_go.Value.{finite, whole}
use firezone_sdk_go.Posture.{PostureNode, posture_check}
use firezone_sdk_go.PostureFields.Values.{field_check}
use firezone_sdk_go.PostureFields.Accepted.{operator_of_node}
use firezone_sdk_go.PostureFields.Typed.{
  TypedLeaf, operators_of, bool_is, bool_exists, bool_does_not_exist, string_is, string_is_not,
  string_contains, string_does_not_contain, string_starts_with, string_ends_with, string_is_in,
  string_is_not_in, string_matches, string_does_not_match, string_exists, string_does_not_exist,
  integer_eq, integer_ne, integer_gt, integer_gte, integer_lt, integer_lte, integer_exists,
  integer_does_not_exist, float_eq, float_ne, float_gt, float_gte, float_lt, float_lte,
  float_exists, float_does_not_exist, version_is, version_is_not, version_gt, version_gte,
  version_lt, version_lte, version_exists, version_does_not_exist, timestamp_before,
  timestamp_after, timestamp_within_last, timestamp_not_within_last, timestamp_exists,
  timestamp_does_not_exist, ip_in_cidr, ip_not_in_cidr, ip_exists, ip_does_not_exist, json_is_empty,
  json_is_not_empty, json_exists, json_does_not_exist, string_array_contains,
  string_array_does_not_contain, string_array_contains_any_of, string_array_contains_all_of,
  string_array_is_empty, string_array_is_not_empty, string_array_exists,
  string_array_does_not_exist,
}
use firezone_sdk_go.PostureFields.BoolField
use firezone_sdk_go.PostureFields.StringField
use firezone_sdk_go.PostureFields.IntegerField
use firezone_sdk_go.PostureFields.FloatField
use firezone_sdk_go.PostureFields.VersionField
use firezone_sdk_go.PostureFields.TimestampField
use firezone_sdk_go.PostureFields.IpField
use firezone_sdk_go.PostureFields.JsonField
use firezone_sdk_go.PostureFields.StringArrayField

module _ {T P : Type 0} (utc_text : T → Bytes) (prefix_text : P → Bytes)
    (seconds_text : ℕ → Bytes) where
  -- A leaf on a field of that type and name, by that operator.
  abbrev pub Offers : FieldType → Bytes → Bytes → Type 0
  Offers type name operator =
      (n : PostureNode) × TypedLeaf utc_text prefix_text seconds_text type name n
      × (operator_of_node n ≡ operator)

  pub All-offered :
      (type : FieldType) (name : Bytes) → T → All (Offers type name) (keys (operators_of type))
  unfolding posture_check field_check BoolField.is BoolField.exists BoolField.does_not_exist
      StringField.is StringField.is_not StringField.contains StringField.does_not_contain
      StringField.starts_with StringField.ends_with StringField.is_in StringField.is_not_in
      StringField.matches StringField.does_not_match StringField.exists StringField.does_not_exist
      IntegerField.eq IntegerField.ne IntegerField.gt IntegerField.gte IntegerField.lt
      IntegerField.lte IntegerField.exists IntegerField.does_not_exist FloatField.eq FloatField.ne
      FloatField.gt FloatField.gte FloatField.lt FloatField.lte FloatField.exists
      FloatField.does_not_exist VersionField.is VersionField.is_not VersionField.gt VersionField.gte
      VersionField.lt VersionField.lte VersionField.exists VersionField.does_not_exist
      TimestampField.before TimestampField.after TimestampField.within_last
      TimestampField.not_within_last TimestampField.exists TimestampField.does_not_exist
      IpField.in_cidr IpField.not_in_cidr IpField.exists IpField.does_not_exist JsonField.is_empty
      JsonField.is_not_empty JsonField.exists JsonField.does_not_exist StringArrayField.contains
      StringArrayField.does_not_contain StringArrayField.contains_any_of
      StringArrayField.contains_all_of StringArrayField.is_empty StringArrayField.is_not_empty
      StringArrayField.exists StringArrayField.does_not_exist
  All-offered bool_field name t = (
    (_, bool_is (record { name = name }) true, refl),
    (
      (_, bool_exists (record { name = name }), refl),
      ((_, bool_does_not_exist (record { name = name }), refl), tt),
    ),
  )
  All-offered string_field name t = (
    (_, string_is (record { name = name }) [], refl),
    (
      (_, string_is_not (record { name = name }) [], refl),
      (
        (_, string_contains (record { name = name }) [], refl),
        (
          (_, string_does_not_contain (record { name = name }) [], refl),
          (
            (_, string_starts_with (record { name = name }) [], refl),
            (
              (_, string_ends_with (record { name = name }) [], refl),
              (
                (_, string_is_in (record { name = name }) none, refl),
                (
                  (_, string_is_not_in (record { name = name }) none, refl),
                  (
                    (_, string_matches (record { name = name }) [], refl),
                    (
                      (_, string_does_not_match (record { name = name }) [], refl),
                      (
                        (_, string_exists (record { name = name }), refl),
                        ((_, string_does_not_exist (record { name = name }), refl), tt),
                      ),
                    ),
                  ),
                ),
              ),
            ),
          ),
        ),
      ),
    ),
  )
  All-offered integer_field name t = (
    (_, integer_eq (record { name = name }) (pos 0), refl),
    (
      (_, integer_ne (record { name = name }) (pos 0), refl),
      (
        (_, integer_gt (record { name = name }) (pos 0), refl),
        (
          (_, integer_gte (record { name = name }) (pos 0), refl),
          (
            (_, integer_lt (record { name = name }) (pos 0), refl),
            (
              (_, integer_lte (record { name = name }) (pos 0), refl),
              (
                (_, integer_exists (record { name = name }), refl),
                ((_, integer_does_not_exist (record { name = name }), refl), tt),
              ),
            ),
          ),
        ),
      ),
    ),
  )
  All-offered float_field name t = (
    (_, float_eq (record { name = name }) (finite (whole (pos 0))), refl),
    (
      (_, float_ne (record { name = name }) (finite (whole (pos 0))), refl),
      (
        (_, float_gt (record { name = name }) (finite (whole (pos 0))), refl),
        (
          (_, float_gte (record { name = name }) (finite (whole (pos 0))), refl),
          (
            (_, float_lt (record { name = name }) (finite (whole (pos 0))), refl),
            (
              (_, float_lte (record { name = name }) (finite (whole (pos 0))), refl),
              (
                (_, float_exists (record { name = name }), refl),
                ((_, float_does_not_exist (record { name = name }), refl), tt),
              ),
            ),
          ),
        ),
      ),
    ),
  )
  All-offered version_field name t = (
    (_, version_is (record { name = name }) [], refl),
    (
      (_, version_is_not (record { name = name }) [], refl),
      (
        (_, version_gt (record { name = name }) [], refl),
        (
          (_, version_gte (record { name = name }) [], refl),
          (
            (_, version_lt (record { name = name }) [], refl),
            (
              (_, version_lte (record { name = name }) [], refl),
              (
                (_, version_exists (record { name = name }), refl),
                ((_, version_does_not_exist (record { name = name }), refl), tt),
              ),
            ),
          ),
        ),
      ),
    ),
  )
  All-offered timestamp_field name t = (
    (_, timestamp_before (record { name = name }) t, refl),
    (
      (_, timestamp_after (record { name = name }) t, refl),
      (
        (_, timestamp_within_last (record { name = name }) (pos 0), refl),
        (
          (_, timestamp_not_within_last (record { name = name }) (pos 0), refl),
          (
            (_, timestamp_exists (record { name = name }), refl),
            ((_, timestamp_does_not_exist (record { name = name }), refl), tt),
          ),
        ),
      ),
    ),
  )
  All-offered ip_field name t = (
    (_, ip_in_cidr (record { name = name }) none, refl),
    (
      (_, ip_not_in_cidr (record { name = name }) none, refl),
      (
        (_, ip_exists (record { name = name }), refl),
        ((_, ip_does_not_exist (record { name = name }), refl), tt),
      ),
    ),
  )
  All-offered json_field name t = (
    (_, json_is_empty (record { name = name }), refl),
    (
      (_, json_is_not_empty (record { name = name }), refl),
      (
        (_, json_exists (record { name = name }), refl),
        ((_, json_does_not_exist (record { name = name }), refl), tt),
      ),
    ),
  )
  All-offered string_array_field name t = (
    (_, string_array_contains (record { name = name }) [], refl),
    (
      (_, string_array_does_not_contain (record { name = name }) [], refl),
      (
        (_, string_array_contains_any_of (record { name = name }) none, refl),
        (
          (_, string_array_contains_all_of (record { name = name }) none, refl),
          (
            (_, string_array_is_empty (record { name = name }), refl),
            (
              (_, string_array_is_not_empty (record { name = name }), refl),
              (
                (_, string_array_exists (record { name = name }), refl),
                ((_, string_array_does_not_exist (record { name = name }), refl), tt),
              ),
            ),
          ),
        ),
      ),
    ),
  )
