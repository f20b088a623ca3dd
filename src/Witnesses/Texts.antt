-- ===== src/Witnesses/Texts.antt =====
-- Concrete cases of the theorems on error texts, encoded queries and the bodies of updates.
use mathlib.Core.List.Perm
use firezone_sdk_go.Common.{
  ◌≡◌, refl, Bytes, codes, Assoc, List, [], ◌∷◌, pos, some, none, find, false, bytes_eq_iff, arith,
}
use firezone_sdk_go.Error.{ApiError}
use firezone_sdk_go.Null.{clear, set}
use firezone_sdk_go.Posture.{zero_node}
use firezone_sdk_go.Query.{ListOptions, filter_query, encode}
use firezone_sdk_go.Query.Read.{read_query}
use firezone_sdk_go.Query.Filters.{read_query-filter_query}
use firezone_sdk_go.Query.Laws.{last_filter, paging_value}
use firezone_sdk_go.Response.Text.{error_text, error_text-SameMap}
use firezone_sdk_go.Services.Actors.{UpdateActorRequest, encode_update_actor}
use firezone_sdk_go.Services.Policies.{UpdatePolicyRequest, no_update, encode_update_policy}
use firezone_sdk_go.Services.Resources.{UpdateResourceRequest, encode_update_resource}
use firezone_sdk_go.Services.Changes.{cleared, untouched}
use firezone_sdk_go.Services.Patches.{
  Tells, actor_changes, policy_changes, resource_changes, taken, no_text, encode_update_actor-Tells,
  encode_update_policy-Tells, encode_update_resource-Tells,
}
use firezone_sdk_go.Witnesses.{is_bytes_sound, network}

abbrev paging : ListOptions
paging = record { limit = pos 50; page_cursor = codes "c1" }

abbrev filters : List (Bytes × Bytes)
filters = (codes "name", codes "a b&c") ∷ (codes "ipv4", []) ∷ []

read_query-filter_query_example :
    (ps : Assoc) × (read_query (encode (filter_query paging filters)) ≡ some ps)
    × ((k : Bytes) → find k ps ≡ last_filter k filters (paging_value k paging))
read_query-filter_query_example =
    read_query-filter_query paging filters (is_bytes_sound (codes "c1") refl) (
      (is_bytes_sound (codes "name") refl, is_bytes_sound (codes "a b&c") refl),
      ((is_bytes_sound (codes "ipv4") refl, tt), tt),
    )

abbrev taken_name : Bytes × List Bytes
taken_name = (codes "name", codes "is taken" ∷ [])

abbrev short_slug : Bytes × List Bytes
short_slug = (codes "slug", codes "is short" ∷ codes "is odd" ∷ [])

abbrev invalid : ApiError
invalid = record {
  status_code = 422;
  type_uri = [];
  title = codes "Unprocessable";
  detail = [];
  validation_errors = taken_name ∷ short_slug ∷ [];
  retry_after = pos 0;
}

either_order :
    (k : Bytes) → find k (taken_name ∷ short_slug ∷ []) ≡ find k (short_slug ∷ taken_name ∷ [])
unfolding find
either_order k = ground (arith, bytes_eq_iff (codes "name") k, bytes_eq_iff (codes "slug") k)

error_text-SameMap_example :
    error_text invalid
    ≡ error_text (record invalid { validation_errors = short_slug ∷ taken_name ∷ [] })
error_text-SameMap_example =
    error_text-SameMap invalid (short_slug ∷ taken_name ∷ [])
      (record { same_keys = Perm.swap _ _ _; same_values = either_order })

abbrev actor_update : UpdateActorRequest
actor_update = record {
  name = codes "Ada";
  type = [];
  email = some (clear []);
  allow_email_otp_sign_in = none;
  is_disabled = some false;
}

encode_update_actor-Tells_example :
    Tells (encode_update_actor actor_update) (actor_changes actor_update)
encode_update_actor-Tells_example = encode_update_actor-Tells actor_update

abbrev policy_update : UpdatePolicyRequest
policy_update = record no_update {
  description = some (set (codes "d"));
  postures = some (clear zero_node);
}

encode_update_policy-Tells_example :
    Tells (encode_update_policy policy_update) (policy_changes policy_update cleared)
unfolding clear
encode_update_policy-Tells_example = encode_update_policy-Tells policy_update (taken refl)

abbrev resource_update : UpdateResourceRequest
resource_update = record {
  device_membership_criteria = [];
  name = codes "db";
  type = [];
  address = some (set (codes "10.0.0.1"));
  address_description = some (clear []);
  ip_stack = none;
  site_id = none;
  filters = some none;
}

encode_update_resource-Tells_example :
    Tells
      (encode_update_resource network resource_update)
      (resource_changes resource_update untouched)
encode_update_resource-Tells_example = encode_update_resource-Tells network resource_update no_text
