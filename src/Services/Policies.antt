-- ===== src/Services/Policies.antt =====
-- policies.go: the Policies service. A field whose Go value is a slice that may be nil is an
-- `Option`.
use firezone_sdk_go.Common.{Bool, true, false, Option, none, some, List, [], ◌∷◌, Bytes, codes}
use firezone_sdk_go.Api.{Page, discard, into, wrap_body, client_do, do_list, unless, with_body}
use firezone_sdk_go.Client.{Client}
use firezone_sdk_go.Env.{Env}
use firezone_sdk_go.Error.{Result, ok, ◌>>=◌ as ◌and_then◌}
use firezone_sdk_go.Json.{
  Json, bool, str, obj, Fields, end, to_struct, keep, keep_text, keep_some, keep_list, ◌>>=◌,
}
use firezone_sdk_go.Null.{Null, nullable}
use firezone_sdk_go.Path.{check_id, build_path}
use firezone_sdk_go.Value.{Number}
use firezone_sdk_go.Posture.{PostureNode, marshal, unmarshal}
use firezone_sdk_go.Query.{ListOptions, no_options, or_default, filter_query}
use firezone_sdk_go.Services.{text, flag, nullable_texts, text_value, each}
use firezone_sdk_go.Json.{member, to_pointer}
use firezone_sdk_go.Services.{nullable_list, nullable_values}

pub record Condition : Type 0 where
  pub property : Bytes
  pub operator : Bytes
  pub values : Option (List Bytes)

abbrev pub zero_condition : Condition
zero_condition = record { property = []; operator = []; values = none }

unfoldable pub condition_members : Fields → Option Condition
condition_members fs = do
  property ← text (codes "property") fs
  operator ← text (codes "operator") fs
  values ← nullable_texts (codes "values") fs
  some (record { property = property; operator = operator; values = values })

unfoldable pub decode_condition : Json → Option Condition
unfolding condition_members
decode_condition j = do fs ← to_struct j; condition_members fs

unfoldable pub encode_condition : Condition → Json
encode_condition k = obj (
    keep (codes "property") (str k.property) (
      keep (codes "operator") (str k.operator)
        (keep (codes "values") (nullable_list str k.values) end)))

unfoldable pub encode_conditions : Option (List Condition) → Json
encode_conditions = nullable_list encode_condition

unfoldable pub posture : (Number → Option Number) → Bytes → Fields → Option (Option PostureNode)
posture float_of k fs =
    to_pointer (λ o. elim o [ none ↦ none | some j ↦ unmarshal float_of j ]) (member k fs)

-- A *PostureNode field of a request.
abbrev posture_json : Option PostureNode → Result (Option Json)
posture_json none = ok none
posture_json (some n) = marshal n and_then λ j. ok (some j)

pub record Policy : Type 0 where
  pub id : Bytes
  pub group_id : Bytes
  pub resource_id : Bytes
  pub description : Bytes
  pub flow_log_uploads_enabled : Bool
  pub is_disabled : Bool
  pub conditions : Option (List Condition)
  pub require_attestation : Bool
  pub postures : Option PostureNode

abbrev pub zero_policy : Policy
zero_policy = record {
  id = [];
  group_id = [];
  resource_id = [];
  description = [];
  flow_log_uploads_enabled = false;
  is_disabled = false;
  conditions = none;
  require_attestation = false;
  postures = none;
}

unfoldable pub policy_members : (Number → Option Number) → Fields → Option Policy
policy_members float_of fs = do
  id ← text (codes "id") fs
  group_id ← text (codes "group_id") fs
  resource_id ← text (codes "resource_id") fs
  description ← text (codes "description") fs
  flow_log_uploads_enabled ← flag (codes "flow_log_uploads_enabled") fs
  is_disabled ← flag (codes "is_disabled") fs
  conditions ← nullable_values decode_condition (codes "conditions") fs
  require_attestation ← flag (codes "require_attestation") fs
  postures ← posture float_of (codes "postures") fs
  some (record {
    id = id;
    group_id = group_id;
    resource_id = resource_id;
    description = description;
    flow_log_uploads_enabled = flow_log_uploads_enabled;
    is_disabled = is_disabled;
    conditions = conditions;
    require_attestation = require_attestation;
    postures = postures;
  })

unfoldable pub decode_policy : (Number → Option Number) → Json → Option Policy
unfolding policy_members
decode_policy float_of j = do fs ← to_struct j; policy_members float_of fs

pub record CreatePolicyRequest : Type 0 where
  pub group_id : Bytes
  pub resource_id : Bytes
  pub description : Bytes
  pub flow_log_uploads_enabled : Option Bool
  pub is_disabled : Option Bool
  pub conditions : List Condition
  pub require_attestation : Option Bool
  pub postures : Option PostureNode

pub record UpdatePolicyRequest : Type 0 where
  pub group_id : Bytes
  pub resource_id : Bytes
  pub description : Option (Null Bytes)
  pub flow_log_uploads_enabled : Option Bool
  pub is_disabled : Option Bool
  pub conditions : Option (Option (List Condition))
  pub require_attestation : Option Bool
  pub postures : Option (Null PostureNode)

abbrev pub no_update : UpdatePolicyRequest
no_update = record {
  group_id = [];
  resource_id = [];
  description = none;
  flow_log_uploads_enabled = none;
  is_disabled = none;
  conditions = none;
  require_attestation = none;
  postures = none;
}

unfoldable pub encode_create_policy : CreatePolicyRequest → Result Json
encode_create_policy req = posture_json req.postures and_then λ postures. ok (
    obj (
      keep (codes "group_id") (str req.group_id) (
        keep (codes "resource_id") (str req.resource_id) (
          keep_text (codes "description") req.description (
            keep_some bool (codes "flow_log_uploads_enabled") req.flow_log_uploads_enabled (
              keep_some bool (codes "is_disabled") req.is_disabled (
                keep_list encode_condition (codes "conditions") req.conditions (
                  keep_some bool (codes "require_attestation") req.require_attestation
                    (keep_some (λ j. j) (codes "postures") postures end)))))))))

unfoldable pub encode_update_policy : UpdatePolicyRequest → Result Json
encode_update_policy req = nullable text_value req.description and_then λ description.
    nullable marshal req.postures and_then λ postures. ok (
      obj (
        keep_text (codes "group_id") req.group_id (
          keep_text (codes "resource_id") req.resource_id (
            keep_some (λ j. j) (codes "description") description
              (keep_some bool (codes "flow_log_uploads_enabled") req.flow_log_uploads_enabled (
                keep_some bool (codes "is_disabled") req.is_disabled (
                  keep_some encode_conditions (codes "conditions") req.conditions (
                    keep_some bool (codes "require_attestation") req.require_attestation
                      (keep_some (λ j. j) (codes "postures") postures end)))))))))

pub record PolicyListOptions : Type 0 where
  pub paging : ListOptions
  pub group_id : Bytes
  pub resource_id : Bytes

abbrev pub no_policy_list_options : PolicyListOptions
no_policy_list_options = record { paging = no_options; group_id = []; resource_id = [] }

module _ {W : Type 0} (env : Env W) where
  unfoldable pub get : Client → Bytes → W → Result Policy × W
  get c id w =
      unless (check_id (codes "Policy ID") id)
        (client_do env c (codes "GET") (build_path (codes "policies" ∷ id ∷ [])) none none
          (into zero_policy (decode_policy env.float_of)))
        w

  unfoldable pub list : Client → Option PolicyListOptions → W → Result (Page Policy) × W
  list c opts w =
      do_list env c (codes "GET") (codes "policies")
        (filter_query (or_default no_policy_list_options opts).paging (
          (codes "group_id", (or_default no_policy_list_options opts).group_id)
          ∷ (codes "resource_id", (or_default no_policy_list_options opts).resource_id)
          ∷ []))
        (decode_policy env.float_of) w

  unfoldable pub create : Client → Option CreatePolicyRequest → W → Result Policy × W
  create c req w =
      with_body (wrap_body env (codes "policy") (each encode_create_policy req))
        (λ body.
          client_do env c (codes "POST") (codes "policies") none (some body)
            (into zero_policy (decode_policy env.float_of)))
        w

  unfoldable pub update : Client → Bytes → Option UpdatePolicyRequest → W → Result Policy × W
  update c id req w =
      unless (check_id (codes "Policy ID") id)
        (with_body (wrap_body env (codes "policy") (each encode_update_policy req)) (λ body.
          client_do env c (codes "PATCH") (build_path (codes "policies" ∷ id ∷ [])) none (some body)
            (into zero_policy (decode_policy env.float_of))))
        w

  unfoldable pub delete : Client → Bytes → W → Result (Unit {0}) × W
  delete c id w =
      unless (check_id (codes "Policy ID") id)
        (client_do env c (codes "DELETE") (build_path (codes "policies" ∷ id ∷ [])) none none
          discard)
        w

  unfoldable pub disable : Client → Bytes → W → Result Policy × W
  disable c id w =
      unless (check_id (codes "Policy ID") id)
        (update c id (some (record no_update { is_disabled = some true }))) w

  unfoldable pub enable : Client → Bytes → W → Result Policy × W
  enable c id w =
      unless (check_id (codes "Policy ID") id)
        (update c id (some (record no_update { is_disabled = some false }))) w
