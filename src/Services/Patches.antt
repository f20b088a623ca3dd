-- ===== src/Services/Patches.antt =====
-- What the updates of actors, policies and resources ask the API to change.
use firezone_sdk_go.Common.{
  ℕ, ◌≡◌, refl, ap, ◌∙◌, true, false, Option, none, some, [], ◌∷◌, Bytes, codes, Map,
}
use firezone_sdk_go.Env.{Env}
use firezone_sdk_go.Error.{Result, ok}
use firezone_sdk_go.Json.{Json, Fields, bool, obj, member, keep_some}
use firezone_sdk_go.Null.{Null, nullable}
use firezone_sdk_go.Posture.{PostureNode, marshal}
use firezone_sdk_go.Services.Actors.{UpdateActorRequest, encode_update_actor}
use firezone_sdk_go.Services.Policies.{UpdatePolicyRequest, encode_update_policy, encode_conditions}
use firezone_sdk_go.Services.Resources.{
  UpdateResourceRequest, encode_update_resource, encode_filters, raw_json,
}
use firezone_sdk_go.Services.Changes.{
  Change, untouched, cleared, becomes, sent, text_change, some_change, null_change, change_at,
  write, keep_text-sent, keep_some-sent, nullable_text, member-write,
}

-- A body whose members tell these changes, each key that change which its name has, and no other.
abbrev pub Tells : Result Json → Map Change → Type 0
Tells body changes =
    (fs : Fields) × (body ≡ ok (obj fs)) × ((k : Bytes) → member k fs ≡ sent (change_at k changes))

abbrev pub actor_changes : UpdateActorRequest → Map Change
actor_changes req =
    (codes "name", text_change req.name)
    ∷ (codes "type", text_change req.type)
    ∷ (codes "email", null_change req.email)
    ∷ (codes "allow_email_otp_sign_in", some_change bool req.allow_email_otp_sign_in)
    ∷ (codes "is_disabled", some_change bool req.is_disabled)
    ∷ []

-- The body of an actor's update leaves out what the request has nil or empty, has null for an email
-- that is cleared, and the value of everything else; a name or a type is never taken away.
pub encode_update_actor-Tells :
    (req : UpdateActorRequest) → Tells (encode_update_actor req) (actor_changes req)
unfolding encode_update_actor write
encode_update_actor-Tells req = (
  write (actor_changes req),
  rw (nullable_text req.email) (
      ap (λ fs. ok (obj fs))
        (keep_text-sent (codes "name") req.name _
          ∙ ap (keep_some (λ j. j) (codes "name") (sent (text_change req.name))) (
              keep_text-sent (codes "type") req.type _
              ∙ ap (keep_some (λ j. j) (codes "type") (sent (text_change req.type))) (
                  ap (keep_some (λ j. j) (codes "email") (sent (null_change req.email))) (
                    keep_some-sent bool (codes "allow_email_otp_sign_in")
                      req.allow_email_otp_sign_in _
                    ∙ ap
                        (keep_some (λ j. j) (codes "allow_email_otp_sign_in")
                          (sent (some_change bool req.allow_email_otp_sign_in)))
                        (keep_some-sent bool (codes "is_disabled") req.is_disabled _)))))),
  λ k. member-write k (actor_changes req) refl,
)

-- What becomes of the postures: a node that is set is encoded, which can fail.
pub data NodeChange : Option (Null PostureNode) → Change → Type 0 where
  kept : NodeChange none untouched
  taken : {n : Null PostureNode} → n.valid ≡ false → NodeChange (some n) cleared
  given :
      {n : Null PostureNode} {j : Json}
      → n.valid ≡ true
      → marshal n.value ≡ ok j
      → NodeChange (some n) (becomes j)

nullable_node :
    {o : Option (Null PostureNode)} {c : Change} → NodeChange o c → nullable marshal o ≡ ok (sent c)
unfolding nullable
nullable_node kept = refl
nullable_node (taken v) = rw v refl
nullable_node (given v e) = rw (v, e) refl

abbrev pub policy_changes : UpdatePolicyRequest → Change → Map Change
policy_changes req postures =
    (codes "group_id", text_change req.group_id)
    ∷ (codes "resource_id", text_change req.resource_id)
    ∷ (codes "description", null_change req.description)
    ∷ (codes "flow_log_uploads_enabled", some_change bool req.flow_log_uploads_enabled)
    ∷ (codes "is_disabled", some_change bool req.is_disabled)
    ∷ (codes "conditions", some_change encode_conditions req.conditions)
    ∷ (codes "require_attestation", some_change bool req.require_attestation)
    ∷ (codes "postures", postures)
    ∷ []

-- The body of a policy's update, whose postures are nil, cleared, or an expression that is encoded,
-- leaves out what the request has nil or empty, has null for a description or postures that are
-- cleared, and the value of everything else; conditions that are set to a nil slice are null too.
pub encode_update_policy-Tells :
    (req : UpdatePolicyRequest) {postures : Change}
    → NodeChange req.postures postures
    → Tells (encode_update_policy req) (policy_changes req postures)
unfolding encode_update_policy write
encode_update_policy-Tells req {postures} change = (
  write (policy_changes req postures),
  rw (nullable_text req.description, nullable_node change)
      (ap (λ fs. ok (obj fs))
        (keep_text-sent (codes "group_id") req.group_id _
          ∙ ap (keep_some (λ j. j) (codes "group_id") (sent (text_change req.group_id))) (
              keep_text-sent (codes "resource_id") req.resource_id _
              ∙ ap (keep_some (λ j. j) (codes "resource_id") (sent (text_change req.resource_id))) (
                  ap (keep_some (λ j. j) (codes "description") (sent (null_change req.description)))
                    (keep_some-sent bool (codes "flow_log_uploads_enabled")
                        req.flow_log_uploads_enabled _
                      ∙ ap
                          (keep_some (λ j. j) (codes "flow_log_uploads_enabled")
                            (sent (some_change bool req.flow_log_uploads_enabled)))
                          (keep_some-sent bool (codes "is_disabled") req.is_disabled _
                            ∙ ap
                                (keep_some (λ j. j) (codes "is_disabled")
                                  (sent (some_change bool req.is_disabled)))
                                (keep_some-sent encode_conditions (codes "conditions")
                                    req.conditions _
                                  ∙ ap
                                      (keep_some (λ j. j) (codes "conditions")
                                        (sent (some_change encode_conditions req.conditions)))
                                      (keep_some-sent bool (codes "require_attestation")
                                        req.require_attestation _)))))))),
  λ k. member-write k (policy_changes req postures) refl,
)

-- What becomes of the membership criteria: a text that is not empty is to be JSON.
pub data RawChange {W : Type 0} (env : Env W) : Bytes → Change → Type 0 where
  no_text : RawChange env [] untouched
  json_text :
      {b : ℕ} {s : Bytes} {j : Json}
      → env.parse_json (b ∷ s) ≡ some j
      → RawChange env (b ∷ s) (becomes j)

raw_json-ok :
    {W : Type 0} (env : Env W) {s : Bytes} {c : Change}
    → RawChange env s c
    → raw_json env s ≡ ok (sent c)
raw_json-ok env no_text = refl
raw_json-ok env (json_text e) = rw (raw_json, e) refl

abbrev pub resource_changes : UpdateResourceRequest → Change → Map Change
resource_changes req criteria =
    (codes "device_membership_criteria", criteria)
    ∷ (codes "name", text_change req.name)
    ∷ (codes "type", text_change req.type)
    ∷ (codes "address", null_change req.address)
    ∷ (codes "address_description", null_change req.address_description)
    ∷ (codes "ip_stack", null_change req.ip_stack)
    ∷ (codes "site_id", null_change req.site_id)
    ∷ (codes "filters", some_change encode_filters req.filters)
    ∷ []

-- The body of a resource's update, whose membership criteria are empty or a JSON text, leaves out
-- what the request has nil or empty, has null for what is cleared, and the value of everything
-- else; filters that are set to a nil slice are null too.
pub encode_update_resource-Tells :
    {W : Type 0} (env : Env W) (req : UpdateResourceRequest) {criteria : Change}
    → RawChange env req.device_membership_criteria criteria
    → Tells (encode_update_resource env req) (resource_changes req criteria)
unfolding encode_update_resource write
encode_update_resource-Tells env req {criteria} change = (
  write (resource_changes req criteria),
  rw
      (
        raw_json-ok env change,
        nullable_text req.address,
        nullable_text req.address_description,
        nullable_text req.ip_stack,
        nullable_text req.site_id,
      )
      (ap (λ fs. ok (obj fs))
        (ap (keep_some (λ j. j) (codes "device_membership_criteria") (sent (criteria))) (
          keep_text-sent (codes "name") req.name _
          ∙ ap (keep_some (λ j. j) (codes "name") (sent (text_change req.name))) (
              keep_text-sent (codes "type") req.type _
              ∙ ap (keep_some (λ j. j) (codes "type") (sent (text_change req.type))) (
                  ap (keep_some (λ j. j) (codes "address") (sent (null_change req.address))) (
                    ap
                      (keep_some (λ j. j) (codes "address_description")
                        (sent (null_change req.address_description)))
                      (ap (keep_some (λ j. j) (codes "ip_stack") (sent (null_change req.ip_stack)))
                        (ap (keep_some (λ j. j) (codes "site_id") (sent (null_change req.site_id)))
                          (keep_some-sent encode_filters (codes "filters") req.filters _))))))))),
  λ k. member-write k (resource_changes req criteria) refl,
)
