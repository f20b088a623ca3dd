-- ===== src/Services/Gateways.antt =====
-- gateways.go: the Gateways of one Site, whose ID the service holds as `site_id`.
use firezone_sdk_go.Common.{Bool, true, false, Option, none, some, [], ◌∷◌, Bytes, codes}
use firezone_sdk_go.Api.{Page, discard, into, wrap_body, client_do, do_list, unless, with_body}
use firezone_sdk_go.Client.{Client}
use firezone_sdk_go.Env.{Env}
use firezone_sdk_go.Error.{Result, ok}
use firezone_sdk_go.Json.{Json, str, obj, Fields, end, to_struct, keep, keep_text, ◌>>=◌}
use firezone_sdk_go.Path.{check_id, build_path}
use firezone_sdk_go.Query.{ListOptions, no_options, or_default, filter_query}
use firezone_sdk_go.Services.{text, flag, time_pointer, each}

pub record Gateway : Type 0 where
  pub id : Bytes
  pub name : Bytes
  pub ipv4 : Bytes
  pub ipv6 : Bytes
  pub online : Bool
  pub gateway_token_id : Bytes
  pub rotated_at : Option Bytes

abbrev pub zero_gateway : Gateway
zero_gateway = record {
  id = [];
  name = [];
  ipv4 = [];
  ipv6 = [];
  online = false;
  gateway_token_id = [];
  rotated_at = none;
}

unfoldable pub gateway_members : {W : Type 0} → Env W → Fields → Option Gateway
gateway_members env fs = do
  id ← text (codes "id") fs
  name ← text (codes "name") fs
  ipv4 ← text (codes "ipv4") fs
  ipv6 ← text (codes "ipv6") fs
  online ← flag (codes "online") fs
  gateway_token_id ← text (codes "gateway_token_id") fs
  rotated_at ← time_pointer env (codes "rotated_at") fs
  some (record {
    id = id;
    name = name;
    ipv4 = ipv4;
    ipv6 = ipv6;
    online = online;
    gateway_token_id = gateway_token_id;
    rotated_at = rotated_at;
  })

unfoldable pub decode_gateway : {W : Type 0} → Env W → Json → Option Gateway
unfolding gateway_members
decode_gateway env j = do fs ← to_struct j; gateway_members env fs

unfoldable pub rotation_pending : Gateway → Bool
rotation_pending g = elim g.rotated_at [ none ↦ false | some t ↦ true ]

pub record ProvisionedGateway : Type 0 where
  pub gateway : Gateway
  pub token : Bytes

abbrev pub zero_provisioned_gateway : ProvisionedGateway
zero_provisioned_gateway = record { gateway = zero_gateway; token = [] }

unfoldable pub provisioned_gateway_members :
    {W : Type 0} → Env W → Fields → Option ProvisionedGateway
provisioned_gateway_members env fs = do
  gateway ← gateway_members env fs
  token ← text (codes "token") fs
  some (record { gateway = gateway; token = token })

unfoldable pub decode_provisioned_gateway : {W : Type 0} → Env W → Json → Option ProvisionedGateway
unfolding provisioned_gateway_members
decode_provisioned_gateway env j = do fs ← to_struct j; provisioned_gateway_members env fs

pub record RotatedGatewayToken : Type 0 where
  pub id : Bytes
  pub token : Bytes

abbrev pub zero_rotated_gateway_token : RotatedGatewayToken
zero_rotated_gateway_token = record { id = []; token = [] }

unfoldable pub rotated_gateway_token_members : Fields → Option RotatedGatewayToken
rotated_gateway_token_members fs = do
  id ← text (codes "id") fs
  token ← text (codes "token") fs
  some (record { id = id; token = token })

unfoldable pub decode_rotated_gateway_token : Json → Option RotatedGatewayToken
unfolding rotated_gateway_token_members
decode_rotated_gateway_token j = do fs ← to_struct j; rotated_gateway_token_members fs

pub record ProvisionGatewayRequest : Type 0 where
  pub name : Bytes

pub record UpdateGatewayRequest : Type 0 where
  pub name : Bytes

unfoldable pub encode_provision_gateway : ProvisionGatewayRequest → Result Json
encode_provision_gateway req = ok (obj (keep_text (codes "name") req.name end))

unfoldable pub encode_update_gateway : UpdateGatewayRequest → Result Json
encode_update_gateway req = ok (obj (keep (codes "name") (str req.name) end))

pub record GatewayListOptions : Type 0 where
  pub paging : ListOptions
  pub name : Bytes
  pub ipv4 : Bytes
  pub ipv6 : Bytes

abbrev pub no_gateway_list_options : GatewayListOptions
no_gateway_list_options = record { paging = no_options; name = []; ipv4 = []; ipv6 = [] }

module _ {W : Type 0} (env : Env W) where
  unfoldable pub get : Client → Bytes → Bytes → W → Result Gateway × W
  get c site_id id w =
      unless (check_id (codes "site ID") site_id)
        (unless (check_id (codes "Gateway ID") id) (
          client_do env c (codes "GET")
            (build_path (codes "sites" ∷ site_id ∷ codes "gateways" ∷ id ∷ [])) none none
            (into zero_gateway (decode_gateway env))))
        w

  unfoldable pub list : Client → Bytes → Option GatewayListOptions → W → Result (Page Gateway) × W
  list c site_id opts w =
      unless (check_id (codes "site ID") site_id)
        (do_list env c (codes "GET") (build_path (codes "sites" ∷ site_id ∷ codes "gateways" ∷ []))
          (filter_query (or_default no_gateway_list_options opts).paging (
            (codes "name", (or_default no_gateway_list_options opts).name)
            ∷ (codes "ipv4", (or_default no_gateway_list_options opts).ipv4)
            ∷ (codes "ipv6", (or_default no_gateway_list_options opts).ipv6)
            ∷ []))
          (decode_gateway env))
        w

  unfoldable pub provision :
      Client → Bytes → Option ProvisionGatewayRequest → W → Result ProvisionedGateway × W
  provision c site_id req w =
      unless (check_id (codes "site ID") site_id)
        (with_body (wrap_body env (codes "gateway") (each encode_provision_gateway req)) (λ body.
          client_do env c (codes "POST")
            (build_path (codes "sites" ∷ site_id ∷ codes "gateways" ∷ [])) none (some body)
            (into zero_provisioned_gateway (decode_provisioned_gateway env))))
        w

  unfoldable pub update :
      Client → Bytes → Bytes → Option UpdateGatewayRequest → W → Result Gateway × W
  update c site_id id req w =
      unless (check_id (codes "site ID") site_id)
        (unless (check_id (codes "Gateway ID") id) (
          with_body (wrap_body env (codes "gateway") (each encode_update_gateway req)) (λ body.
            client_do env c (codes "PATCH")
              (build_path (codes "sites" ∷ site_id ∷ codes "gateways" ∷ id ∷ [])) none (some body)
              (into zero_gateway (decode_gateway env)))))
        w

  unfoldable pub rotate_token : Client → Bytes → Bytes → W → Result RotatedGatewayToken × W
  rotate_token c site_id id w =
      unless (check_id (codes "site ID") site_id)
        (unless (check_id (codes "Gateway ID") id) (
          client_do env c (codes "POST")
            (build_path (
              codes "sites"
              ∷ site_id
              ∷ codes "gateways"
              ∷ id
              ∷ codes "token"
              ∷ codes "rotate"
              ∷ []))
            none none (into zero_rotated_gateway_token decode_rotated_gateway_token)))
        w

  unfoldable pub delete : Client → Bytes → Bytes → W → Result (Unit {0}) × W
  delete c site_id id w =
      unless (check_id (codes "site ID") site_id)
        (unless (check_id (codes "Gateway ID") id) (
          client_do env c (codes "DELETE")
            (build_path (codes "sites" ∷ site_id ∷ codes "gateways" ∷ id ∷ [])) none none discard))
        w
