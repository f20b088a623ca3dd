-- ===== src/Services/Clients.antt =====
-- clients.go: the Clients service. A time filter is the text that `Format` gives.
use firezone_sdk_go.Common.{
  Bool, true, false, Option, none, some, [], ◌∷◌, Bytes, codes, Assoc, put,
}
use firezone_sdk_go.Api.{Page, discard, into, wrap_body, client_do, do_list, unless, with_body}
use firezone_sdk_go.Client.{Client}
use firezone_sdk_go.Env.{Env}
use firezone_sdk_go.Error.{Result, ok}
use firezone_sdk_go.Json.{Json, str, obj, Fields, end, to_struct, keep, ◌>>=◌}
use firezone_sdk_go.Path.{check_id, build_path}
use firezone_sdk_go.Query.{ListOptions, no_options, or_default, filter_query}
use firezone_sdk_go.Services.{text, flag, time, time_pointer, each}

pub record ClientDevice : Type 0 where
  pub id : Bytes
  pub firezone_id : Bytes
  pub actor_id : Bytes
  pub name : Bytes
  pub ipv4 : Bytes
  pub ipv6 : Bytes
  pub online : Bool
  pub public_key : Bytes
  pub hostname : Bytes
  pub device_serial : Bytes
  pub device_uuid : Bytes
  pub verified_at : Option Bytes
  pub last_seen_at : Option Bytes
  pub last_seen_version : Bytes
  pub last_seen_remote_ip : Bytes
  pub created_at : Bytes
  pub updated_at : Bytes

abbrev pub zero_client_device : ClientDevice
zero_client_device = record {
  id = [];
  firezone_id = [];
  actor_id = [];
  name = [];
  ipv4 = [];
  ipv6 = [];
  online = false;
  public_key = [];
  hostname = [];
  device_serial = [];
  device_uuid = [];
  verified_at = none;
  last_seen_at = none;
  last_seen_version = [];
  last_seen_remote_ip = [];
  created_at = [];
  updated_at = [];
}

unfoldable pub client_device_members : {W : Type 0} → Env W → Fields → Option ClientDevice
client_device_members env fs = do
  id ← text (codes "id") fs
  firezone_id ← text (codes "firezone_id") fs
  actor_id ← text (codes "actor_id") fs
  name ← text (codes "name") fs
  ipv4 ← text (codes "ipv4") fs
  ipv6 ← text (codes "ipv6") fs
  online ← flag (codes "online") fs
  public_key ← text (codes "public_key") fs
  hostname ← text (codes "hostname") fs
  device_serial ← text (codes "device_serial") fs
  device_uuid ← text (codes "device_uuid") fs
  verified_at ← time_pointer env (codes "verified_at") fs
  last_seen_at ← time_pointer env (codes "last_seen_at") fs
  last_seen_version ← text (codes "last_seen_version") fs
  last_seen_remote_ip ← text (codes "last_seen_remote_ip") fs
  created_at ← time env (codes "created_at") fs
  updated_at ← time env (codes "updated_at") fs
  some (record {
    id = id;
    firezone_id = firezone_id;
    actor_id = actor_id;
    name = name;
    ipv4 = ipv4;
    ipv6 = ipv6;
    online = online;
    public_key = public_key;
    hostname = hostname;
    device_serial = device_serial;
    device_uuid = device_uuid;
    verified_at = verified_at;
    last_seen_at = last_seen_at;
    last_seen_version = last_seen_version;
    last_seen_remote_ip = last_seen_remote_ip;
    created_at = created_at;
    updated_at = updated_at;
  })

unfoldable pub decode_client_device : {W : Type 0} → Env W → Json → Option ClientDevice
unfolding client_device_members
decode_client_device env j = do fs ← to_struct j; client_device_members env fs

pub record UpdateClientRequest : Type 0 where
  pub name : Bytes

unfoldable pub encode_update_client : UpdateClientRequest → Result Json
encode_update_client req = ok (obj (keep (codes "name") (str req.name) end))

pub record ClientListOptions : Type 0 where
  pub paging : ListOptions
  pub name : Bytes
  pub firezone_id : Bytes
  pub actor_id : Bytes
  pub online : Option Bool
  pub last_seen_before : Option Bytes
  pub last_seen_after : Option Bytes
  pub client_type : Bytes

abbrev pub no_client_list_options : ClientListOptions
no_client_list_options = record {
  paging = no_options;
  name = [];
  firezone_id = [];
  actor_id = [];
  online = none;
  last_seen_before = none;
  last_seen_after = none;
  client_type = [];
}

-- `strconv.FormatBool`
abbrev pub format_bool : Bool → Bytes
format_bool true = codes "true"
format_bool false = codes "false"

-- `q.Set` for a filter that is a pointer.
abbrev put_pointer {ℓ} : {A : Type ℓ} → (A → Bytes) → Bytes → Option A → Assoc → Assoc
put_pointer format k none q = q
put_pointer format k (some a) q = put k (format a) q

unfoldable pub client_query : ClientListOptions → Assoc
client_query opts =
    put_pointer (λ t. t) (codes "last_seen_after") opts.last_seen_after
      (put_pointer (λ t. t) (codes "last_seen_before") opts.last_seen_before
        (put_pointer format_bool (codes "online") opts.online (
          filter_query opts.paging (
            (codes "name", opts.name)
            ∷ (codes "firezone_id", opts.firezone_id)
            ∷ (codes "actor_id", opts.actor_id)
            ∷ (codes "client_type", opts.client_type)
            ∷ []))))

module _ {W : Type 0} (env : Env W) where
  unfoldable pub get : Client → Bytes → W → Result ClientDevice × W
  get c id w =
      unless (check_id (codes "Client ID") id)
        (client_do env c (codes "GET") (build_path (codes "clients" ∷ id ∷ [])) none none
          (into zero_client_device (decode_client_device env)))
        w

  unfoldable pub list : Client → Option ClientListOptions → W → Result (Page ClientDevice) × W
  list c opts w =
      do_list env c (codes "GET") (codes "clients")
        (client_query (or_default no_client_list_options opts)) (decode_client_device env) w

  unfoldable pub update : Client → Bytes → Option UpdateClientRequest → W → Result ClientDevice × W
  update c id req w =
      unless (check_id (codes "Client ID") id)
        (with_body (wrap_body env (codes "client") (each encode_update_client req)) (λ body.
          client_do env c (codes "PATCH") (build_path (codes "clients" ∷ id ∷ [])) none (some body)
            (into zero_client_device (decode_client_device env))))
        w

  unfoldable pub delete : Client → Bytes → W → Result (Unit {0}) × W
  delete c id w =
      unless (check_id (codes "Client ID") id)
        (client_do env c (codes "DELETE") (build_path (codes "clients" ∷ id ∷ [])) none none
          discard)
        w

  unfoldable pub verify : Client → Bytes → W → Result ClientDevice × W
  verify c id w =
      unless (check_id (codes "Client ID") id)
        (client_do env c (codes "PUT") (build_path (codes "clients" ∷ id ∷ codes "verify" ∷ []))
          none none (into zero_client_device (decode_client_device env)))
        w

  unfoldable pub unverify : Client → Bytes → W → Result ClientDevice × W
  unverify c id w =
      unless (check_id (codes "Client ID") id)
        (client_do env c (codes "PUT") (build_path (codes "clients" ∷ id ∷ codes "unverify" ∷ []))
          none none (into zero_client_device (decode_client_device env)))
        w
