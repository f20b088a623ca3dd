-- ===== src/Services/Routes/Refuses.antt =====
-- Operations that are called with an ID that checkID refuses.
use firezone_sdk_go.Common.{◌≡◌, ap, Option, none, some, List, [], ◌∷◌, Bytes, codes}
use firezone_sdk_go.Client.{Client}
use firezone_sdk_go.Env.{Env}
use firezone_sdk_go.Error.{Error, Result}
use firezone_sdk_go.Api.{unless}
use firezone_sdk_go.Path.{check_id}
use firezone_sdk_go.Services.Routes.{
  outcome, Op, run, sites_get, sites_list, sites_create, sites_update, sites_delete, gateways_get,
  gateways_list, gateways_provision, gateways_update, gateways_rotate_token, gateways_delete,
  groups_get, groups_list, groups_create, groups_update, groups_delete, memberships_list,
  memberships_replace_all, memberships_patch, pool_members_list, pool_members_replace_all,
  pool_members_patch, actors_get, actors_list, actors_create, actors_update, actors_delete,
  actors_disable, actors_enable, clients_get, clients_list, clients_update, clients_delete,
  clients_verify, clients_unverify, resources_get, resources_list, resources_create,
  resources_update, resources_delete, policies_get, policies_list, policies_create, policies_update,
  policies_delete, policies_disable, policies_enable, email_otp_auth_providers_get,
  email_otp_auth_providers_list, oidc_auth_providers_get, oidc_auth_providers_list,
  google_auth_providers_get, google_auth_providers_list, entra_auth_providers_get,
  entra_auth_providers_list, okta_auth_providers_get, okta_auth_providers_list,
  github_auth_providers_get, github_auth_providers_list, entra_directories_get,
  entra_directories_list, google_directories_get, google_directories_list, okta_directories_get,
  okta_directories_list,
}
use firezone_sdk_go.Services.Routes.Table.{ids}
use firezone_sdk_go.Services.Actors
use firezone_sdk_go.Services.AuthProviders.Reads as AuthProviders
use firezone_sdk_go.Services.Clients
use firezone_sdk_go.Services.Directories.Reads as Directories
use firezone_sdk_go.Services.Gateways
use firezone_sdk_go.Services.Groups
use firezone_sdk_go.Services.Memberships
use firezone_sdk_go.Services.Policies
use firezone_sdk_go.Services.PoolMembers
use firezone_sdk_go.Services.Resources
use firezone_sdk_go.Services.Sites

abbrev or_else {ℓ} : {A : Type ℓ} → Option A → Option A → Option A
or_else none o = o
or_else (some a) o = some a

-- The error of the first ID that is refused.
abbrev pub first_refused : List (Bytes × Bytes) → Option Error
first_refused [] = none
first_refused ((name, id) ∷ rest) = or_else (check_id name id) (first_refused rest)

refuse_next :
    {W : Type 0} {A : Type 0} (o : Option Error) (rest : Option Error) (next : W → Result A × W)
    (w : W) {e : Error}
    → (rest ≡ some e → outcome (next w) ≡ (some e, w))
    → or_else o rest ≡ some e
    → outcome (unless o next w) ≡ (some e, w)
unfolding unless outcome
refuse_next none rest next w k h = k h
refuse_next (some e) rest next w k h = ap (λ o. (o, w)) h

refuse_last :
    {W : Type 0} {A : Type 0} (o : Option Error) (next : W → Result A × W) (w : W) {e : Error}
    → or_else o none ≡ some e
    → outcome (unless o next w) ≡ (some e, w)
refuse_last o next w h = refuse_next o none next w (λ k. cc) h

refuse_two :
    {W : Type 0} {A : Type 0} (o p : Option Error) (next : W → Result A × W) (w : W) {e : Error}
    → or_else o (or_else p none) ≡ some e
    → outcome (unless o (unless p next) w) ≡ (some e, w)
refuse_two o p next w h = refuse_next o (or_else p none) (unless p next) w (refuse_last p next w) h

module _ {W : Type 0} (env : Env W) (c : Client) where
  -- An operation that is called with an ID that checkID refuses returns the error of the first
  -- such ID, and leaves the outside state as it was.
  pub run-refused :
      (op : Op) (w : W) (e : Error) → first_refused (ids op) ≡ some e → run env c op w ≡ (some e, w)
  unfolding run Sites.get Sites.list Sites.create Sites.update Sites.delete Gateways.get
      Gateways.list Gateways.provision Gateways.update Gateways.rotate_token Gateways.delete
      Groups.get Groups.list Groups.create Groups.update Groups.delete Memberships.list
      Memberships.replace_all Memberships.patch PoolMembers.list PoolMembers.replace_all
      PoolMembers.patch Actors.get Actors.list Actors.create Actors.update Actors.delete
      Actors.disable Actors.enable Clients.get Clients.list Clients.update Clients.delete
      Clients.verify Clients.unverify Resources.get Resources.list Resources.create Resources.update
      Resources.delete Policies.get Policies.list Policies.create Policies.update Policies.delete
      Policies.disable Policies.enable AuthProviders.get_email_otp AuthProviders.list_email_otp
      AuthProviders.get_oidc AuthProviders.list_oidc AuthProviders.get_google
      AuthProviders.list_google AuthProviders.get_entra AuthProviders.list_entra
      AuthProviders.get_okta AuthProviders.list_okta AuthProviders.get_github
      AuthProviders.list_github Directories.get_entra Directories.list_entra Directories.get_google
      Directories.list_google Directories.get_okta Directories.list_okta
  run-refused (sites_get _) w e h = refuse_last _ _ _ h
  run-refused (sites_list _) w e h = cc
  run-refused (sites_create _) w e h = cc
  run-refused (sites_update _ _) w e h = refuse_last _ _ _ h
  run-refused (sites_delete _) w e h = refuse_last _ _ _ h
  run-refused (gateways_get site_id id) w e h =
      refuse_two (check_id (codes "site ID") site_id) (check_id (codes "Gateway ID") id) _ w h
  run-refused (gateways_list _ _) w e h = refuse_last _ _ _ h
  run-refused (gateways_provision _ _) w e h = refuse_last _ _ _ h
  run-refused (gateways_update site_id id _) w e h =
      refuse_two (check_id (codes "site ID") site_id) (check_id (codes "Gateway ID") id) _ w h
  run-refused (gateways_rotate_token site_id id) w e h =
      refuse_two (check_id (codes "site ID") site_id) (check_id (codes "Gateway ID") id) _ w h
  run-refused (gateways_delete site_id id) w e h =
      refuse_two (check_id (codes "site ID") site_id) (check_id (codes "Gateway ID") id) _ w h
  run-refused (groups_get _) w e h = refuse_last _ _ _ h
  run-refused (groups_list _) w e h = cc
  run-refused (groups_create _) w e h = cc
  run-refused (groups_update _ _) w e h = refuse_last _ _ _ h
  run-refused (groups_delete _) w e h = refuse_last _ _ _ h
  run-refused (memberships_list _ _) w e h = refuse_last _ _ _ h
  run-refused (memberships_replace_all _ _) w e h = refuse_last _ _ _ h
  run-refused (memberships_patch _ _ _) w e h = refuse_last _ _ _ h
  run-refused (pool_members_list _ _) w e h = refuse_last _ _ _ h
  run-refused (pool_members_replace_all _ _) w e h = refuse_last _ _ _ h
  run-refused (pool_members_patch _ _ _) w e h = refuse_last _ _ _ h
  run-refused (actors_get _) w e h = refuse_last _ _ _ h
  run-refused (actors_list _) w e h = cc
  run-refused (actors_create _) w e h = cc
  run-refused (actors_update _ _) w e h = refuse_last _ _ _ h
  run-refused (actors_delete _) w e h = refuse_last _ _ _ h
  run-refused (actors_disable _) w e h = refuse_last _ _ _ h
  run-refused (actors_enable _) w e h = refuse_last _ _ _ h
  run-refused (clients_get _) w e h = refuse_last _ _ _ h
  run-refused (clients_list _) w e h = cc
  run-refused (clients_update _ _) w e h = refuse_last _ _ _ h
  run-refused (clients_delete _) w e h = refuse_last _ _ _ h
  run-refused (clients_verify _) w e h = refuse_last _ _ _ h
  run-refused (clients_unverify _) w e h = refuse_last _ _ _ h
  run-refused (resources_get _) w e h = refuse_last _ _ _ h
  run-refused (resources_list _) w e h = cc
  run-refused (resources_create _) w e h = cc
  run-refused (resources_update _ _) w e h = refuse_last _ _ _ h
  run-refused (resources_delete _) w e h = refuse_last _ _ _ h
  run-refused (policies_get _) w e h = refuse_last _ _ _ h
  run-refused (policies_list _) w e h = cc
  run-refused (policies_create _) w e h = cc
  run-refused (policies_update _ _) w e h = refuse_last _ _ _ h
  run-refused (policies_delete _) w e h = refuse_last _ _ _ h
  run-refused (policies_disable _) w e h = refuse_last _ _ _ h
  run-refused (policies_enable _) w e h = refuse_last _ _ _ h
  run-refused (email_otp_auth_providers_get _) w e h = refuse_last _ _ _ h
  run-refused (email_otp_auth_providers_list _) w e h = cc
  run-refused (oidc_auth_providers_get _) w e h = refuse_last _ _ _ h
  run-refused (oidc_auth_providers_list _) w e h = cc
  run-refused (google_auth_providers_get _) w e h = refuse_last _ _ _ h
  run-refused (google_auth_providers_list _) w e h = cc
  run-refused (entra_auth_providers_get _) w e h = refuse_last _ _ _ h
  run-refused (entra_auth_providers_list _) w e h = cc
  run-refused (okta_auth_providers_get _) w e h = refuse_last _ _ _ h
  run-refused (okta_auth_providers_list _) w e h = cc
  run-refused (github_auth_providers_get _) w e h = refuse_last _ _ _ h
  run-refused (github_auth_providers_list _) w e h = cc
  run-refused (entra_directories_get _) w e h = refuse_last _ _ _ h
  run-refused (entra_directories_list _) w e h = cc
  run-refused (google_directories_get _) w e h = refuse_last _ _ _ h
  run-refused (google_directories_list _) w e h = cc
  run-refused (okta_directories_get _) w e h = refuse_last _ _ _ h
  run-refused (okta_directories_list _) w e h = cc
