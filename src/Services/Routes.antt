-- ===== src/Services/Routes.antt =====
-- The operations of all the services as values, so that what each of them sends can be stated
-- once. A service that is scoped to a Site, Group or Resource takes its ID first.
pub mod Table
pub mod Sends
pub mod Refuses
pub mod Answers
use firezone_sdk_go.Common.{Option, none, some, List, Bytes}
use firezone_sdk_go.Client.{Client}
use firezone_sdk_go.Env.{Env}
use firezone_sdk_go.Error.{Error, Result, ok, err}
use firezone_sdk_go.Query.{ListOptions}
use firezone_sdk_go.Services.Actors
use firezone_sdk_go.Services.AuthProviders.Reads as AuthProviders
use firezone_sdk_go.Services.Clients
use firezone_sdk_go.Services.Directories.Reads as Directories
use firezone_sdk_go.Services.Gateways
use firezone_sdk_go.Services.Groups
use firezone_sdk_go.Services.Memberships
use firezone_sdk_go.Services.Policies
use firezone_sdk_go.Services.PoolMembers
use firezone_sdk_go.Services.Resources
use firezone_sdk_go.Services.Sites
use firezone_sdk_go.Services.Actors.{ActorListOptions, CreateActorRequest, UpdateActorRequest}
use firezone_sdk_go.Services.AuthProviders.{AuthProviderListOptions}
use firezone_sdk_go.Services.Clients.{ClientListOptions, UpdateClientRequest}
use firezone_sdk_go.Services.Directories.{DirectoryListOptions}
use firezone_sdk_go.Services.Gateways.{
  GatewayListOptions, ProvisionGatewayRequest, UpdateGatewayRequest,
}
use firezone_sdk_go.Services.Groups.{CreateGroupRequest, GroupListOptions, UpdateGroupRequest}
use firezone_sdk_go.Services.Policies.{CreatePolicyRequest, PolicyListOptions, UpdatePolicyRequest}
use firezone_sdk_go.Services.Resources.{
  CreateResourceRequest, ResourceListOptions, UpdateResourceRequest,
}
use firezone_sdk_go.Services.Sites.{CreateSiteRequest, SiteListOptions, UpdateSiteRequest}

pub data Op : Type 0 where
  sites_get : Bytes → Op
  sites_list : Option SiteListOptions → Op
  sites_create : Option CreateSiteRequest → Op
  sites_update : Bytes → Option UpdateSiteRequest → Op
  sites_delete : Bytes → Op
  gateways_get : Bytes → Bytes → Op
  gateways_list : Bytes → Option GatewayListOptions → Op
  gateways_provision : Bytes → Option ProvisionGatewayRequest → Op
  gateways_update : Bytes → Bytes → Option UpdateGatewayRequest → Op
  gateways_rotate_token : Bytes → Bytes → Op
  gateways_delete : Bytes → Bytes → Op
  groups_get : Bytes → Op
  groups_list : Option GroupListOptions → Op
  groups_create : Option CreateGroupRequest → Op
  groups_update : Bytes → Option UpdateGroupRequest → Op
  groups_delete : Bytes → Op
  memberships_list : Bytes → Option ListOptions → Op
  memberships_replace_all : Bytes → List Bytes → Op
  memberships_patch : Bytes → List Bytes → List Bytes → Op
  pool_members_list : Bytes → Option ListOptions → Op
  pool_members_replace_all : Bytes → List Bytes → Op
  pool_members_patch : Bytes → List Bytes → List Bytes → Op
  actors_get : Bytes → Op
  actors_list : Option ActorListOptions → Op
  actors_create : Option CreateActorRequest → Op
  actors_update : Bytes → Option UpdateActorRequest → Op
  actors_delete : Bytes → Op
  actors_disable : Bytes → Op
  actors_enable : Bytes → Op
  clients_get : Bytes → Op
  clients_list : Option ClientListOptions → Op
  clients_update : Bytes → Option UpdateClientRequest → Op
  clients_delete : Bytes → Op
  clients_verify : Bytes → Op
  clients_unverify : Bytes → Op
  resources_get : Bytes → Op
  resources_list : Option ResourceListOptions → Op
  resources_create : Option CreateResourceRequest → Op
  resources_update : Bytes → Option UpdateResourceRequest → Op
  resources_delete : Bytes → Op
  policies_get : Bytes → Op
  policies_list : Option PolicyListOptions → Op
  policies_create : Option CreatePolicyRequest → Op
  policies_update : Bytes → Option UpdatePolicyRequest → Op
  policies_delete : Bytes → Op
  policies_disable : Bytes → Op
  policies_enable : Bytes → Op
  email_otp_auth_providers_get : Bytes → Op
  email_otp_auth_providers_list : Option AuthProviderListOptions → Op
  oidc_auth_providers_get : Bytes → Op
  oidc_auth_providers_list : Option AuthProviderListOptions → Op
  google_auth_providers_get : Bytes → Op
  google_auth_providers_list : Option AuthProviderListOptions → Op
  entra_auth_providers_get : Bytes → Op
  entra_auth_providers_list : Option AuthProviderListOptions → Op
  okta_auth_providers_get : Bytes → Op
  okta_auth_providers_list : Option AuthProviderListOptions → Op
  github_auth_providers_get : Bytes → Op
  github_auth_providers_list : Option AuthProviderListOptions → Op
  entra_directories_get : Bytes → Op
  entra_directories_list : Option DirectoryListOptions → Op
  google_directories_get : Bytes → Op
  google_directories_list : Option DirectoryListOptions → Op
  okta_directories_get : Bytes → Op
  okta_directories_list : Option DirectoryListOptions → Op

-- The error of a call, if it fails, and the state behind it.
unfoldable pub outcome : {W : Type 0} {A : Type 0} → Result A × W → Option Error × W
outcome (ok a, w) = (none, w)
outcome (err e, w) = (some e, w)

unfoldable pub run : {W : Type 0} → Env W → Client → Op → W → Option Error × W
run env c (sites_get id) w = outcome (Sites.get env c id w)
run env c (sites_list opts) w = outcome (Sites.list env c opts w)
run env c (sites_create req) w = outcome (Sites.create env c req w)
run env c (sites_update id req) w = outcome (Sites.update env c id req w)
run env c (sites_delete id) w = outcome (Sites.delete env c id w)
run env c (gateways_get site_id id) w = outcome (Gateways.get env c site_id id w)
run env c (gateways_list site_id opts) w = outcome (Gateways.list env c site_id opts w)
run env c (gateways_provision site_id req) w = outcome (Gateways.provision env c site_id req w)
run env c (gateways_update site_id id req) w = outcome (Gateways.update env c site_id id req w)
run env c (gateways_rotate_token site_id id) w = outcome (Gateways.rotate_token env c site_id id w)
run env c (gateways_delete site_id id) w = outcome (Gateways.delete env c site_id id w)
run env c (groups_get id) w = outcome (Groups.get env c id w)
run env c (groups_list opts) w = outcome (Groups.list env c opts w)
run env c (groups_create req) w = outcome (Groups.create env c req w)
run env c (groups_update id req) w = outcome (Groups.update env c id req w)
run env c (groups_delete id) w = outcome (Groups.delete env c id w)
run env c (memberships_list group_id opts) w = outcome (Memberships.list env c group_id opts w)
run env c (memberships_replace_all group_id ids) w =
    outcome (Memberships.replace_all env c group_id ids w)
run env c (memberships_patch group_id add remove) w =
    outcome (Memberships.patch env c group_id add remove w)
run env c (pool_members_list resource_id opts) w =
    outcome (PoolMembers.list env c resource_id opts w)
run env c (pool_members_replace_all resource_id ids) w =
    outcome (PoolMembers.replace_all env c resource_id ids w)
run env c (pool_members_patch resource_id add remove) w =
    outcome (PoolMembers.patch env c resource_id add remove w)
run env c (actors_get id) w = outcome (Actors.get env c id w)
run env c (actors_list opts) w = outcome (Actors.list env c opts w)
run env c (actors_create req) w = outcome (Actors.create env c req w)
run env c (actors_update id req) w = outcome (Actors.update env c id req w)
run env c (actors_delete id) w = outcome (Actors.delete env c id w)
run env c (actors_disable id) w = outcome (Actors.disable env c id w)
run env c (actors_enable id) w = outcome (Actors.enable env c id w)
run env c (clients_get id) w = outcome (Clients.get env c id w)
run env c (clients_list opts) w = outcome (Clients.list env c opts w)
run env c (clients_update id req) w = outcome (Clients.update env c id req w)
run env c (clients_delete id) w = outcome (Clients.delete env c id w)
run env c (clients_verify id) w = outcome (Clients.verify env c id w)
run env c (clients_unverify id) w = outcome (Clients.unverify env c id w)
run env c (resources_get id) w = outcome (Resources.get env c id w)
run env c (resources_list opts) w = outcome (Resources.list env c opts w)
run env c (resources_create req) w = outcome (Resources.create env c req w)
run env c (resources_update id req) w = outcome (Resources.update env c id req w)
run env c (resources_delete id) w = outcome (Resources.delete env c id w)
run env c (policies_get id) w = outcome (Policies.get env c id w)
run env c (policies_list opts) w = outcome (Policies.list env c opts w)
run env c (policies_create req) w = outcome (Policies.create env c req w)
run env c (policies_update id req) w = outcome (Policies.update env c id req w)
run env c (policies_delete id) w = outcome (Policies.delete env c id w)
run env c (policies_disable id) w = outcome (Policies.disable env c id w)
run env c (policies_enable id) w = outcome (Policies.enable env c id w)
run env c (email_otp_auth_providers_get id) w = outcome (AuthProviders.get_email_otp env c id w)
run env c (email_otp_auth_providers_list opts) w =
    outcome (AuthProviders.list_email_otp env c opts w)
run env c (oidc_auth_providers_get id) w = outcome (AuthProviders.get_oidc env c id w)
run env c (oidc_auth_providers_list opts) w = outcome (AuthProviders.list_oidc env c opts w)
run env c (google_auth_providers_get id) w = outcome (AuthProviders.get_google env c id w)
run env c (google_auth_providers_list opts) w = outcome (AuthProviders.list_google env c opts w)
run env c (entra_auth_providers_get id) w = outcome (AuthProviders.get_entra env c id w)
run env c (entra_auth_providers_list opts) w = outcome (AuthProviders.list_entra env c opts w)
run env c (okta_auth_providers_get id) w = outcome (AuthProviders.get_okta env c id w)
run env c (okta_auth_providers_list opts) w = outcome (AuthProviders.list_okta env c opts w)
run env c (github_auth_providers_get id) w = outcome (AuthProviders.get_github env c id w)
run env c (github_auth_providers_list opts) w = outcome (AuthProviders.list_github env c opts w)
run env c (entra_directories_get id) w = outcome (Directories.get_entra env c id w)
run env c (entra_directories_list opts) w = outcome (Directories.list_entra env c opts w)
run env c (google_directories_get id) w = outcome (Directories.get_google env c id w)
run env c (google_directories_list opts) w = outcome (Directories.list_google env c opts w)
run env c (okta_directories_get id) w = outcome (Directories.get_okta env c id w)
run env c (okta_directories_list opts) w = outcome (Directories.list_okta env c opts w)
