-- ===== src/Services/Routes/Table.antt =====
-- The routes of the REST API: for each operation the method, the segments of its path, and the
-- caller's IDs with the names that their errors carry.
use firezone_sdk_go.Common.{List, [], ◌∷◌, Bytes, codes}
use firezone_sdk_go.Services.Routes.{
  Op, sites_get, sites_list, sites_create, sites_update, sites_delete, gateways_get, gateways_list,
  gateways_provision, gateways_update, gateways_rotate_token, gateways_delete, groups_get,
  groups_list, groups_create, groups_update, groups_delete, memberships_list,
  memberships_replace_all, memberships_patch, pool_members_list, pool_members_replace_all,
  pool_members_patch, actors_get, actors_list, actors_create, actors_update, actors_delete,
  actors_disable, actors_enable, clients_get, clients_list, clients_update, clients_delete,
  clients_verify, clients_unverify, resources_get, resources_list, resources_create,
  resources_update, resources_delete, policies_get, policies_list, policies_create, policies_update,
  policies_delete, policies_disable, policies_enable, email_otp_auth_providers_get,
  email_otp_auth_providers_list, oidc_auth_providers_get, oidc_auth_providers_list,
  google_auth_providers_get, google_auth_providers_list, entra_auth_providers_get,
  entra_auth_providers_list, okta_auth_providers_get, okta_auth_providers_list,
  github_auth_providers_get, github_auth_providers_list, entra_directories_get,
  entra_directories_list, google_directories_get, google_directories_list, okta_directories_get,
  okta_directories_list,
}

abbrev pub verb : Op → Bytes
verb (sites_get _) = codes "GET"
verb (sites_list _) = codes "GET"
verb (sites_create _) = codes "POST"
verb (sites_update _ _) = codes "PATCH"
verb (sites_delete _) = codes "DELETE"
verb (gateways_get _ _) = codes "GET"
verb (gateways_list _ _) = codes "GET"
verb (gateways_provision _ _) = codes "POST"
verb (gateways_update _ _ _) = codes "PATCH"
verb (gateways_rotate_token _ _) = codes "POST"
verb (gateways_delete _ _) = codes "DELETE"
verb (groups_get _) = codes "GET"
verb (groups_list _) = codes "GET"
verb (groups_create _) = codes "POST"
verb (groups_update _ _) = codes "PATCH"
verb (groups_delete _) = codes "DELETE"
verb (memberships_list _ _) = codes "GET"
verb (memberships_replace_all _ _) = codes "PUT"
verb (memberships_patch _ _ _) = codes "PATCH"
verb (pool_members_list _ _) = codes "GET"
verb (pool_members_replace_all _ _) = codes "PUT"
verb (pool_members_patch _ _ _) = codes "PATCH"
verb (actors_get _) = codes "GET"
verb (actors_list _) = codes "GET"
verb (actors_create _) = codes "POST"
verb (actors_update _ _) = codes "PATCH"
verb (actors_delete _) = codes "DELETE"
verb (actors_disable _) = codes "PATCH"
verb (actors_enable _) = codes "PATCH"
verb (clients_get _) = codes "GET"
verb (clients_list _) = codes "GET"
verb (clients_update _ _) = codes "PATCH"
verb (clients_delete _) = codes "DELETE"
verb (clients_verify _) = codes "PUT"
verb (clients_unverify _) = codes "PUT"
verb (resources_get _) = codes "GET"
verb (resources_list _) = codes "GET"
verb (resources_create _) = codes "POST"
verb (resources_update _ _) = codes "PATCH"
verb (resources_delete _) = codes "DELETE"
verb (policies_get _) = codes "GET"
verb (policies_list _) = codes "GET"
verb (policies_create _) = codes "POST"
verb (policies_update _ _) = codes "PATCH"
verb (policies_delete _) = codes "DELETE"
verb (policies_disable _) = codes "PATCH"
verb (policies_enable _) = codes "PATCH"
verb (email_otp_auth_providers_get _) = codes "GET"
verb (email_otp_auth_providers_list _) = codes "GET"
verb (oidc_auth_providers_get _) = codes "GET"
verb (oidc_auth_providers_list _) = codes "GET"
verb (google_auth_providers_get _) = codes "GET"
verb (google_auth_providers_list _) = codes "GET"
verb (entra_auth_providers_get _) = codes "GET"
verb (entra_auth_providers_list _) = codes "GET"
verb (okta_auth_providers_get _) = codes "GET"
verb (okta_auth_providers_list _) = codes "GET"
verb (github_auth_providers_get _) = codes "GET"
verb (github_auth_providers_list _) = codes "GET"
verb (entra_directories_get _) = codes "GET"
verb (entra_directories_list _) = codes "GET"
verb (google_directories_get _) = codes "GET"
verb (google_directories_list _) = codes "GET"
verb (okta_directories_get _) = codes "GET"
verb (okta_directories_list _) = codes "GET"

abbrev pub segments : Op → List Bytes
segments (sites_get id) = codes "sites" ∷ id ∷ []
segments (sites_list _) = codes "sites" ∷ []
segments (sites_create _) = codes "sites" ∷ []
segments (sites_update id _) = codes "sites" ∷ id ∷ []
segments (sites_delete id) = codes "sites" ∷ id ∷ []
segments (gateways_get site_id id) = codes "sites" ∷ site_id ∷ codes "gateways" ∷ id ∷ []
segments (gateways_list site_id _) = codes "sites" ∷ site_id ∷ codes "gateways" ∷ []
segments (gateways_provision site_id _) = codes "sites" ∷ site_id ∷ codes "gateways" ∷ []
segments (gateways_update site_id id _) = codes "sites" ∷ site_id ∷ codes "gateways" ∷ id ∷ []
segments (gateways_rotate_token site_id id) =
    codes "sites" ∷ site_id ∷ codes "gateways" ∷ id ∷ codes "token" ∷ codes "rotate" ∷ []
segments (gateways_delete site_id id) = codes "sites" ∷ site_id ∷ codes "gateways" ∷ id ∷ []
segments (groups_get id) = codes "groups" ∷ id ∷ []
segments (groups_list _) = codes "groups" ∷ []
segments (groups_create _) = codes "groups" ∷ []
segments (groups_update id _) = codes "groups" ∷ id ∷ []
segments (groups_delete id) = codes "groups" ∷ id ∷ []
segments (memberships_list group_id _) = codes "groups" ∷ group_id ∷ codes "memberships" ∷ []
segments (memberships_replace_all group_id _) = codes "groups" ∷ group_id ∷ codes "memberships" ∷ []
segments (memberships_patch group_id _ _) = codes "groups" ∷ group_id ∷ codes "memberships" ∷ []
segments (pool_members_list resource_id _) =
    codes "resources" ∷ resource_id ∷ codes "pool_members" ∷ []
segments (pool_members_replace_all resource_id _) =
    codes "resources" ∷ resource_id ∷ codes "pool_members" ∷ []
segments (pool_members_patch resource_id _ _) =
    codes "resources" ∷ resource_id ∷ codes "pool_members" ∷ []
segments (actors_get id) = codes "actors" ∷ id ∷ []
segments (actors_list _) = codes "actors" ∷ []
segments (actors_create _) = codes "actors" ∷ []
segments (actors_update id _) = codes "actors" ∷ id ∷ []
segments (actors_delete id) = codes "actors" ∷ id ∷ []
segments (actors_disable id) = codes "actors" ∷ id ∷ []
segments (actors_enable id) = codes "actors" ∷ id ∷ []
segments (clients_get id) = codes "clients" ∷ id ∷ []
segments (clients_list _) = codes "clients" ∷ []
segments (clients_update id _) = codes "clients" ∷ id ∷ []
segments (clients_delete id) = codes "clients" ∷ id ∷ []
segments (clients_verify id) = codes "clients" ∷ id ∷ codes "verify" ∷ []
segments (clients_unverify id) = codes "clients" ∷ id ∷ codes "unverify" ∷ []
segments (resources_get id) = codes "resources" ∷ id ∷ []
segments (resources_list _) = codes "resources" ∷ []
segments (resources_create _) = codes "resources" ∷ []
segments (resources_update id _) = codes "resources" ∷ id ∷ []
segments (resources_delete id) = codes "resources" ∷ id ∷ []
segments (policies_get id) = codes "policies" ∷ id ∷ []
segments (policies_list _) = codes "policies" ∷ []
segments (policies_create _) = codes "policies" ∷ []
segments (policies_update id _) = codes "policies" ∷ id ∷ []
segments (policies_delete id) = codes "policies" ∷ id ∷ []
segments (policies_disable id) = codes "policies" ∷ id ∷ []
segments (policies_enable id) = codes "policies" ∷ id ∷ []
segments (email_otp_auth_providers_get id) = codes "email_otp_auth_providers" ∷ id ∷ []
segments (email_otp_auth_providers_list _) = codes "email_otp_auth_providers" ∷ []
segments (oidc_auth_providers_get id) = codes "oidc_auth_providers" ∷ id ∷ []
segments (oidc_auth_providers_list _) = codes "oidc_auth_providers" ∷ []
segments (google_auth_providers_get id) = codes "google_auth_providers" ∷ id ∷ []
segments (google_auth_providers_list _) = codes "google_auth_providers" ∷ []
segments (entra_auth_providers_get id) = codes "entra_auth_providers" ∷ id ∷ []
segments (entra_auth_providers_list _) = codes "entra_auth_providers" ∷ []
segments (okta_auth_providers_get id) = codes "okta_auth_providers" ∷ id ∷ []
segments (okta_auth_providers_list _) = codes "okta_auth_providers" ∷ []
segments (github_auth_providers_get id) = codes "github_auth_providers" ∷ id ∷ []
segments (github_auth_providers_list _) = codes "github_auth_providers" ∷ []
segments (entra_directories_get id) = codes "entra_directories" ∷ id ∷ []
segments (entra_directories_list _) = codes "entra_directories" ∷ []
segments (google_directories_get id) = codes "google_directories" ∷ id ∷ []
segments (google_directories_list _) = codes "google_directories" ∷ []
segments (okta_directories_get id) = codes "okta_directories" ∷ id ∷ []
segments (okta_directories_list _) = codes "okta_directories" ∷ []

abbrev pub ids : Op → List (Bytes × Bytes)
ids (sites_get id) = (codes "site ID", id) ∷ []
ids (sites_list _) = []
ids (sites_create _) = []
ids (sites_update id _) = (codes "site ID", id) ∷ []
ids (sites_delete id) = (codes "site ID", id) ∷ []
ids (gateways_get site_id id) = (codes "site ID", site_id) ∷ (codes "Gateway ID", id) ∷ []
ids (gateways_list site_id _) = (codes "site ID", site_id) ∷ []
ids (gateways_provision site_id _) = (codes "site ID", site_id) ∷ []
ids (gateways_update site_id id _) = (codes "site ID", site_id) ∷ (codes "Gateway ID", id) ∷ []
ids (gateways_rotate_token site_id id) = (codes "site ID", site_id) ∷ (codes "Gateway ID", id) ∷ []
ids (gateways_delete site_id id) = (codes "site ID", site_id) ∷ (codes "Gateway ID", id) ∷ []
ids (groups_get id) = (codes "Group ID", id) ∷ []
ids (groups_list _) = []
ids (groups_create _) = []
ids (groups_update id _) = (codes "Group ID", id) ∷ []
ids (groups_delete id) = (codes "Group ID", id) ∷ []
ids (memberships_list group_id _) = (codes "Group ID", group_id) ∷ []
ids (memberships_replace_all group_id _) = (codes "Group ID", group_id) ∷ []
ids (memberships_patch group_id _ _) = (codes "Group ID", group_id) ∷ []
ids (pool_members_list resource_id _) = (codes "Resource ID", resource_id) ∷ []
ids (pool_members_replace_all resource_id _) = (codes "Resource ID", resource_id) ∷ []
ids (pool_members_patch resource_id _ _) = (codes "Resource ID", resource_id) ∷ []
ids (actors_get id) = (codes "Actor ID", id) ∷ []
ids (actors_list _) = []
ids (actors_create _) = []
ids (actors_update id _) = (codes "Actor ID", id) ∷ []
ids (actors_delete id) = (codes "Actor ID", id) ∷ []
ids (actors_disable id) = (codes "Actor ID", id) ∷ []
ids (actors_enable id) = (codes "Actor ID", id) ∷ []
ids (clients_get id) = (codes "Client ID", id) ∷ []
ids (clients_list _) = []
ids (clients_update id _) = (codes "Client ID", id) ∷ []
ids (clients_delete id) = (codes "Client ID", id) ∷ []
ids (clients_verify id) = (codes "Client ID", id) ∷ []
ids (clients_unverify id) = (codes "Client ID", id) ∷ []
ids (resources_get id) = (codes "Resource ID", id) ∷ []
ids (resources_list _) = []
ids (resources_create _) = []
ids (resources_update id _) = (codes "Resource ID", id) ∷ []
ids (resources_delete id) = (codes "Resource ID", id) ∷ []
ids (policies_get id) = (codes "Policy ID", id) ∷ []
ids (policies_list _) = []
ids (policies_create _) = []
ids (policies_update id _) = (codes "Policy ID", id) ∷ []
ids (policies_delete id) = (codes "Policy ID", id) ∷ []
ids (policies_disable id) = (codes "Policy ID", id) ∷ []
ids (policies_enable id) = (codes "Policy ID", id) ∷ []
ids (email_otp_auth_providers_get id) = (codes "auth provider ID", id) ∷ []
ids (email_otp_auth_providers_list _) = []
ids (oidc_auth_providers_get id) = (codes "auth provider ID", id) ∷ []
ids (oidc_auth_providers_list _) = []
ids (google_auth_providers_get id) = (codes "auth provider ID", id) ∷ []
ids (google_auth_providers_list _) = []
ids (entra_auth_providers_get id) = (codes "auth provider ID", id) ∷ []
ids (entra_auth_providers_list _) = []
ids (okta_auth_providers_get id) = (codes "auth provider ID", id) ∷ []
ids (okta_auth_providers_list _) = []
ids (github_auth_providers_get id) = (codes "auth provider ID", id) ∷ []
ids (github_auth_providers_list _) = []
ids (entra_directories_get id) = (codes "directory ID", id) ∷ []
ids (entra_directories_list _) = []
ids (google_directories_get id) = (codes "directory ID", id) ∷ []
ids (google_directories_list _) = []
ids (okta_directories_get id) = (codes "directory ID", id) ∷ []
ids (okta_directories_list _) = []
