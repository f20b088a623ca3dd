-- ===== src/Services/Routes/Sends.antt =====
-- The requests of an operation, against the table of routes.
use firezone_sdk_go.Common.{refl, List, [], All, IsBytes}
use firezone_sdk_go.Client.{Client}
use firezone_sdk_go.Env.{Env}
use firezone_sdk_go.Path.{build_path}
use firezone_sdk_go.Path.Segments.{build_path_plain}
use firezone_sdk_go.Url.{should_escape_segment}
use firezone_sdk_go.Retry.Trace.{Event, logged}
use firezone_sdk_go.Services.Calls.{
  IsTo, SentTo, SentBy, outcome-SentBy, unless-SentBy, with_body-SentBy, client_do-SentBy,
  do_list-SentBy,
}
use firezone_sdk_go.Services.Routes.{
  Op, run, sites_get, sites_list, sites_create, sites_update, sites_delete, gateways_get,
  gateways_list, gateways_provision, gateways_update, gateways_rotate_token, gateways_delete,
  groups_get, groups_list, groups_create, groups_update, groups_delete, memberships_list,
  memberships_replace_all, memberships_patch, pool_members_list, pool_members_replace_all,
  pool_members_patch, actors_get, actors_list, actors_create, actors_update, actors_delete,
  actors_disable, actors_enable, clients_get, clients_list, clients_update, clients_delete,
  clients_verify, clients_unverify, resources_get, resources_list, resources_create,
  resources_update, resources_delete, policies_get, policies_list, policies_create, policies_update,
  policies_delete, policies_disable, policies_enable, email_otp_auth_providers_get,
  email_otp_auth_providers_list, oidc_auth_providers_get, oidc_auth_providers_list,
  google_auth_providers_get, google_auth_providers_list, entra_auth_providers_get,
  entra_auth_providers_list, okta_auth_providers_get, okta_auth_providers_list,
  github_auth_providers_get, github_auth_providers_list, entra_directories_get,
  entra_directories_list, google_directories_get, google_directories_list, okta_directories_get,
  okta_directories_list,
}
use firezone_sdk_go.Services.Routes.Table.{verb, segments}
use firezone_sdk_go.Services.Actors
use firezone_sdk_go.Services.AuthProviders.Reads as AuthProviders
use firezone_sdk_go.Services.Clients
use firezone_sdk_go.Services.Directories.Reads as Directories
use firezone_sdk_go.Services.Gateways
use firezone_sdk_go.Services.Groups
use firezone_sdk_go.Services.Memberships
use firezone_sdk_go.Services.Policies
use firezone_sdk_go.Services.PoolMembers
use firezone_sdk_go.Services.Resources
use firezone_sdk_go.Services.Sites

module _ {W : Type 0} (env : Env W) (c : Client) (base : IsBytes c.base_url.path) where
  run-SentBy :
      (op : Op)
      → All IsBytes (segments op)
      → (w : W × List Event) → SentTo c (verb op) (segments op) w
      → SentBy c (verb op) (segments op) (run (logged env) c op w)
  unfolding run Sites.get Sites.list Sites.create Sites.update Sites.delete Gateways.get
      Gateways.list Gateways.provision Gateways.update Gateways.rotate_token Gateways.delete
      Groups.get Groups.list Groups.create Groups.update Groups.delete Memberships.list
      Memberships.replace_all Memberships.patch PoolMembers.list PoolMembers.replace_all
      PoolMembers.patch Actors.get Actors.list Actors.create Actors.update Actors.delete
      Actors.disable Actors.enable Clients.get Clients.list Clients.update Clients.delete
      Clients.verify Clients.unverify Resources.get Resources.list Resources.create Resources.update
      Resources.delete Policies.get Policies.list Policies.create Policies.update Policies.delete
      Policies.disable Policies.enable AuthProviders.get_email_otp AuthProviders.list_email_otp
      AuthProviders.get_oidc AuthProviders.list_oidc AuthProviders.get_google
      AuthProviders.list_google AuthProviders.get_entra AuthProviders.list_entra
      AuthProviders.get_okta AuthProviders.list_okta AuthProviders.get_github
      AuthProviders.list_github Directories.get_entra Directories.list_entra Directories.get_google
      Directories.list_google Directories.get_okta Directories.list_okta should_escape_segment
  run-SentBy (sites_get _) bytes w q =
      outcome-SentBy _ _ _ _
        (unless-SentBy _ _ _ _ _ _ (client_do-SentBy env c base _ _ bytes _ _ _ _ _ refl q) q)
  run-SentBy (sites_list _) bytes w q =
      outcome-SentBy _ _ _ _
        (do_list-SentBy env c base _ _ bytes _ _ _ _ (build_path_plain _ refl) q)
  run-SentBy (sites_create _) bytes w q = outcome-SentBy _ _ _ _ (
      with_body-SentBy _ _ _ _ _ _
        (λ body. client_do-SentBy env c base _ _ bytes _ _ _ _ _ (build_path_plain _ refl) q) q)
  run-SentBy (sites_update _ _) bytes w q = outcome-SentBy _ _ _ _ (
      unless-SentBy _ _ _ _ _ _
        (with_body-SentBy _ _ _ _ _ _
          (λ body. client_do-SentBy env c base _ _ bytes _ _ _ _ _ refl q) q)
        q)
  run-SentBy (sites_delete _) bytes w q =
      outcome-SentBy _ _ _ _
        (unless-SentBy _ _ _ _ _ _ (client_do-SentBy env c base _ _ bytes _ _ _ _ _ refl q) q)
  run-SentBy (gateways_get _ _) bytes w q = outcome-SentBy _ _ _ _ (
      unless-SentBy _ _ _ _ _ _
        (unless-SentBy _ _ _ _ _ _ (client_do-SentBy env c base _ _ bytes _ _ _ _ _ refl q) q) q)
  run-SentBy (gateways_list _ _) bytes w q =
      outcome-SentBy _ _ _ _
        (unless-SentBy _ _ _ _ _ _ (do_list-SentBy env c base _ _ bytes _ _ _ _ refl q) q)
  run-SentBy (gateways_provision _ _) bytes w q = outcome-SentBy _ _ _ _ (
      unless-SentBy _ _ _ _ _ _
        (with_body-SentBy _ _ _ _ _ _
          (λ body. client_do-SentBy env c base _ _ bytes _ _ _ _ _ refl q) q)
        q)
  run-SentBy (gateways_update _ _ _) bytes w q = outcome-SentBy _ _ _ _ (
      unless-SentBy _ _ _ _ _ _
        (unless-SentBy _ _ _ _ _ _
          (with_body-SentBy _ _ _ _ _ _
            (λ body. client_do-SentBy env c base _ _ bytes _ _ _ _ _ refl q) q)
          q)
        q)
  run-SentBy (gateways_rotate_token _ _) bytes w q = outcome-SentBy _ _ _ _ (
      unless-SentBy _ _ _ _ _ _
        (unless-SentBy _ _ _ _ _ _ (client_do-SentBy env c base _ _ bytes _ _ _ _ _ refl q) q) q)
  run-SentBy (gateways_delete _ _) bytes w q = outcome-SentBy _ _ _ _ (
      unless-SentBy _ _ _ _ _ _
        (unless-SentBy _ _ _ _ _ _ (client_do-SentBy env c base _ _ bytes _ _ _ _ _ refl q) q) q)
  run-SentBy (groups_get _) bytes w q =
      outcome-SentBy _ _ _ _
        (unless-SentBy _ _ _ _ _ _ (client_do-SentBy env c base _ _ bytes _ _ _ _ _ refl q) q)
  run-SentBy (groups_list _) bytes w q =
      outcome-SentBy _ _ _ _
        (do_list-SentBy env c base _ _ bytes _ _ _ _ (build_path_plain _ refl) q)
  run-SentBy (groups_create _) bytes w q = outcome-SentBy _ _ _ _ (
      with_body-SentBy _ _ _ _ _ _
        (λ body. client_do-SentBy env c base _ _ bytes _ _ _ _ _ (build_path_plain _ refl) q) q)
  run-SentBy (groups_update _ _) bytes w q = outcome-SentBy _ _ _ _ (
      unless-SentBy _ _ _ _ _ _
        (with_body-SentBy _ _ _ _ _ _
          (λ body. client_do-SentBy env c base _ _ bytes _ _ _ _ _ refl q) q)
        q)
  run-SentBy (groups_delete _) bytes w q =
      outcome-SentBy _ _ _ _
        (unless-SentBy _ _ _ _ _ _ (client_do-SentBy env c base _ _ bytes _ _ _ _ _ refl q) q)
  run-SentBy (memberships_list _ _) bytes w q =
      outcome-SentBy _ _ _ _
        (unless-SentBy _ _ _ _ _ _ (do_list-SentBy env c base _ _ bytes _ _ _ _ refl q) q)
  run-SentBy (memberships_replace_all _ _) bytes w q = outcome-SentBy _ _ _ _ (
      unless-SentBy _ _ _ _ _ _
        (with_body-SentBy _ _ _ _ _ _
          (λ body. client_do-SentBy env c base _ _ bytes _ _ _ _ _ refl q) q)
        q)
  run-SentBy (memberships_patch _ _ _) bytes w q = outcome-SentBy _ _ _ _ (
      unless-SentBy _ _ _ _ _ _
        (with_body-SentBy _ _ _ _ _ _
          (λ body. client_do-SentBy env c base _ _ bytes _ _ _ _ _ refl q) q)
        q)
  run-SentBy (pool_members_list _ _) bytes w q =
      outcome-SentBy _ _ _ _
        (unless-SentBy _ _ _ _ _ _ (do_list-SentBy env c base _ _ bytes _ _ _ _ refl q) q)
  run-SentBy (pool_members_replace_all _ _) bytes w q = outcome-SentBy _ _ _ _ (
      unless-SentBy _ _ _ _ _ _
        (with_body-SentBy _ _ _ _ _ _
          (λ body. client_do-SentBy env c base _ _ bytes _ _ _ _ _ refl q) q)
        q)
  run-SentBy (pool_members_patch _ _ _) bytes w q = outcome-SentBy _ _ _ _ (
      unless-SentBy _ _ _ _ _ _
        (with_body-SentBy _ _ _ _ _ _
          (λ body. client_do-SentBy env c base _ _ bytes _ _ _ _ _ refl q) q)
        q)
  run-SentBy (actors_get _) bytes w q =
      outcome-SentBy _ _ _ _
        (unless-SentBy _ _ _ _ _ _ (client_do-SentBy env c base _ _ bytes _ _ _ _ _ refl q) q)
  run-SentBy (actors_list _) bytes w q =
      outcome-SentBy _ _ _ _
        (do_list-SentBy env c base _ _ bytes _ _ _ _ (build_path_plain _ refl) q)
  run-SentBy (actors_create _) bytes w q = outcome-SentBy _ _ _ _ (
      with_body-SentBy _ _ _ _ _ _
        (λ body. client_do-SentBy env c base _ _ bytes _ _ _ _ _ (build_path_plain _ refl) q) q)
  run-SentBy (actors_update _ _) bytes w q = outcome-SentBy _ _ _ _ (
      unless-SentBy _ _ _ _ _ _
        (with_body-SentBy _ _ _ _ _ _
          (λ body. client_do-SentBy env c base _ _ bytes _ _ _ _ _ refl q) q)
        q)
  run-SentBy (actors_delete _) bytes w q =
      outcome-SentBy _ _ _ _
        (unless-SentBy _ _ _ _ _ _ (client_do-SentBy env c base _ _ bytes _ _ _ _ _ refl q) q)
  run-SentBy (actors_disable _) bytes w q = outcome-SentBy _ _ _ _ (
      unless-SentBy _ _ _ _ _ _
        (unless-SentBy _ _ _ _ _ _
          (with_body-SentBy _ _ _ _ _ _
            (λ body. client_do-SentBy env c base _ _ bytes _ _ _ _ _ refl q) q)
          q)
        q)
  run-SentBy (actors_enable _) bytes w q = outcome-SentBy _ _ _ _ (
      unless-SentBy _ _ _ _ _ _
        (unless-SentBy _ _ _ _ _ _
          (with_body-SentBy _ _ _ _ _ _
            (λ body. client_do-SentBy env c base _ _ bytes _ _ _ _ _ refl q) q)
          q)
        q)
  run-SentBy (clients_get _) bytes w q =
      outcome-SentBy _ _ _ _
        (unless-SentBy _ _ _ _ _ _ (client_do-SentBy env c base _ _ bytes _ _ _ _ _ refl q) q)
  run-SentBy (clients_list _) bytes w q =
      outcome-SentBy _ _ _ _
        (do_list-SentBy env c base _ _ bytes _ _ _ _ (build_path_plain _ refl) q)
  run-SentBy (clients_update _ _) bytes w q = outcome-SentBy _ _ _ _ (
      unless-SentBy _ _ _ _ _ _
        (with_body-SentBy _ _ _ _ _ _
          (λ body. client_do-SentBy env c base _ _ bytes _ _ _ _ _ refl q) q)
        q)
  run-SentBy (clients_delete _) bytes w q =
      outcome-SentBy _ _ _ _
        (unless-SentBy _ _ _ _ _ _ (client_do-SentBy env c base _ _ bytes _ _ _ _ _ refl q) q)
  run-SentBy (clients_verify _) bytes w q =
      outcome-SentBy _ _ _ _
        (unless-SentBy _ _ _ _ _ _ (client_do-SentBy env c base _ _ bytes _ _ _ _ _ refl q) q)
  run-SentBy (clients_unverify _) bytes w q =
      outcome-SentBy _ _ _ _
        (unless-SentBy _ _ _ _ _ _ (client_do-SentBy env c base _ _ bytes _ _ _ _ _ refl q) q)
  run-SentBy (resources_get _) bytes w q =
      outcome-SentBy _ _ _ _
        (unless-SentBy _ _ _ _ _ _ (client_do-SentBy env c base _ _ bytes _ _ _ _ _ refl q) q)
  run-SentBy (resources_list _) bytes w q =
      outcome-SentBy _ _ _ _
        (do_list-SentBy env c base _ _ bytes _ _ _ _ (build_path_plain _ refl) q)
  run-SentBy (resources_create _) bytes w q = outcome-SentBy _ _ _ _ (
      with_body-SentBy _ _ _ _ _ _
        (λ body. client_do-SentBy env c base _ _ bytes _ _ _ _ _ (build_path_plain _ refl) q) q)
  run-SentBy (resources_update _ _) bytes w q = outcome-SentBy _ _ _ _ (
      unless-SentBy _ _ _ _ _ _
        (with_body-SentBy _ _ _ _ _ _
          (λ body. client_do-SentBy env c base _ _ bytes _ _ _ _ _ refl q) q)
        q)
  run-SentBy (resources_delete _) bytes w q =
      outcome-SentBy _ _ _ _
        (unless-SentBy _ _ _ _ _ _ (client_do-SentBy env c base _ _ bytes _ _ _ _ _ refl q) q)
  run-SentBy (policies_get _) bytes w q =
      outcome-SentBy _ _ _ _
        (unless-SentBy _ _ _ _ _ _ (client_do-SentBy env c base _ _ bytes _ _ _ _ _ refl q) q)
  run-SentBy (policies_list _) bytes w q =
      outcome-SentBy _ _ _ _
        (do_list-SentBy env c base _ _ bytes _ _ _ _ (build_path_plain _ refl) q)
  run-SentBy (policies_create _) bytes w q = outcome-SentBy _ _ _ _ (
      with_body-SentBy _ _ _ _ _ _
        (λ body. client_do-SentBy env c base _ _ bytes _ _ _ _ _ (build_path_plain _ refl) q) q)
  run-SentBy (policies_update _ _) bytes w q = outcome-SentBy _ _ _ _ (
      unless-SentBy _ _ _ _ _ _
        (with_body-SentBy _ _ _ _ _ _
          (λ body. client_do-SentBy env c base _ _ bytes _ _ _ _ _ refl q) q)
        q)
  run-SentBy (policies_delete _) bytes w q =
      outcome-SentBy _ _ _ _
        (unless-SentBy _ _ _ _ _ _ (client_do-SentBy env c base _ _ bytes _ _ _ _ _ refl q) q)
  run-SentBy (policies_disable _) bytes w q = outcome-SentBy _ _ _ _ (
      unless-SentBy _ _ _ _ _ _
        (unless-SentBy _ _ _ _ _ _
          (with_body-SentBy _ _ _ _ _ _
            (λ body. client_do-SentBy env c base _ _ bytes _ _ _ _ _ refl q) q)
          q)
        q)
  run-SentBy (policies_enable _) bytes w q = outcome-SentBy _ _ _ _ (
      unless-SentBy _ _ _ _ _ _
        (unless-SentBy _ _ _ _ _ _
          (with_body-SentBy _ _ _ _ _ _
            (λ body. client_do-SentBy env c base _ _ bytes _ _ _ _ _ refl q) q)
          q)
        q)
  run-SentBy (email_otp_auth_providers_get _) bytes w q =
      outcome-SentBy _ _ _ _
        (unless-SentBy _ _ _ _ _ _ (client_do-SentBy env c base _ _ bytes _ _ _ _ _ refl q) q)
  run-SentBy (email_otp_auth_providers_list _) bytes w q =
      outcome-SentBy _ _ _ _
        (do_list-SentBy env c base _ _ bytes _ _ _ _ (build_path_plain _ refl) q)
  run-SentBy (oidc_auth_providers_get _) bytes w q =
      outcome-SentBy _ _ _ _
        (unless-SentBy _ _ _ _ _ _ (client_do-SentBy env c base _ _ bytes _ _ _ _ _ refl q) q)
  run-SentBy (oidc_auth_providers_list _) bytes w q =
      outcome-SentBy _ _ _ _
        (do_list-SentBy env c base _ _ bytes _ _ _ _ (build_path_plain _ refl) q)
  run-SentBy (google_auth_providers_get _) bytes w q =
      outcome-SentBy _ _ _ _
        (unless-SentBy _ _ _ _ _ _ (client_do-SentBy env c base _ _ bytes _ _ _ _ _ refl q) q)
  run-SentBy (google_auth_providers_list _) bytes w q =
      outcome-SentBy _ _ _ _
        (do_list-SentBy env c base _ _ bytes _ _ _ _ (build_path_plain _ refl) q)
  run-SentBy (entra_auth_providers_get _) bytes w q =
      outcome-SentBy _ _ _ _
        (unless-SentBy _ _ _ _ _ _ (client_do-SentBy env c base _ _ bytes _ _ _ _ _ refl q) q)
  run-SentBy (entra_auth_providers_list _) bytes w q =
      outcome-SentBy _ _ _ _
        (do_list-SentBy env c base _ _ bytes _ _ _ _ (build_path_plain _ refl) q)
  run-SentBy (okta_auth_providers_get _) bytes w q =
      outcome-SentBy _ _ _ _
        (unless-SentBy _ _ _ _ _ _ (client_do-SentBy env c base _ _ bytes _ _ _ _ _ refl q) q)
  run-SentBy (okta_auth_providers_list _) bytes w q =
      outcome-SentBy _ _ _ _
        (do_list-SentBy env c base _ _ bytes _ _ _ _ (build_path_plain _ refl) q)
  run-SentBy (github_auth_providers_get _) bytes w q =
      outcome-SentBy _ _ _ _
        (unless-SentBy _ _ _ _ _ _ (client_do-SentBy env c base _ _ bytes _ _ _ _ _ refl q) q)
  run-SentBy (github_auth_providers_list _) bytes w q =
      outcome-SentBy _ _ _ _
        (do_list-SentBy env c base _ _ bytes _ _ _ _ (build_path_plain _ refl) q)
  run-SentBy (entra_directories_get _) bytes w q =
      outcome-SentBy _ _ _ _
        (unless-SentBy _ _ _ _ _ _ (client_do-SentBy env c base _ _ bytes _ _ _ _ _ refl q) q)
  run-SentBy (entra_directories_list _) bytes w q =
      outcome-SentBy _ _ _ _
        (do_list-SentBy env c base _ _ bytes _ _ _ _ (build_path_plain _ refl) q)
  run-SentBy (google_directories_get _) bytes w q =
      outcome-SentBy _ _ _ _
        (unless-SentBy _ _ _ _ _ _ (client_do-SentBy env c base _ _ bytes _ _ _ _ _ refl q) q)
  run-SentBy (google_directories_list _) bytes w q =
      outcome-SentBy _ _ _ _
        (do_list-SentBy env c base _ _ bytes _ _ _ _ (build_path_plain _ refl) q)
  run-SentBy (okta_directories_get _) bytes w q =
      outcome-SentBy _ _ _ _
        (unless-SentBy _ _ _ _ _ _ (client_do-SentBy env c base _ _ bytes _ _ _ _ _ refl q) q)
  run-SentBy (okta_directories_list _) bytes w q =
      outcome-SentBy _ _ _ _
        (do_list-SentBy env c base _ _ bytes _ _ _ _ (build_path_plain _ refl) q)

  -- Whatever the network answers, every request that an operation sends, retries included, has the
  -- method of its route, goes to the scheme and host of the base URL, and has as its path the
  -- base's path and the route's segments, each escaped as one segment; it carries the client's
  -- token as a bearer and its user agent, and is bounded by the client's timeout. The base's path
  -- and the segments are texts of bytes.
  pub run-IsTo :
      (op : Op) (w : W)
      → All IsBytes (segments op)
      → All (IsTo c (verb op) (build_path (segments op))) (run (logged env) c op (w, [])).1.1
  run-IsTo op w bytes =
      let sent_by = run-SentBy op bytes (w, []) (unfold SentTo in tt) in
      unfold SentBy in unfold SentTo in sent_by
