-- ===== src/Services/Routes/Answers.antt =====
-- Operations that report success, and what they have sent.
use firezone_sdk_go.Common.{ℕ, pos, ◌≡◌, refl, true, none, [], All, IsBytes}
use firezone_sdk_go.Client.{Client}
use firezone_sdk_go.Env.{Env}
use firezone_sdk_go.Path.Segments.{build_path_plain}
use firezone_sdk_go.Retry.Trace.{logged}
use firezone_sdk_go.Services.Answers.{
  has_request, outcome-FailsOrSent, unless-FailsOrSent, with_body-FailsOrSent,
  client_do-FailsOrSent, do_list-FailsOrSent,
}
use firezone_sdk_go.Services.Routes.{
  Op, run, sites_get, sites_list, sites_create, sites_update, sites_delete, gateways_get,
  gateways_list, gateways_provision, gateways_update, gateways_rotate_token, gateways_delete,
  groups_get, groups_list, groups_create, groups_update, groups_delete, memberships_list,
  memberships_replace_all, memberships_patch, pool_members_list, pool_members_replace_all,
  pool_members_patch, actors_get, actors_list, actors_create, actors_update, actors_delete,
  actors_disable, actors_enable, clients_get, clients_list, clients_update, clients_delete,
  clients_verify, clients_unverify, resources_get, resources_list, resources_create,
  resources_update, resources_delete, policies_get, policies_list, policies_create, policies_update,
  policies_delete, policies_disable, policies_enable, email_otp_auth_providers_get,
  email_otp_auth_providers_list, oidc_auth_providers_get, oidc_auth_providers_list,
  google_auth_providers_get, google_auth_providers_list, entra_auth_providers_get,
  entra_auth_providers_list, okta_auth_providers_get, okta_auth_providers_list,
  github_auth_providers_get, github_auth_providers_list, entra_directories_get,
  entra_directories_list, google_directories_get, google_directories_list, okta_directories_get,
  okta_directories_list,
}
use firezone_sdk_go.Services.Routes.Table.{segments}
use firezone_sdk_go.Url.{Url, should_escape_segment}
use firezone_sdk_go.Services.Actors
use firezone_sdk_go.Services.AuthProviders.Reads as AuthProviders
use firezone_sdk_go.Services.Clients
use firezone_sdk_go.Services.Directories.Reads as Directories
use firezone_sdk_go.Services.Gateways
use firezone_sdk_go.Services.Groups
use firezone_sdk_go.Services.Memberships
use firezone_sdk_go.Services.Policies
use firezone_sdk_go.Services.PoolMembers
use firezone_sdk_go.Services.Resources
use firezone_sdk_go.Services.Sites

module _ {W : Type 0} (env : Env W) (c : Client) (base : IsBytes c.base_url.path)
    (accepts : (u : Url) → env.accepts u ≡ true) (budget : ℕ) (m : c.max_retries ≡ pos budget) where
  -- Where the base's path and the segments of the route are texts of bytes, every URL is accepted
  -- and the retry budget is not negative, an operation that succeeds has sent at least one
  -- request.
  pub run-sends :
      (op : Op) (w : W)
      → All IsBytes (segments op)
      → (run (logged env) c op (w, [])).0 ≡ none
      → has_request (run (logged env) c op (w, [])).1.1 ≡ true
  unfolding run Sites.get Sites.list Sites.create Sites.update Sites.delete Gateways.get
      Gateways.list Gateways.provision Gateways.update Gateways.rotate_token Gateways.delete
      Groups.get Groups.list Groups.create Groups.update Groups.delete Memberships.list
      Memberships.replace_all Memberships.patch PoolMembers.list PoolMembers.replace_all
      PoolMembers.patch Actors.get Actors.list Actors.create Actors.update Actors.delete
      Actors.disable Actors.enable Clients.get Clients.list Clients.update Clients.delete
      Clients.verify Clients.unverify Resources.get Resources.list Resources.create Resources.update
      Resources.delete Policies.get Policies.list Policies.create Policies.update Policies.delete
      Policies.disable Policies.enable AuthProviders.get_email_otp AuthProviders.list_email_otp
      AuthProviders.get_oidc AuthProviders.list_oidc AuthProviders.get_google
      AuthProviders.list_google AuthProviders.get_entra AuthProviders.list_entra
      AuthProviders.get_okta AuthProviders.list_okta AuthProviders.get_github
      AuthProviders.list_github Directories.get_entra Directories.list_entra Directories.get_google
      Directories.list_google Directories.get_okta Directories.list_okta should_escape_segment
  run-sends (sites_get _) w bytes = outcome-FailsOrSent _ (
      unless-FailsOrSent _ _ _
        (client_do-FailsOrSent env c base accepts budget m _ bytes _ _ _ _ _ _ refl))
  run-sends (sites_list _) w bytes =
      outcome-FailsOrSent _ (
        do_list-FailsOrSent env c base accepts budget m _ bytes _ _ _ _ _ (build_path_plain _ refl))
  run-sends (sites_create _) w bytes = outcome-FailsOrSent _ (
      with_body-FailsOrSent _ _ _ (λ body.
        client_do-FailsOrSent env c base accepts budget m _ bytes _ _ _ _ _ _
          (build_path_plain _ refl)))
  run-sends (sites_update _ _) w bytes = outcome-FailsOrSent _ (
      unless-FailsOrSent _ _ _ (
        with_body-FailsOrSent _ _ _
          (λ body. client_do-FailsOrSent env c base accepts budget m _ bytes _ _ _ _ _ _ refl)))
  run-sends (sites_delete _) w bytes = outcome-FailsOrSent _ (
      unless-FailsOrSent _ _ _
        (client_do-FailsOrSent env c base accepts budget m _ bytes _ _ _ _ _ _ refl))
  run-sends (gateways_get _ _) w bytes = outcome-FailsOrSent _ (
      unless-FailsOrSent _ _ _ (
        unless-FailsOrSent _ _ _
          (client_do-FailsOrSent env c base accepts budget m _ bytes _ _ _ _ _ _ refl)))
  run-sends (gateways_list _ _) w bytes = outcome-FailsOrSent _ (
      unless-FailsOrSent _ _ _
        (do_list-FailsOrSent env c base accepts budget m _ bytes _ _ _ _ _ refl))
  run-sends (gateways_provision _ _) w bytes = outcome-FailsOrSent _ (
      unless-FailsOrSent _ _ _ (
        with_body-FailsOrSent _ _ _
          (λ body. client_do-FailsOrSent env c base accepts budget m _ bytes _ _ _ _ _ _ refl)))
  run-sends (gateways_update _ _ _) w bytes = outcome-FailsOrSent _ (
      unless-FailsOrSent _ _ _ (
        unless-FailsOrSent _ _ _ (
          with_body-FailsOrSent _ _ _
            (λ body. client_do-FailsOrSent env c base accepts budget m _ bytes _ _ _ _ _ _ refl))))
  run-sends (gateways_rotate_token _ _) w bytes = outcome-FailsOrSent _ (
      unless-FailsOrSent _ _ _ (
        unless-FailsOrSent _ _ _
          (client_do-FailsOrSent env c base accepts budget m _ bytes _ _ _ _ _ _ refl)))
  run-sends (gateways_delete _ _) w bytes = outcome-FailsOrSent _ (
      unless-FailsOrSent _ _ _ (
        unless-FailsOrSent _ _ _
          (client_do-FailsOrSent env c base accepts budget m _ bytes _ _ _ _ _ _ refl)))
  run-sends (groups_get _) w bytes = outcome-FailsOrSent _ (
      unless-FailsOrSent _ _ _
        (client_do-FailsOrSent env c base accepts budget m _ bytes _ _ _ _ _ _ refl))
  run-sends (groups_list _) w bytes =
      outcome-FailsOrSent _ (
        do_list-FailsOrSent env c base accepts budget m _ bytes _ _ _ _ _ (build_path_plain _ refl))
  run-sends (groups_create _) w bytes = outcome-FailsOrSent _ (
      with_body-FailsOrSent _ _ _ (λ body.
        client_do-FailsOrSent env c base accepts budget m _ bytes _ _ _ _ _ _
          (build_path_plain _ refl)))
  run-sends (groups_update _ _) w bytes = outcome-FailsOrSent _ (
      unless-FailsOrSent _ _ _ (
        with_body-FailsOrSent _ _ _
          (λ body. client_do-FailsOrSent env c base accepts budget m _ bytes _ _ _ _ _ _ refl)))
  run-sends (groups_delete _) w bytes = outcome-FailsOrSent _ (
      unless-FailsOrSent _ _ _
        (client_do-FailsOrSent env c base accepts budget m _ bytes _ _ _ _ _ _ refl))
  run-sends (memberships_list _ _) w bytes = outcome-FailsOrSent _ (
      unless-FailsOrSent _ _ _
        (do_list-FailsOrSent env c base accepts budget m _ bytes _ _ _ _ _ refl))
  run-sends (memberships_replace_all _ _) w bytes = outcome-FailsOrSent _ (
      unless-FailsOrSent _ _ _ (
        with_body-FailsOrSent _ _ _
          (λ body. client_do-FailsOrSent env c base accepts budget m _ bytes _ _ _ _ _ _ refl)))
  run-sends (memberships_patch _ _ _) w bytes = outcome-FailsOrSent _ (
      unless-FailsOrSent _ _ _ (
        with_body-FailsOrSent _ _ _
          (λ body. client_do-FailsOrSent env c base accepts budget m _ bytes _ _ _ _ _ _ refl)))
  run-sends (pool_members_list _ _) w bytes = outcome-FailsOrSent _ (
      unless-FailsOrSent _ _ _
        (do_list-FailsOrSent env c base accepts budget m _ bytes _ _ _ _ _ refl))
  run-sends (pool_members_replace_all _ _) w bytes = outcome-FailsOrSent _ (
      unless-FailsOrSent _ _ _ (
        with_body-FailsOrSent _ _ _
          (λ body. client_do-FailsOrSent env c base accepts budget m _ bytes _ _ _ _ _ _ refl)))
  run-sends (pool_members_patch _ _ _) w bytes = outcome-FailsOrSent _ (
      unless-FailsOrSent _ _ _ (
        with_body-FailsOrSent _ _ _
          (λ body. client_do-FailsOrSent env c base accepts budget m _ bytes _ _ _ _ _ _ refl)))
  run-sends (actors_get _) w bytes = outcome-FailsOrSent _ (
      unless-FailsOrSent _ _ _
        (client_do-FailsOrSent env c base accepts budget m _ bytes _ _ _ _ _ _ refl))
  run-sends (actors_list _) w bytes =
      outcome-FailsOrSent _ (
        do_list-FailsOrSent env c base accepts budget m _ bytes _ _ _ _ _ (build_path_plain _ refl))
  run-sends (actors_create _) w bytes = outcome-FailsOrSent _ (
      with_body-FailsOrSent _ _ _ (λ body.
        client_do-FailsOrSent env c base accepts budget m _ bytes _ _ _ _ _ _
          (build_path_plain _ refl)))
  run-sends (actors_update _ _) w bytes = outcome-FailsOrSent _ (
      unless-FailsOrSent _ _ _ (
        with_body-FailsOrSent _ _ _
          (λ body. client_do-FailsOrSent env c base accepts budget m _ bytes _ _ _ _ _ _ refl)))
  run-sends (actors_delete _) w bytes = outcome-FailsOrSent _ (
      unless-FailsOrSent _ _ _
        (client_do-FailsOrSent env c base accepts budget m _ bytes _ _ _ _ _ _ refl))
  run-sends (actors_disable _) w bytes = outcome-FailsOrSent _ (
      unless-FailsOrSent _ _ _ (
        unless-FailsOrSent _ _ _ (
          with_body-FailsOrSent _ _ _
            (λ body. client_do-FailsOrSent env c base accepts budget m _ bytes _ _ _ _ _ _ refl))))
  run-sends (actors_enable _) w bytes = outcome-FailsOrSent _ (
      unless-FailsOrSent _ _ _ (
        unless-FailsOrSent _ _ _ (
          with_body-FailsOrSent _ _ _
            (λ body. client_do-FailsOrSent env c base accepts budget m _ bytes _ _ _ _ _ _ refl))))
  run-sends (clients_get _) w bytes = outcome-FailsOrSent _ (
      unless-FailsOrSent _ _ _
        (client_do-FailsOrSent env c base accepts budget m _ bytes _ _ _ _ _ _ refl))
  run-sends (clients_list _) w bytes =
      outcome-FailsOrSent _ (
        do_list-FailsOrSent env c base accepts budget m _ bytes _ _ _ _ _ (build_path_plain _ refl))
  run-sends (clients_update _ _) w bytes = outcome-FailsOrSent _ (
      unless-FailsOrSent _ _ _ (
        with_body-FailsOrSent _ _ _
          (λ body. client_do-FailsOrSent env c base accepts budget m _ bytes _ _ _ _ _ _ refl)))
  run-sends (clients_delete _) w bytes = outcome-FailsOrSent _ (
      unless-FailsOrSent _ _ _
        (client_do-FailsOrSent env c base accepts budget m _ bytes _ _ _ _ _ _ refl))
  run-sends (clients_verify _) w bytes = outcome-FailsOrSent _ (
      unless-FailsOrSent _ _ _
        (client_do-FailsOrSent env c base accepts budget m _ bytes _ _ _ _ _ _ refl))
  run-sends (clients_unverify _) w bytes = outcome-FailsOrSent _ (
      unless-FailsOrSent _ _ _
        (client_do-FailsOrSent env c base accepts budget m _ bytes _ _ _ _ _ _ refl))
  run-sends (resources_get _) w bytes = outcome-FailsOrSent _ (
      unless-FailsOrSent _ _ _
        (client_do-FailsOrSent env c base accepts budget m _ bytes _ _ _ _ _ _ refl))
  run-sends (resources_list _) w bytes =
      outcome-FailsOrSent _ (
        do_list-FailsOrSent env c base accepts budget m _ bytes _ _ _ _ _ (build_path_plain _ refl))
  run-sends (resources_create _) w bytes = outcome-FailsOrSent _ (
      with_body-FailsOrSent _ _ _ (λ body.
        client_do-FailsOrSent env c base accepts budget m _ bytes _ _ _ _ _ _
          (build_path_plain _ refl)))
  run-sends (resources_update _ _) w bytes = outcome-FailsOrSent _ (
      unless-FailsOrSent _ _ _ (
        with_body-FailsOrSent _ _ _
          (λ body. client_do-FailsOrSent env c base accepts budget m _ bytes _ _ _ _ _ _ refl)))
  run-sends (resources_delete _) w bytes = outcome-FailsOrSent _ (
      unless-FailsOrSent _ _ _
        (client_do-FailsOrSent env c base accepts budget m _ bytes _ _ _ _ _ _ refl))
  run-sends (policies_get _) w bytes = outcome-FailsOrSent _ (
      unless-FailsOrSent _ _ _
        (client_do-FailsOrSent env c base accepts budget m _ bytes _ _ _ _ _ _ refl))
  run-sends (policies_list _) w bytes =
      outcome-FailsOrSent _ (
        do_list-FailsOrSent env c base accepts budget m _ bytes _ _ _ _ _ (build_path_plain _ refl))
  run-sends (policies_create _) w bytes = outcome-FailsOrSent _ (
      with_body-FailsOrSent _ _ _ (λ body.
        client_do-FailsOrSent env c base accepts budget m _ bytes _ _ _ _ _ _
          (build_path_plain _ refl)))
  run-sends (policies_update _ _) w bytes = outcome-FailsOrSent _ (
      unless-FailsOrSent _ _ _ (
        with_body-FailsOrSent _ _ _
          (λ body. client_do-FailsOrSent env c base accepts budget m _ bytes _ _ _ _ _ _ refl)))
  run-sends (policies_delete _) w bytes = outcome-FailsOrSent _ (
      unless-FailsOrSent _ _ _
        (client_do-FailsOrSent env c base accepts budget m _ bytes _ _ _ _ _ _ refl))
  run-sends (policies_disable _) w bytes = outcome-FailsOrSent _ (
      unless-FailsOrSent _ _ _ (
        unless-FailsOrSent _ _ _ (
          with_body-FailsOrSent _ _ _
            (λ body. client_do-FailsOrSent env c base accepts budget m _ bytes _ _ _ _ _ _ refl))))
  run-sends (policies_enable _) w bytes = outcome-FailsOrSent _ (
      unless-FailsOrSent _ _ _ (
        unless-FailsOrSent _ _ _ (
          with_body-FailsOrSent _ _ _
            (λ body. client_do-FailsOrSent env c base accepts budget m _ bytes _ _ _ _ _ _ refl))))
  run-sends (email_otp_auth_providers_get _) w bytes = outcome-FailsOrSent _ (
      unless-FailsOrSent _ _ _
        (client_do-FailsOrSent env c base accepts budget m _ bytes _ _ _ _ _ _ refl))
  run-sends (email_otp_auth_providers_list _) w bytes =
      outcome-FailsOrSent _ (
        do_list-FailsOrSent env c base accepts budget m _ bytes _ _ _ _ _ (build_path_plain _ refl))
  run-sends (oidc_auth_providers_get _) w bytes = outcome-FailsOrSent _ (
      unless-FailsOrSent _ _ _
        (client_do-FailsOrSent env c base accepts budget m _ bytes _ _ _ _ _ _ refl))
  run-sends (oidc_auth_providers_list _) w bytes =
      outcome-FailsOrSent _ (
        do_list-FailsOrSent env c base accepts budget m _ bytes _ _ _ _ _ (build_path_plain _ refl))
  run-sends (google_auth_providers_get _) w bytes = outcome-FailsOrSent _ (
      unless-FailsOrSent _ _ _
        (client_do-FailsOrSent env c base accepts budget m _ bytes _ _ _ _ _ _ refl))
  run-sends (google_auth_providers_list _) w bytes =
      outcome-FailsOrSent _ (
        do_list-FailsOrSent env c base accepts budget m _ bytes _ _ _ _ _ (build_path_plain _ refl))
  run-sends (entra_auth_providers_get _) w bytes = outcome-FailsOrSent _ (
      unless-FailsOrSent _ _ _
        (client_do-FailsOrSent env c base accepts budget m _ bytes _ _ _ _ _ _ refl))
  run-sends (entra_auth_providers_list _) w bytes =
      outcome-FailsOrSent _ (
        do_list-FailsOrSent env c base accepts budget m _ bytes _ _ _ _ _ (build_path_plain _ refl))
  run-sends (okta_auth_providers_get _) w bytes = outcome-FailsOrSent _ (
      unless-FailsOrSent _ _ _
        (client_do-FailsOrSent env c base accepts budget m _ bytes _ _ _ _ _ _ refl))
  run-sends (okta_auth_providers_list _) w bytes =
      outcome-FailsOrSent _ (
        do_list-FailsOrSent env c base accepts budget m _ bytes _ _ _ _ _ (build_path_plain _ refl))
  run-sends (github_auth_providers_get _) w bytes = outcome-FailsOrSent _ (
      unless-FailsOrSent _ _ _
        (client_do-FailsOrSent env c base accepts budget m _ bytes _ _ _ _ _ _ refl))
  run-sends (github_auth_providers_list _) w bytes =
      outcome-FailsOrSent _ (
        do_list-FailsOrSent env c base accepts budget m _ bytes _ _ _ _ _ (build_path_plain _ refl))
  run-sends (entra_directories_get _) w bytes = outcome-FailsOrSent _ (
      unless-FailsOrSent _ _ _
        (client_do-FailsOrSent env c base accepts budget m _ bytes _ _ _ _ _ _ refl))
  run-sends (entra_directories_list _) w bytes =
      outcome-FailsOrSent _ (
        do_list-FailsOrSent env c base accepts budget m _ bytes _ _ _ _ _ (build_path_plain _ refl))
  run-sends (google_directories_get _) w bytes = outcome-FailsOrSent _ (
      unless-FailsOrSent _ _ _
        (client_do-FailsOrSent env c base accepts budget m _ bytes _ _ _ _ _ _ refl))
  run-sends (google_directories_list _) w bytes =
      outcome-FailsOrSent _ (
        do_list-FailsOrSent env c base accepts budget m _ bytes _ _ _ _ _ (build_path_plain _ refl))
  run-sends (okta_directories_get _) w bytes = outcome-FailsOrSent _ (
      unless-FailsOrSent _ _ _
        (client_do-FailsOrSent env c base accepts budget m _ bytes _ _ _ _ _ _ refl))
  run-sends (okta_directories_list _) w bytes =
      outcome-FailsOrSent _ (
        do_list-FailsOrSent env c base accepts budget m _ bytes _ _ _ _ _ (build_path_plain _ refl))
