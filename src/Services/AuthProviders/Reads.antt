-- ===== src/Services/AuthProviders/Reads.antt =====
-- auth_providers.go: the six services that read authentication providers.
use firezone_sdk_go.Common.{Option, none, [], ◌∷◌, Bytes, codes}
use firezone_sdk_go.Api.{Page, into, client_do, do_list, unless}
use firezone_sdk_go.Client.{Client}
use firezone_sdk_go.Env.{Env}
use firezone_sdk_go.Error.{Result}
use firezone_sdk_go.Path.{check_id, build_path}
use firezone_sdk_go.Services.AuthProviders.{
  AuthProviderListOptions, auth_provider_query, EmailOtpAuthProvider, zero_email_otp_auth_provider,
  decode_email_otp_auth_provider, OidcAuthProvider, zero_oidc_auth_provider,
  decode_oidc_auth_provider, GoogleAuthProvider, zero_google_auth_provider,
  decode_google_auth_provider, EntraAuthProvider, zero_entra_auth_provider,
  decode_entra_auth_provider, OktaAuthProvider, zero_okta_auth_provider, decode_okta_auth_provider,
  GithubAuthProvider, zero_github_auth_provider, decode_github_auth_provider,
}

module _ {W : Type 0} (env : Env W) where
  unfoldable pub get_email_otp : Client → Bytes → W → Result EmailOtpAuthProvider × W
  get_email_otp c id w =
      unless (check_id (codes "auth provider ID") id)
        (client_do env c (codes "GET") (build_path (codes "email_otp_auth_providers" ∷ id ∷ []))
          none none (into zero_email_otp_auth_provider (decode_email_otp_auth_provider env)))
        w

  unfoldable pub list_email_otp :
      Client → Option AuthProviderListOptions → W → Result (Page EmailOtpAuthProvider) × W
  list_email_otp c opts w =
      do_list env c (codes "GET") (codes "email_otp_auth_providers") (auth_provider_query opts)
        (decode_email_otp_auth_provider env) w

  unfoldable pub get_oidc : Client → Bytes → W → Result OidcAuthProvider × W
  get_oidc c id w =
      unless (check_id (codes "auth provider ID") id)
        (client_do env c (codes "GET") (build_path (codes "oidc_auth_providers" ∷ id ∷ [])) none
          none (into zero_oidc_auth_provider (decode_oidc_auth_provider env)))
        w

  unfoldable pub list_oidc :
      Client → Option AuthProviderListOptions → W → Result (Page OidcAuthProvider) × W
  list_oidc c opts w =
      do_list env c (codes "GET") (codes "oidc_auth_providers") (auth_provider_query opts)
        (decode_oidc_auth_provider env) w

  unfoldable pub get_google : Client → Bytes → W → Result GoogleAuthProvider × W
  get_google c id w =
      unless (check_id (codes "auth provider ID") id)
        (client_do env c (codes "GET") (build_path (codes "google_auth_providers" ∷ id ∷ [])) none
          none (into zero_google_auth_provider (decode_google_auth_provider env)))
        w

  unfoldable pub list_google :
      Client → Option AuthProviderListOptions → W → Result (Page GoogleAuthProvider) × W
  list_google c opts w =
      do_list env c (codes "GET") (codes "google_auth_providers") (auth_provider_query opts)
        (decode_google_auth_provider env) w

  unfoldable pub get_entra : Client → Bytes → W → Result EntraAuthProvider × W
  get_entra c id w =
      unless (check_id (codes "auth provider ID") id)
        (client_do env c (codes "GET") (build_path (codes "entra_auth_providers" ∷ id ∷ [])) none
          none (into zero_entra_auth_provider (decode_entra_auth_provider env)))
        w

  unfoldable pub list_entra :
      Client → Option AuthProviderListOptions → W → Result (Page EntraAuthProvider) × W
  list_entra c opts w =
      do_list env c (codes "GET") (codes "entra_auth_providers") (auth_provider_query opts)
        (decode_entra_auth_provider env) w

  unfoldable pub get_okta : Client → Bytes → W → Result OktaAuthProvider × W
  get_okta c id w =
      unless (check_id (codes "auth provider ID") id)
        (client_do env c (codes "GET") (build_path (codes "okta_auth_providers" ∷ id ∷ [])) none
          none (into zero_okta_auth_provider (decode_okta_auth_provider env)))
        w

  unfoldable pub list_okta :
      Client → Option AuthProviderListOptions → W → Result (Page OktaAuthProvider) × W
  list_okta c opts w =
      do_list env c (codes "GET") (codes "okta_auth_providers") (auth_provider_query opts)
        (decode_okta_auth_provider env) w

  unfoldable pub get_github : Client → Bytes → W → Result GithubAuthProvider × W
  get_github c id w =
      unless (check_id (codes "auth provider ID") id)
        (client_do env c (codes "GET") (build_path (codes "github_auth_providers" ∷ id ∷ [])) none
          none (into zero_github_auth_provider (decode_github_auth_provider env)))
        w

  unfoldable pub list_github :
      Client → Option AuthProviderListOptions → W → Result (Page GithubAuthProvider) × W
  list_github c opts w =
      do_list env c (codes "GET") (codes "github_auth_providers") (auth_provider_query opts)
        (decode_github_auth_provider env) w
