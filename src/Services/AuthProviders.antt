-- ===== src/Services/AuthProviders.antt =====
-- auth_providers.go: the authentication providers and the options of their lists.
pub mod Reads
use firezone_sdk_go.Common.{
  ℕ, ℤ, Bool, true, false, Option, none, some, List, [], ◌∷◌, ◌++◌, map, Bytes, codes, Assoc, put,
  is_empty, not, if◌then◌else◌,
}
use firezone_sdk_go.Api.{Page, discard, into, wrap_body, client_do, do_list, unless, with_body}
use firezone_sdk_go.Client.{Client}
use firezone_sdk_go.Env.{Env}
use firezone_sdk_go.Error.{Result, ok, err, ◌>>=◌ as ◌and_then◌}
use firezone_sdk_go.Json.{
  Json, null, bool, str, arr, obj, Fields, end, field, items_of, to_struct, keep, keep_text,
  keep_some, keep_list, ◌>>=◌,
}
use firezone_sdk_go.Null.{Null, nullable}
use firezone_sdk_go.Path.{check_id, build_path}
use firezone_sdk_go.Posture.{PostureNode, marshal, unmarshal}
use firezone_sdk_go.Query.{ListOptions, no_options, or_default, filter_query, list_options_to_query}
use firezone_sdk_go.Services.{
  text, flag, time, time_pointer, whole_pointer, texts, nullable_texts, text_value, each,
}

-- The state that every kind of provider embeds.
pub record AuthProvider : Type 0 where
  pub id : Bytes
  pub account_id : Bytes
  pub name : Bytes
  pub context : Bytes
  pub client_session_lifetime_secs : Option ℤ
  pub portal_session_lifetime_secs : Option ℤ
  pub is_disabled : Bool
  pub inserted_at : Bytes
  pub updated_at : Bytes

abbrev pub zero_auth_provider : AuthProvider
zero_auth_provider = record {
  id = [];
  account_id = [];
  name = [];
  context = [];
  client_session_lifetime_secs = none;
  portal_session_lifetime_secs = none;
  is_disabled = false;
  inserted_at = [];
  updated_at = [];
}

unfoldable pub auth_provider_members : {W : Type 0} → Env W → Fields → Option AuthProvider
auth_provider_members env fs = do
  id ← text (codes "id") fs
  account_id ← text (codes "account_id") fs
  name ← text (codes "name") fs
  context ← text (codes "context") fs
  client_session_lifetime_secs ← whole_pointer (codes "client_session_lifetime_secs") fs
  portal_session_lifetime_secs ← whole_pointer (codes "portal_session_lifetime_secs") fs
  is_disabled ← flag (codes "is_disabled") fs
  inserted_at ← time env (codes "inserted_at") fs
  updated_at ← time env (codes "updated_at") fs
  some (record {
    id = id;
    account_id = account_id;
    name = name;
    context = context;
    client_session_lifetime_secs = client_session_lifetime_secs;
    portal_session_lifetime_secs = portal_session_lifetime_secs;
    is_disabled = is_disabled;
    inserted_at = inserted_at;
    updated_at = updated_at;
  })

unfoldable pub decode_auth_provider : {W : Type 0} → Env W → Json → Option AuthProvider
unfolding auth_provider_members
decode_auth_provider env j = do fs ← to_struct j; auth_provider_members env fs

pub record EmailOtpAuthProvider : Type 0 where
  pub provider : AuthProvider
  pub issuer : Bytes

abbrev pub zero_email_otp_auth_provider : EmailOtpAuthProvider
zero_email_otp_auth_provider = record { provider = zero_auth_provider; issuer = [] }

unfoldable pub email_otp_auth_provider_members :
    {W : Type 0} → Env W → Fields → Option EmailOtpAuthProvider
email_otp_auth_provider_members env fs = do
  provider ← auth_provider_members env fs
  issuer ← text (codes "issuer") fs
  some (record { provider = provider; issuer = issuer })

unfoldable pub decode_email_otp_auth_provider :
    {W : Type 0} → Env W → Json → Option EmailOtpAuthProvider
unfolding email_otp_auth_provider_members
decode_email_otp_auth_provider env j = do fs ← to_struct j; email_otp_auth_provider_members env fs

pub record OidcAuthProvider : Type 0 where
  pub provider : AuthProvider
  pub issuer : Bytes
  pub is_default : Bool
  pub client_id : Bytes
  pub discovery_document_uri : Bytes
  pub email_verification_method : Bytes

abbrev pub zero_oidc_auth_provider : OidcAuthProvider
zero_oidc_auth_provider = record {
  provider = zero_auth_provider;
  issuer = [];
  is_default = false;
  client_id = [];
  discovery_document_uri = [];
  email_verification_method = [];
}

unfoldable pub oidc_auth_provider_members : {W : Type 0} → Env W → Fields → Option OidcAuthProvider
oidc_auth_provider_members env fs = do
  provider ← auth_provider_members env fs
  issuer ← text (codes "issuer") fs
  is_default ← flag (codes "is_default") fs
  client_id ← text (codes "client_id") fs
  discovery_document_uri ← text (codes "discovery_document_uri") fs
  email_verification_method ← text (codes "email_verification_method") fs
  some (record {
    provider = provider;
    issuer = issuer;
    is_default = is_default;
    client_id = client_id;
    discovery_document_uri = discovery_document_uri;
    email_verification_method = email_verification_method;
  })

unfoldable pub decode_oidc_auth_provider : {W : Type 0} → Env W → Json → Option OidcAuthProvider
unfolding oidc_auth_provider_members
decode_oidc_auth_provider env j = do fs ← to_struct j; oidc_auth_provider_members env fs

pub record GoogleAuthProvider : Type 0 where
  pub provider : AuthProvider
  pub workspace_domains : List Bytes
  pub issuer : Bytes
  pub is_default : Bool

abbrev pub zero_google_auth_provider : GoogleAuthProvider
zero_google_auth_provider = record {
  provider = zero_auth_provider;
  workspace_domains = [];
  issuer = [];
  is_default = false;
}

unfoldable pub google_auth_provider_members :
    {W : Type 0} → Env W → Fields → Option GoogleAuthProvider
google_auth_provider_members env fs = do
  provider ← auth_provider_members env fs
  workspace_domains ← texts (codes "workspace_domains") fs
  issuer ← text (codes "issuer") fs
  is_default ← flag (codes "is_default") fs
  some (record {
    provider = provider;
    workspace_domains = workspace_domains;
    issuer = issuer;
    is_default = is_default;
  })

unfoldable pub decode_google_auth_provider : {W : Type 0} → Env W → Json → Option GoogleAuthProvider
unfolding google_auth_provider_members
decode_google_auth_provider env j = do fs ← to_struct j; google_auth_provider_members env fs

pub record EntraAuthProvider : Type 0 where
  pub provider : AuthProvider
  pub tenant_ids : List Bytes
  pub is_default : Bool
  pub email_claim : Bytes

abbrev pub zero_entra_auth_provider : EntraAuthProvider
zero_entra_auth_provider = record {
  provider = zero_auth_provider;
  tenant_ids = [];
  is_default = false;
  email_claim = [];
}

unfoldable pub entra_auth_provider_members :
    {W : Type 0} → Env W → Fields → Option EntraAuthProvider
entra_auth_provider_members env fs = do
  provider ← auth_provider_members env fs
  tenant_ids ← texts (codes "tenant_ids") fs
  is_default ← flag (codes "is_default") fs
  email_claim ← text (codes "email_claim") fs
  some (record {
    provider = provider;
    tenant_ids = tenant_ids;
    is_default = is_default;
    email_claim = email_claim;
  })

unfoldable pub decode_entra_auth_provider : {W : Type 0} → Env W → Json → Option EntraAuthProvider
unfolding entra_auth_provider_members
decode_entra_auth_provider env j = do fs ← to_struct j; entra_auth_provider_members env fs

pub record OktaAuthProvider : Type 0 where
  pub provider : AuthProvider
  pub issuer : Bytes
  pub is_default : Bool
  pub client_id : Bytes
  pub okta_domain : Bytes

abbrev pub zero_okta_auth_provider : OktaAuthProvider
zero_okta_auth_provider = record {
  provider = zero_auth_provider;
  issuer = [];
  is_default = false;
  client_id = [];
  okta_domain = [];
}

unfoldable pub okta_auth_provider_members : {W : Type 0} → Env W → Fields → Option OktaAuthProvider
okta_auth_provider_members env fs = do
  provider ← auth_provider_members env fs
  issuer ← text (codes "issuer") fs
  is_default ← flag (codes "is_default") fs
  client_id ← text (codes "client_id") fs
  okta_domain ← text (codes "okta_domain") fs
  some (record {
    provider = provider;
    issuer = issuer;
    is_default = is_default;
    client_id = client_id;
    okta_domain = okta_domain;
  })

unfoldable pub decode_okta_auth_provider : {W : Type 0} → Env W → Json → Option OktaAuthProvider
unfolding okta_auth_provider_members
decode_okta_auth_provider env j = do fs ← to_struct j; okta_auth_provider_members env fs

pub record GithubAuthProvider : Type 0 where
  pub provider : AuthProvider
  pub issuer : Bytes
  pub is_default : Bool
  pub email_verification_method : Bytes

abbrev pub zero_github_auth_provider : GithubAuthProvider
zero_github_auth_provider = record {
  provider = zero_auth_provider;
  issuer = [];
  is_default = false;
  email_verification_method = [];
}

unfoldable pub github_auth_provider_members :
    {W : Type 0} → Env W → Fields → Option GithubAuthProvider
github_auth_provider_members env fs = do
  provider ← auth_provider_members env fs
  issuer ← text (codes "issuer") fs
  is_default ← flag (codes "is_default") fs
  email_verification_method ← text (codes "email_verification_method") fs
  some (record {
    provider = provider;
    issuer = issuer;
    is_default = is_default;
    email_verification_method = email_verification_method;
  })

unfoldable pub decode_github_auth_provider : {W : Type 0} → Env W → Json → Option GithubAuthProvider
unfolding github_auth_provider_members
decode_github_auth_provider env j = do fs ← to_struct j; github_auth_provider_members env fs

pub record AuthProviderListOptions : Type 0 where
  pub paging : ListOptions
  pub name : Bytes

abbrev pub no_auth_provider_list_options : AuthProviderListOptions
no_auth_provider_list_options = record { paging = no_options; name = [] }

unfoldable pub auth_provider_query : Option AuthProviderListOptions → Assoc
auth_provider_query opts =
    filter_query (or_default no_auth_provider_list_options opts).paging
      ((codes "name", (or_default no_auth_provider_list_options opts).name) ∷ [])
