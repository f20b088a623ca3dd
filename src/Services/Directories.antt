-- ===== src/Services/Directories.antt =====
-- directories.go: the directories and the options of their lists.
pub mod Reads
use firezone_sdk_go.Common.{
  ℕ, ℤ, Bool, true, false, Option, none, some, List, [], ◌∷◌, ◌++◌, map, Bytes, codes, Assoc, put,
  is_empty, not, if◌then◌else◌,
}
use firezone_sdk_go.Api.{Page, discard, into, wrap_body, client_do, do_list, unless, with_body}
use firezone_sdk_go.Client.{Client}
use firezone_sdk_go.Env.{Env}
use firezone_sdk_go.Error.{Result, ok, err, ◌>>=◌ as ◌and_then◌}
use firezone_sdk_go.Json.{
  Json, null, bool, str, arr, obj, Fields, end, field, items_of, to_struct, keep, keep_text,
  keep_some, keep_list, ◌>>=◌,
}
use firezone_sdk_go.Null.{Null, nullable}
use firezone_sdk_go.Path.{check_id, build_path}
use firezone_sdk_go.Posture.{PostureNode, marshal, unmarshal}
use firezone_sdk_go.Query.{ListOptions, no_options, or_default, filter_query, list_options_to_query}
use firezone_sdk_go.Services.{
  text, flag, time, time_pointer, whole_pointer, texts, nullable_texts, text_value, each,
}

pub record EntraDirectory : Type 0 where
  pub id : Bytes
  pub account_id : Bytes
  pub name : Bytes
  pub tenant_id : Bytes
  pub is_disabled : Bool
  pub disabled_reason : Bytes
  pub synced_at : Option Bytes
  pub error_message : Bytes
  pub errored_at : Option Bytes
  pub email_field : Bytes
  pub sync_all_groups : Bool
  pub inserted_at : Bytes
  pub updated_at : Bytes

abbrev pub zero_entra_directory : EntraDirectory
zero_entra_directory = record {
  id = [];
  account_id = [];
  name = [];
  tenant_id = [];
  is_disabled = false;
  disabled_reason = [];
  synced_at = none;
  error_message = [];
  errored_at = none;
  email_field = [];
  sync_all_groups = false;
  inserted_at = [];
  updated_at = [];
}

unfoldable pub entra_directory_members : {W : Type 0} → Env W → Fields → Option EntraDirectory
entra_directory_members env fs = do
  id ← text (codes "id") fs
  account_id ← text (codes "account_id") fs
  name ← text (codes "name") fs
  tenant_id ← text (codes "tenant_id") fs
  is_disabled ← flag (codes "is_disabled") fs
  disabled_reason ← text (codes "disabled_reason") fs
  synced_at ← time_pointer env (codes "synced_at") fs
  error_message ← text (codes "error_message") fs
  errored_at ← time_pointer env (codes "errored_at") fs
  email_field ← text (codes "email_field") fs
  sync_all_groups ← flag (codes "sync_all_groups") fs
  inserted_at ← time env (codes "inserted_at") fs
  updated_at ← time env (codes "updated_at") fs
  some (record {
    id = id;
    account_id = account_id;
    name = name;
    tenant_id = tenant_id;
    is_disabled = is_disabled;
    disabled_reason = disabled_reason;
    synced_at = synced_at;
    error_message = error_message;
    errored_at = errored_at;
    email_field = email_field;
    sync_all_groups = sync_all_groups;
    inserted_at = inserted_at;
    updated_at = updated_at;
  })

unfoldable pub decode_entra_directory : {W : Type 0} → Env W → Json → Option EntraDirectory
unfolding entra_directory_members
decode_entra_directory env j = do fs ← to_struct j; entra_directory_members env fs

pub record GoogleDirectory : Type 0 where
  pub id : Bytes
  pub account_id : Bytes
  pub name : Bytes
  pub domain : Bytes
  pub impersonation_email : Bytes
  pub is_disabled : Bool
  pub disabled_reason : Bytes
  pub synced_at : Option Bytes
  pub error_message : Bytes
  pub errored_at : Option Bytes
  pub group_sync_mode : Bytes
  pub org_unit_sync_enabled : Bool
  pub inserted_at : Bytes
  pub updated_at : Bytes

abbrev pub zero_google_directory : GoogleDirectory
zero_google_directory = record {
  id = [];
  account_id = [];
  name = [];
  domain = [];
  impersonation_email = [];
  is_disabled = false;
  disabled_reason = [];
  synced_at = none;
  error_message = [];
  errored_at = none;
  group_sync_mode = [];
  org_unit_sync_enabled = false;
  inserted_at = [];
  updated_at = [];
}

unfoldable pub google_directory_members : {W : Type 0} → Env W → Fields → Option GoogleDirectory
google_directory_members env fs = do
  id ← text (codes "id") fs
  account_id ← text (codes "account_id") fs
  name ← text (codes "name") fs
  domain ← text (codes "domain") fs
  impersonation_email ← text (codes "impersonation_email") fs
  is_disabled ← flag (codes "is_disabled") fs
  disabled_reason ← text (codes "disabled_reason") fs
  synced_at ← time_pointer env (codes "synced_at") fs
  error_message ← text (codes "error_message") fs
  errored_at ← time_pointer env (codes "errored_at") fs
  group_sync_mode ← text (codes "group_sync_mode") fs
  org_unit_sync_enabled ← flag (codes "orgunit_sync_enabled") fs
  inserted_at ← time env (codes "inserted_at") fs
  updated_at ← time env (codes "updated_at") fs
  some (record {
    id = id;
    account_id = account_id;
    name = name;
    domain = domain;
    impersonation_email = impersonation_email;
    is_disabled = is_disabled;
    disabled_reason = disabled_reason;
    synced_at = synced_at;
    error_message = error_message;
    errored_at = errored_at;
    group_sync_mode = group_sync_mode;
    org_unit_sync_enabled = org_unit_sync_enabled;
    inserted_at = inserted_at;
    updated_at = updated_at;
  })

unfoldable pub decode_google_directory : {W : Type 0} → Env W → Json → Option GoogleDirectory
unfolding google_directory_members
decode_google_directory env j = do fs ← to_struct j; google_directory_members env fs

pub record OktaDirectory : Type 0 where
  pub id : Bytes
  pub account_id : Bytes
  pub name : Bytes
  pub client_id : Bytes
  pub kid : Bytes
  pub okta_domain : Bytes
  pub is_disabled : Bool
  pub disabled_reason : Bytes
  pub synced_at : Option Bytes
  pub error_message : Bytes
  pub errored_at : Option Bytes
  pub inserted_at : Bytes
  pub updated_at : Bytes

abbrev pub zero_okta_directory : OktaDirectory
zero_okta_directory = record {
  id = [];
  account_id = [];
  name = [];
  client_id = [];
  kid = [];
  okta_domain = [];
  is_disabled = false;
  disabled_reason = [];
  synced_at = none;
  error_message = [];
  errored_at = none;
  inserted_at = [];
  updated_at = [];
}

unfoldable pub okta_directory_members : {W : Type 0} → Env W → Fields → Option OktaDirectory
okta_directory_members env fs = do
  id ← text (codes "id") fs
  account_id ← text (codes "account_id") fs
  name ← text (codes "name") fs
  client_id ← text (codes "client_id") fs
  kid ← text (codes "kid") fs
  okta_domain ← text (codes "okta_domain") fs
  is_disabled ← flag (codes "is_disabled") fs
  disabled_reason ← text (codes "disabled_reason") fs
  synced_at ← time_pointer env (codes "synced_at") fs
  error_message ← text (codes "error_message") fs
  errored_at ← time_pointer env (codes "errored_at") fs
  inserted_at ← time env (codes "inserted_at") fs
  updated_at ← time env (codes "updated_at") fs
  some (record {
    id = id;
    account_id = account_id;
    name = name;
    client_id = client_id;
    kid = kid;
    okta_domain = okta_domain;
    is_disabled = is_disabled;
    disabled_reason = disabled_reason;
    synced_at = synced_at;
    error_message = error_message;
    errored_at = errored_at;
    inserted_at = inserted_at;
    updated_at = updated_at;
  })

unfoldable pub decode_okta_directory : {W : Type 0} → Env W → Json → Option OktaDirectory
unfolding okta_directory_members
decode_okta_directory env j = do fs ← to_struct j; okta_directory_members env fs

pub record DirectoryListOptions : Type 0 where
  pub paging : ListOptions
  pub name : Bytes

abbrev pub no_directory_list_options : DirectoryListOptions
no_directory_list_options = record { paging = no_options; name = [] }

unfoldable pub directory_query : Option DirectoryListOptions → Assoc
directory_query opts =
    filter_query (or_default no_directory_list_options opts).paging
      ((codes "name", (or_default no_directory_list_options opts).name) ∷ [])
