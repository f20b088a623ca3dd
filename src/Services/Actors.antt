-- ===== src/Services/Actors.antt =====
-- actors.go: the Actors service.
use firezone_sdk_go.Common.{
  Bool, true, false, Option, none, some, [], ◌∷◌, Bytes, codes, is_empty, not,
}
use firezone_sdk_go.Api.{Page, discard, into, wrap_body, client_do, do_list, unless, with_body}
use firezone_sdk_go.Client.{Client}
use firezone_sdk_go.Env.{Env}
use firezone_sdk_go.Error.{Result, ok, ◌>>=◌ as ◌and_then◌}
use firezone_sdk_go.Json.{
  Json, bool, str, obj, Fields, end, to_struct, keep, keep_text, keep_some, ◌>>=◌,
}
use firezone_sdk_go.Null.{Null, nullable}
use firezone_sdk_go.Path.{check_id, build_path}
use firezone_sdk_go.Query.{ListOptions, no_options, or_default, filter_query}
use firezone_sdk_go.Services.{text, flag, time, time_pointer, text_value, each}

pub record Actor : Type 0 where
  pub id : Bytes
  pub name : Bytes
  pub type : Bytes
  pub email : Bytes
  pub allow_email_otp_sign_in : Bool
  pub is_disabled : Bool
  pub last_seen_at : Option Bytes
  pub disabled_by_directory_id : Bytes
  pub created_by_directory_id : Bytes
  pub inserted_at : Bytes
  pub updated_at : Bytes

abbrev pub zero_actor : Actor
zero_actor = record {
  id = [];
  name = [];
  type = [];
  email = [];
  allow_email_otp_sign_in = false;
  is_disabled = false;
  last_seen_at = none;
  disabled_by_directory_id = [];
  created_by_directory_id = [];
  inserted_at = [];
  updated_at = [];
}

unfoldable pub actor_members : {W : Type 0} → Env W → Fields → Option Actor
actor_members env fs = do
  id ← text (codes "id") fs
  name ← text (codes "name") fs
  type ← text (codes "type") fs
  email ← text (codes "email") fs
  allow_email_otp_sign_in ← flag (codes "allow_email_otp_sign_in") fs
  is_disabled ← flag (codes "is_disabled") fs
  last_seen_at ← time_pointer env (codes "last_seen_at") fs
  disabled_by_directory_id ← text (codes "disabled_by_directory_id") fs
  created_by_directory_id ← text (codes "created_by_directory_id") fs
  inserted_at ← time env (codes "inserted_at") fs
  updated_at ← time env (codes "updated_at") fs
  some (record {
    id = id;
    name = name;
    type = type;
    email = email;
    allow_email_otp_sign_in = allow_email_otp_sign_in;
    is_disabled = is_disabled;
    last_seen_at = last_seen_at;
    disabled_by_directory_id = disabled_by_directory_id;
    created_by_directory_id = created_by_directory_id;
    inserted_at = inserted_at;
    updated_at = updated_at;
  })

unfoldable pub decode_actor : {W : Type 0} → Env W → Json → Option Actor
unfolding actor_members
decode_actor env j = do fs ← to_struct j; actor_members env fs

unfoldable pub is_synced : Actor → Bool
is_synced a = not (is_empty a.created_by_directory_id)

pub record CreateActorRequest : Type 0 where
  pub name : Bytes
  pub type : Bytes
  pub email : Bytes
  pub allow_email_otp_sign_in : Option Bool

pub record UpdateActorRequest : Type 0 where
  pub name : Bytes
  pub type : Bytes
  pub email : Option (Null Bytes)
  pub allow_email_otp_sign_in : Option Bool
  pub is_disabled : Option Bool

abbrev pub no_update : UpdateActorRequest
no_update = record {
  name = [];
  type = [];
  email = none;
  allow_email_otp_sign_in = none;
  is_disabled = none;
}

unfoldable pub encode_create_actor : CreateActorRequest → Result Json
encode_create_actor req = ok (
    obj (
      keep (codes "name") (str req.name) (
        keep (codes "type") (str req.type) (
          keep_text (codes "email") req.email
            (keep_some bool (codes "allow_email_otp_sign_in") req.allow_email_otp_sign_in end)))))

unfoldable pub encode_update_actor : UpdateActorRequest → Result Json
encode_update_actor req = nullable text_value req.email and_then λ email. ok (
    obj (
      keep_text (codes "name") req.name (
        keep_text (codes "type") req.type (
          keep_some (λ j. j) (codes "email") email
            (keep_some bool (codes "allow_email_otp_sign_in") req.allow_email_otp_sign_in
              (keep_some bool (codes "is_disabled") req.is_disabled end))))))

pub record ActorListOptions : Type 0 where
  pub paging : ListOptions
  pub name : Bytes
  pub email : Bytes
  pub type : Bytes

abbrev pub no_actor_list_options : ActorListOptions
no_actor_list_options = record { paging = no_options; name = []; email = []; type = [] }

module _ {W : Type 0} (env : Env W) where
  unfoldable pub get : Client → Bytes → W → Result Actor × W
  get c id w =
      unless (check_id (codes "Actor ID") id)
        (client_do env c (codes "GET") (build_path (codes "actors" ∷ id ∷ [])) none none
          (into zero_actor (decode_actor env)))
        w

  unfoldable pub list : Client → Option ActorListOptions → W → Result (Page Actor) × W
  list c opts w =
      do_list env c (codes "GET") (codes "actors")
        (filter_query (or_default no_actor_list_options opts).paging (
          (codes "name", (or_default no_actor_list_options opts).name)
          ∷ (codes "email", (or_default no_actor_list_options opts).email)
          ∷ (codes "type", (or_default no_actor_list_options opts).type)
          ∷ []))
        (decode_actor env) w

  unfoldable pub create : Client → Option CreateActorRequest → W → Result Actor × W
  create c req w =
      with_body (wrap_body env (codes "actor") (each encode_create_actor req))
        (λ body.
          client_do env c (codes "POST") (codes "actors") none (some body)
            (into zero_actor (decode_actor env)))
        w

  unfoldable pub update : Client → Bytes → Option UpdateActorRequest → W → Result Actor × W
  update c id req w =
      unless (check_id (codes "Actor ID") id)
        (with_body (wrap_body env (codes "actor") (each encode_update_actor req)) (λ body.
          client_do env c (codes "PATCH") (build_path (codes "actors" ∷ id ∷ [])) none (some body)
            (into zero_actor (decode_actor env))))
        w

  unfoldable pub delete : Client → Bytes → W → Result (Unit {0}) × W
  delete c id w =
      unless (check_id (codes "Actor ID") id)
        (client_do env c (codes "DELETE") (build_path (codes "actors" ∷ id ∷ [])) none none discard)
        w

  unfoldable pub disable : Client → Bytes → W → Result Actor × W
  disable c id w =
      unless (check_id (codes "Actor ID") id)
        (update c id (some (record no_update { is_disabled = some true }))) w

  unfoldable pub enable : Client → Bytes → W → Result Actor × W
  enable c id w =
      unless (check_id (codes "Actor ID") id)
        (update c id (some (record no_update { is_disabled = some false }))) w
