-- ===== src/Services/Groups.antt =====
-- groups.go: the Groups service.
use firezone_sdk_go.Common.{
  Bool, Option, none, some, [], ◌∷◌, Bytes, codes, Assoc, put, is_empty, not,
}
use firezone_sdk_go.Api.{Page, discard, into, wrap_body, client_do, do_list, unless, with_body}
use firezone_sdk_go.Client.{Client}
use firezone_sdk_go.Env.{Env}
use firezone_sdk_go.Error.{Result, ok}
use firezone_sdk_go.Json.{Json, str, obj, Fields, end, to_struct, keep, keep_text, ◌>>=◌}
use firezone_sdk_go.Path.{check_id, build_path}
use firezone_sdk_go.Query.{ListOptions, no_options, or_default, filter_query}
use firezone_sdk_go.Services.{text, time, time_pointer, each}

pub record Group : Type 0 where
  pub type : Bytes
  pub id : Bytes
  pub name : Bytes
  pub email : Bytes
  pub entity_type : Bytes
  pub directory_id : Bytes
  pub idp_id : Bytes
  pub synced_at : Option Bytes
  pub inserted_at : Bytes
  pub updated_at : Bytes

abbrev pub zero_group : Group
zero_group = record {
  type = [];
  id = [];
  name = [];
  email = [];
  entity_type = [];
  directory_id = [];
  idp_id = [];
  synced_at = none;
  inserted_at = [];
  updated_at = [];
}

unfoldable pub group_members : {W : Type 0} → Env W → Fields → Option Group
group_members env fs = do
  type ← text (codes "type") fs
  id ← text (codes "id") fs
  name ← text (codes "name") fs
  email ← text (codes "email") fs
  entity_type ← text (codes "entity_type") fs
  directory_id ← text (codes "directory_id") fs
  idp_id ← text (codes "idp_id") fs
  synced_at ← time_pointer env (codes "synced_at") fs
  inserted_at ← time env (codes "inserted_at") fs
  updated_at ← time env (codes "updated_at") fs
  some (record {
    type = type;
    id = id;
    name = name;
    email = email;
    entity_type = entity_type;
    directory_id = directory_id;
    idp_id = idp_id;
    synced_at = synced_at;
    inserted_at = inserted_at;
    updated_at = updated_at;
  })

unfoldable pub decode_group : {W : Type 0} → Env W → Json → Option Group
unfolding group_members
decode_group env j = do fs ← to_struct j; group_members env fs

unfoldable pub is_synced : Group → Bool
is_synced g = not (is_empty g.directory_id)

pub record CreateGroupRequest : Type 0 where
  pub name : Bytes

pub record UpdateGroupRequest : Type 0 where
  pub name : Bytes

unfoldable pub encode_create_group : CreateGroupRequest → Result Json
encode_create_group req = ok (obj (keep (codes "name") (str req.name) end))

unfoldable pub encode_update_group : UpdateGroupRequest → Result Json
encode_update_group req = ok (obj (keep_text (codes "name") req.name end))

pub record GroupListOptions : Type 0 where
  pub paging : ListOptions
  pub name : Bytes
  pub directory_id : Option Bytes
  pub entity_type : Bytes

abbrev pub no_group_list_options : GroupListOptions
no_group_list_options = record {
  paging = no_options;
  name = [];
  directory_id = none;
  entity_type = [];
}

-- `q.Set` for a filter that is a pointer.
abbrev put_pointer : Bytes → Option Bytes → Assoc → Assoc
put_pointer k none q = q
put_pointer k (some v) q = put k v q

unfoldable pub group_query : GroupListOptions → Assoc
group_query opts = put_pointer (codes "directory_id") opts.directory_id (
    filter_query opts.paging
      ((codes "name", opts.name) ∷ (codes "entity_type", opts.entity_type) ∷ []))

module _ {W : Type 0} (env : Env W) where
  unfoldable pub get : Client → Bytes → W → Result Group × W
  get c id w =
      unless (check_id (codes "Group ID") id)
        (client_do env c (codes "GET") (build_path (codes "groups" ∷ id ∷ [])) none none
          (into zero_group (decode_group env)))
        w

  unfoldable pub list : Client → Option GroupListOptions → W → Result (Page Group) × W
  list c opts w =
      do_list env c (codes "GET") (codes "groups")
        (group_query (or_default no_group_list_options opts)) (decode_group env) w

  unfoldable pub create : Client → Option CreateGroupRequest → W → Result Group × W
  create c req w =
      with_body (wrap_body env (codes "group") (each encode_create_group req))
        (λ body.
          client_do env c (codes "POST") (codes "groups") none (some body)
            (into zero_group (decode_group env)))
        w

  unfoldable pub update : Client → Bytes → Option UpdateGroupRequest → W → Result Group × W
  update c id req w =
      unless (check_id (codes "Group ID") id)
        (with_body (wrap_body env (codes "group") (each encode_update_group req)) (λ body.
          client_do env c (codes "PATCH") (build_path (codes "groups" ∷ id ∷ [])) none (some body)
            (into zero_group (decode_group env))))
        w

  unfoldable pub delete : Client → Bytes → W → Result (Unit {0}) × W
  delete c id w =
      unless (check_id (codes "Group ID") id)
        (client_do env c (codes "DELETE") (build_path (codes "groups" ∷ id ∷ [])) none none discard)
        w
