-- ===== src/Services/Memberships.antt =====
-- memberships.go: the members of one Group, whose ID the service holds as `group_id`.
use firezone_sdk_go.Common.{Option, none, some, List, [], ◌∷◌, map, Bytes, codes}
use firezone_sdk_go.Api.{Page, into, wrap_body, client_do, do_list, unless, with_body}
use firezone_sdk_go.Client.{Client}
use firezone_sdk_go.Env.{Env}
use firezone_sdk_go.Error.{Result, ok}
use firezone_sdk_go.Json.{
  Json, str, arr, obj, Fields, end, field, items_of, to_struct, keep_list, ◌>>=◌,
}
use firezone_sdk_go.Path.{check_id, build_path}
use firezone_sdk_go.Query.{ListOptions, list_options_to_query}
use firezone_sdk_go.Services.{text, texts}

pub record GroupMember : Type 0 where
  pub id : Bytes
  pub name : Bytes
  pub email : Bytes
  pub type : Bytes

abbrev pub zero_group_member : GroupMember
zero_group_member = record { id = []; name = []; email = []; type = [] }

unfoldable pub group_member_members : Fields → Option GroupMember
group_member_members fs = do
  id ← text (codes "id") fs
  name ← text (codes "name") fs
  email ← text (codes "email") fs
  type ← text (codes "type") fs
  some (record { id = id; name = name; email = email; type = type })

unfoldable pub decode_group_member : Json → Option GroupMember
unfolding group_member_members
decode_group_member j = do fs ← to_struct j; group_member_members fs

unfoldable pub decode_ids : Json → Option (List Bytes)
decode_ids j = do fs ← to_struct j; texts (codes "actor_ids") fs

-- The bodies: a list of entries, and the two lists of a patch, each left out when it is empty.
unfoldable pub encode_entries : List Bytes → Json
encode_entries ids = arr (items_of (map (λ id. obj (field (codes "actor_id") (str id) end)) ids))

unfoldable pub encode_patch : (add remove : List Bytes) → Json
encode_patch add remove =
    obj (keep_list str (codes "add") add (keep_list str (codes "remove") remove end))

module _ {W : Type 0} (env : Env W) where
  unfoldable pub list : Client → Bytes → Option ListOptions → W → Result (Page GroupMember) × W
  list c group_id opts w =
      unless (check_id (codes "Group ID") group_id)
        (do_list env c (codes "GET")
          (build_path (codes "groups" ∷ group_id ∷ codes "memberships" ∷ []))
          (list_options_to_query opts) decode_group_member)
        w

  unfoldable pub replace_all : Client → Bytes → List Bytes → W → Result (List Bytes) × W
  replace_all c group_id ids w =
      unless (check_id (codes "Group ID") group_id)
        (with_body (wrap_body env (codes "memberships") (some (ok (encode_entries ids)))) (λ body.
          client_do env c (codes "PUT")
            (build_path (codes "groups" ∷ group_id ∷ codes "memberships" ∷ [])) none (some body)
            (into [] decode_ids)))
        w

  unfoldable pub patch : Client → Bytes → List Bytes → List Bytes → W → Result (List Bytes) × W
  patch c group_id add remove w =
      unless (check_id (codes "Group ID") group_id)
        (with_body (wrap_body env (codes "memberships") (some (ok (encode_patch add remove))))
          (λ body.
            client_do env c (codes "PATCH")
              (build_path (codes "groups" ∷ group_id ∷ codes "memberships" ∷ [])) none (some body)
              (into [] decode_ids)))
        w
