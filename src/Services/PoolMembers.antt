-- ===== src/Services/PoolMembers.antt =====
-- pool_members.go: the members of one device pool, whose Resource ID the service holds as
-- `resource_id`.
use firezone_sdk_go.Common.{Option, none, some, List, [], ◌∷◌, map, Bytes, codes}
use firezone_sdk_go.Api.{Page, into, wrap_body, client_do, do_list, unless, with_body}
use firezone_sdk_go.Client.{Client}
use firezone_sdk_go.Env.{Env}
use firezone_sdk_go.Error.{Result, ok}
use firezone_sdk_go.Json.{
  Json, str, arr, obj, Fields, end, field, items_of, to_struct, keep_list, ◌>>=◌,
}
use firezone_sdk_go.Path.{check_id, build_path}
use firezone_sdk_go.Query.{ListOptions, list_options_to_query}
use firezone_sdk_go.Services.{text, time_pointer, texts}

pub record PoolMember : Type 0 where
  pub id : Bytes
  pub name : Bytes
  pub last_seen_at : Option Bytes

abbrev pub zero_pool_member : PoolMember
zero_pool_member = record { id = []; name = []; last_seen_at = none }

unfoldable pub pool_member_members : {W : Type 0} → Env W → Fields → Option PoolMember
pool_member_members env fs = do
  id ← text (codes "id") fs
  name ← text (codes "name") fs
  last_seen_at ← time_pointer env (codes "last_seen_at") fs
  some (record { id = id; name = name; last_seen_at = last_seen_at })

unfoldable pub decode_pool_member : {W : Type 0} → Env W → Json → Option PoolMember
unfolding pool_member_members
decode_pool_member env j = do fs ← to_struct j; pool_member_members env fs

unfoldable pub decode_ids : Json → Option (List Bytes)
decode_ids j = do fs ← to_struct j; texts (codes "device_ids") fs

-- The bodies: a list of entries, and the two lists of a patch, each left out when it is empty.
unfoldable pub encode_entries : List Bytes → Json
encode_entries ids = arr (items_of (map (λ id. obj (field (codes "device_id") (str id) end)) ids))

unfoldable pub encode_patch : (add remove : List Bytes) → Json
encode_patch add remove =
    obj (keep_list str (codes "add") add (keep_list str (codes "remove") remove end))

module _ {W : Type 0} (env : Env W) where
  unfoldable pub list : Client → Bytes → Option ListOptions → W → Result (Page PoolMember) × W
  list c resource_id opts w =
      unless (check_id (codes "Resource ID") resource_id)
        (do_list env c (codes "GET")
          (build_path (codes "resources" ∷ resource_id ∷ codes "pool_members" ∷ []))
          (list_options_to_query opts) (decode_pool_member env))
        w

  unfoldable pub replace_all : Client → Bytes → List Bytes → W → Result (List Bytes) × W
  replace_all c resource_id ids w =
      unless (check_id (codes "Resource ID") resource_id)
        (with_body (wrap_body env (codes "pool_members") (some (ok (encode_entries ids)))) (λ body.
          client_do env c (codes "PUT")
            (build_path (codes "resources" ∷ resource_id ∷ codes "pool_members" ∷ [])) none
            (some body) (into [] decode_ids)))
        w

  unfoldable pub patch : Client → Bytes → List Bytes → List Bytes → W → Result (List Bytes) × W
  patch c resource_id add remove w =
      unless (check_id (codes "Resource ID") resource_id)
        (with_body (wrap_body env (codes "pool_members") (some (ok (encode_patch add remove))))
          (λ body.
            client_do env c (codes "PATCH")
              (build_path (codes "resources" ∷ resource_id ∷ codes "pool_members" ∷ [])) none
              (some body) (into [] decode_ids)))
        w
