-- ===== src/Services/Sites.antt =====
-- sites.go: the Sites service.
use firezone_sdk_go.Common.{Option, none, some, [], ◌∷◌, Bytes, codes}
use firezone_sdk_go.Api.{Page, discard, into, wrap_body, client_do, do_list, unless, with_body}
use firezone_sdk_go.Client.{Client}
use firezone_sdk_go.Env.{Env}
use firezone_sdk_go.Error.{Result, ok}
use firezone_sdk_go.Json.{Json, str, obj, Fields, end, to_struct, keep, keep_text, ◌>>=◌}
use firezone_sdk_go.Path.{check_id, build_path}
use firezone_sdk_go.Query.{ListOptions, no_options, or_default, filter_query}
use firezone_sdk_go.Services.{text, each}

pub record Site : Type 0 where
  pub id : Bytes
  pub name : Bytes

abbrev pub zero_site : Site
zero_site = record { id = []; name = [] }

unfoldable pub site_members : Fields → Option Site
site_members fs = do
  id ← text (codes "id") fs
  name ← text (codes "name") fs
  some (record { id = id; name = name })

unfoldable pub decode_site : Json → Option Site
unfolding site_members
decode_site j = do fs ← to_struct j; site_members fs

pub record CreateSiteRequest : Type 0 where
  pub name : Bytes

pub record UpdateSiteRequest : Type 0 where
  pub name : Bytes

unfoldable pub encode_create_site : CreateSiteRequest → Result Json
encode_create_site req = ok (obj (keep (codes "name") (str req.name) end))

unfoldable pub encode_update_site : UpdateSiteRequest → Result Json
encode_update_site req = ok (obj (keep_text (codes "name") req.name end))

pub record SiteListOptions : Type 0 where
  pub paging : ListOptions
  pub name : Bytes

abbrev pub no_site_list_options : SiteListOptions
no_site_list_options = record { paging = no_options; name = [] }

module _ {W : Type 0} (env : Env W) where
  unfoldable pub get : Client → Bytes → W → Result Site × W
  get c id w =
      unless (check_id (codes "site ID") id)
        (client_do env c (codes "GET") (build_path (codes "sites" ∷ id ∷ [])) none none
          (into zero_site decode_site))
        w

  unfoldable pub list : Client → Option SiteListOptions → W → Result (Page Site) × W
  list c opts w =
      do_list env c (codes "GET") (codes "sites")
        (filter_query (or_default no_site_list_options opts).paging
          ((codes "name", (or_default no_site_list_options opts).name) ∷ []))
        decode_site w

  unfoldable pub create : Client → Option CreateSiteRequest → W → Result Site × W
  create c req w =
      with_body (wrap_body env (codes "site") (each encode_create_site req))
        (λ body.
          client_do env c (codes "POST") (codes "sites") none (some body)
            (into zero_site decode_site))
        w

  unfoldable pub update : Client → Bytes → Option UpdateSiteRequest → W → Result Site × W
  update c id req w =
      unless (check_id (codes "site ID") id)
        (with_body (wrap_body env (codes "site") (each encode_update_site req)) (λ body.
          client_do env c (codes "PATCH") (build_path (codes "sites" ∷ id ∷ [])) none (some body)
            (into zero_site decode_site)))
        w

  unfoldable pub delete : Client → Bytes → W → Result (Unit {0}) × W
  delete c id w =
      unless (check_id (codes "site ID") id)
        (client_do env c (codes "DELETE") (build_path (codes "sites" ∷ id ∷ [])) none none discard)
        w
