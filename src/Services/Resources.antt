-- ===== src/Services/Resources.antt =====
-- resources.go: the Resources service. A field whose Go value is a slice that may be nil is an
-- `Option`; the criteria of a request are the text of the caller.
use firezone_sdk_go.Common.{Option, none, some, List, [], ◌∷◌, Bytes, codes}
use firezone_sdk_go.Api.{Page, discard, into, wrap_body, client_do, do_list, unless, with_body}
use firezone_sdk_go.Client.{Client}
use firezone_sdk_go.Env.{Env}
use firezone_sdk_go.Error.{Result, ok, err, ◌>>=◌ as ◌and_then◌}
use firezone_sdk_go.Json.{
  Json, str, obj, Fields, end, to_struct, keep, keep_text, keep_some, keep_list, ◌>>=◌,
}
use firezone_sdk_go.Null.{Null, nullable}
use firezone_sdk_go.Path.{check_id, build_path}
use firezone_sdk_go.Query.{ListOptions, no_options, or_default, filter_query}
use firezone_sdk_go.Services.{text, texts, text_value, each}
use firezone_sdk_go.Error.{bad_raw_message}
use firezone_sdk_go.Json.{member}
use firezone_sdk_go.Services.{nullable_list, nullable_values}

pub record Filter : Type 0 where
  pub protocol : Bytes
  pub ports : List Bytes

abbrev pub zero_filter : Filter
zero_filter = record { protocol = []; ports = [] }

unfoldable pub filter_members : Fields → Option Filter
filter_members fs = do
  protocol ← text (codes "protocol") fs
  ports ← texts (codes "ports") fs
  some (record { protocol = protocol; ports = ports })

unfoldable pub decode_filter : Json → Option Filter
unfolding filter_members
decode_filter j = do fs ← to_struct j; filter_members fs

-- A json.RawMessage takes any value, null too.
abbrev raw_member : Bytes → Fields → Option (Option Json)
raw_member k fs = some (member k fs)

unfoldable pub encode_filter : Filter → Json
encode_filter f =
    obj (keep (codes "protocol") (str f.protocol) (keep_list str (codes "ports") f.ports end))

unfoldable pub encode_filters : Option (List Filter) → Json
encode_filters = nullable_list encode_filter

pub record Resource : Type 0 where
  pub device_membership_criteria : Option Json
  pub id : Bytes
  pub name : Bytes
  pub address : Bytes
  pub address_description : Bytes
  pub type : Bytes
  pub ip_stack : Bytes
  pub site_id : Bytes
  pub filters : Option (List Filter)

abbrev pub zero_resource : Resource
zero_resource = record {
  device_membership_criteria = none;
  id = [];
  name = [];
  address = [];
  address_description = [];
  type = [];
  ip_stack = [];
  site_id = [];
  filters = none;
}

unfoldable pub resource_members : Fields → Option Resource
resource_members fs = do
  device_membership_criteria ← raw_member (codes "device_membership_criteria") fs
  id ← text (codes "id") fs
  name ← text (codes "name") fs
  address ← text (codes "address") fs
  address_description ← text (codes "address_description") fs
  type ← text (codes "type") fs
  ip_stack ← text (codes "ip_stack") fs
  site_id ← text (codes "site_id") fs
  filters ← nullable_values decode_filter (codes "filters") fs
  some (record {
    device_membership_criteria = device_membership_criteria;
    id = id;
    name = name;
    address = address;
    address_description = address_description;
    type = type;
    ip_stack = ip_stack;
    site_id = site_id;
    filters = filters;
  })

unfoldable pub decode_resource : Json → Option Resource
unfolding resource_members
decode_resource j = do fs ← to_struct j; resource_members fs

pub record CreateResourceRequest : Type 0 where
  pub device_membership_criteria : Bytes
  pub name : Bytes
  pub type : Bytes
  pub address : Bytes
  pub address_description : Bytes
  pub ip_stack : Bytes
  pub site_id : Bytes
  pub filters : List Filter

pub record UpdateResourceRequest : Type 0 where
  pub device_membership_criteria : Bytes
  pub name : Bytes
  pub type : Bytes
  pub address : Option (Null Bytes)
  pub address_description : Option (Null Bytes)
  pub ip_stack : Option (Null Bytes)
  pub site_id : Option (Null Bytes)
  pub filters : Option (Option (List Filter))

-- A json.RawMessage: left out when it is empty, and refused when it is not a JSON text.
abbrev pub raw_json : {W : Type 0} → Env W → Bytes → Result (Option Json)
raw_json env [] = ok none
raw_json env (b ∷ s) = elim (env.parse_json (b ∷ s)) [
  | none ↦ err bad_raw_message
  | some j ↦ ok (some j)
]

unfoldable pub encode_create_resource : {W : Type 0} → Env W → CreateResourceRequest → Result Json
encode_create_resource env req = raw_json env req.device_membership_criteria and_then λ criteria.
    ok (
      obj (
        keep_some (λ j. j) (codes "device_membership_criteria") criteria
          (keep (codes "name") (str req.name) (
            keep (codes "type") (str req.type) (
              keep_text (codes "address") req.address (
                keep_text (codes "address_description") req.address_description (
                  keep_text (codes "ip_stack") req.ip_stack (
                    keep_text (codes "site_id") req.site_id
                      (keep_list encode_filter (codes "filters") req.filters end)))))))))

unfoldable pub encode_update_resource : {W : Type 0} → Env W → UpdateResourceRequest → Result Json
encode_update_resource env req = raw_json env req.device_membership_criteria and_then λ criteria.
    nullable text_value req.address and_then λ address.
    nullable text_value req.address_description and_then λ address_description.
    nullable text_value req.ip_stack and_then λ ip_stack.
    nullable text_value req.site_id and_then λ site_id. ok (
      obj (
        keep_some (λ j. j) (codes "device_membership_criteria") criteria
          (keep_text (codes "name") req.name (
            keep_text (codes "type") req.type (
              keep_some (λ j. j) (codes "address") address
                (keep_some (λ j. j) (codes "address_description") address_description
                  (keep_some (λ j. j) (codes "ip_stack") ip_stack
                    (keep_some (λ j. j) (codes "site_id") site_id
                      (keep_some encode_filters (codes "filters") req.filters end)))))))))

pub record ResourceListOptions : Type 0 where
  pub paging : ListOptions
  pub name : Bytes
  pub type : Bytes
  pub site_id : Bytes
  pub address : Bytes
  pub ip_stack : Bytes

abbrev pub no_resource_list_options : ResourceListOptions
no_resource_list_options = record {
  paging = no_options;
  name = [];
  type = [];
  site_id = [];
  address = [];
  ip_stack = [];
}

module _ {W : Type 0} (env : Env W) where
  unfoldable pub get : Client → Bytes → W → Result Resource × W
  get c id w =
      unless (check_id (codes "Resource ID") id)
        (client_do env c (codes "GET") (build_path (codes "resources" ∷ id ∷ [])) none none
          (into zero_resource decode_resource))
        w

  unfoldable pub list : Client → Option ResourceListOptions → W → Result (Page Resource) × W
  list c opts w =
      do_list env c (codes "GET") (codes "resources")
        (filter_query (or_default no_resource_list_options opts).paging (
          (codes "name", (or_default no_resource_list_options opts).name)
          ∷ (codes "type", (or_default no_resource_list_options opts).type)
          ∷ (codes "site_id", (or_default no_resource_list_options opts).site_id)
          ∷ (codes "address", (or_default no_resource_list_options opts).address)
          ∷ (codes "ip_stack", (or_default no_resource_list_options opts).ip_stack)
          ∷ []))
        decode_resource w

  unfoldable pub create : Client → Option CreateResourceRequest → W → Result Resource × W
  create c req w =
      with_body (wrap_body env (codes "resource") (each (encode_create_resource env) req))
        (λ body.
          client_do env c (codes "POST") (codes "resources") none (some body)
            (into zero_resource decode_resource))
        w

  unfoldable pub update : Client → Bytes → Option UpdateResourceRequest → W → Result Resource × W
  update c id req w =
      unless (check_id (codes "Resource ID") id)
        (with_body (wrap_body env (codes "resource") (each (encode_update_resource env) req))
          (λ body.
            client_do env c (codes "PATCH") (build_path (codes "resources" ∷ id ∷ [])) none
              (some body) (into zero_resource decode_resource)))
        w

  unfoldable pub delete : Client → Bytes → W → Result (Unit {0}) × W
  delete c id w =
      unless (check_id (codes "Resource ID") id)
        (client_do env c (codes "DELETE") (build_path (codes "resources" ∷ id ∷ [])) none none
          discard)
        w
