-- ===== src/Api.antt =====
-- firezone.go: request bodies, the two ways of making a call and reading its response.
pub mod Keeps
pub mod Pages
use firezone_sdk_go.Common.{
  ℕ, ℤ, Bool, true, false, Option, none, some, List, [], ◌∷◌, Bytes, codes, Assoc, if◌then◌else◌,
  is_empty,
}
use firezone_sdk_go.Client.{Client}
use firezone_sdk_go.Env.{Env}
use firezone_sdk_go.Error.{
  Error, nil_request, encoding_body, decoding_response, decoding_data, Result, ok, err,
}
use firezone_sdk_go.Json.{
  Json, Fields, end, field, obj, str, null, member, scalar, to_struct, to_string, to_int, to_list,
  ◌>>=◌,
}
use firezone_sdk_go.Query.{list_options_to_query}
use firezone_sdk_go.Retry.{request_with_retry}

-- Where a response is decoded into: a variable at its zero value, or nothing for `out == nil`.
pub record Out (A : Type 0) : Type 0 where
  pub zero_value : A
  pub decode : Option (Json → Option A)

abbrev pub discard : Out (Unit {0})
discard = record { zero_value = tt; decode = none }

abbrev pub into : {A : Type 0} → A → (Json → Option A) → Out A
into z decode = record { zero_value = z; decode = some decode }

-- pagination.go
pub record PageMetadata : Type 0 where
  pub count : ℤ
  pub limit : ℤ
  pub next_page : Bytes
  pub prev_page : Bytes

pub record Page (A : Type 0) : Type 0 where
  pub items : List A
  pub metadata : PageMetadata

unfoldable pub decode_metadata : Option Json → Option PageMetadata
decode_metadata none =
    some (record { count = ℤ.pos 0; limit = ℤ.pos 0; next_page = []; prev_page = [] })
decode_metadata (some j) = do
  fs ← to_struct j
  count ← to_int (scalar (codes "count") fs)
  limit ← to_int (scalar (codes "limit") fs)
  next_page ← to_string (scalar (codes "next_page") fs)
  prev_page ← to_string (scalar (codes "prev_page") fs)
  some (record { count = count; limit = limit; next_page = next_page; prev_page = prev_page })

-- `listEnvelope`
unfoldable pub decode_page : {A : Type 0} → (Json → Option A) → Json → Option (Page A)
unfolding decode_metadata
decode_page decode j = do
  fs ← to_struct j
  items ← to_list decode (member (codes "data") fs)
  metadata ← decode_metadata (member (codes "metadata") fs)
  some (record { items = items; metadata = metadata })

-- `fmt.Errorf` for a failed decoding.
abbrev pub or_error {ℓ} : {A : Type ℓ} → Error → Option A → Result A
or_error e none = err e
or_error e (some a) = ok a

module _ {W : Type 0} (env : Env W) where
  -- `none` is a nil request; an encoding may fail in a MarshalJSON method.
  unfoldable pub wrap_body : Bytes → Option (Result Json) → Result Bytes
  wrap_body key none = err (nil_request key)
  wrap_body key (some (err e)) = err (encoding_body e)
  wrap_body key (some (ok j)) = ok (env.print_json (obj (field key j end)))

  -- The "data" member is kept as a raw text and decoded on its own; one that is absent is an
  -- empty text, which does not decode.
  unfoldable pub read_data : {A : Type 0} → Out A → Bytes → Result A
  read_data out body = elim out.decode [
    | none ↦ ok out.zero_value
    | some decode ↦
        if is_empty body then ok out.zero_value else elim (env.parse_json body >>= to_struct) [
          | none ↦ err decoding_response
          | some fs ↦ or_error decoding_data (member (codes "data") fs >>= decode)
        ]
  ]

  unfoldable pub read_page : {A : Type 0} → (Json → Option A) → Bytes → Result (Page A)
  unfolding decode_page
  read_page decode body = or_error decoding_response (env.parse_json body >>= decode_page decode)

  -- The body of a successful call, read.
  abbrev pub on_success : {A : Type 0} → (Bytes → Result A) → Result Bytes × W → Result A × W
  on_success read (ok body, w) = (read body, w)
  on_success read (err e, w) = (err e, w)

  unfoldable pub client_do :
      {A : Type 0}
      → Client
      → (method request_path : Bytes) → Option Assoc
      → Option Bytes
      → Out A
      → W
      → Result A × W
  unfolding read_data
  client_do c method request_path query body out w =
      on_success (read_data out) (request_with_retry env c method request_path query body w)

  unfoldable pub do_list :
      {A : Type 0}
      → Client
      → (method request_path : Bytes) → Assoc
      → (Json → Option A)
      → W
      → Result (Page A) × W
  unfolding read_page
  do_list c method request_path query decode w =
      on_success (read_page decode)
        (request_with_retry env c method request_path (some query) none w)

-- `if err := checkID(...); err != nil { return nil, err }`
unfoldable pub unless {ℓ} :
    {W : Type ℓ} {A : Type ℓ} → Option Error → (W → Result A × W) → W → Result A × W
unless none next w = next w
unless (some e) next w = (err e, w)

-- `body, err := wrapBody(...)`
unfoldable pub with_body {ℓ} :
    {W : Type ℓ} {A : Type ℓ} → Result Bytes → (Bytes → W → Result A × W) → W → Result A × W
with_body (ok body) next w = next body w
with_body (err e) next w = (err e, w)
