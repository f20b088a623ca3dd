-- ===== src/Request.antt =====
-- firezone.go: one HTTP round trip.
pub mod Outcome
use firezone_sdk_go.Common.{
  ℤ, pos, ltb_ℤ, ◌||◌, Option, none, some, [], ◌++◌, Bytes, codes, Assoc, put, ltb, leb,
  if◌then◌else◌,
}
use firezone_sdk_go.Client.{Client}
use firezone_sdk_go.Env.{HttpRequest, Exchange, failed, broken_body, replied, Env}
use firezone_sdk_go.Error.{building_request, performing, reading_body, api, Result, ok, err}
use firezone_sdk_go.Path.{resolve_path}
use firezone_sdk_go.Query.{encode}
use firezone_sdk_go.Response.{parse_api_error}
use firezone_sdk_go.Url.{Url}

-- `if query != nil { u.RawQuery = query.Encode() }`
unfoldable pub with_query : Option Assoc → Url → Url
with_query none u = u
with_query (some q) u = record u { raw_query = encode q }

-- The headers of a request; only one with a body has a content type.
unfoldable pub request_headers : Client → Option Bytes → Assoc
request_headers c body =
    let headers = put (codes "User-Agent") c.user_agent (
      put (codes "Accept") (codes "application/json")
        (put (codes "Authorization") (codes "Bearer " ++ c.token) [])) in
    elim body [
      | none ↦ headers
      | some b ↦ put (codes "Content-Type") (codes "application/json") headers
    ]

-- The bound of one attempt: none if the client's timeout is zero.
unfoldable pub attempt_timeout : Client → Option ℤ
attempt_timeout c = if ltb_ℤ (pos 0) c.request_timeout then some c.request_timeout else none

unfoldable pub http_request : Client → Bytes → Url → Option Bytes → HttpRequest
unfolding request_headers attempt_timeout
http_request c method u body = record {
  method = method;
  url = u;
  headers = request_headers c body;
  body = body;
  timeout = attempt_timeout c;
}

module _ {W : Type 0} (env : Env W) where
  -- What `rawRequest` makes of a round trip.
  unfoldable pub read_exchange : Exchange → Result Bytes
  read_exchange failed = err performing
  read_exchange broken_body = err reading_body
  read_exchange (replied resp) =
      if ltb resp.status_code 200 || leb 300 resp.status_code
      then err (api (parse_api_error env resp resp.body))
      else ok resp.body

module _ {W : Type 0} (env : Env W) (c : Client) where
  unfoldable pub send : HttpRequest → W → Result Bytes × W
  unfolding read_exchange
  send req w =
      let (exchange, w') = env.round_trip c.http_client req w in (read_exchange env exchange, w')

  unfoldable pub raw_request :
      (method request_path : Bytes) → Option Assoc → Option Bytes → W → Result Bytes × W
  unfolding send with_query http_request
  raw_request method request_path query body w = elim (resolve_path c.base_url request_path) [
    | err e ↦ (err e, w)
    | ok resolved ↦
        let u = with_query query resolved in
        if env.accepts u then send (http_request c method u body) w else (err building_request, w)
  ]
