-- ===== src/Request/Outcome.antt =====
-- How one round trip ends, and what the caller is told.
use firezone_sdk_go.Common.{
  ℕ, ◌≤◌, ◌<◌, ◌≡◌, ◌⊎◌, refl, ap, false, ◌||◌, Option, Bytes, Assoc, arith, Bool-cases, inl, inr,
  ltb, leb, ◌==◌,
}
use firezone_sdk_go.Client.{Client}
use firezone_sdk_go.Env.{Env, Exchange, failed, broken_body, replied, HttpResponse}
use firezone_sdk_go.Error.{
  ApiError, Error, building_request, performing, reading_body, api, Result, ok, err,
}
use firezone_sdk_go.Path.{resolve_path}
use firezone_sdk_go.Request.{with_query, http_request, read_exchange, send, raw_request}
use firezone_sdk_go.Response.{parse_api_error, has_status}
use firezone_sdk_go.Response.Laws.{parse_api_error-status}
use firezone_sdk_go.Url.{Url}

-- The result of an exchange: the body of a response with a status from 200 to 299; for any other
-- response an API error of that status, which only the test for that status recognises; and an
-- error of its own for a round trip that fails and for a body that cannot be read.
pub data Reports : Exchange → Result Bytes → Type 0 where
  succeeded :
      {resp : HttpResponse}
      → 200 ≤ resp.status_code
      → resp.status_code < 300
      → Reports (replied resp) (ok resp.body)
  refused :
      {resp : HttpResponse} {e : ApiError}
      → (resp.status_code < 200) ⊎ (300 ≤ resp.status_code)
      → ((status : ℕ) → has_status (api e) status ≡ (resp.status_code == status))
      → Reports (replied resp) (err (api e))
  unanswered : Reports failed (err performing)
  cut_off : Reports broken_body (err reading_body)

module _ {W : Type 0} (env : Env W) where
  status_tested :
      (resp : HttpResponse) (status : ℕ)
      → has_status (api (parse_api_error env resp resp.body)) status ≡ (resp.status_code == status)
  unfolding has_status
  status_tested resp status = ap (λ s. s == status) (parse_api_error-status env resp resp.body)

  read_exchange-Reports : (x : Exchange) → Reports x (read_exchange env x)
  unfolding read_exchange
  read_exchange-Reports failed = unanswered
  read_exchange-Reports broken_body = cut_off
  read_exchange-Reports (replied resp) =
      elim (Bool-cases (ltb resp.status_code 200 || leb 300 resp.status_code)) [
        | inl outside ↦ rw outside (refused (ground arith) (status_tested resp))
        | inr inside ↦ rw inside (succeeded (ground arith) (ground arith))
      ]

  module _ (c : Client) (method request_path : Bytes) (query : Option Assoc) (body : Option Bytes)
      (w : W) where
    -- How `rawRequest` ends: the path does not resolve, the URL is not accepted, and nothing is
    -- sent; or one request is sent, and its exchange decides.
    pub data RawCase (r : Result Bytes × W) : Type 0 where
      unresolved :
          {e : Error} → resolve_path c.base_url request_path ≡ err e → r ≡ (err e, w) → RawCase r
      unacceptable :
          {u : Url}
          → resolve_path c.base_url request_path ≡ ok u
          → env.accepts (with_query query u) ≡ false
          → r ≡ (err building_request, w)
          → RawCase r
      exchanged :
          {u : Url}
          → resolve_path c.base_url request_path ≡ ok u
          → Reports
              (env.round_trip c.http_client (http_request c method (with_query query u) body) w).0
              r.0
          → r.1
            ≡ (env.round_trip c.http_client (http_request c method (with_query query u) body) w).1
          → RawCase r

    raw_request_resolved :
        (o : Result Url)
        → resolve_path c.base_url request_path ≡ o
        → RawCase (raw_request env c method request_path query body w)
    unfolding send raw_request http_request
    raw_request_resolved (err e) p = unresolved p (rw (raw_request, p) refl)
    raw_request_resolved (ok u) p = elim (Bool-cases (env.accepts (with_query query u))) [
      | inl good ↦
          exchanged p (rw (raw_request, p) (rw good (read_exchange-Reports _)))
            (rw (raw_request, p) (rw good refl))
      | inr bad ↦ unacceptable p bad (rw (raw_request, p) (rw bad refl))
    ]

    -- A call of `rawRequest` sends nothing and returns an error if the path does not resolve or the
    -- URL is not accepted, and otherwise sends one request: a response with a status from 200 to
    -- 299 gives its body, any other response an API error that exactly the test for its status
    -- recognises, and a failed round trip or an unreadable body an error that says so.
    pub raw_request-RawCase : RawCase (raw_request env c method request_path query body w)
    raw_request-RawCase = raw_request_resolved (resolve_path c.base_url request_path) refl
