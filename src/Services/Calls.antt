-- ===== src/Services/Calls.antt =====
-- The requests that one call of the API sends: the pieces of a service's operation, over the
-- environment with a log.
use mathlib.Core.Path.{subst}
use firezone_sdk_go.Common.{
  ◌≡◌, refl, sym, ◌∙◌, ◌++◌, Option, none, some, List, Bytes, codes, Assoc, find, put, All, IsBytes,
  Bool-cases, inl, inr,
}
use firezone_sdk_go.Api.{Out, read_data, read_page, client_do, do_list, unless, with_body}
use firezone_sdk_go.Api.Keeps.{on_success-state, request_with_retry-keeps}
use firezone_sdk_go.Client.{Client}
use firezone_sdk_go.Env.{Env}
use firezone_sdk_go.Error.{Error, Result, ok, err}
use firezone_sdk_go.Json.{Json}
use firezone_sdk_go.Path.{build_path, request_target}
use firezone_sdk_go.Path.Resolve.{IsResolved, resolve_path-build_path}
use firezone_sdk_go.Request.{
  with_query, request_headers, attempt_timeout, http_request, send, raw_request,
}
use firezone_sdk_go.Retry.{request_with_retry}
use firezone_sdk_go.Retry.Trace.{Event, sent, waited, logged}
use firezone_sdk_go.Services.Routes.{outcome}
use firezone_sdk_go.Url.{Url, escaped_path}

-- A request goes to a method and a path below the client's base URL, with the client's token, user
-- agent and timeout.
abbrev pub IsTo : Client → Bytes → Bytes → Event → Type 0
IsTo c method request_path (sent req) =
    (req.method ≡ method)
    × (req.url.scheme ≡ c.base_url.scheme)
    × (req.url.host ≡ c.base_url.host)
    × (escaped_path req.url ≡ request_target c.base_url request_path)
    × (find (codes "Authorization") req.headers ≡ some (codes "Bearer " ++ c.token))
    × (find (codes "User-Agent") req.headers ≡ some c.user_agent)
    × (req.timeout ≡ attempt_timeout c)
IsTo c method request_path (waited d) = Unit {0}

with_query-path : (q : Option Assoc) (u : Url) → escaped_path (with_query q u) ≡ escaped_path u
unfolding with_query escaped_path
with_query-path none u = refl
with_query-path (some q) u = refl

with_query-host :
    (q : Option Assoc) (u : Url)
    → ((with_query q u).scheme ≡ u.scheme) × ((with_query q u).host ≡ u.host)
unfolding with_query
with_query-host none u = (refl, refl)
with_query-host (some q) u = (refl, refl)

headers_sent :
    (c : Client) (body : Option Bytes)
    → (find (codes "Authorization") (request_headers c body) ≡ some (codes "Bearer " ++ c.token))
      × (find (codes "User-Agent") (request_headers c body) ≡ some c.user_agent)
unfolding request_headers put find
headers_sent c none = (refl, refl)
headers_sent c (some b) = (refl, refl)

-- The log of a state holds requests to that place only.
unfoldable pub SentTo : {W : Type 0} → Client → Bytes → List Bytes → W × List Event → Type 0
SentTo c method segs s = All (IsTo c method (build_path segs)) s.1

-- The same of the state behind a call.
unfoldable pub SentBy :
    {W : Type 0} {A : Type 0} → Client → Bytes → List Bytes → A × (W × List Event) → Type 0
unfolding SentTo
SentBy c method segs r = SentTo c method segs r.1

module _ {W : Type 0} {A : Type 0} (c : Client) (method : Bytes) (segs : List Bytes) where
  pub outcome-SentBy :
      (r : Result A × (W × List Event)) → SentBy c method segs r → SentBy c method segs (outcome r)
  unfolding SentBy outcome
  outcome-SentBy (ok a, w) q = q
  outcome-SentBy (err e, w) q = q

  pub unless-SentBy :
      (o : Option Error) (next : W × List Event → Result A × (W × List Event)) (w : W × List Event)
      → SentBy c method segs (next w)
      → SentTo c method segs w
      → SentBy c method segs (unless o next w)
  unfolding SentBy unless
  unless-SentBy none next w k q = k
  unless-SentBy (some e) next w k q = q

  pub with_body-SentBy :
      (b : Result Bytes) (next : Bytes → W × List Event → Result A × (W × List Event))
      (w : W × List Event)
      → ((body : Bytes) → SentBy c method segs (next body w))
      → SentTo c method segs w
      → SentBy c method segs (with_body b next w)
  unfolding SentBy with_body
  with_body-SentBy (ok body) next w k q = k body
  with_body-SentBy (err e) next w k q = q

module _ {W : Type 0} (env : Env W) (c : Client) (base : IsBytes c.base_url.path) (method : Bytes)
    (segs : List Bytes) (bytes : All IsBytes segs) where
  request_IsTo :
      (query : Option Assoc) (body : Option Bytes) (u : Url)
      → IsResolved c.base_url (build_path segs) u
      → IsTo c method (build_path segs) (sent (http_request c method (with_query query u) body))
  unfolding http_request
  request_IsTo query body u (e, _, s, h, _) =
      let (s', h') = with_query-host query u in
      let (token, agent) = headers_sent c body in
      (refl, s' ∙ s, h' ∙ h, with_query-path query u ∙ e, token, agent, refl)

  raw_keeps :
      (query : Option Assoc) (body : Option Bytes) (w : W × List Event)
      → SentTo c method segs w
      → SentTo c method segs (raw_request (logged env) c method (build_path segs) query body w).1
  unfolding raw_request SentTo
  raw_keeps query body w q =
      let (u, e, r) = resolve_path-build_path c.base_url segs base bytes in
      elim (Bool-cases (env.accepts (with_query query u))) [
        | inl h ↦ rw (e, raw_request) (rw h (unfold send in (request_IsTo query body u r, q)))
        | inr h ↦ rw (e, raw_request) (rw h q)
      ]

  retry_keeps :
      (query : Option Assoc) (body : Option Bytes) (w : W × List Event)
      → SentTo c method segs w
      → SentTo c method segs
          (request_with_retry (logged env) c method (build_path segs) query body w).1
  unfolding SentTo
  retry_keeps query body w q =
      request_with_retry-keeps (logged env) (SentTo c method segs) (λ k s q. q) (λ d s q. (tt, q)) c
        method (build_path segs) query body (raw_keeps query body) w q

  pub client_do-SentBy :
      {A : Type 0} (request_path : Bytes) (query : Option Assoc) (body : Option Bytes) (out : Out A)
      (w : W × List Event)
      → request_path ≡ build_path segs
      → SentTo c method segs w
      → SentBy c method segs (client_do (logged env) c method request_path query body out w)
  unfolding client_do SentBy
  client_do-SentBy request_path query body out w p q =
      subst (λ r. SentTo c method segs (client_do (logged env) c method r query body out w).1)
        (sym p)
        (subst (SentTo c method segs)
          (sym (on_success-state (logged env) (read_data (logged env) out) _))
          (retry_keeps query body w q))

  pub do_list-SentBy :
      {A : Type 0} (request_path : Bytes) (query : Assoc) (decode : Json → Option A)
      (w : W × List Event)
      → request_path ≡ build_path segs
      → SentTo c method segs w
      → SentBy c method segs (do_list (logged env) c method request_path query decode w)
  unfolding do_list SentBy
  do_list-SentBy request_path query decode w p q =
      subst (λ r. SentTo c method segs (do_list (logged env) c method r query decode w).1) (sym p)
        (subst (SentTo c method segs)
          (sym (on_success-state (logged env) (read_page (logged env) decode) _))
          (retry_keeps (some query) none w q))
