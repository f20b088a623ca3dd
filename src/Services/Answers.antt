-- ===== src/Services/Answers.antt =====
-- Calls that report success: the pieces of a service's operation, over the environment with a log.
use mathlib.Core.Path.{subst}
use firezone_sdk_go.Common.{
  ℕ, pos, ◌≡◌, ◌⊎◌, refl, sym, Bool, true, false, Option, none, some, List, [], ◌∷◌, Bytes, Assoc,
  All, IsBytes, inl, inr,
}
use firezone_sdk_go.Api.{Out, read_data, read_page, client_do, do_list, unless, with_body}
use firezone_sdk_go.Api.Keeps.{on_success-state, request_with_retry-brings}
use firezone_sdk_go.Client.{Client}
use firezone_sdk_go.Env.{Env}
use firezone_sdk_go.Error.{Error, Result, ok, err}
use firezone_sdk_go.Json.{Json}
use firezone_sdk_go.Path.{build_path}
use firezone_sdk_go.Path.Resolve.{resolve_path-build_path}
use firezone_sdk_go.Request.{with_query, send, raw_request}
use firezone_sdk_go.Retry.{request_with_retry}
use firezone_sdk_go.Retry.Trace.{Event, sent, waited, logged}
use firezone_sdk_go.Services.Routes.{outcome}
use firezone_sdk_go.Url.{Url}

-- Whether a log holds a request.
abbrev pub has_request : List Event → Bool
has_request [] = false
has_request (sent req ∷ log) = true
has_request (waited d ∷ log) = has_request log

abbrev HasSent : {W : Type 0} → W × List Event → Type 0
HasSent s = has_request s.1 ≡ true

-- A call failed, or has sent something.
unfoldable pub FailsOrSent : {W : Type 0} {A : Type 0} → Result A × (W × List Event) → Type 0
FailsOrSent r = ((e : Error) × (r.0 ≡ err e)) ⊎ (has_request r.1.1 ≡ true)

module _ {W : Type 0} {A : Type 0} where
  pub outcome-FailsOrSent :
      (r : Result A × (W × List Event))
      → FailsOrSent r
      → (outcome r).0 ≡ none
      → has_request (outcome r).1.1 ≡ true
  unfolding outcome FailsOrSent
  outcome-FailsOrSent (ok a, w) (inl (e, p)) h = cc
  outcome-FailsOrSent (ok a, w) (inr k) h = k
  outcome-FailsOrSent (err e, w) f h = cc

  pub unless-FailsOrSent :
      (o : Option Error) (next : W × List Event → Result A × (W × List Event)) (w : W × List Event)
      → FailsOrSent (next w)
      → FailsOrSent (unless o next w)
  unfolding FailsOrSent unless
  unless-FailsOrSent none next w f = f
  unless-FailsOrSent (some e) next w f = inl (e, refl)

  pub with_body-FailsOrSent :
      (b : Result Bytes) (next : Bytes → W × List Event → Result A × (W × List Event))
      (w : W × List Event)
      → ((body : Bytes) → FailsOrSent (next body w))
      → FailsOrSent (with_body b next w)
  unfolding FailsOrSent with_body
  with_body-FailsOrSent (ok body) next w f = f body
  with_body-FailsOrSent (err e) next w f = inl (e, refl)

module _ {W : Type 0} (env : Env W) (c : Client) (base : IsBytes c.base_url.path)
    (accepts : (u : Url) → env.accepts u ≡ true) (budget : ℕ) (m : c.max_retries ≡ pos budget)
    (segs : List Bytes) (bytes : All IsBytes segs) where
  raw_sends :
      (method : Bytes) (query : Option Assoc) (body : Option Bytes) (w : W × List Event)
      → HasSent (raw_request (logged env) c method (build_path segs) query body w).1
  unfolding raw_request
  raw_sends method query body w =
      let (u, e, r) = resolve_path-build_path c.base_url segs base bytes in
      rw (e, raw_request) (rw (accepts (with_query query u)) (unfold send in refl))

  retry_sends :
      (method : Bytes) (query : Option Assoc) (body : Option Bytes) (w : W × List Event)
      → HasSent (request_with_retry (logged env) c method (build_path segs) query body w).1
  retry_sends method query body w =
      request_with_retry-brings (logged env) HasSent (λ k s q. q) (λ d s q. q) c method
        (build_path segs) query body (raw_sends method query body) budget m w

  pub client_do-FailsOrSent :
      {A : Type 0} (method request_path : Bytes) (query : Option Assoc) (body : Option Bytes)
      (out : Out A) (w : W × List Event)
      → request_path ≡ build_path segs
      → FailsOrSent (client_do (logged env) c method request_path query body out w)
  unfolding client_do FailsOrSent
  client_do-FailsOrSent method request_path query body out w p = inr (
      subst (λ r. HasSent (client_do (logged env) c method r query body out w).1) (sym p)
        (subst HasSent
          (sym (
            on_success-state (logged env) (read_data (logged env) out)
              (request_with_retry (logged env) c method (build_path segs) query body w)))
          (retry_sends method query body w)))

  pub do_list-FailsOrSent :
      {A : Type 0} (method request_path : Bytes) (query : Assoc) (decode : Json → Option A)
      (w : W × List Event)
      → request_path ≡ build_path segs
      → FailsOrSent (do_list (logged env) c method request_path query decode w)
  unfolding do_list FailsOrSent
  do_list-FailsOrSent method request_path query decode w p = inr (
      subst (λ r. HasSent (do_list (logged env) c method r query decode w).1) (sym p)
        (subst HasSent
          (sym (
            on_success-state (logged env) (read_page (logged env) decode)
              (request_with_retry (logged env) c method (build_path segs) (some query) none w)))
          (retry_sends method (some query) none w)))
