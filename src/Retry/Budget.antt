-- ===== src/Retry/Budget.antt =====
-- How long and how often a call retries, and what a budget of zero means.
use native.Mathlib.Nat.{mul-le-mul_right}
use firezone_sdk_go.Common.{
  ℕ, suc, ◌+◌, ◌*◌, ◌≤◌, ℤ, pos, negsuc, pos_part, ◌≤ℤ◌, max_int64, ◌≡◌, refl, ap, ◌∙◌, true, false,
  Option, List, [], ◌∷◌, Bytes, Assoc, arith, inr,
}
use firezone_sdk_go.Client.{Client, second}
use firezone_sdk_go.Env.{Env, HttpRequest, DrawsBelow}
use firezone_sdk_go.Error.{api, Result, ok, err}
use firezone_sdk_go.Path.{resolve_path}
use firezone_sdk_go.Request.{
  with_query, request_headers, attempt_timeout, http_request, send, raw_request,
}
use firezone_sdk_go.Retry.{max_retry_wait, request_with_retry}
use firezone_sdk_go.Retry.Protocol.{IsFinal}
use firezone_sdk_go.Retry.Recovery.{here, request_with_retry-answers}
use firezone_sdk_go.Retry.Trace.{
  Event, sent, waited, logged, Sends, first, next, Trace, returned, cancelled_wait,
  request_with_retry-Trace,
}
use firezone_sdk_go.Url.{Url}

-- The time that a log spends in waits, and the number of its requests.
abbrev pub total_wait : List Event → ℕ
total_wait [] = 0
total_wait (sent req ∷ log) = total_wait log
total_wait (waited d ∷ log) = pos_part d + total_wait log

abbrev pub count_sent : List Event → ℕ
count_sent [] = 0
count_sent (sent req ∷ log) = suc (count_sent log)
count_sent (waited d ∷ log) = count_sent log

-- The longest that one wait can be.
abbrev pub longest_wait : Client → ℕ
longest_wait c = pos_part (max_retry_wait c) + 2 * second

wait_le : (d : ℤ) (k : ℕ) → d ≤ℤ pos k → pos_part d ≤ k
wait_le (pos n) k h = omega arith
wait_le (negsuc n) k h = omega arith

add_round : (a k p t : ℕ) → p ≤ k → t ≤ a * k → p + t ≤ suc a * k
add_round a k p t h i = omega arith

Sends-total :
    {c : Client} {req : HttpRequest} {attempt : ℕ} {log : List Event}
    → Sends c req attempt log
    → (total_wait log ≤ attempt * longest_wait c) × (count_sent log ≡ suc attempt)
Sends-total first = (omega arith, refl)
Sends-total {c} {attempt = suc a} (next {d = d} s (low, high)) =
    let (t, n) = Sends-total s in
    (add_round a (longest_wait c) (pos_part d) _ (wait_le d (longest_wait c) high) t, ap suc n)

module _ {W : Type 0} (env : Env W) (c : Client) (method request_path : Bytes)
    (query : Option Assoc) (body : Option Bytes) (u : Url) (draws : DrawsBelow env)
    (resolved : resolve_path c.base_url request_path ≡ ok u)
    (accepted : env.accepts (with_query query u) ≡ true) (fits : longest_wait c ≤ max_int64) where
  Trace-total :
      {budget : ℕ} {r : Result Bytes} {log : List Event}
      → Trace c (http_request c method (with_query query u) body) budget r log
      → (total_wait log ≤ budget * longest_wait c)
        × (1 ≤ count_sent log)
        × (count_sent log ≤ budget + 1)
  Trace-total {budget} (returned attempt le s) =
      let (t, n) = Sends-total s in
      let more : attempt * longest_wait c ≤ budget * longest_wait c =
        mul-le-mul_right (longest_wait c) le in
      (omega arith, omega arith, omega arith)
  Trace-total {budget} (cancelled_wait attempt d earlier lt s (low, high) e r) =
      let (t, n) = Sends-total s in
      let more : suc attempt * longest_wait c ≤ budget * longest_wait c =
        mul-le-mul_right {m = suc attempt} {n = budget} (longest_wait c) (omega arith) in
      let round =
        add_round attempt (longest_wait c) (pos_part d) _ (wait_le d (longest_wait c) high) t in
      rw e (omega arith, omega arith, omega arith)

  -- Where the path resolves to a URL that is accepted, the random source draws below its bound,
  -- the longest wait fits a duration, retries are enabled and the budget is not negative, the
  -- waits of a call add up to no more than the budget times the cap and two seconds, and its
  -- requests number at least one and at most one more than the budget.
  pub request_with_retry-total :
      (budget : ℕ) (w : W)
      → c.retry_enabled ≡ true
      → c.max_retries ≡ pos budget
      → (total_wait (request_with_retry (logged env) c method request_path query body (w, [])).1.1
          ≤ budget * longest_wait c)
        × (1
            ≤ count_sent
                (request_with_retry (logged env) c method request_path query body (w, [])).1.1)
        × (count_sent (request_with_retry (logged env) c method request_path query body (w, [])).1.1
            ≤ budget + 1)
  request_with_retry-total budget w enabled m = Trace-total (
      request_with_retry-Trace env c method request_path query body u draws resolved accepted fits
        budget w enabled m)

always-IsFinal : (r : Result Bytes) → IsFinal 0 0 r
always-IsFinal (ok body) = tt
always-IsFinal (err (api failure)) = inr refl
always-IsFinal (err e) = tt

module _ {W : Type 0} (env : Env W) (c : Client) (method request_path : Bytes)
    (query : Option Assoc) (body : Option Bytes) where
  -- A client with retries enabled and a budget of zero makes a call as the same client with retries
  -- disabled does.
  pub request_with_retry-disabled :
      (w : W)
      → c.retry_enabled ≡ true
      → c.max_retries ≡ pos 0
      → request_with_retry env c method request_path query body w
        ≡ request_with_retry env
            (record c { retry_enabled = false })
            method
            request_path
            query
            body
            w
  unfolding raw_request http_request request_headers attempt_timeout send
  request_with_retry-disabled w enabled m =
      request_with_retry-answers env c method request_path query body 0 0 w w
        (raw_request env c method request_path query body w).1
        (raw_request env c method request_path query body w).0 enabled m here (omega arith) refl
        (always-IsFinal _)
      ∙ (unfold request_with_retry in refl)
