-- ===== src/Retry/Recovery.antt =====
-- Calls whose rate limit passes: the answer behind the rate-limit responses.
use firezone_sdk_go.Common.{
  ℕ, zero, suc, ◌+◌, ◌≤◌, ◌<◌, ℤ, pos, ◌≡◌, refl, ap, ◌∙◌, Bool, true, false, Option, none, some,
  Bytes, Assoc, arith, inl, inr, if◌then◌else◌, not, ◌||◌,
}
use firezone_sdk_go.Client.{Client}
use firezone_sdk_go.Env.{Env}
use firezone_sdk_go.Error.{ApiError, Error, api, Result, ok, err}
use firezone_sdk_go.Request.{raw_request}
use firezone_sdk_go.Response.{has_status, is_rate_limited, too_many_requests}
use firezone_sdk_go.Retry.{
  return, again, rounds, at_budget, resume, retry_wait, wait_or_cancel, after_request, retry_loop,
  request_with_retry,
}
use firezone_sdk_go.Retry.Protocol.{IsFinal, pause_after}

at_budget-eq-true : (a b : ℕ) (z : ℤ) → z ≡ pos b → a ≡ b → at_budget a z ≡ true
at_budget-eq-true a b z e h = ground arith

at_budget-eq-false : (a b : ℕ) (z : ℤ) → z ≡ pos b → a < b → at_budget a z ≡ false
at_budget-eq-false a b z e h = ground arith

take_first {ℓ} : {A : Type ℓ} (b : Bool) (x y : A) → b ≡ true → (if b then x else y) ≡ x
take_first true x y h = refl
take_first false x y h = cc

take_second {ℓ} : {A : Type ℓ} (b : Bool) (x y : A) → b ≡ false → (if b then x else y) ≡ y
take_second true x y h = cc
take_second false x y h = refl

module _ {W : Type 0} (env : Env W) (c : Client) where
  final_returns :
      (budget attempt : ℕ) (r : Result Bytes) (w : W)
      → c.max_retries ≡ pos budget
      → IsFinal budget attempt r
      → after_request env c attempt (r, w) ≡ (return r, w)
  unfolding after_request is_rate_limited has_status
  final_returns budget attempt (ok body) w m f = refl
  final_returns budget attempt (err (api failure)) w m (inl other) =
      take_first (not (is_rate_limited (api failure)) || at_budget attempt c.max_retries) _ _
        (ground arith)
  final_returns budget attempt (err (api failure)) w m (inr e) =
      take_first (not (is_rate_limited (api failure)) || at_budget attempt c.max_retries) _ _
        (ground (arith, at_budget-eq-true attempt budget c.max_retries m e))
  final_returns budget attempt (err e) w m f = refl

  limited_repeats :
      (budget attempt : ℕ) (failure : ApiError) (w w' : W)
      → c.max_retries ≡ pos budget
      → failure.status_code ≡ too_many_requests
      → attempt < budget
      → pause_after env c attempt failure w ≡ (false, w')
      → after_request env c attempt (err (api failure), w) ≡ (again (api failure), w')
  unfolding after_request is_rate_limited has_status wait_or_cancel
  limited_repeats budget attempt failure w w' m s lt p =
      take_second (not (is_rate_limited (api failure)) || at_budget attempt c.max_retries) _ _
        (ground (arith, at_budget-eq-false attempt budget c.max_retries m lt))
      ∙ take_second
          (env.pause (retry_wait env c attempt failure.retry_after w).0
            (retry_wait env c attempt failure.retry_after w).1).0
          _ _ (ap (λ o. o.0) p)
      ∙ ap (λ v. (again (api failure), v)) (ap (λ o. o.1) p)

  module _ (method request_path : Bytes) (query : Option Assoc) (body : Option Bytes) where
    -- From one attempt and state to another, over rate-limit responses and waits that run out.
    pub data Limited : ℕ → W → ℕ → W → Type 0 where
      here : {attempt : ℕ} {w : W} → Limited attempt w attempt w
      later :
          {attempt last : ℕ} {w w' : W} (failure : ApiError) (w1 w2 : W)
          → raw_request env c method request_path query body w ≡ (err (api failure), w1)
          → failure.status_code ≡ too_many_requests
          → pause_after env c attempt failure w1 ≡ (false, w2)
          → Limited (suc attempt) w2 last w'
          → Limited attempt w last w'

    Limited-le : {a b : ℕ} {w w' : W} → Limited a w b w' → a ≤ b
    Limited-le here = omega arith
    Limited-le (later failure w1 w2 e s p l) = omega (arith, Limited-le l)

    loop-answers :
        (budget left attempt answered : ℕ) (last : Option Error) (w w' w'' : W) (r : Result Bytes)
        → c.max_retries ≡ pos budget
        → left + attempt ≡ budget
        → Limited attempt w answered w'
        → answered ≤ budget
        → raw_request env c method request_path query body w' ≡ (r, w'')
        → IsFinal budget answered r
        → retry_loop env c method request_path query body (suc left) attempt last w ≡ (r, w'')
    unfolding retry_loop
    loop-answers budget left attempt answered last w w' w'' r m sum here le e f =
        ap (resume _) (ap (after_request env c attempt) e ∙ final_returns budget attempt r w'' m f)
    loop-answers budget zero attempt answered last w w' w'' r m sum (later failure w1 w2 e1 s p l)
          le e f =
        absurd (omega (arith, Limited-le l))
    loop-answers budget (suc left) attempt answered last w w' w'' r m sum
          (later failure w1 w2 e1 s p l) le e f =
        ap (resume _) (
          ap (after_request env c attempt) e1
          ∙ limited_repeats budget attempt failure w1 w2 m s (omega (arith, Limited-le l)) p)
        ∙ loop-answers budget left (suc attempt) answered (some (api failure)) w2 w' w'' r m
            (omega arith) l le e f

    -- With retries enabled and a budget that is not negative: if some number of rate-limit
    -- responses within the budget, each behind a wait that runs out, is followed by a response
    -- that is not a rate limit, or that finds the budget used up, then the call returns it.
    pub request_with_retry-answers :
        (budget answered : ℕ) (w w' w'' : W) (r : Result Bytes)
        → c.retry_enabled ≡ true
        → c.max_retries ≡ pos budget
        → Limited 0 w answered w'
        → answered ≤ budget
        → raw_request env c method request_path query body w' ≡ (r, w'')
        → IsFinal budget answered r
        → request_with_retry env c method request_path query body w ≡ (r, w'')
    unfolding request_with_retry
    request_with_retry-answers budget answered w w' w'' r enabled m l le e f =
        take_first _ _ _ enabled
        ∙ ap (λ left. retry_loop env c method request_path query body left 0 none w) (ap rounds m)
        ∙ loop-answers budget budget 0 answered none w w' w'' r m (omega arith) l le e f
