-- ===== src/Retry/Protocol.antt =====
-- The retry loop against its protocol: which results it returns, and after which it tries again.
use firezone_sdk_go.Common.{
  ℕ, zero, suc, ◌+◌, ◌<◌, ℤ, pos, ◌≡◌, ◌≢◌, refl, ap, sym, ◌∙◌, Bool, true, false, Option, none,
  some, Bytes, Assoc, arith, Bool-cases, inl, inr, ◌⊎◌, ◌==◌, if◌then◌else◌,
}
use mathlib.Core.Path.{subst}
use firezone_sdk_go.Client.{Client}
use firezone_sdk_go.Env.{Env}
use firezone_sdk_go.Error.{ApiError, Error, api, context_done, Result, ok, err}
use firezone_sdk_go.Request.{raw_request}
use firezone_sdk_go.Response.{has_status, is_rate_limited, too_many_requests}
use firezone_sdk_go.Retry.{
  Round, return, again, rounds, at_budget, resume, retry_wait, wait_or_cancel, after_request,
  retry_loop, request_with_retry,
}

-- A result that ends the loop: any but a rate-limit response with retries left.
abbrev pub IsFinal : ℕ → ℕ → Result Bytes → Type 0
IsFinal budget attempt (ok body) = Unit
IsFinal budget attempt (err (api failure)) =
    (failure.status_code ≢ too_many_requests) ⊎ (attempt ≡ budget)
IsFinal budget attempt (err e) = Unit

at_budget-true : (a b : ℕ) (z : ℤ) → z ≡ pos b → at_budget a z ≡ true → a ≡ b
at_budget-true a b z e h = ground arith

at_budget-false : (a b : ℕ) (z : ℤ) → z ≡ pos b → at_budget a z ≡ false → a ≢ b
at_budget-false a b z e h = ground arith

pick {ℓ} : {A : Type ℓ} (b : Bool) (x y : A) → b ≡ true → (if b then x else y) ≡ x
pick b x y h = rw h refl

module _ {W : Type 0} (env : Env W) (c : Client) where
  -- The wait behind a rate-limit response, and whether it was cancelled.
  abbrev pub pause_after : ℕ → ApiError → W → Bool × W
  pause_after attempt failure w =
      env.pause (retry_wait env c attempt failure.retry_after w).0
        (retry_wait env c attempt failure.retry_after w).1

  data RoundCase (budget attempt : ℕ) (out : Result Bytes × W) (result : Round × W) : Type 0 where
    ended :
        IsFinal budget attempt out.0
        → result ≡ (return out.0, out.1)
        → RoundCase budget attempt out result
    limited :
        (failure : ApiError) (w w' : W) (cancelled : Bool)
        → out ≡ (err (api failure), w)
        → failure.status_code ≡ too_many_requests
        → attempt ≢ budget
        → pause_after attempt failure w ≡ (cancelled, w')
        → result
          ≡ (if cancelled then (return (err context_done), w') else (again (api failure), w'))
        → RoundCase budget attempt out result

  paused :
      (e : Error) (d : ℤ × W)
      → (b : Bool) × (w' : W) × (env.pause d.0 d.1 ≡ (b, w'))
        × (wait_or_cancel env e d ≡ (if b then (return (err context_done), w') else (again e, w')))
  unfolding wait_or_cancel
  paused e (d, w) = ((env.pause d w).0, (env.pause d w).1, refl, refl)

  round_case :
      (budget attempt : ℕ) (out : Result Bytes × W)
      → c.max_retries ≡ pos budget
      → RoundCase budget attempt out (after_request env c attempt out)
  unfolding after_request is_rate_limited has_status
  round_case budget attempt (ok body, w) m = ended tt refl
  round_case budget attempt (err (api failure), w) m =
      elim (Bool-cases (failure.status_code == too_many_requests)) [
        | inl h ↦ elim (Bool-cases (at_budget attempt c.max_retries)) [
          | inl k ↦ ended (inr (at_budget-true attempt budget c.max_retries m k)) (rw (h, k) refl)
          | inr k ↦
              let (b, w', p, q) =
                paused (api failure) (retry_wait env c attempt failure.retry_after w) in
              limited failure w w' b refl (ground arith)
                (at_budget-false attempt budget c.max_retries m k) p (rw (h, k) q)
        ]
        | inr h ↦ ended (inl (ground arith)) (rw h refl)
      ]
  round_case budget attempt (err e, w) m = ended tt refl

  module _ (method request_path : Bytes) (query : Option Assoc) (body : Option Bytes) where
    -- The protocol of one call: the requests that it may make from attempt number `attempt` on,
    -- with a budget of retries, and the result that it may return.
    pub data Tries (budget : ℕ) (out : Result Bytes × W) : ℕ → W → Type 0 where
      -- The request is made, and its result is returned.
      finished :
          {attempt : ℕ} {w : W}
          → raw_request env c method request_path query body w ≡ out
          → IsFinal budget attempt out.0
          → Tries budget out attempt w
      -- The request is rate limited, and the context is done while the SDK waits.
      cancelled :
          {attempt : ℕ} {w : W} (failure : ApiError) (w1 w2 : W)
          → raw_request env c method request_path query body w ≡ (err (api failure), w1)
          → failure.status_code ≡ too_many_requests
          → attempt < budget
          → pause_after attempt failure w1 ≡ (true, w2)
          → out ≡ (err context_done, w2)
          → Tries budget out attempt w
      -- The request is rate limited, and is tried again behind the wait.
      retried :
          {attempt : ℕ} {w : W} (failure : ApiError) (w1 w2 : W)
          → raw_request env c method request_path query body w ≡ (err (api failure), w1)
          → failure.status_code ≡ too_many_requests
          → attempt < budget
          → pause_after attempt failure w1 ≡ (false, w2)
          → Tries budget out (suc attempt) w2
          → Tries budget out attempt w

    loop_step :
        (left attempt : ℕ) (last : Option Error) (w : W)
        → retry_loop env c method request_path query body (suc left) attempt last w
          ≡ resume
              (λ e w'.
                retry_loop env c method request_path query body left (suc attempt) (some e) w')
              (after_request env c attempt (raw_request env c method request_path query body w))
    unfolding retry_loop
    loop_step left attempt last w = refl

    -- What a round that is followed by another leaves to prove.
    loop-Tries_step :
        (budget left attempt : ℕ) (last : Option Error) (w : W)
        → c.max_retries ≡ pos budget
        → left + attempt ≡ budget
        → ((e : Error) (w' : W)
            → attempt < budget
            → Tries budget
                (retry_loop env c method request_path query body left (suc attempt) (some e) w')
                (suc attempt)
                w')
        → Tries budget
            (retry_loop env c method request_path query body (suc left) attempt last w)
            attempt
            w
    loop-Tries_step budget left attempt last w m sum next =
        let step = loop_step left attempt last w in
        let move = λ (o : Result Bytes × W).
          subst (λ x. Tries budget x attempt w) {x = o}
            {y = retry_loop env c method request_path query body (suc left) attempt last w} in
        elim (round_case budget attempt (raw_request env c method request_path query body w) m) [
          | ended fin e ↦ move _ (sym (step ∙ ap (resume _) e)) (finished refl fin)
          | limited failure w1 w2 true o s n p e ↦
              move _ (sym (step ∙ ap (resume _) e))
                (cancelled failure w1 w2 o s (omega arith) p refl)
          | limited failure w1 w2 false o s n p e ↦
              move _ (sym (step ∙ ap (resume _) e))
                (retried failure w1 w2 o s (omega arith) p (next (api failure) w2 (omega arith)))
        ]

    loop-Tries :
        (budget left attempt : ℕ) (last : Option Error) (w : W)
        → c.max_retries ≡ pos budget
        → left + attempt ≡ budget
        → Tries budget
            (retry_loop env c method request_path query body (suc left) attempt last w)
            attempt
            w
    loop-Tries budget zero attempt last w m sum =
        loop-Tries_step budget zero attempt last w m sum (λ e w' lt. absurd (omega arith))
    loop-Tries budget (suc left) attempt last w m sum =
        loop-Tries_step budget (suc left) attempt last w m sum
          (λ e w' lt. loop-Tries budget left (suc attempt) (some e) w' m (omega arith))

    -- With retries enabled and a budget that is not negative, a call follows the protocol: it
    -- returns the result of a request, unless the context was done during a wait; it tries again
    -- exactly behind a rate-limit response with retries left; and a rate-limit response is
    -- returned only when the budget is used up.
    pub request_with_retry-Tries :
        (budget : ℕ) (w : W)
        → c.retry_enabled ≡ true
        → c.max_retries ≡ pos budget
        → Tries budget (request_with_retry env c method request_path query body w) 0 w
    unfolding request_with_retry
    request_with_retry-Tries budget w enabled m =
        subst (λ x. Tries budget x 0 w) (sym (taken enabled m))
          (loop-Tries budget budget 0 none w m (omega arith))
      where
        taken :
            c.retry_enabled ≡ true
            → c.max_retries ≡ pos budget
            → request_with_retry env c method request_path query body w
              ≡ retry_loop env c method request_path query body (suc budget) 0 none w
        taken h k =
            pick c.retry_enabled _ _ h
            ∙ ap (λ z. retry_loop env c method request_path query body (rounds z) 0 none w) k
