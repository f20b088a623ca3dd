-- ===== src/Retry.antt =====
-- retry.go: the waits, and the loop that retries a rate-limited request.
pub mod Waits
pub mod Protocol
pub mod Trace
pub mod Recovery
pub mod Budget
use firezone_sdk_go.Common.{
  ℕ, zero, suc, ◌+◌, ◌*◌, ◌/◌, ◌^◌, ℤ, pos, negsuc, ltb_ℤ, max_ℤ, min_ℤ, add64, half, max_int64,
  pos_part, Bool, true, false, not, ◌||◌, Option, none, some, Bytes, Assoc, leb, ◌==◌,
  if◌then◌else◌,
}
use firezone_sdk_go.Client.{Client, second}
use firezone_sdk_go.Env.{Env}
use firezone_sdk_go.Error.{Error, context_done, no_attempts, as_api, Result, ok, err}
use firezone_sdk_go.Request.{raw_request}
use firezone_sdk_go.Response.{is_rate_limited}

abbrev pub default_max_retry_wait : ℤ
default_max_retry_wait = pos (30 * second)

abbrev pub max_retry_jitter : ℤ
max_retry_jitter = pos (2 * second)

unfoldable pub max_retry_wait : Client → ℤ
max_retry_wait c =
    if ltb_ℤ (pos 0) c.retry_max_wait then c.retry_max_wait else default_max_retry_wait

-- `math.Pow` is exact below 2^30, and the product fits an int64; see Retry/Waits.
unfoldable pub exponential_backoff : ℕ → ℤ
exponential_backoff attempt = if leb 30 attempt then pos max_int64 else pos (2 ^ attempt * second)

-- What the random source gives; a failed draw is no padding.
abbrev pub padding : {W : Type 0} → Option ℕ × W → ℤ × W
padding (none, w) = (pos 0, w)
padding (some n, w) = (pos n, w)

-- The wait before the padding is added.
unfoldable pub base_wait : Client → ℕ → ℤ → ℤ
base_wait c attempt retry_after =
    min_ℤ (max_ℤ retry_after (exponential_backoff attempt)) (max_retry_wait c)

-- How one round of the loop ends: it returns, or leaves an error for the next round.
pub data Round : Type 0 where
  return : Result Bytes → Round
  again : Error → Round

-- `attempt == c.maxRetries`
abbrev pub at_budget : ℕ → ℤ → Bool
at_budget attempt (pos n) = attempt == n
at_budget attempt (negsuc n) = false

-- The rounds of `for attempt := 0; attempt <= c.maxRetries; attempt++`.
abbrev pub rounds : ℤ → ℕ
rounds (pos n) = suc n
rounds (negsuc n) = 0

-- The error behind the loop.
abbrev pub last_error : Option Error → Error
last_error none = no_attempts
last_error (some e) = e

abbrev pub resume {ℓ} : {W : Type ℓ} → (Error → W → Result Bytes × W) → Round × W → Result Bytes × W
resume next (return r, w) = (r, w)
resume next (again e, w) = next e w

module _ {W : Type 0} (env : Env W) where
  unfoldable pub retry_jitter : ℤ → W → ℤ × W
  retry_jitter base w =
      let window = min_ℤ (half base) max_retry_jitter in
      if ltb_ℤ (pos 0) window then padding (env.draw (pos_part window) w) else (pos 0, w)

  unfoldable pub retry_wait : Client → ℕ → ℤ → W → ℤ × W
  retry_wait c attempt retry_after w =
      let wait = base_wait c attempt retry_after in
      let (jitter, w') = retry_jitter wait w in (add64 wait jitter, w')

  -- The `select` on the context and the timer.
  unfoldable pub wait_or_cancel : Error → ℤ × W → Round × W
  wait_or_cancel e (wait, w) =
      let (cancelled, w') = env.pause wait w in
      if cancelled then (return (err context_done), w') else (again e, w')

  -- A round of the loop, behind its request.
  unfoldable pub after_request : Client → ℕ → Result Bytes × W → Round × W
  after_request c attempt (ok body, w) = (return (ok body), w)
  after_request c attempt (err e, w) = elim (as_api e) [
    | none ↦ (return (err e), w)
    | some failure ↦
        if not (is_rate_limited e) || at_budget attempt c.max_retries
        then (return (err e), w)
        else wait_or_cancel e (retry_wait c attempt failure.retry_after w)
  ]

  module _ (c : Client) (method request_path : Bytes) (query : Option Assoc)
      (body : Option Bytes) where
    -- The loop over the rounds that are left.
    unfoldable pub retry_loop : ℕ → ℕ → Option Error → W → Result Bytes × W
    retry_loop zero attempt last w = (err (last_error last), w)
    retry_loop (suc left) attempt last w =
        resume (λ e w'. retry_loop left (suc attempt) (some e) w')
          (after_request c attempt (raw_request env c method request_path query body w))

    unfoldable pub request_with_retry : W → Result Bytes × W
    request_with_retry w =
        let retried = retry_loop (rounds c.max_retries) 0 none w in
        if c.retry_enabled then retried else raw_request env c method request_path query body w
