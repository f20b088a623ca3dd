-- ===== src/Retry/Trace.antt =====
-- What a call of requestWithRetry is seen to do from outside: the environment is wrapped in one
-- that keeps a log of the requests sent and the waits made, the newest first.
use mathlib.Core.Path.{subst}
use firezone_sdk_go.Common.{
  ℕ, suc, ◌+◌, ◌*◌, ◌^◌, ◌<◌, ◌≤◌, ℤ, pos, pos_part, ◌≤ℤ◌, min_ℤ, max_int64, ◌≡◌, refl, ap, sym,
  ◌∙◌, Bool, true, false, Option, none, some, List, [], ◌∷◌, Bytes, Assoc, arith, half, ltb_ℤ,
  Bool-cases, inl, inr,
}
use firezone_sdk_go.Client.{Client, second}
use firezone_sdk_go.Env.{Env, HttpRequest, DrawsBelow}
use firezone_sdk_go.Error.{ApiError, api, context_done, Result, ok, err}
use firezone_sdk_go.Path.{resolve_path}
use firezone_sdk_go.Request.{with_query, http_request, send, raw_request}
use firezone_sdk_go.Retry.{
  max_retry_wait, retry_jitter, max_retry_jitter, base_wait, retry_wait, request_with_retry,
  padding,
}
use firezone_sdk_go.Retry.Waits.{retry_wait_bounds}
use firezone_sdk_go.Retry.Protocol.{
  Tries, finished, cancelled, retried, pause_after, request_with_retry-Tries,
}
use firezone_sdk_go.Url.{Url}

pub data Event : Type 0 where
  sent : HttpRequest → Event
  waited : ℤ → Event

-- The environment with a log.
abbrev pub logged : {W : Type 0} → Env W → Env (W × List Event)
logged env = record {
  parse_json = env.parse_json;
  print_json = env.print_json;
  float_of = env.float_of;
  is_time = env.is_time;
  status_text = env.status_text;
  accepts = env.accepts;
  round_trip =
      λ hc req s. ((env.round_trip hc req s.0).0, ((env.round_trip hc req s.0).1, sent req ∷ s.1));
  draw = λ k s. ((env.draw k s.0).0, ((env.draw k s.0).1, s.1));
  pause = λ d s. ((env.pause d s.0).0, ((env.pause d s.0).1, waited d ∷ s.1));
}

-- A wait in front of retry number `attempt`, counted from 0: at least the doubling backoff, as far
-- as the client's cap on waits allows, and at most two seconds above the cap.
abbrev pub WaitFits : Client → ℕ → ℤ → Type 0
WaitFits c attempt d =
    (min_ℤ (pos (2 ^ attempt * second)) (max_retry_wait c) ≤ℤ d)
    × (d ≤ℤ pos (pos_part (max_retry_wait c) + 2 * second))

-- The log behind request number `attempt`: the same request each time, and one wait between two.
pub data Sends (c : Client) (req : HttpRequest) : ℕ → List Event → Type 0 where
  first : Sends c req 0 (sent req ∷ [])
  next :
      {attempt : ℕ} {log : List Event} {d : ℤ}
      → Sends c req attempt log
      → WaitFits c attempt d
      → Sends c req (suc attempt) (sent req ∷ waited d ∷ log)

-- The log in front of request number `attempt`.
data Ready (c : Client) (req : HttpRequest) : ℕ → List Event → Type 0 where
  start : Ready c req 0 []
  behind :
      {attempt : ℕ} {log : List Event} {d : ℤ}
      → Sends c req attempt log
      → WaitFits c attempt d
      → Ready c req (suc attempt) (waited d ∷ log)

-- The log of a whole call, and its result.
pub data Trace (c : Client) (req : HttpRequest) (budget : ℕ) (r : Result Bytes) (log : List Event)
    : Type 0 where
  returned : (attempt : ℕ) → attempt ≤ budget → Sends c req attempt log → Trace c req budget r log
  cancelled_wait :
      (attempt : ℕ) (d : ℤ) (earlier : List Event)
      → attempt < budget
      → Sends c req attempt earlier
      → WaitFits c attempt d
      → log ≡ waited d ∷ earlier
      → r ≡ err context_done
      → Trace c req budget r log

Ready-Sends :
    {c : Client} {req : HttpRequest} {attempt : ℕ} {log : List Event}
    → Ready c req attempt log
    → Sends c req attempt (sent req ∷ log)
Ready-Sends start = first
Ready-Sends (behind s f) = next s f

padding_log : {W : Type 0} (o : Option ℕ) (s : W × List Event) → (padding (o, s)).1.1 ≡ s.1
padding_log none s = refl
padding_log (some n) s = refl

module _ {W : Type 0} (env : Env W) where
  jitter_log : (base : ℤ) (s : W × List Event) → (retry_jitter (logged env) base s).1.1 ≡ s.1
  unfolding retry_jitter
  jitter_log base s = elim (Bool-cases (ltb_ℤ (pos 0) (min_ℤ (half base) max_retry_jitter))) [
    | inl h ↦ rw h (padding_log _ _)
    | inr h ↦ rw h refl
  ]

  wait_log :
      (c : Client) (attempt : ℕ) (retry_after : ℤ) (s : W × List Event)
      → (retry_wait (logged env) c attempt retry_after s).1.1 ≡ s.1
  unfolding retry_wait
  wait_log c attempt retry_after s = jitter_log (base_wait c attempt retry_after) s

  pause_log :
      (c : Client) (attempt : ℕ) (failure : ApiError) (s : W × List Event)
      → (pause_after (logged env) c attempt failure s).1.1
        ≡ waited (retry_wait (logged env) c attempt failure.retry_after s).0 ∷ s.1
  pause_log c attempt failure s =
      ap (λ l. waited (retry_wait (logged env) c attempt failure.retry_after s).0 ∷ l)
        (wait_log c attempt failure.retry_after s)

module _ {W : Type 0} (env : Env W) (c : Client) (method request_path : Bytes)
    (query : Option Assoc) (body : Option Bytes) (u : Url) where
  -- The one request that the call sends.
  abbrev the_request : HttpRequest
  the_request = http_request c method (with_query query u) body

  raw_log :
      resolve_path c.base_url request_path ≡ ok u
      → env.accepts (with_query query u) ≡ true
      → (s : W × List Event)
      → (raw_request (logged env) c method request_path query body s).1.1 ≡ sent the_request ∷ s.1
  unfolding raw_request
  raw_log resolved accepted s = rw (resolved, raw_request) (rw accepted (unfold send in refl))

  module _ (draws : DrawsBelow env) (resolved : resolve_path c.base_url request_path ≡ ok u)
      (accepted : env.accepts (with_query query u) ≡ true)
      (fits : pos_part (max_retry_wait c) + 2 * second ≤ max_int64) where
    wait_fits :
        (attempt : ℕ) (retry_after : ℤ) (s : W × List Event)
        → WaitFits c attempt (retry_wait (logged env) c attempt retry_after s).0
    wait_fits attempt retry_after s =
        let (_, low, high) =
          retry_wait_bounds (logged env) (λ k t n. draws k t.0 n) c attempt retry_after s fits in
        (low, high)

    Sends-of :
        (attempt : ℕ) (s s' : W × List Event) (r : Result Bytes)
        → Ready c the_request attempt s.1
        → raw_request (logged env) c method request_path query body s ≡ (r, s')
        → Sends c the_request attempt s'.1
    Sends-of attempt s s' r ready e =
        subst (Sends c the_request attempt) (sym (raw_log resolved accepted s) ∙ ap (λ o. o.1.1) e)
          (Ready-Sends ready)

    paused_log :
        (attempt : ℕ) (failure : ApiError) (s s' : W × List Event) (b : Bool)
        → pause_after (logged env) c attempt failure s ≡ (b, s')
        → s'.1 ≡ waited (retry_wait (logged env) c attempt failure.retry_after s).0 ∷ s.1
    paused_log attempt failure s s' b e =
        sym (ap (λ o. o.1.1) e) ∙ pause_log env c attempt failure s

    Tries-Trace :
        {budget : ℕ} {out : Result Bytes × (W × List Event)} {attempt : ℕ} {s : W × List Event}
        → Tries (logged env) c method request_path query body budget out attempt s
        → attempt ≤ budget
        → Ready c the_request attempt s.1
        → Trace c the_request budget out.0 out.1.1
    Tries-Trace {out} {attempt} {s} (finished e f) le ready =
        returned attempt le (Sends-of attempt s out.1 out.0 ready e)
    Tries-Trace {out} {attempt} {s} (cancelled failure s1 s2 e st lt p q) le ready =
        cancelled_wait attempt (retry_wait (logged env) c attempt failure.retry_after s1).0 s1.1 lt
          (Sends-of attempt s s1 (err (api failure)) ready e)
          (wait_fits attempt failure.retry_after s1)
          (ap (λ o. o.1.1) q ∙ paused_log attempt failure s1 s2 true p) (ap (λ o. o.0) q)
    Tries-Trace {attempt} {s} (retried failure s1 s2 e st lt p t) le ready = Tries-Trace t lt (
        subst (Ready c the_request (suc attempt)) (sym (paused_log attempt failure s1 s2 false p)) (
          behind (Sends-of attempt s s1 (err (api failure)) ready e)
            (wait_fits attempt failure.retry_after s1)))

    -- Where the path resolves to a URL that is accepted, the random source draws below its bound,
    -- the cap on waits lies two seconds below the largest duration, retries are enabled and the
    -- budget is not negative, a call sends the same request at least once and at most once more
    -- than its budget, with exactly one wait between two requests. Each wait is at least the
    -- doubling backoff, as far as the cap allows, and at most two seconds above the cap. A call
    -- that ends during a wait returns the context's error.
    pub request_with_retry-Trace :
        (budget : ℕ) (w : W)
        → c.retry_enabled ≡ true
        → c.max_retries ≡ pos budget
        → Trace c the_request budget
            (request_with_retry (logged env) c method request_path query body (w, [])).0
            (request_with_retry (logged env) c method request_path query body (w, [])).1.1
    request_with_retry-Trace budget w enabled m =
        Tries-Trace
          (request_with_retry-Tries (logged env) c method request_path query body budget (w, [])
            enabled m)
          (omega arith) start
