-- ===== src/Response/Laws.antt =====
-- The Retry-After header of a rate-limit response, from its text to the duration.
use firezone_sdk_go.Common.{
  ℕ, ◌*◌, ◌≤◌, ℤ, pos, ◌≡◌, refl, ap, ◌∙◌, Option, none, some, Bytes, codes, arith, max_int64,
  scale64_of_fits, if◌then◌else◌, ◌==◌, ==_iff, Bool, true, false,
}
use firezone_sdk_go.Client.{second}
use firezone_sdk_go.Decimal.{format}
use firezone_sdk_go.Decimal.Laws.{scan_int-format, format-nonempty}
use firezone_sdk_go.Env.{Env, HttpResponse}
use firezone_sdk_go.Error.{ApiError}
use firezone_sdk_go.Response.{
  ProblemDetails, header_value, initial_error, add_details, parse_retry_after, parse_api_error,
  too_many_requests,
}

-- Whole seconds, as a server writes them, become that duration, as far as an int64 holds it.
pub parse_retry_after-format :
    (n : ℕ) → n * second ≤ max_int64 → parse_retry_after (format n) ≡ pos (n * second)
unfolding parse_retry_after
parse_retry_after-format n h = rw (format-nonempty n) (
    rw (scan_int-format n (omega arith), parse_retry_after)
      (ground (arith, scale64_of_fits n second h)))

module _ {W : Type 0} (env : Env W) where
  add_details-status :
      (p : Option ProblemDetails) (e : ApiError) → (add_details env p e).status_code ≡ e.status_code
  unfolding add_details
  add_details-status none e = refl
  add_details-status (some p) e = refl

  kept_status :
      (b : Bool) (e : ApiError) (r : ℤ)
      → (if b then record e { retry_after = r } else e).status_code ≡ e.status_code
  kept_status true e r = refl
  kept_status false e r = refl

  set_wait :
      (b : Bool) (e : ApiError) (r : ℤ)
      → b ≡ true
      → (if b then record e { retry_after = r } else e).retry_after ≡ r
  set_wait true e r h = refl
  set_wait false e r h = cc

  -- The error of a response has its status.
  pub parse_api_error-status :
      (resp : HttpResponse) (body : Bytes)
      → (parse_api_error env resp body).status_code ≡ resp.status_code
  unfolding parse_api_error initial_error
  parse_api_error-status resp body =
      kept_status (resp.status_code == too_many_requests) _ _ ∙ add_details-status _ _

  -- Whatever the body of a response with status 429 holds, if its Retry-After header is a number of
  -- seconds in decimal whose duration fits an int64, its error has that status and that duration.
  pub parse_api_error-limited :
      (resp : HttpResponse) (body : Bytes) (n : ℕ)
      → resp.status_code ≡ too_many_requests
      → header_value (codes "Retry-After") resp ≡ format n
      → n * second ≤ max_int64
      → ((parse_api_error env resp body).status_code ≡ too_many_requests)
        × ((parse_api_error env resp body).retry_after ≡ pos (n * second))
  unfolding parse_api_error initial_error
  parse_api_error-limited resp body n s k h = (
    parse_api_error-status resp body ∙ s,
    set_wait (resp.status_code == too_many_requests) _ _ ((==_iff _ _).1 s)
        ∙ ap parse_retry_after k
        ∙ parse_retry_after-format n h,
  )
