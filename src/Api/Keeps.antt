-- ===== src/Api/Keeps.antt =====
-- A property of the outside state that every request and every wait keeps is kept by a whole call.
use mathlib.Core.Path.{subst}
use firezone_sdk_go.Common.{
  sym, ap, ℕ, zero, suc, ℤ, pos, ◌≡◌, refl, Bool, true, false, not, ◌||◌, Option, none, some, Bytes,
  Assoc, Bool-cases, Option-cases, inl, inr, half, min_ℤ, ltb_ℤ, if◌then◌else◌,
}
use firezone_sdk_go.Client.{Client}
use firezone_sdk_go.Env.{Env}
use firezone_sdk_go.Error.{Error, as_api, Result, ok, err}
use firezone_sdk_go.Request.{raw_request}
use firezone_sdk_go.Response.{is_rate_limited}
use firezone_sdk_go.Retry.{
  max_retry_jitter, padding, base_wait, at_budget, rounds, Round, return, again, resume,
  retry_jitter, retry_wait, wait_or_cancel, after_request, retry_loop, request_with_retry,
}
use firezone_sdk_go.Api.{on_success}

padding_keeps : {W : Type 0} (Q : W → Type 0) (o : Option ℕ × W) → Q o.1 → Q (padding o).1
padding_keeps Q (none, w) q = q
padding_keeps Q (some n, w) q = q

if_keeps :
    {W : Type 0} {A : Type 0} (Q : W → Type 0) (b : Bool) (x y : A × W)
    → Q x.1
    → Q y.1
    → Q (if b then x else y).1
if_keeps Q true x y p q = p
if_keeps Q false x y p q = q

pub on_success-state :
    {W : Type 0} (env : Env W) {A : Type 0} (read : Bytes → Result A) (r : Result Bytes × W)
    → (on_success env read r).1 ≡ r.1
on_success-state env read (ok body, w) = refl
on_success-state env read (err e, w) = refl

module _ {W : Type 0} (env : Env W) (Q : W → Type 0)
    (draw_keeps : (k : ℕ) (w : W) → Q w → Q (env.draw k w).1)
    (pause_keeps : (d : ℤ) (w : W) → Q w → Q (env.pause d w).1) (c : Client) where
  retry_wait_keeps :
      (attempt : ℕ) (retry_after : ℤ) (w : W) → Q w → Q (retry_wait env c attempt retry_after w).1
  unfolding retry_wait retry_jitter
  retry_wait_keeps attempt retry_after w q =
      elim (Bool-cases
        (ltb_ℤ (pos 0) (min_ℤ (half (base_wait c attempt retry_after)) max_retry_jitter))) [
          | inl h ↦ rw h (padding_keeps Q _ (draw_keeps _ w q))
          | inr h ↦ rw h q
        ]

  wait_or_cancel_keeps : (e : Error) (d : ℤ) (w : W) → Q w → Q (wait_or_cancel env e (d, w)).1
  unfolding wait_or_cancel
  wait_or_cancel_keeps e d w q = elim (Bool-cases (env.pause d w).0) [
    | inl h ↦ rw h (pause_keeps d w q)
    | inr h ↦ rw h (pause_keeps d w q)
  ]

  after_request_keeps :
      (attempt : ℕ) (out : Result Bytes × W) → Q out.1 → Q (after_request env c attempt out).1
  unfolding after_request
  after_request_keeps attempt (ok body, w) q = q
  after_request_keeps attempt (err e, w) q = elim (Option-cases (as_api e)) [
    | inl h ↦ rw (h, after_request) q
    | inr (failure, h) ↦
        rw (h, after_request)
          (elim (Bool-cases (not (is_rate_limited e) || at_budget attempt c.max_retries)) [
            | inl k ↦ rw k q
            | inr k ↦
                rw k (wait_or_cancel_keeps e _ _ (retry_wait_keeps attempt failure.retry_after w q))
          ])
  ]

  module _ (method request_path : Bytes) (query : Option Assoc) (body : Option Bytes)
      (raw_keeps : (w : W) → Q w → Q (raw_request env c method request_path query body w).1) where
    resume_keeps :
        (next : Error → W → Result Bytes × W) (r : Round × W)
        → ((e : Error) (w : W) → Q w → Q (next e w).1)
        → Q r.1
        → Q (resume next r).1
    resume_keeps next (return r, w) h q = q
    resume_keeps next (again e, w) h q = h e w q

    retry_loop_keeps :
        (left attempt : ℕ) (last : Option Error) (w : W)
        → Q w
        → Q (retry_loop env c method request_path query body left attempt last w).1
    unfolding retry_loop
    retry_loop_keeps zero attempt last w q = q
    retry_loop_keeps (suc left) attempt last w q =
        resume_keeps _ _ (λ e w' q'. retry_loop_keeps left (suc attempt) (some e) w' q')
          (after_request_keeps attempt _ (raw_keeps w q))

    pub request_with_retry-keeps :
        (w : W) → Q w → Q (request_with_retry env c method request_path query body w).1
    unfolding request_with_retry
    request_with_retry-keeps w q =
        if_keeps Q c.retry_enabled _ _ (retry_loop_keeps (rounds c.max_retries) 0 none w q)
          (raw_keeps w q)

  -- What every request brings about, a call whose budget is not negative brings about.
  pub request_with_retry-brings :
      (method request_path : Bytes) (query : Option Assoc) (body : Option Bytes)
      → ((w : W) → Q (raw_request env c method request_path query body w).1)
      → (budget : ℕ) → c.max_retries ≡ pos budget
      → (w : W) → Q (request_with_retry env c method request_path query body w).1
  unfolding request_with_retry retry_loop
  request_with_retry-brings method request_path query body brings budget m w =
      if_keeps Q c.retry_enabled _ _
        (subst (λ left. Q (retry_loop env c method request_path query body left 0 none w).1)
          (sym (ap rounds m))
          (resume_keeps method request_path query body (λ w' q. brings w') _ _
            (λ e w' q.
              retry_loop_keeps method request_path query body (λ w'' q'. brings w'') budget 1
                (some e) w' q)
            (after_request_keeps 0 _ (brings w))))
        (brings w)
