-- ===== src/Client/Laws.antt =====
-- What every client that NewClient returns satisfies.
use firezone_sdk_go.Common.{
  pos, ◌≤ℤ◌, ◌≡◌, ◌≢◌, refl, true, false, Option, none, some, List, [], ◌∷◌, Bytes, codes, arith,
  ◌⊎◌, inl, inr, is_empty, bytes_eq_iff, Option-cases, ◌↔◌, All, ap, sym, ◌∙◌,
}
use mathlib.Core.Path.{subst}
use firezone_sdk_go.Error.{Result, ok, ◌>>=◌, >>=-eq-ok, ok_injective}
use firezone_sdk_go.Url.{Url}
use firezone_sdk_go.Client.{
  Client, ClientOption, apply_option, apply_options, check_base_url, default_client, new_client,
}

-- A base URL that requests can be resolved against.
pub record IsBase (u : Url) : Type 0 where
  pub scheme : (u.scheme ≡ codes "http") ⊎ (u.scheme ≡ codes "https")
  pub host : u.host ≢ []
  pub no_query : (u.raw_query ≡ []) × (u.force_query ≡ false)
  pub no_fragment : u.fragment ≡ []

-- What the retry loop and the request rely on.
pub record IsValid (c : Client) : Type 0 where
  pub base : IsBase c.base_url
  pub user_agent : c.user_agent ≢ []
  pub timeout : pos 0 ≤ℤ c.request_timeout
  pub retries : pos 0 ≤ℤ c.max_retries

empty_iff : (s : Bytes) → (is_empty s ≡ true) ↔ (s ≡ [])
empty_iff [] = (λ h. refl, λ h. refl)
empty_iff (c ∷ s) = (λ h. cc, λ h. cc)

-- The base URL is accepted exactly when it has an http or https scheme and a host, and neither a
-- query nor a fragment.
pub check_base_url-eq-none_iff : (u : Url) → (check_base_url u ≡ none) ↔ IsBase u
unfolding check_base_url
check_base_url-eq-none_iff u =
    let http = bytes_eq_iff u.scheme (codes "http") in
    let https = bytes_eq_iff u.scheme (codes "https") in
    let host = empty_iff u.host in
    let query = empty_iff u.raw_query in
    let fragment = empty_iff u.fragment in
    (
      λ h. record {
        scheme = ground arith;
        host = ground arith;
        no_query = ground arith;
        no_fragment = ground arith;
      },
      λ h. ground arith,
    )

apply_option-IsValid :
    (o : ClientOption) (c c' : Client) → IsValid c → apply_option o c ≡ ok c' → IsValid c'
unfolding apply_option
apply_option-IsValid (ClientOption.http_client none) c c' v e = cc
apply_option-IsValid (ClientOption.http_client (some hc)) c c' v e = ground arith
apply_option-IsValid (ClientOption.user_agent ua) c c' v e = ground (arith, empty_iff ua)
apply_option-IsValid (ClientOption.request_timeout d) c c' v e = ground arith
apply_option-IsValid (ClientOption.retry b n) c c' v e = ground arith
apply_option-IsValid (ClientOption.retry_max_wait d) c c' v e = ground arith

apply_options-IsValid :
    (os : List ClientOption) (c c' : Client) → IsValid c → apply_options os c ≡ ok c' → IsValid c'
unfolding apply_options
apply_options-IsValid [] c c' v e = subst IsValid (ok_injective e) v
apply_options-IsValid (o ∷ os) c c' v e =
    let (d, applied, rest) = >>=-eq-ok (apply_option o c) _ e in
    apply_options-IsValid os d c' (apply_option-IsValid o c d v applied) rest

-- What each option asks of its arguments.
abbrev pub Accepts : ClientOption → Type 0
Accepts (ClientOption.http_client hc) = hc ≢ none
Accepts (ClientOption.user_agent ua) = ua ≢ []
Accepts (ClientOption.request_timeout d) = pos 0 ≤ℤ d
Accepts (ClientOption.retry enabled n) = pos 0 ≤ℤ n
Accepts (ClientOption.retry_max_wait d) = Unit

abbrev pub Succeeds {ℓ} : {A : Type ℓ} → Result A → Type ℓ
Succeeds {A} r = (a : A) × (r ≡ ok a)

apply_option_iff : (o : ClientOption) (c : Client) → Succeeds (apply_option o c) ↔ Accepts o
unfolding apply_option
apply_option_iff (ClientOption.http_client none) c = (λ (a, h). cc, λ h. absurd (h refl))
apply_option_iff (ClientOption.http_client (some hc)) c = (λ s. ground arith, λ h. (_, refl))
apply_option_iff (ClientOption.user_agent []) c = (λ (a, h). cc, λ h. absurd (h refl))
apply_option_iff (ClientOption.user_agent (b ∷ ua)) c = (λ s. ground arith, λ h. (_, refl))
apply_option_iff (ClientOption.request_timeout d) c =
    (λ (a, h). ground arith, λ h. (record c { request_timeout = d }, ground arith))
apply_option_iff (ClientOption.retry b n) c =
    (λ (a, h). ground arith, λ h. (record c { retry_enabled = b; max_retries = n }, ground arith))
apply_option_iff (ClientOption.retry_max_wait d) c = (λ s. tt, λ h. (_, refl))

apply_options_iff :
    (os : List ClientOption) (c : Client) → Succeeds (apply_options os c) ↔ All Accepts os
unfolding apply_options
apply_options_iff [] c = (λ h. tt, λ h. (c, refl))
apply_options_iff (o ∷ os) c = (
  λ (a, e).
      let (d, applied, rest) = >>=-eq-ok (apply_option o c) _ e in
      ((apply_option_iff o c).0 (d, applied), (apply_options_iff os d).0 (a, rest)),
  λ (h, hs).
      let (d, applied) = (apply_option_iff o c).1 h in
      let (a, rest) = (apply_options_iff os d).1 hs in
      (a, ap (λ r. r >>= apply_options os) applied ∙ rest),
)

default_client-IsValid :
    (ua token : Bytes) (u : Url) → ua ≢ [] → IsBase u → IsValid (default_client ua u token)
unfolding default_client
default_client-IsValid ua token u n b = record {
  base = b;
  user_agent = n;
  timeout = omega arith;
  retries = omega arith;
}

module _ (parse : Bytes → Option Url) (ua base_url token : Bytes) (opts : List ClientOption) where
  new_client_step :
      (u : Url)
      → parse base_url ≡ some u
      → check_base_url u ≡ none
      → new_client parse ua base_url token opts ≡ apply_options opts (default_client ua u token)
  unfolding new_client
  new_client_step u p b = rw (p, new_client) (rw (b, new_client))

  new_client_inv :
      {c : Client}
      → new_client parse ua base_url token opts ≡ ok c
      → (u : Url) × (parse base_url ≡ some u)
        × (check_base_url u ≡ none)
        × (apply_options opts (default_client ua u token) ≡ ok c)
  unfolding new_client
  new_client_inv e = elim (Option-cases (parse base_url)) [
    | inl p ↦ cc (rw (p, new_client) at e)
    | inr (u, p) ↦ elim (Option-cases (check_base_url u)) [
      | inl b ↦ (u, p, b, sym (new_client_step u p b) ∙ e)
      | inr (x, b) ↦ cc (rw (b, new_client) at (rw (p, new_client) at e))
    ]
  ]

  -- NewClient succeeds exactly when the base URL parses, has an http or https scheme and a host
  -- and neither a query nor a fragment, and every option accepts its arguments.
  pub new_client_iff :
      Succeeds (new_client parse ua base_url token opts)
      ↔ (((u : Url) × (parse base_url ≡ some u) × IsBase u) × All Accepts opts)
  new_client_iff = (
    λ (c, e).
        let (u, p, b, done) = new_client_inv e in
        (
          (u, p, (check_base_url-eq-none_iff u).0 b),
          (apply_options_iff opts (default_client ua u token)).0 (c, done),
        ),
    λ ((u, p, b), accepted).
        let (c, done) = (apply_options_iff opts (default_client ua u token)).1 accepted in
        (c, new_client_step u p ((check_base_url-eq-none_iff u).1 b) ∙ done),
  )

  -- If the default user agent is not empty, every client that NewClient returns has a base URL with
  -- an http or https scheme and a host and without query or fragment, a user agent that is not
  -- empty, and neither a negative request timeout nor a negative retry budget.
  pub new_client-IsValid :
      {c : Client} → ua ≢ [] → new_client parse ua base_url token opts ≡ ok c → IsValid c
  new_client-IsValid {c} n e =
      let (u, p, b, done) = new_client_inv e in
      apply_options-IsValid opts (default_client ua u token) c
        (default_client-IsValid ua token u n ((check_base_url-eq-none_iff u).0 b)) done
