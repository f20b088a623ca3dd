-- ===== src/Witnesses/Calls.antt =====
-- Concrete cases of the theorems on calls that are retried.
use firezone_sdk_go.Common.{
  ◌+◌, ◌*◌, ◌^◌, ◌≤◌, pos, pos_part, ◌≤ℤ◌, min_ℤ, max_int64, ◌≡◌, refl, none, [], ◌∷◌, codes, arith,
}
use firezone_sdk_go.Client.{second}
use firezone_sdk_go.Error.{ok}
use firezone_sdk_go.Request.{with_query, http_request, raw_request}
use firezone_sdk_go.Request.Outcome.{RawCase, raw_request-RawCase}
use firezone_sdk_go.Retry.{max_retry_wait, retry_wait, request_with_retry}
use firezone_sdk_go.Retry.Waits.{retry_wait_bounds}
use firezone_sdk_go.Retry.Protocol.{Tries, request_with_retry-Tries}
use firezone_sdk_go.Retry.Trace.{logged, Trace, request_with_retry-Trace}
use firezone_sdk_go.Path.{trim_slash, request_target, resolve_path}
use firezone_sdk_go.Url.{Url, escaped_path, path_unescape, unescape_from}
use firezone_sdk_go.Witnesses.{base, client, network, network-DrawsBelow, limited, finished_reply}

pub cap_fits : pos_part (max_retry_wait client) + 2 * second ≤ max_int64
unfolding max_retry_wait
cap_fits = omega arith

abbrev pub target : Url
target = record base { path = codes "/v1/sites/7"; raw_path = codes "/v1/sites/7" }

pub target_resolved : resolve_path base (codes "sites/7") ≡ ok target
unfolding resolve_path request_target trim_slash escaped_path path_unescape unescape_from
    firezone_sdk_go.Url.escape firezone_sdk_go.Url.should_escape_path
target_resolved = refl

request_with_retry-Trace_example :
    Trace client
      (http_request client (codes "GET") (with_query none target) none)
      1
      (request_with_retry
        (logged network)
        client
        (codes "GET")
        (codes "sites/7")
        none
        none
        (limited ∷ finished_reply ∷ [], [])).0
      (request_with_retry
        (logged network)
        client
        (codes "GET")
        (codes "sites/7")
        none
        none
        (limited ∷ finished_reply ∷ [], [])).1.1
request_with_retry-Trace_example =
    request_with_retry-Trace network client (codes "GET") (codes "sites/7") none none target
      network-DrawsBelow target_resolved refl cap_fits 1 (limited ∷ finished_reply ∷ []) refl refl

request_with_retry-Tries_example :
    Tries network client
      (codes "GET")
      (codes "sites/7")
      none
      none
      1
      (request_with_retry network client
        (codes "GET")
        (codes "sites/7")
        none
        none
        (limited ∷ finished_reply ∷ []))
      0
      (limited ∷ finished_reply ∷ [])
request_with_retry-Tries_example =
    request_with_retry-Tries network client (codes "GET") (codes "sites/7") none none 1
      (limited ∷ finished_reply ∷ []) refl refl

retry_wait_bounds_example :
    (min_ℤ (pos (7 * second)) (max_retry_wait client)
      ≤ℤ (retry_wait network client 1 (pos (7 * second)) []).0)
    × (min_ℤ (pos (2 ^ 1 * second)) (max_retry_wait client)
        ≤ℤ (retry_wait network client 1 (pos (7 * second)) []).0)
    × ((retry_wait network client 1 (pos (7 * second)) []).0
        ≤ℤ pos (pos_part (max_retry_wait client) + 2 * second))
retry_wait_bounds_example =
    retry_wait_bounds network network-DrawsBelow client 1 (pos (7 * second)) [] cap_fits

raw_request-RawCase_example :
    RawCase network client
      (codes "GET")
      (codes "sites/7")
      none
      none
      (limited ∷ [])
      (raw_request network client (codes "GET") (codes "sites/7") none none (limited ∷ []))
raw_request-RawCase_example =
    raw_request-RawCase network client (codes "GET") (codes "sites/7") none none (limited ∷ [])
