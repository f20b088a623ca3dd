-- ===== src/Witnesses/Recovery.antt =====
-- Concrete cases of the theorems on how a call with retries ends.
use firezone_sdk_go.Common.{
  ◌+◌, ◌*◌, ◌≤◌, ◌<◌, pos, ◌<ℤ◌, max_int64, ◌≡◌, refl, false, none, [], ◌∷◌, codes, arith,
}
use firezone_sdk_go.Client.{second, Client}
use firezone_sdk_go.Error.{ApiError, api, ok, err}
use firezone_sdk_go.Request.{raw_request}
use firezone_sdk_go.Retry.{retry_wait, request_with_retry}
use firezone_sdk_go.Retry.Budget.{
  total_wait, count_sent, longest_wait, request_with_retry-total, request_with_retry-disabled,
}
use firezone_sdk_go.Retry.Protocol.{pause_after}
use firezone_sdk_go.Retry.Recovery.{here, later, request_with_retry-answers}
use firezone_sdk_go.Retry.Trace.{logged}
use firezone_sdk_go.Witnesses.{client, network, network-DrawsBelow, limited, finished_reply}
use firezone_sdk_go.Witnesses.Calls.{target, target_resolved, cap_fits}

abbrev failure : ApiError
failure = record {
  status_code = 429;
  type_uri = [];
  title = codes "Too Many Requests";
  detail = [];
  validation_errors = [];
  retry_after = pos (7 * second);
}

limited_first :
    raw_request network client
      (codes "GET")
      (codes "sites/7")
      none
      none
      (limited ∷ finished_reply ∷ [])
    ≡ (err (api failure), finished_reply ∷ [])
unfolding raw_request firezone_sdk_go.Path.resolve_path firezone_sdk_go.Url.path_unescape
    firezone_sdk_go.Path.trim_slash firezone_sdk_go.Url.escaped_path firezone_sdk_go.Url.escape
    firezone_sdk_go.Url.should_escape_path firezone_sdk_go.Response.parse_api_error
    firezone_sdk_go.Response.parse_retry_after firezone_sdk_go.Common.find
limited_first = refl

pause_passes :
    pause_after network client 0 failure (finished_reply ∷ []) ≡ (false, finished_reply ∷ [])
unfolding retry_wait firezone_sdk_go.Retry.retry_jitter firezone_sdk_go.Retry.base_wait
    firezone_sdk_go.Retry.max_retry_wait firezone_sdk_go.Retry.exponential_backoff
pause_passes = refl

answered_next :
    raw_request network client (codes "GET") (codes "sites/7") none none (finished_reply ∷ [])
    ≡ (ok (codes "{}"), [])
unfolding raw_request firezone_sdk_go.Path.resolve_path firezone_sdk_go.Url.path_unescape
    firezone_sdk_go.Path.trim_slash firezone_sdk_go.Url.escaped_path firezone_sdk_go.Url.escape
    firezone_sdk_go.Url.should_escape_path
answered_next = refl

request_with_retry-answers_example :
    request_with_retry network client
      (codes "GET")
      (codes "sites/7")
      none
      none
      (limited ∷ finished_reply ∷ [])
    ≡ (ok (codes "{}"), [])
request_with_retry-answers_example =
    request_with_retry-answers network client (codes "GET") (codes "sites/7") none none 1 1
      (limited ∷ finished_reply ∷ []) (finished_reply ∷ []) [] (ok (codes "{}")) refl refl
      (later failure (finished_reply ∷ []) (finished_reply ∷ []) limited_first refl pause_passes
        here)
      (omega arith) answered_next tt

request_with_retry-total_example :
    (total_wait
        (request_with_retry
          (logged network)
          client
          (codes "GET")
          (codes "sites/7")
          none
          none
          (limited ∷ finished_reply ∷ [], [])).1.1
      ≤ 1 * longest_wait client)
    × (1
        ≤ count_sent
            (request_with_retry
              (logged network)
              client
              (codes "GET")
              (codes "sites/7")
              none
              none
              (limited ∷ finished_reply ∷ [], [])).1.1)
    × (count_sent
          (request_with_retry
            (logged network)
            client
            (codes "GET")
            (codes "sites/7")
            none
            none
            (limited ∷ finished_reply ∷ [], [])).1.1
        ≤ 1 + 1)
request_with_retry-total_example =
    request_with_retry-total network client (codes "GET") (codes "sites/7") none none target
      network-DrawsBelow target_resolved refl cap_fits 1 (limited ∷ finished_reply ∷ []) refl refl

abbrev no_budget : Client
no_budget = record client { max_retries = pos 0 }

request_with_retry-disabled_example :
    request_with_retry network no_budget (codes "GET") (codes "sites/7") none none (limited ∷ [])
    ≡ request_with_retry network
        (record no_budget { retry_enabled = false })
        (codes "GET")
        (codes "sites/7")
        none
        none
        (limited ∷ [])
request_with_retry-disabled_example =
    request_with_retry-disabled network no_budget (codes "GET") (codes "sites/7") none none
      (limited ∷ []) refl refl
