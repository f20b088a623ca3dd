-- ===== src/Witnesses/Routes.antt =====
-- Concrete cases of the theorems on operations of the services.
use firezone_sdk_go.Common.{◌≡◌, refl, true, none, some, [], ◌∷◌, codes, All, IsBytes}
use firezone_sdk_go.Error.{bad_segment}
use firezone_sdk_go.Retry.Trace.{logged}
use firezone_sdk_go.Services.Calls.{IsTo}
use firezone_sdk_go.Url.{Url, escaped_path, path_unescape, unescape_from, path_escape}
use firezone_sdk_go.Services.Answers.{has_request}
use firezone_sdk_go.Services.Routes.Answers.{run-sends}
use firezone_sdk_go.Services.Routes.{Op, sites_delete, run, gateways_get, gateways_rotate_token}
use firezone_sdk_go.Services.Routes.Table.{segments, ids}
use firezone_sdk_go.Services.Routes.Sends.{run-IsTo}
use firezone_sdk_go.Services.Routes.Refuses.{first_refused, run-refused}
use firezone_sdk_go.Path.{
  check_id, build_path, join_slash, resolve_path, request_target, trim_slash,
}
use firezone_sdk_go.Witnesses.{
  is_bytes_sound, client, network, base-IsBytes, limited, finished_reply,
}

rotate-IsBytes : All IsBytes (segments (gateways_rotate_token (codes "s/1") (codes "g1")))
rotate-IsBytes = (
  is_bytes_sound (codes "sites") refl,
  (
    is_bytes_sound (codes "s/1") refl,
    (
      is_bytes_sound (codes "gateways") refl,
      (
        is_bytes_sound (codes "g1") refl,
        (is_bytes_sound (codes "token") refl, (is_bytes_sound (codes "rotate") refl, tt)),
      ),
    ),
  ),
)

run-IsTo_example :
    All
      (IsTo client
        (codes "POST")
        (build_path (segments (gateways_rotate_token (codes "s/1") (codes "g1")))))
      (run
        (logged network)
        client
        (gateways_rotate_token (codes "s/1") (codes "g1"))
        (limited ∷ finished_reply ∷ [], [])).1.1
run-IsTo_example =
    run-IsTo network client base-IsBytes (gateways_rotate_token (codes "s/1") (codes "g1"))
      (limited ∷ finished_reply ∷ []) rotate-IsBytes

dots_refused :
    first_refused (ids (gateways_get (codes "s1") (codes "..")))
    ≡ some (bad_segment (codes "Gateway ID") (codes ".."))
unfolding check_id
dots_refused = refl

run-refused_example :
    run network client (gateways_get (codes "s1") (codes "..")) (finished_reply ∷ [])
    ≡ (some (bad_segment (codes "Gateway ID") (codes "..")), finished_reply ∷ [])
run-refused_example =
    run-refused network client (gateways_get (codes "s1") (codes "..")) (finished_reply ∷ [])
      (bad_segment (codes "Gateway ID") (codes "..")) dots_refused

abbrev deletion : Op
deletion = sites_delete (codes "s/1")

deletion-IsBytes : All IsBytes (segments deletion)
deletion-IsBytes = (is_bytes_sound (codes "sites") refl, (is_bytes_sound (codes "s/1") refl, tt))

network_accepts : (u : Url) → network.accepts u ≡ true
network_accepts u = refl

deletion_succeeds : (run (logged network) client deletion (finished_reply ∷ [], [])).0 ≡ none
unfolding run firezone_sdk_go.Services.Sites.delete firezone_sdk_go.Services.Routes.outcome
    firezone_sdk_go.Api.unless firezone_sdk_go.Api.client_do firezone_sdk_go.Api.read_data
    firezone_sdk_go.Retry.request_with_retry firezone_sdk_go.Retry.retry_loop
    firezone_sdk_go.Retry.after_request firezone_sdk_go.Request.raw_request
    firezone_sdk_go.Request.send firezone_sdk_go.Request.read_exchange
    firezone_sdk_go.Request.with_query check_id resolve_path request_target trim_slash escaped_path
    path_unescape unescape_from build_path join_slash path_escape
    firezone_sdk_go.Url.should_escape_path firezone_sdk_go.Url.unhex
deletion_succeeds = refl

run-sends_example :
    has_request (run (logged network) client deletion (finished_reply ∷ [], [])).1.1 ≡ true
run-sends_example =
    run-sends network client base-IsBytes network_accepts 1 refl deletion (finished_reply ∷ [])
      deletion-IsBytes deletion_succeeds
