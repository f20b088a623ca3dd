-- ===== src/Witnesses/Pages.antt =====
-- Concrete cases of the theorem on pages: the names of two sites.
use firezone_sdk_go.Common.{pos, ◌≡◌, refl, Option, some, none, List, [], ◌∷◌, Bytes, codes}
use firezone_sdk_go.Api.{Page, do_list}
use firezone_sdk_go.Api.Pages.{envelope, do_list-envelope}
use firezone_sdk_go.Env.{Env, Exchange}
use firezone_sdk_go.Error.{ok}
use firezone_sdk_go.Json.{Json, str}
use firezone_sdk_go.Retry.{request_with_retry}
use firezone_sdk_go.Witnesses.{client, network, finished_reply}

abbrev two_names : Page Bytes
two_names = record {
  items = codes "berlin" ∷ codes "lima" ∷ [];
  metadata = record { count = pos 12; limit = pos 2; next_page = codes "c2"; prev_page = [] };
}

abbrev read_name : Json → Option Bytes
read_name (str s) = some s
read_name _ = none

abbrev listing : Env (List Exchange)
listing = record network { parse_json = λ s. some (envelope str two_names) }

answered :
    request_with_retry listing client
      (codes "GET")
      (codes "sites")
      (some [])
      none
      (finished_reply ∷ [])
    ≡ (ok (codes "{}"), [])
unfolding request_with_retry firezone_sdk_go.Retry.retry_loop firezone_sdk_go.Retry.after_request
    firezone_sdk_go.Request.raw_request firezone_sdk_go.Path.resolve_path
    firezone_sdk_go.Url.path_unescape firezone_sdk_go.Path.trim_slash
    firezone_sdk_go.Url.escaped_path firezone_sdk_go.Url.escape
    firezone_sdk_go.Url.should_escape_path
answered = refl

do_list-envelope_example :
    do_list listing client (codes "GET") (codes "sites") [] read_name (finished_reply ∷ [])
    ≡ (ok two_names, [])
do_list-envelope_example =
    do_list-envelope str read_name listing client (codes "GET") (codes "sites") [] two_names
      (codes "{}") (finished_reply ∷ []) [] (refl, (refl, tt)) refl answered
