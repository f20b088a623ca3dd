-- ===== src/Witnesses.antt =====
-- A client of https://api.example.com/v1, a scripted network and its replies, on which the
-- theorems are applied.
mod Paths
mod Calls
mod Clients
mod Postures
mod Data
mod Routes
mod Recovery
mod Texts
mod Pages
mod PostureFields
mod Genposture
use firezone_sdk_go.Common.{
  ℕ, zero, suc, ◌+◌, ◌*◌, ◌^◌, ◌≤◌, ◌<◌, ℤ, pos, negsuc, pos_part, ◌≤ℤ◌, min_ℤ, max_int64, ◌≡◌, ◌≢◌,
  ◌↔◌, ◌⊎◌, refl, Bool, true, false, ◌&&◌, Option, none, some, List, [], ◌∷◌, Bytes, codes, Assoc,
  find, All, IsBytes, arith, ltb, ltb→lt, inl, inr,
}
use firezone_sdk_go.Client.{
  second, Client, ClientOption, new_client, check_base_url, apply_options, apply_option, with_retry,
  with_user_agent, default_client,
}
use firezone_sdk_go.Client.Laws.{
  IsBase, IsValid, Succeeds, Accepts, new_client-IsValid, new_client_iff,
  check_base_url-eq-none_iff,
}
use firezone_sdk_go.Env.{Env, HttpResponse, Exchange, failed, replied, DrawsBelow}
use firezone_sdk_go.Error.{Error, missing_id, bad_segment, Result, ok, err}
use firezone_sdk_go.Decimal.{format, emit, scan_int}
use firezone_sdk_go.Decimal.Laws.{scan_int-format}
use firezone_sdk_go.Json.{Json, null, bool, int, literal, str, arr, obj, nil, cons, end, field}
use firezone_sdk_go.Query.{ListOptions, filter_query}
use firezone_sdk_go.Request.{with_query, http_request}
use firezone_sdk_go.Response.{header_value, parse_api_error, too_many_requests}
use firezone_sdk_go.Response.Laws.{parse_api_error-limited}
use firezone_sdk_go.Retry.{max_retry_wait, exponential_backoff, retry_wait, request_with_retry}
use firezone_sdk_go.Retry.Waits.{retry_wait_bounds, exponential_backoff_exact}
use firezone_sdk_go.Retry.Protocol.{Tries, request_with_retry-Tries}
use firezone_sdk_go.Retry.Trace.{logged, Trace, request_with_retry-Trace}
use firezone_sdk_go.Services.Calls.{IsTo}
use firezone_sdk_go.Services.Routes.{run, gateways_get, gateways_rotate_token}
use firezone_sdk_go.Services.Routes.Table.{segments, ids}
use firezone_sdk_go.Services.Routes.Sends.{run-IsTo}
use firezone_sdk_go.Services.Routes.Refuses.{first_refused, run-refused}
use firezone_sdk_go.Path.{check_id, build_path, trim_slash, request_target, resolve_path}
use firezone_sdk_go.Path.Segments.{
  read_path, read_path-build_path, build_path-IsPlain, IsPlain, split_slash, EndsNowhere,
}
use firezone_sdk_go.Path.Resolve.{IsResolved, resolve_path-build_path}
use firezone_sdk_go.Url.{Url, escaped_path, path_unescape, unescape_from}

abbrev pub is_bytes : Bytes → Bool
is_bytes [] = true
is_bytes (c ∷ s) = ltb c 256 && is_bytes s

pub is_bytes_sound : (s : Bytes) → is_bytes s ≡ true → IsBytes s
is_bytes_sound [] h = tt
is_bytes_sound (c ∷ s) h = (ground arith, is_bytes_sound s (ground arith))

abbrev pub base : Url
base = record {
  scheme = codes "https";
  host = codes "api.example.com";
  path = codes "/v1";
  raw_path = [];
  force_query = false;
  raw_query = [];
  fragment = [];
}

abbrev pub client : Client
client = record {
  base_url = base;
  token = codes "t0ken";
  http_client = 0;
  user_agent = codes "firezone-sdk-go";
  request_timeout = pos (30 * second);
  retry_enabled = true;
  max_retries = pos 1;
  retry_max_wait = pos 0;
}

abbrev play : List Exchange → Exchange × List Exchange
play [] = (failed, [])
play (x ∷ xs) = (x, xs)

abbrev low_draw : ℕ → Option ℕ
low_draw zero = none
low_draw (suc n) = some 0

abbrev pub network : Env (List Exchange)
network = record {
  parse_json = λ s. none;
  print_json = λ j. codes "{}";
  float_of = λ x. some x;
  is_time = λ s. true;
  status_text = λ n. codes "Too Many Requests";
  accepts = λ u. true;
  round_trip = λ hc req w. play w;
  draw = λ k w. (low_draw k, w);
  pause = λ d w. (false, w);
}

low_draw_below : (k n : ℕ) → low_draw k ≡ some n → n < k
low_draw_below zero n h = cc
low_draw_below (suc k) zero h = omega arith
low_draw_below (suc k) (suc n) h = cc

pub network-DrawsBelow : DrawsBelow network
network-DrawsBelow k w n h = low_draw_below k n h

pub base-IsBytes : IsBytes base.path
base-IsBytes = is_bytes_sound (codes "/v1") refl

-- A rate-limited reply that asks for seven seconds, and one that ends the call.
abbrev pub limited : Exchange
limited =
    replied
      (record { status_code = 429; header = (codes "Retry-After", codes "7") ∷ []; body = [] })

abbrev pub finished_reply : Exchange
finished_reply = replied (record { status_code = 200; header = []; body = codes "{}" })
