-- ===== src/Response.antt =====
-- errors.go: the APIError that a response becomes, and the tests on it.
pub mod Laws
pub mod Text
use firezone_sdk_go.Common.{
  ℕ, ℤ, pos, ltb_ℤ, scale64, Bool, false, Option, none, some, Map, List, [], Bytes, codes, find,
  ◌==◌, if◌then◌else◌, is_empty,
}
use firezone_sdk_go.Client.{second}
use firezone_sdk_go.Decimal.{scan_int}
use firezone_sdk_go.Env.{HttpResponse, Env}
use firezone_sdk_go.Error.{ApiError, Error, as_api}
use firezone_sdk_go.Json.{Json, member, scalar, to_struct, to_string, to_int, to_map, ◌>>=◌}

-- `problemDetailsBody`
pub record ProblemDetails : Type 0 where
  pub type_uri : Bytes
  pub title : Bytes
  pub status : ℤ
  pub detail : Bytes
  pub validation_errors : Map (List Bytes)

unfoldable pub decode_problem : Json → Option ProblemDetails
decode_problem j = do
  fs ← to_struct j
  type_uri ← to_string (scalar (codes "type") fs)
  title ← to_string (scalar (codes "title") fs)
  status ← to_int (scalar (codes "status") fs)
  detail ← to_string (scalar (codes "detail") fs)
  errs ← to_map (member (codes "validation_errors") fs)
  some (record {
    type_uri = type_uri;
    title = title;
    status = status;
    detail = detail;
    validation_errors = errs;
  })

-- A product in int64, which wraps around.
unfoldable pub parse_retry_after : Bytes → ℤ
unfolding scan_int
parse_retry_after header = if is_empty header then pos 0 else elim (scan_int header) [
  | none ↦ pos 0
  | some seconds ↦ if ltb_ℤ seconds (pos 0) then pos 0 else scale64 seconds second
]

abbrev pub too_many_requests : ℕ
too_many_requests = 429

-- `resp.Header.Get`
abbrev pub header_value : Bytes → HttpResponse → Bytes
header_value k resp = elim (find k resp.header) [ none ↦ [] | some v ↦ v ]

module _ {W : Type 0} (env : Env W) where
  unfoldable pub initial_error : HttpResponse → ApiError
  initial_error resp = record {
    status_code = resp.status_code;
    type_uri = [];
    title = env.status_text resp.status_code;
    detail = [];
    validation_errors = [];
    retry_after = pos 0;
  }

  unfoldable pub add_details : Option ProblemDetails → ApiError → ApiError
  add_details none e = e
  add_details (some p) e = record e {
    type_uri = p.type_uri;
    title = if is_empty p.title then e.title else p.title;
    detail = p.detail;
    validation_errors = p.validation_errors;
  }

  unfoldable pub parse_api_error : HttpResponse → Bytes → ApiError
  unfolding initial_error add_details decode_problem
  parse_api_error resp body =
      let parsed : Option ProblemDetails = env.parse_json body >>= decode_problem in
      let e = add_details parsed (initial_error resp) in
      if resp.status_code == too_many_requests
      then record e { retry_after = parse_retry_after (header_value (codes "Retry-After") resp) }
      else e

unfoldable pub has_status : Error → ℕ → Bool
has_status e status = elim (as_api e) [ none ↦ false | some a ↦ a.status_code == status ]

unfoldable pub is_not_found : Error → Bool
unfolding has_status
is_not_found e = has_status e 404

unfoldable pub is_conflict : Error → Bool
unfolding has_status
is_conflict e = has_status e 409

unfoldable pub is_validation : Error → Bool
unfolding has_status
is_validation e = has_status e 422

unfoldable pub is_rate_limited : Error → Bool
unfolding has_status
is_rate_limited e = has_status e too_many_requests

unfoldable pub is_forbidden : Error → Bool
unfolding has_status
is_forbidden e = has_status e 403

unfoldable pub is_unauthorized : Error → Bool
unfolding has_status
is_unauthorized e = has_status e 401
