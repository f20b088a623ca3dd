-- ===== src/Witnesses/Data.antt =====
-- Concrete cases of the theorems on error responses and nullable fields.
use firezone_sdk_go.Common.{
  ◌*◌, pos, ◌≡◌, ◌≢◌, refl, Option, none, some, [], ◌∷◌, Bytes, codes, find, arith,
}
use firezone_sdk_go.Client.{second}
use firezone_sdk_go.Env.{HttpResponse}
use firezone_sdk_go.Error.{Result, ok}
use firezone_sdk_go.Decimal.{format, emit}
use firezone_sdk_go.Json.{Json, null, bool, int, literal, str, arr, obj}
use firezone_sdk_go.Null.{clear, marshal_null, nullable, unmarshal_nullable}
use firezone_sdk_go.Null.Laws.{received, unmarshal_nullable-nullable}
use firezone_sdk_go.Response.{header_value, parse_api_error, too_many_requests}
use firezone_sdk_go.Response.Laws.{parse_api_error-limited}
use firezone_sdk_go.Witnesses.{network}

abbrev limited_response : HttpResponse
limited_response = record {
  status_code = 429;
  header = (codes "Retry-After", codes "7") ∷ [];
  body = [];
}

header_seven : header_value (codes "Retry-After") limited_response ≡ format 7
unfolding find format emit
header_seven = refl

parse_api_error-limited_example :
    ((parse_api_error network limited_response []).status_code ≡ too_many_requests)
    × ((parse_api_error network limited_response []).retry_after ≡ pos (7 * second))
parse_api_error-limited_example =
    parse_api_error-limited network limited_response [] 7 refl header_seven (omega arith)

abbrev text : Bytes → Result Json
text s = ok (str s)

abbrev read_text : Json → Option Bytes
read_text (str s) = some s
read_text _ = none

text_back : (v : Bytes) (i : Json) → text v ≡ ok i → (i ≢ null) × (read_text i ≡ some v)
text_back v (str s) e = (λ k. cc, cc)
text_back v null e = cc
text_back v (bool b) e = cc
text_back v (int n) e = cc
text_back v (literal s) e = cc
text_back v (arr js) e = cc
text_back v (obj fs) e = cc

unmarshal_nullable-nullable_example :
    unmarshal_nullable [] read_text (some null) ≡ ok (received (some (clear [])))
unmarshal_nullable-nullable_example =
    unmarshal_nullable-nullable [] text read_text (some (clear [])) {m = some null} text_back
      (unfold nullable in unfold marshal_null in unfold clear in refl)
