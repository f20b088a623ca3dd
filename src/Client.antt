-- ===== src/Client.antt =====
-- firezone.go: the Client, its options and NewClient.
pub mod Laws
use firezone_sdk_go.Common.{
  ℕ, ◌*◌, ◌^◌, ℤ, pos, ltb_ℤ, Bool, true, not, ◌&&◌, ◌||◌, Option, none, some, List, [], ◌∷◌, Bytes,
  codes, if◌then◌else◌, is_empty, bytes_eq,
}
use firezone_sdk_go.Error.{Error, invalid_base_url, invalid_option, Result, ok, err, ◌>>=◌}
use firezone_sdk_go.Url.{Url}

-- `time.Second`
abbrev pub second : ℕ
second = 10 ^ 9

-- An *http.Client is known by a number; the one that NewClient makes is number 0.
pub record Client : Type 0 where
  pub base_url : Url
  pub token : Bytes
  pub http_client : ℕ
  pub user_agent : Bytes
  pub request_timeout : ℤ
  pub retry_enabled : Bool
  pub max_retries : ℤ
  pub retry_max_wait : ℤ

abbrev pub default_request_timeout : ℤ
default_request_timeout = pos (30 * second)

abbrev pub default_max_retries : ℤ
default_max_retries = pos 10

unfoldable pub with_http_client : Option ℕ → Client → Result Client
with_http_client none c = err invalid_option
with_http_client (some hc) c = ok (record c { http_client = hc })

unfoldable pub with_user_agent : Bytes → Client → Result Client
with_user_agent ua c = if is_empty ua then err invalid_option else ok (record c { user_agent = ua })

unfoldable pub with_request_timeout : ℤ → Client → Result Client
with_request_timeout d c =
    if ltb_ℤ d (pos 0) then err invalid_option else ok (record c { request_timeout = d })

unfoldable pub with_retry : Bool → ℤ → Client → Result Client
with_retry enabled max_retries c =
    if ltb_ℤ max_retries (pos 0)
    then err invalid_option
    else ok (record c { retry_enabled = enabled; max_retries = max_retries })

unfoldable pub with_retry_max_wait : ℤ → Client → Result Client
with_retry_max_wait d c = ok (record c { retry_max_wait = d })

-- A call of one of the five `With` functions.
pub data ClientOption : Type 0 where
  http_client : Option ℕ → ClientOption
  user_agent : Bytes → ClientOption
  request_timeout : ℤ → ClientOption
  retry : Bool → ℤ → ClientOption
  retry_max_wait : ℤ → ClientOption

unfoldable pub apply_option : ClientOption → Client → Result Client
unfolding with_http_client with_user_agent with_request_timeout with_retry with_retry_max_wait
apply_option (http_client hc) c = with_http_client hc c
apply_option (user_agent ua) c = with_user_agent ua c
apply_option (request_timeout d) c = with_request_timeout d c
apply_option (retry enabled n) c = with_retry enabled n c
apply_option (retry_max_wait d) c = with_retry_max_wait d c

-- The options in order, up to the first error.
unfoldable pub apply_options : List ClientOption → Client → Result Client
apply_options [] c = ok c
apply_options (o ∷ os) c = do c' ← apply_option o c; apply_options os c'

unfoldable pub check_base_url : Url → Option Error
check_base_url u =
    if not (bytes_eq u.scheme (codes "http")) && not (bytes_eq u.scheme (codes "https"))
    then some invalid_base_url
    else if is_empty u.host
    then some invalid_base_url
    else if not (is_empty u.raw_query) || u.force_query
    then some invalid_base_url
    else if not (is_empty u.fragment)
    then some invalid_base_url
    else none

unfoldable pub default_client : Bytes → Url → Bytes → Client
default_client default_user_agent parsed token = record {
  base_url = parsed;
  token = token;
  http_client = 0;
  user_agent = default_user_agent;
  request_timeout = default_request_timeout;
  retry_enabled = true;
  max_retries = default_max_retries;
  retry_max_wait = pos 0;
}

-- `parse` is `url.Parse`, and the user agent names the Go release that built the SDK.
unfoldable pub new_client :
    (parse : Bytes → Option Url) (default_user_agent base_url token : Bytes)
    → List ClientOption
    → Result Client
unfolding check_base_url default_client apply_options
new_client parse default_user_agent base_url token opts = elim (parse base_url) [
  | none ↦ err invalid_base_url
  | some parsed ↦ elim (check_base_url parsed) [
    | some e ↦ err e
    | none ↦ apply_options opts (default_client default_user_agent parsed token)
  ]
]
