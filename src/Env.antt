-- ===== src/Env.antt =====
-- What the SDK calls and does not implement: the JSON texts of encoding/json, the network behind
-- an *http.Client, the random source and the clock. The state `W` is what lies outside the SDK.
use firezone_sdk_go.Common.{ℕ, ◌<◌, ℤ, ◌≡◌, Bool, Option, some, Assoc, Bytes}
use firezone_sdk_go.Json.{Json}
use firezone_sdk_go.Value.{Number}
use firezone_sdk_go.Url.{Url}

-- One HTTP request as `rawRequest` hands it to the transport. `timeout` is the bound that the SDK
-- puts on its context, if any.
pub record HttpRequest : Type 0 where
  pub method : Bytes
  pub url : Url
  pub headers : Assoc
  pub body : Option Bytes
  pub timeout : Option ℤ

pub record HttpResponse : Type 0 where
  pub status_code : ℕ
  pub header : Assoc
  pub body : Bytes

-- How `httpClient.Do` and `io.ReadAll` end.
pub data Exchange : Type 0 where
  failed : Exchange
  broken_body : Exchange
  replied : HttpResponse → Exchange

pub record Env (W : Type 0) : Type 0 where
  -- `json.Unmarshal` of a text, before it is decoded into a Go value; `none` is a syntax error.
  pub parse_json : Bytes → Option Json
  -- The text that `json.Marshal` writes.
  pub print_json : Json → Bytes
  -- The number that `json.Marshal` writes for the float64 nearest to a number, as
  -- `json.Unmarshal` reads one into an `any`; `none` where it is out of range.
  pub float_of : Number → Option Number
  -- Whether `time.Time` reads the text of a JSON string.
  pub is_time : Bytes → Bool
  -- `http.StatusText`
  pub status_text : ℕ → Bytes
  -- Whether `http.NewRequestWithContext` takes the URL.
  pub accepts : Url → Bool
  -- `httpClient.Do` on the client of that number, with the body read to its end.
  pub round_trip : ℕ → HttpRequest → W → Exchange × W
  -- `rand.Int(rand.Reader, big.NewInt(window))`; `none` is an error.
  pub draw : ℕ → W → Option ℕ × W
  -- The `select` on ctx.Done and a timer: true if the context was done.
  pub pause : ℤ → W → Bool × W

-- `rand.Int` returns a number below its bound.
abbrev pub DrawsBelow : {W : Type 0} → Env W → Type 0
DrawsBelow {W} env = (window : ℕ) (w : W) (n : ℕ) → (env.draw window w).0 ≡ some n → n < window
