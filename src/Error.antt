-- ===== src/Error.antt =====
-- The errors that the SDK returns, one constructor for each place that makes one, and the results
-- of fallible code. The text of a message is modelled for an API error only (Response/Text).
use firezone_sdk_go.Common.{ℕ, ℤ, Map, List, Bytes, Option, none, some, ◌≡◌, refl}

-- errors.go: `APIError`.
pub record ApiError : Type 0 where
  pub status_code : ℕ
  pub type_uri : Bytes
  pub title : Bytes
  pub detail : Bytes
  pub validation_errors : Map (List Bytes)
  pub retry_after : ℤ

pub data Error : Type 0 where
  missing_id : Bytes → Error
  bad_segment : Bytes → Bytes → Error
  nil_request : Bytes → Error
  posture_shape : Error
  encoding_body : Error → Error
  unsupported_value : Error
  bad_raw_message : Error
  building_path : Error
  building_request : Error
  performing : Error
  reading_body : Error
  api : ApiError → Error
  context_done : Error
  no_attempts : Error
  decoding_response : Error
  decoding_data : Error
  invalid_base_url : Error
  invalid_option : Error

pub data Result {ℓ} (A : Type ℓ) : Type ℓ where
  ok : A → Result A
  err : Error → Result A

-- The early return `if err != nil { return err }` between two steps.
infixl 5 ◌>>=◌
abbrev pub ◌>>=◌ {ℓ κ} :
    {Value : Type ℓ} {Next : Type κ} → Result Value → (Value → Result Next) → Result Next
err failure >>= next = err failure
ok value >>= next = next value

-- `errors.As(err, &apiErr)`
abbrev pub as_api : Error → Option ApiError
as_api (api e) = some e
as_api _ = none

pub ok_injective {ℓ} : {A : Type ℓ} {a b : A} → ok a ≡ ok b → a ≡ b
ok_injective e = cc

-- A chain that ends well has a first step that ended well.
pub >>=-eq-ok {ℓ κ} :
    {Value : Type ℓ} {Next : Type κ} (first : Result Value) (next : Value → Result Next)
    {end : Next}
    → (first >>= next) ≡ ok end
    → (value : Value) × (first ≡ ok value) × (next value ≡ ok end)
>>=-eq-ok (err failure) next chain = cc
>>=-eq-ok (ok value) next chain = (value, refl, chain)
