-- ===== src/Null.antt =====
-- null.go: a value of an update request that may be cleared. A pointer *Null[T] is an `Option`.
pub mod Laws
use firezone_sdk_go.Common.{Bool, true, false, Option, none, some, Bytes, if◌then◌else◌}
use firezone_sdk_go.Error.{Result, ok, err, decoding_data, ◌>>=◌}
use firezone_sdk_go.Json.{Json, null, Fields, field}

pub record Null {ℓ} (T : Type ℓ) : Type ℓ where
  pub value : T
  pub valid : Bool

unfoldable pub set {ℓ} : {T : Type ℓ} → T → Null T
set v = record { value = v; valid = true }

-- `zero` is the zero value of the type.
unfoldable pub clear {ℓ} : {T : Type ℓ} → T → Null T
clear zero = record { value = zero; valid = false }

unfoldable pub marshal_null {ℓ} : {T : Type ℓ} → (T → Result Json) → Null T → Result Json
marshal_null encode n = if n.valid then encode n.value else ok null

unfoldable pub unmarshal_null {ℓ} : {T : Type ℓ} → T → (Json → Option T) → Json → Result (Null T)
unmarshal_null zero decode null = ok (record { value = zero; valid = false })
unmarshal_null zero decode j = elim (decode j) [
  | none ↦ err decoding_data
  | some v ↦ ok (record { value = v; valid = true })
]

-- Decoding a member into a field of type *Null[T]: a null sets the pointer to nil, and the method is
-- not called.
unfoldable pub unmarshal_nullable {ℓ} :
    {T : Type ℓ} → T → (Json → Option T) → Option Json → Result (Option (Null T))
unfolding unmarshal_null
unmarshal_nullable zero decode none = ok none
unmarshal_nullable zero decode (some null) = ok none
unmarshal_nullable zero decode (some j) = unmarshal_null zero decode j >>= λ n. ok (some n)

-- A field of type *Null[T] with `omitempty`: a nil pointer leaves the member out.
unfoldable pub nullable {ℓ} :
    {T : Type ℓ} → (T → Result Json) → Option (Null T) → Result (Option Json)
unfolding marshal_null
nullable encode none = ok none
nullable encode (some n) = marshal_null encode n >>= λ j. ok (some j)
