-- ===== src/Services.antt =====
-- The services, one module each, and the pieces that their entities and requests are made of. A
-- Go type over string, such as ActorType, is a `Bytes`; a time is the text that it is read from,
-- empty for the zero time.
pub mod Sites
pub mod Gateways
pub mod Groups
pub mod Memberships
pub mod PoolMembers
pub mod Actors
pub mod Clients
pub mod Resources
pub mod Policies
pub mod AuthProviders
pub mod Directories
pub mod Routes
pub mod Calls
pub mod Answers
pub mod Changes
pub mod Patches
use firezone_sdk_go.Common.{ℤ, Bool, Option, none, some, List, [], ◌∷◌, map, Bytes, if◌then◌else◌}
use firezone_sdk_go.Env.{Env}
use firezone_sdk_go.Error.{Result, ok}
use firezone_sdk_go.Json.{
  Json, null, str, arr, Fields, items_of, member, scalar, to_string, to_int, to_bool, to_list,
  to_strings, to_pointer, ◌>>=◌,
}

-- Members of an object, decoded into fields of the types string, bool, *int and []string; a slice
-- whose being nil matters is an `Option`.
abbrev pub text : Bytes → Fields → Option Bytes
text k fs = to_string (scalar k fs)

abbrev pub flag : Bytes → Fields → Option Bool
flag k fs = to_bool (scalar k fs)

abbrev pub whole_pointer : Bytes → Fields → Option (Option ℤ)
whole_pointer k fs = to_pointer to_int (member k fs)

abbrev pub texts : Bytes → Fields → Option (List Bytes)
texts k fs = to_strings (member k fs)

abbrev pub nullable_values {ℓ} :
    {A : Type ℓ} → (Json → Option A) → Bytes → Fields → Option (Option (List A))
nullable_values decode k fs = to_pointer (to_list decode) (member k fs)

abbrev pub nullable_texts : Bytes → Fields → Option (Option (List Bytes))
nullable_texts = nullable_values (λ j. to_string (some j))

-- `time.Time`: a string that its UnmarshalJSON reads; null leaves the zero time.
abbrev pub to_time : {W : Type 0} → Env W → Option Json → Option Bytes
to_time env none = some []
to_time env (some null) = some []
to_time env (some (str s)) = if env.is_time s then some s else none
to_time env (some _) = none

abbrev pub time : {W : Type 0} → Env W → Bytes → Fields → Option Bytes
time env k fs = to_time env (member k fs)

abbrev pub time_pointer : {W : Type 0} → Env W → Bytes → Fields → Option (Option Bytes)
time_pointer env k fs = to_pointer (to_time env) (member k fs)

-- A slice without `omitempty`: a nil slice is written as null.
abbrev pub nullable_list {ℓ} : {A : Type ℓ} → (A → Json) → Option (List A) → Json
nullable_list encode none = null
nullable_list encode (some as') = arr (items_of (map encode as'))

abbrev pub text_value : Bytes → Result Json
text_value s = ok (str s)

-- A request behind a pointer.
abbrev pub each {ℓ} : {A : Type ℓ} → (A → Result Json) → Option A → Option (Result Json)
each encode none = none
each encode (some a) = some (encode a)
