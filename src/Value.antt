-- ===== src/Value.antt =====
-- postures.go: the values of a posture node, which are of Go's type `any`, and how encoding/json
-- writes them and reads them.
use firezone_sdk_go.Common.{
  ℤ, Bool, true, false, Option, none, some, List, Bytes, map, bytes_ltb, bytes_eq, ◌||◌,
  if◌then◌else◌,
}
use firezone_sdk_go.Error.{Result, ok, err, unsupported_value, ◌>>=◌}
use firezone_sdk_go.Json.{
  Json, Items, Fields, null, bool, int, literal, str, arr, obj, nil, cons, end, field, items_of,
}

-- The text of a JSON number: that of an integer that fits an int64, or another.
pub data Number : Type 0 where
  whole : ℤ → Number
  text : Bytes → Number

abbrev pub number : Number → Json
number (whole n) = int n
number (text s) = literal s

-- A float64: by the number that encoding/json writes for it, or a NaN or an infinity.
pub data Float64 : Type 0 where
  finite : Number → Float64
  not_finite : Float64

-- The slice of a variadic parameter, which is nil where the caller gives no value.
abbrev pub Variadic {ℓ} : Type ℓ → Type ℓ
Variadic A = Option (List A)

-- A nil interface, the types that the SDK itself puts there and those that encoding/json reads; a
-- value of any other type is what json.Marshal makes of it, `none` where that is an error.
mutual
  pub data Any : Type 0 where
    nil_value : Any
    a_bool : Bool → Any
    an_int : ℤ → Any
    a_float : Float64 → Any
    a_string : Bytes → Any
    a_strings : Variadic Bytes → Any
    an_array : Anys → Any
    a_map : Entries → Any
    other : Option Json → Any

  pub data Anys : Type 0 where
    no_values : Anys
    one_value : Any → Anys → Anys

  pub data Entries : Type 0 where
    no_entries : Entries
    entry : Bytes → Any → Entries → Entries

abbrev pub is_nil : Any → Bool
is_nil nil_value = true
is_nil _ = false

-- The members of a map are written in the order of their keys.
abbrev pub insert_member : Bytes → Json → Fields → Fields
insert_member k v end = field k v end
insert_member k v (field j w fs) =
    let rest = insert_member k v fs in
    if bytes_ltb j k then field j w rest else field k v (field j w fs)

unfoldable mutual
  -- `json.Marshal` of a value.
  pub encode_any : Any → Result Json
  encode_any nil_value = ok null
  encode_any (a_bool b) = ok (bool b)
  encode_any (an_int n) = ok (int n)
  encode_any (a_float (finite x)) = ok (number x)
  encode_any (a_float not_finite) = err unsupported_value
  encode_any (a_string s) = ok (str s)
  encode_any (a_strings none) = ok null
  encode_any (a_strings (some ss)) = ok (arr (items_of (map str ss)))
  encode_any (an_array vs) = encode_anys vs >>= λ js. ok (arr js)
  encode_any (a_map es) = encode_entries es >>= λ fs. ok (obj fs)
  encode_any (other none) = err unsupported_value
  encode_any (other (some j)) = ok j

  pub encode_anys : Anys → Result Items
  encode_anys no_values = ok nil
  encode_anys (one_value v vs) = encode_any v >>= λ j. encode_anys vs >>= λ js. ok (cons j js)

  pub encode_entries : Entries → Result Fields
  encode_entries no_entries = ok end
  encode_entries (entry k v es) =
      encode_any v >>= λ j. encode_entries es >>= λ fs. ok (insert_member k j fs)

-- A member of type `any` with `omitempty`, which leaves out a nil interface only.
unfoldable pub value_json : Any → Result (Option Json)
unfolding encode_any
value_json v = encode_any v >>= λ j. ok (if is_nil v then none else some j)

infixl 5 ◌then◌
abbrev pub ◌then◌ {ℓ κ} : {A : Type ℓ} {B : Type κ} → Option A → (A → Option B) → Option B
none then k = none
some a then k = k a

abbrev pub has_entry : Bytes → Entries → Bool
has_entry k no_entries = false
has_entry k (entry j v es) = bytes_eq j k || has_entry k es

-- Of members with one key the last is kept.
abbrev pub put_entry : Bytes → Any → Entries → Entries
put_entry k v es = if has_entry k es then es else entry k v es

-- `float_of` is the number that is written for the float64 nearest to a number, `none` where that
-- is out of range.
module _ (float_of : Number → Option Number) where
  unfoldable pub read_number : Number → Option Any
  read_number x = float_of x then λ y. some (a_float (finite y))

  unfoldable mutual
    unfolding read_number

    -- `json.Unmarshal` into an `any`.
    pub read_any : Json → Option Any
    read_any null = some nil_value
    read_any (bool b) = some (a_bool b)
    read_any (int n) = read_number (whole n)
    read_any (literal s) = read_number (text s)
    read_any (str s) = some (a_string s)
    read_any (arr js) = read_items js then λ vs. some (an_array vs)
    read_any (obj fs) = read_members fs then λ es. some (a_map es)

    pub read_items : Items → Option Anys
    read_items nil = some no_values
    read_items (cons j js) = read_any j then λ v. read_items js then λ vs. some (one_value v vs)

    pub read_members : Fields → Option Entries
    read_members end = some no_entries
    read_members (field k j fs) =
        read_any j then λ v. read_members fs then λ es. some (put_entry k v es)
