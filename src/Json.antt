-- ===== src/Json.antt =====
-- JSON values, as encoding/json encodes Go values into them and decodes them into Go values. The
-- bytes of a JSON text are read and written by the environment; see Env.
use firezone_sdk_go.Common.{
  map, ℕ, ◌+◌, ℤ, Bool, true, false, ◌&&◌, Option, none, some, List, [], ◌∷◌, Bytes, Map, find, leb,
  ◌==◌, if◌then◌else◌,
}

-- A number is an integer that fits an int64, the only numbers that the SDK's own types hold, or the
-- text of another literal.
mutual
  pub data Json : Type 0 where
    null : Json
    bool : Bool → Json
    int : ℤ → Json
    literal : Bytes → Json
    str : Bytes → Json
    arr : Items → Json
    obj : Fields → Json

  pub data Items : Type 0 where
    nil : Items
    cons : Json → Items → Items

  pub data Fields : Type 0 where
    end : Fields
    field : Bytes → Json → Fields → Fields

abbrev pub items : Items → List Json
items nil = []
items (cons j js) = j ∷ items js

abbrev pub items_of : List Json → Items
items_of [] = nil
items_of (j ∷ js) = cons j (items_of js)

abbrev pub fields_of : List (Bytes × Json) → Fields
fields_of [] = end
fields_of ((k, j) ∷ fs) = field k j (fields_of fs)

-- Keys of an object match a field's name without regard to the case of ASCII letters.
abbrev pub lower : ℕ → ℕ
lower c = if leb b'A' c && leb c b'Z' then c + 32 else c

abbrev pub same_fold : Bytes → Bytes → Bool
same_fold [] [] = true
same_fold [] (_ ∷ _) = false
same_fold (_ ∷ _) [] = false
same_fold (a ∷ s) (b ∷ t) = (lower a == lower b) && same_fold s t

-- The last member of an object that matches a name.
unfoldable pub member : Bytes → Fields → Option Json
member k end = none
member k (field j v fs) = elim (member k fs) [
  | some w ↦ some w
  | none ↦ if same_fold k j then some v else none
]

abbrev pub not_null : Json → Option Json
not_null null = none
not_null j = some j

-- The last member that matches a name and is not null: what sets a field of type string, int or
-- bool, which a null leaves as it is.
unfoldable pub scalar : Bytes → Fields → Option Json
scalar k end = none
scalar k (field j v fs) = elim (scalar k fs) [
  | some w ↦ some w
  | none ↦ if same_fold k j then not_null v else none
]

infixl 5 ◌>>=◌
abbrev pub ◌>>=◌ {ℓ κ} : {A : Type ℓ} {B : Type κ} → Option A → (A → Option B) → Option B
none >>= k = none
some a >>= k = k a

-- Decoding a member into a field of Go type string, int, []string or map[string][]string. An
-- absent member and a null leave the zero value; a value of another kind is an error, `none`.
unfoldable pub to_string : Option Json → Option Bytes
to_string none = some []
to_string (some null) = some []
to_string (some (str s)) = some s
to_string (some _) = none

unfoldable pub to_int : Option Json → Option ℤ
to_int none = some (ℤ.pos 0)
to_int (some null) = some (ℤ.pos 0)
to_int (some (int n)) = some n
to_int (some _) = none

unfoldable pub to_all {ℓ} : {A : Type ℓ} → (Json → Option A) → List Json → Option (List A)
to_all decode [] = some []
to_all decode (j ∷ js) = do a ← decode j; as' ← to_all decode js; some (a ∷ as')

unfoldable pub to_list {ℓ} : {A : Type ℓ} → (Json → Option A) → Option Json → Option (List A)
to_list decode none = some []
to_list decode (some null) = some []
to_list decode (some (arr js)) = to_all decode (items js)
to_list decode (some _) = none

unfoldable pub to_strings : Option Json → Option (List Bytes)
to_strings = to_list (λ j. to_string (some j))

-- Of members with one key the last is kept.
abbrev pub put_first {ℓ} : {V : Type ℓ} → Bytes → V → Map V → Map V
put_first k v m = elim (find k m) [ none ↦ (k, v) ∷ m | some w ↦ m ]

unfoldable pub to_string_map : Fields → Option (Map (List Bytes))
to_string_map end = some []
to_string_map (field k v fs) = do
  vs ← to_strings (some v)
  rest ← to_string_map fs
  some (put_first k vs rest)

unfoldable pub to_map : Option Json → Option (Map (List Bytes))
to_map none = some []
to_map (some null) = some []
to_map (some (obj fs)) = to_string_map fs
to_map (some _) = none

-- The members of an object that is decoded into a struct; null leaves the struct as it is.
unfoldable pub to_struct : Json → Option Fields
to_struct (obj fs) = some fs
to_struct null = some end
to_struct _ = none

unfoldable pub to_bool : Option Json → Option Bool
to_bool none = some false
to_bool (some null) = some false
to_bool (some (bool b)) = some b
to_bool (some _) = none

-- A pointer field: nil for an absent member and for null.
unfoldable pub to_pointer {ℓ} :
    {A : Type ℓ} → (Option Json → Option A) → Option Json → Option (Option A)
to_pointer decode none = some none
to_pointer decode (some null) = some none
to_pointer decode (some j) = do a ← decode (some j); some (some a)

-- The members of a struct that is encoded: a field with `omitempty` is left out at its zero value.
abbrev pub keep : Bytes → Json → Fields → Fields
keep k j fs = field k j fs

abbrev pub keep_text : Bytes → Bytes → Fields → Fields
keep_text k [] fs = fs
keep_text k (b ∷ s) fs = field k (str (b ∷ s)) fs

abbrev pub keep_some {ℓ} : {A : Type ℓ} → (A → Json) → Bytes → Option A → Fields → Fields
keep_some encode k none fs = fs
keep_some encode k (some a) fs = field k (encode a) fs

abbrev pub keep_list {ℓ} : {A : Type ℓ} → (A → Json) → Bytes → List A → Fields → Fields
keep_list encode k [] fs = fs
keep_list encode k (a ∷ as') fs = field k (arr (items_of (map encode (a ∷ as')))) fs
