-- ===== src/Posture/Encodable.antt =====
-- The values that encoding/json writes.
use firezone_sdk_go.Common.{◌≡◌, refl, ap, Option, none, some, if◌then◌else◌}
use firezone_sdk_go.Error.{ok, >>=-eq-ok, ◌>>=◌}
use firezone_sdk_go.Json.{Json, Items, Fields, arr, obj, cons}
use firezone_sdk_go.Value.{
  Any, Anys, Entries, nil_value, a_bool, an_int, a_float, finite, not_finite, a_string, a_strings,
  an_array, a_map, other, no_values, one_value, no_entries, entry, encode_any, encode_anys,
  encode_entries, value_json, is_nil, insert_member,
}

-- At no depth a NaN, an infinity, or a value of a type that encoding/json refuses.
abbrev mutual
  pub Encodable : Any → Type 0
  Encodable nil_value = Unit
  Encodable (a_bool b) = Unit
  Encodable (an_int n) = Unit
  Encodable (a_float (finite x)) = Unit
  Encodable (a_float not_finite) = ⊥
  Encodable (a_string s) = Unit
  Encodable (a_strings ss) = Unit
  Encodable (an_array vs) = AllEncodable vs
  Encodable (a_map es) = EntriesEncodable es
  Encodable (other none) = ⊥
  Encodable (other (some j)) = Unit

  pub AllEncodable : Anys → Type 0
  AllEncodable no_values = Unit
  AllEncodable (one_value v vs) = Encodable v × AllEncodable vs

  pub EntriesEncodable : Entries → Type 0
  EntriesEncodable no_entries = Unit
  EntriesEncodable (entry k v es) = Encodable v × EntriesEncodable es

mutual
  unfolding encode_any

  any-Encodable : (v : Any) {j : Json} → encode_any v ≡ ok j → Encodable v
  any-Encodable nil_value e = tt
  any-Encodable (a_bool b) e = tt
  any-Encodable (an_int n) e = tt
  any-Encodable (a_float (finite x)) e = tt
  any-Encodable (a_float not_finite) e = cc
  any-Encodable (a_string s) e = tt
  any-Encodable (a_strings ss) e = tt
  any-Encodable (an_array vs) e =
      let (js, es, _) = >>=-eq-ok (encode_anys vs) _ e in anys-Encodable vs es
  any-Encodable (a_map es) e =
      let (fs, e', _) = >>=-eq-ok (encode_entries es) _ e in entries-Encodable es e'
  any-Encodable (other none) e = cc
  any-Encodable (other (some j)) e = tt

  anys-Encodable : (vs : Anys) {js : Items} → encode_anys vs ≡ ok js → AllEncodable vs
  anys-Encodable no_values e = tt
  anys-Encodable (one_value v vs) e =
      let (j, ej, r) = >>=-eq-ok (encode_any v) _ e in
      let (js, ejs, _) = >>=-eq-ok (encode_anys vs) _ r in
      (any-Encodable v ej, anys-Encodable vs ejs)

  entries-Encodable : (es : Entries) {fs : Fields} → encode_entries es ≡ ok fs → EntriesEncodable es
  entries-Encodable no_entries e = tt
  entries-Encodable (entry k v es) e =
      let (j, ej, r) = >>=-eq-ok (encode_any v) _ e in
      let (fs, efs, _) = >>=-eq-ok (encode_entries es) _ r in
      (any-Encodable v ej, entries-Encodable es efs)

mutual
  unfolding encode_any

  Encodable-any : (v : Any) → Encodable v → (j : Json) × (encode_any v ≡ ok j)
  Encodable-any nil_value h = (_, refl)
  Encodable-any (a_bool b) h = (_, refl)
  Encodable-any (an_int n) h = (_, refl)
  Encodable-any (a_float (finite x)) h = (_, refl)
  Encodable-any (a_float not_finite) h = absurd h
  Encodable-any (a_string s) h = (_, refl)
  Encodable-any (a_strings none) h = (_, refl)
  Encodable-any (a_strings (some ss)) h = (_, refl)
  Encodable-any (an_array vs) h = let (js, e) = Encodable-anys vs h in (arr js, rw e refl)
  Encodable-any (a_map es) h = let (fs, e) = Encodable-entries es h in (obj fs, rw e refl)
  Encodable-any (other none) h = absurd h
  Encodable-any (other (some j)) h = (j, refl)

  Encodable-anys : (vs : Anys) → AllEncodable vs → (js : Items) × (encode_anys vs ≡ ok js)
  Encodable-anys no_values h = (_, refl)
  Encodable-anys (one_value v vs) (h, hs) =
      let (j, e) = Encodable-any v h in
      let (js, es) = Encodable-anys vs hs in (cons j js, rw e (rw es refl))

  Encodable-entries :
      (es : Entries) → EntriesEncodable es → (fs : Fields) × (encode_entries es ≡ ok fs)
  Encodable-entries no_entries h = (_, refl)
  Encodable-entries (entry k v es) (h, hs) =
      let (j, e) = Encodable-any v h in
      let (fs, e') = Encodable-entries es hs in (insert_member k j fs, rw e (rw e' refl))

pub value-Encodable : (v : Any) {jv : Option Json} → value_json v ≡ ok jv → Encodable v
unfolding value_json
value-Encodable v e = let (j, ej, _) = >>=-eq-ok (encode_any v) _ e in any-Encodable v ej

pub Encodable-value : (v : Any) → Encodable v → (jv : Option Json) × (value_json v ≡ ok jv)
unfolding value_json
Encodable-value v h =
    let (j, e) = Encodable-any v h in
    (
      if is_nil v then none else some j,
      ap (λ r. r >>= λ i. ok (if is_nil v then none else some i)) e,
    )
