-- ===== src/Null/Laws.antt =====
-- What a nullable field becomes on the wire and back.
use mathlib.Core.Path.{subst}
use firezone_sdk_go.Common.{◌≡◌, ◌≢◌, refl, Option, none, some, Bool-cases, inl, inr, if◌then◌else◌}
use firezone_sdk_go.Error.{Result, ok, ok_injective, >>=-eq-ok}
use firezone_sdk_go.Json.{Json, null, bool, int, literal, str, arr, obj}
use firezone_sdk_go.Null.{Null, set, marshal_null, unmarshal_null, nullable, unmarshal_nullable}

-- What the receiver's pointer is: a cleared one cannot be told from one that is left out.
abbrev pub received {ℓ} : {T : Type ℓ} → Option (Null T) → Option (Null T)
received none = none
received (some n) = if n.valid then some (set n.value) else none

module _ {T : Type 0} (zero : T) (encode : T → Result Json) (decode : Json → Option T) where
  unmarshal_value :
      (j : Json) {v : T} → j ≢ null → decode j ≡ some v → unmarshal_null zero decode j ≡ ok (set v)
  unfolding unmarshal_null set
  unmarshal_value null n d = absurd (n refl)
  unmarshal_value (bool b) n d = rw (d, unmarshal_null)
  unmarshal_value (int i) n d = rw (d, unmarshal_null)
  unmarshal_value (literal s) n d = rw (d, unmarshal_null)
  unmarshal_value (str s) n d = rw (d, unmarshal_null)
  unmarshal_value (arr js) n d = rw (d, unmarshal_null)
  unmarshal_value (obj fs) n d = rw (d, unmarshal_null)

  unmarshal_present :
      (j : Json) {v : T}
      → j ≢ null
      → decode j ≡ some v
      → unmarshal_nullable zero decode (some j) ≡ ok (some (set v))
  unfolding unmarshal_nullable
  unmarshal_present null n d = absurd (n refl)
  unmarshal_present (bool b) n d = rw (unmarshal_value (bool b) n d) refl
  unmarshal_present (int i) n d = rw (unmarshal_value (int i) n d) refl
  unmarshal_present (literal s) n d = rw (unmarshal_value (literal s) n d) refl
  unmarshal_present (str s) n d = rw (unmarshal_value (str s) n d) refl
  unmarshal_present (arr js) n d = rw (unmarshal_value (arr js) n d) refl
  unmarshal_present (obj fs) n d = rw (unmarshal_value (obj fs) n d) refl

  -- If the type's own values survive a round trip and none of them is written as null, then a
  -- field of type *Null that is encoded and decoded is set to its value if it was set, and nil if
  -- it was cleared or nil: the two cannot be told apart behind decoding.
  pub unmarshal_nullable-nullable :
      (o : Option (Null T)) {m : Option Json}
      → ((v : T) (i : Json) → encode v ≡ ok i → (i ≢ null) × (decode i ≡ some v))
      → nullable encode o ≡ ok m
      → unmarshal_nullable zero decode m ≡ ok (received o)
  unfolding nullable marshal_null unmarshal_nullable
  unmarshal_nullable-nullable none h e = rw (← ok_injective e) refl
  unmarshal_nullable-nullable (some n) {m} h e =
      let (j, written, sent) = >>=-eq-ok (marshal_null encode n) _ e in
      rw (← ok_injective sent) (elim (Bool-cases n.valid) [
        | inl v ↦
            let (some_json, d) = h n.value j (unfold marshal_null in rw v at written) in
            rw v (unmarshal_present j some_json d)
        | inr v ↦ rw v (
            subst (λ i. unmarshal_nullable zero decode (some i) ≡ ok none)
              (ok_injective (unfold marshal_null in rw v at written)) refl)
      ])
