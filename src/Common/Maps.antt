-- ===== src/Common/Maps.antt =====
-- A Go map with string keys, as an association list.
use mathlib.Core.Path.{◌≡◌, refl}
use mathlib.Core.Option.{Option, none, some}
use mathlib.Core.List.{List, [], ◌∷◌, Perm}
use native.Mathlib.Omega.{arith}
use firezone_sdk_go.Common.Tests.{if◌then◌else◌}
use firezone_sdk_go.Common.Lists.{Bytes, bytes_eq, bytes_eq_iff}

abbrev pub Map {ℓ} : Type ℓ → Type ℓ
Map V = List (Bytes × V)

abbrev pub Assoc : Type 0
Assoc = Map Bytes

module _ {ℓ} {V : Type ℓ} where
  unfoldable pub put : Bytes → V → Map V → Map V
  put k v [] = (k, v) ∷ []
  put k v ((j, w) ∷ m) = if bytes_eq j k then (k, v) ∷ m else (j, w) ∷ put k v m

  unfoldable pub find : Bytes → Map V → Option V
  find k [] = none
  find k ((j, w) ∷ m) = if bytes_eq j k then some w else find k m

  pub find-put :
      (k j : Bytes) (v : V) (m : Map V)
      → find j (put k v m) ≡ (if bytes_eq k j then some v else find j m)
  unfolding find put
  find-put k j v [] = refl
  find-put k j v ((i, w) ∷ m) =
      ground (arith, bytes_eq_iff i k, bytes_eq_iff k j, bytes_eq_iff i j, find-put k j v m)

  abbrev pub keys : Map V → List Bytes
  keys [] = []
  keys ((k, v) ∷ m) = k ∷ keys m

  -- Two lists that stand for one Go map, which a range loop may go through in either order.
  pub record SameMap (l r : Map V) : Type ℓ where
    pub same_keys : Perm (keys l) (keys r)
    pub same_values : (k : Bytes) → find k l ≡ find k r
