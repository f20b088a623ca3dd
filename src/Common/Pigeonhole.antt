-- ===== src/Common/Pigeonhole.antt =====
-- Lists of different texts.
use mathlib.Core.Path.{◌≡◌, refl, ◌∙◌}
use mathlib.Core.Bool.{true, false}
use mathlib.Core.Logic.{inl, inr}
use mathlib.Core.List.{List, [], ◌∷◌}
use Prim.Native.Nat.{suc, ◌≤◌}
use native.Mathlib.Omega.{arith}
use firezone_sdk_go.Common.Tests.{if◌then◌else◌, Bool-cases}
use firezone_sdk_go.Common.Lists.{Bytes, All, length, bytes_eq, bytes_eq_iff}
use firezone_sdk_go.Common.Sort.{holds_key}

abbrev pub Distinct : List Bytes → Type 0
Distinct [] = Unit
Distinct (k ∷ ks) = (holds_key k ks ≡ false) × Distinct ks

-- A list without the first occurrence of a text.
unfoldable without : Bytes → List Bytes → List Bytes
without k [] = []
without k (j ∷ js) = let rest = without k js in if bytes_eq j k then js else j ∷ rest

length-without :
    (k : Bytes) (js : List Bytes) → holds_key k js ≡ true → length js ≡ suc (length (without k js))
unfolding without
length-without k [] h = cc
length-without k (j ∷ js) h = ground (arith, length-without k js)

-- What is in a list and is not the text taken out.
holds_key-without :
    (k j : Bytes) (js : List Bytes)
    → bytes_eq k j ≡ false
    → holds_key j (without k js) ≡ holds_key j js
unfolding without
holds_key-without k j [] h = refl
holds_key-without k j (i ∷ js) h =
    ground (arith, holds_key-without k j js h, bytes_eq_iff i k, bytes_eq_iff i j, bytes_eq_iff k j)

-- The texts behind the first, without it in the other list.
All-without :
    (k : Bytes) (ks js : List Bytes)
    → holds_key k ks ≡ false
    → All (λ j. holds_key j js ≡ true) ks
    → All (λ j. holds_key j (without k js) ≡ true) ks
All-without k [] js h all = tt
All-without k (j ∷ ks) js h (here, all) = (
  holds_key-without k j js (ground (arith, bytes_eq_iff j k, bytes_eq_iff k j)) ∙ here,
  All-without k ks js (ground arith) all,
)

-- Different texts, all of them in a list that is no longer, are all that the list has.
pub holds_key_of_All :
    (ks js : List Bytes) (k : Bytes)
    → Distinct ks
    → All (λ j. holds_key j js ≡ true) ks
    → length js ≤ length ks
    → holds_key k js ≡ true
    → holds_key k ks ≡ true
holds_key_of_All [] [] k d all le h = h
holds_key_of_All [] (j ∷ js) k d all le h = absurd (omega (arith, le))
holds_key_of_All (i ∷ ks) js k (apart, d) (here, all) le h = elim (Bool-cases (bytes_eq i k)) [
  | inl same ↦ rw same refl
  | inr other ↦ rw other (
      holds_key_of_All ks (without i js) k d (All-without i ks js apart all)
        (omega (arith, le, length-without i js here)) (holds_key-without i k js other ∙ h))
]
