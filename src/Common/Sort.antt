-- ===== src/Common/Sort.antt =====
-- Sorting strings. The order is total, so that sort.Strings and any other sort give the same list.
use mathlib.Core.Path.{◌≡◌, refl, ap, ◌∙◌}
use mathlib.Core.Logic.{∥∥₁_elim, inl, inr}
use mathlib.Core.Bool.{Bool, true, false, ◌&&◌, ◌||◌}
use mathlib.Core.List.{List, [], ◌∷◌, Perm, Permᴰ}
use native.Mathlib.Omega.{arith}
use firezone_sdk_go.Common.Tests.{◌==◌, ltb, Bool-cases, if◌then◌else◌}
use firezone_sdk_go.Common.Lists.{Bytes, All, bytes_eq}

-- The order of Go strings.
abbrev pub bytes_ltb : Bytes → Bytes → Bool
bytes_ltb [] [] = false
bytes_ltb [] (_ ∷ _) = true
bytes_ltb (_ ∷ _) [] = false
bytes_ltb (a ∷ s) (b ∷ t) = ltb a b || (a == b) && bytes_ltb s t

unfoldable pub insert_string : Bytes → List Bytes → List Bytes
insert_string k [] = k ∷ []
insert_string k (j ∷ m) =
    let rest = insert_string k m in if bytes_ltb j k then j ∷ rest else k ∷ j ∷ m

unfoldable pub sort_strings : List Bytes → List Bytes
sort_strings [] = []
sort_strings (k ∷ m) = insert_string k (sort_strings m)

antisymmetric : (s t : Bytes) → bytes_ltb s t ≡ false → bytes_ltb t s ≡ false → s ≡ t
antisymmetric [] [] h k = refl
antisymmetric [] (b ∷ t) h k = cc
antisymmetric (a ∷ s) [] h k = cc
antisymmetric (a ∷ s) (b ∷ t) h k = ground (arith, antisymmetric s t)

pub asymmetric : (s t : Bytes) → bytes_ltb s t ≡ true → bytes_ltb t s ≡ false
asymmetric [] [] h = cc
asymmetric [] (b ∷ t) h = refl
asymmetric (a ∷ s) [] h = cc
asymmetric (a ∷ s) (b ∷ t) h = ground (arith, asymmetric s t)

-- What is not below a string is above all below it.
pub below_trans :
    (r s t : Bytes) → bytes_ltb r s ≡ false → bytes_ltb r t ≡ true → bytes_ltb s t ≡ true
below_trans [] [] [] h k = cc
below_trans [] [] (c ∷ t) h k = refl
below_trans [] (b ∷ s) t h k = cc
below_trans (a ∷ r) [] [] h k = cc
below_trans (a ∷ r) [] (c ∷ t) h k = refl
below_trans (a ∷ r) (b ∷ s) [] h k = cc
below_trans (a ∷ r) (b ∷ s) (c ∷ t) h k = ground (arith, below_trans r s t)

insert_comm :
    (a b : Bytes) (l : List Bytes)
    → insert_string a (insert_string b l) ≡ insert_string b (insert_string a l)
unfolding insert_string
insert_comm a b [] = ground (arith, antisymmetric a b, asymmetric a b, asymmetric b a)
insert_comm a b (x ∷ l) = ground (
  arith,
  insert_comm a b l,
  antisymmetric a b,
  asymmetric a b,
  asymmetric b a,
  below_trans x b a,
  below_trans x a b,
)

swapped :
    (a b x y : Bytes) (l : List Bytes)
    → a ≡ y
    → b ≡ x
    → insert_string a (insert_string b l) ≡ insert_string x (insert_string y l)
swapped a b x y l e f = rw (e, f) (insert_comm y x l)

sort_strings-Permᴰ : {l r : List Bytes} → Permᴰ l r → sort_strings l ≡ sort_strings r
unfolding sort_strings
sort_strings-Permᴰ Permᴰ.nil = refl
sort_strings-Permᴰ (Permᴰ.cons e p) = cc (e, sort_strings-Permᴰ p)
sort_strings-Permᴰ (Permᴰ.swap e f) = swapped _ _ _ _ _ e f
sort_strings-Permᴰ (Permᴰ.trans p q) = sort_strings-Permᴰ p ∙ sort_strings-Permᴰ q

-- Strings in any order are sorted into the same list.
pub sort_strings-Perm : {l r : List Bytes} → Perm l r → sort_strings l ≡ sort_strings r
sort_strings-Perm p = ∥∥₁_elim p (hlevel) sort_strings-Permᴰ

abbrev pub holds_key : Bytes → List Bytes → Bool
holds_key k [] = false
holds_key k (j ∷ js) = bytes_eq j k || holds_key k js

holds_key-insert_string :
    (k j : Bytes) (js : List Bytes)
    → holds_key k (insert_string j js) ≡ (bytes_eq j k || holds_key k js)
unfolding insert_string
holds_key-insert_string k j [] = refl
holds_key-insert_string k j (i ∷ js) = ground (arith, holds_key-insert_string k j js)

pub holds_key-sort_strings :
    (k : Bytes) (js : List Bytes) → holds_key k (sort_strings js) ≡ holds_key k js
unfolding sort_strings
holds_key-sort_strings k [] = refl
holds_key-sort_strings k (j ∷ js) =
    holds_key-insert_string k j (sort_strings js)
    ∙ ap (λ b. bytes_eq j k || b) (holds_key-sort_strings k js)

All-insert_string :
    (P : Bytes → Type 0) (k : Bytes) (ks : List Bytes) → P k → All P ks → All P (insert_string k ks)
unfolding insert_string
All-insert_string P k [] p h = (p, tt)
All-insert_string P k (j ∷ ks) p (pj, h) = elim (Bool-cases (bytes_ltb j k)) [
  | inl below ↦ rw below (pj, All-insert_string P k ks p h)
  | inr above ↦ rw above (p, (pj, h))
]

pub All-sort_strings : (P : Bytes → Type 0) (ks : List Bytes) → All P ks → All P (sort_strings ks)
unfolding sort_strings
All-sort_strings P [] h = tt
All-sort_strings P (k ∷ ks) (p, h) = All-insert_string P k _ p (All-sort_strings P ks h)
