-- ===== src/Services/Changes.antt =====
-- The body of an update as the changes that it asks for, one for each member.
use firezone_sdk_go.Common.{
  ◌≡◌, refl, Bool, true, not, ◌&&◌, Option, none, some, List, [], ◌∷◌, Bytes, Map, keys, arith,
  Bool-cases, inl, inr, if◌then◌else◌,
}
use firezone_sdk_go.Error.{ok}
use firezone_sdk_go.Json.{Json, null, str, Fields, end, member, same_fold, keep_some, keep_text}
use firezone_sdk_go.Null.{Null, nullable}
use firezone_sdk_go.Services.{text_value}

-- What an update does to a member: leave it as it is, take its value away, or give it another.
pub data Change : Type 0 where
  untouched cleared : Change
  becomes : Json → Change

-- How the API is told: no member, a null, or the value.
abbrev pub sent : Change → Option Json
sent untouched = none
sent cleared = some null
sent (becomes j) = some j

-- What a request asks for by a text, by a pointer, and by a pointer to a value that may be cleared.
abbrev pub text_change : Bytes → Change
text_change [] = untouched
text_change (b ∷ s) = becomes (str (b ∷ s))

abbrev pub some_change {ℓ} : {A : Type ℓ} → (A → Json) → Option A → Change
some_change encode none = untouched
some_change encode (some a) = becomes (encode a)

abbrev pub null_change : Option (Null Bytes) → Change
null_change none = untouched
null_change (some n) = if n.valid then becomes (str n.value) else cleared

-- The change of a member among the changes of a request.
abbrev pub change_at : Bytes → Map Change → Change
change_at k [] = untouched
change_at k ((j, c) ∷ cs) = if same_fold k j then c else change_at k cs

-- The members that tell these changes.
unfoldable pub write : Map Change → Fields
write [] = end
write ((k, c) ∷ cs) = keep_some (λ j. j) k (sent c) (write cs)

pub keep_text-sent :
    (k s : Bytes) (fs : Fields) → keep_text k s fs ≡ keep_some (λ j. j) k (sent (text_change s)) fs
keep_text-sent k [] fs = refl
keep_text-sent k (b ∷ s) fs = refl

pub keep_some-sent {ℓ} :
    {A : Type ℓ} (encode : A → Json) (k : Bytes) (o : Option A) (fs : Fields)
    → keep_some encode k o fs ≡ keep_some (λ j. j) k (sent (some_change encode o)) fs
keep_some-sent encode k none fs = refl
keep_some-sent encode k (some a) fs = refl

pub nullable_text : (o : Option (Null Bytes)) → nullable text_value o ≡ ok (sent (null_change o))
unfolding nullable
nullable_text none = refl
nullable_text (some n) = elim (Bool-cases n.valid) [
  | inl set ↦ rw set refl
  | inr clear ↦ rw clear refl
]

-- No two names match one key.
abbrev pub apart_from : Bytes → List Bytes → Bool
apart_from k [] = true
apart_from k (j ∷ js) = not (same_fold k j) && apart_from k js

abbrev pub all_apart : List Bytes → Bool
all_apart [] = true
all_apart (k ∷ ks) = apart_from k ks && all_apart ks

same_fold_euclidean :
    (k i j : Bytes) → same_fold k i ≡ true → same_fold k j ≡ true → same_fold i j ≡ true
same_fold_euclidean [] [] [] p q = refl
same_fold_euclidean [] [] (c ∷ j) p q = q
same_fold_euclidean [] (b ∷ i) j p q = cc
same_fold_euclidean (a ∷ k) [] j p q = cc
same_fold_euclidean (a ∷ k) (b ∷ i) [] p q = cc
same_fold_euclidean (a ∷ k) (b ∷ i) (c ∷ j) p q = ground (arith, same_fold_euclidean k i j)

not_written :
    (k i : Bytes) (cs : Map Change)
    → same_fold k i ≡ true
    → apart_from i (keys cs) ≡ true
    → member k (write cs) ≡ none
unfolding member write
not_written k i [] e h = refl
not_written k i ((j, untouched) ∷ cs) e h = not_written k i cs e (ground arith)
not_written k i ((j, cleared) ∷ cs) e h =
    ground (arith, not_written k i cs e, same_fold_euclidean k i j e)
not_written k i ((j, becomes v) ∷ cs) e h =
    ground (arith, not_written k i cs e, same_fold_euclidean k i j e)

-- Each member tells its change.
pub member-write :
    (k : Bytes) (cs : Map Change)
    → all_apart (keys cs) ≡ true
    → member k (write cs) ≡ sent (change_at k cs)
unfolding member write
member-write k [] h = refl
member-write k ((j, untouched) ∷ cs) h = ground (arith, member-write k cs, not_written k j cs)
member-write k ((j, cleared) ∷ cs) h = ground (arith, member-write k cs, not_written k j cs)
member-write k ((j, becomes v) ∷ cs) h = ground (arith, member-write k cs, not_written k j cs)
