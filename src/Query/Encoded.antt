-- ===== src/Query/Encoded.antt =====
-- A query that `encode` writes, as a server reads it.
use firezone_sdk_go.Common.{
  ℕ, ◌≡◌, ◌≢◌, refl, ap, ◌∙◌, true, false, none, some, List, [], ◌∷◌, ◌++◌, map, Bytes, Assoc, find,
  keys, All, Lacks, IsBytes, bytes_eq, bytes_eq_iff, if◌then◌else◌, arith, Bool-cases, inl, inr,
  split_on, join_with, split_on-join, sort_strings, All-append, holds_key, holds_key-sort_strings,
  All-sort_strings,
}
use firezone_sdk_go.Query.{query_escape, value_of, encode_pair, encode}
use firezone_sdk_go.Query.Read.{
  both_read, read_pairs, read_query, query_escape-Lacks, read_pair-encode_pair,
}

-- What the parameters of these keys are.
abbrev entries : Assoc → List Bytes → Assoc
entries q [] = []
entries q (k ∷ ks) = (k, value_of k q) ∷ entries q ks

read_pairs-encode_pair :
    (q : Assoc) (ks : List Bytes)
    → All (λ k. IsBytes k × IsBytes (value_of k q)) ks
    → read_pairs (map (encode_pair q) ks) ≡ some (entries q ks)
unfolding read_pairs
read_pairs-encode_pair q [] h = refl
read_pairs-encode_pair q (k ∷ ks) ((hk, hv), h) =
    ap (λ o. both_read (λ kv m. kv ∷ m) o (read_pairs (map (encode_pair q) ks)))
      (read_pair-encode_pair q k hk hv)
    ∙ ap (both_read (λ kv m. kv ∷ m) (some (k, value_of k q))) (read_pairs-encode_pair q ks h)

encode_pair-Lacks :
    (q : Assoc) (k : Bytes) → IsBytes k → IsBytes (value_of k q) → Lacks b'&' (encode_pair q k)
unfolding encode_pair
encode_pair-Lacks q k h hv =
    All-append _ (query_escape k) _ (query_escape-Lacks k h).1
      (ground arith, (query_escape-Lacks (value_of k q) hv).1)

encode_pairs-Lacks :
    (q : Assoc) (ks : List Bytes)
    → All (λ k. IsBytes k × IsBytes (value_of k q)) ks
    → All (Lacks b'&') (map (encode_pair q) ks)
encode_pairs-Lacks q [] h = tt
encode_pairs-Lacks q (k ∷ ks) ((hk, hv), h) =
    (encode_pair-Lacks q k hk hv, encode_pairs-Lacks q ks h)

-- A text of at least one part is read part by part.
read_query_parts : (s : Bytes) → s ≢ [] → read_query s ≡ read_pairs (split_on b'&' s)
unfolding read_query
read_query_parts [] h = absurd (h refl)
read_query_parts (c ∷ s) h = refl

append-cons_nonempty : (s t : Bytes) (c : ℕ) → s ++ c ∷ t ≢ []
append-cons_nonempty [] t c = λ e. cc e
append-cons_nonempty (d ∷ s) t c = λ e. cc e

append_nonempty : (s t : Bytes) → s ≢ [] → s ++ t ≢ []
append_nonempty [] t h = absurd (h refl)
append_nonempty (c ∷ s) t h = λ e. cc e

join_with_nonempty : (d p : Bytes) (ps : List Bytes) → p ≢ [] → join_with d (p ∷ ps) ≢ []
unfolding join_with
join_with_nonempty d p [] h = h
join_with_nonempty d p (q ∷ ps) h = append_nonempty p _ h

encode_pair_nonempty : (q : Assoc) (k : Bytes) → encode_pair q k ≢ []
unfolding encode_pair
encode_pair_nonempty q k = append-cons_nonempty (query_escape k) _ b'='

read_query-join_with :
    (q : Assoc) (ks : List Bytes)
    → All (λ k. IsBytes k × IsBytes (value_of k q)) ks
    → read_query (join_with (b'&' ∷ []) (map (encode_pair q) ks)) ≡ some (entries q ks)
read_query-join_with q [] h = unfold read_query in unfold join_with in refl
read_query-join_with q (k ∷ ks) h =
    read_query_parts _ (join_with_nonempty _ _ (map (encode_pair q) ks) (encode_pair_nonempty q k))
    ∙ ap read_pairs (
        split_on-join b'&' (encode_pair q k) (map (encode_pair q) ks)
          (encode_pairs-Lacks q (k ∷ ks) h))
    ∙ read_pairs-encode_pair q (k ∷ ks) h

find-entries :
    (k : Bytes) (q : Assoc) (ks : List Bytes)
    → find k (entries q ks) ≡ (if holds_key k ks then some (value_of k q) else none)
unfolding find
find-entries k q [] = refl
find-entries k q (j ∷ ks) = ground (arith, find-entries k q ks, bytes_eq_iff j k)

holds_key_of_find :
    (k : Bytes) (q : Assoc)
    → holds_key k (keys q) ≡ elim (find k q) [ none ↦ false | some _ ↦ true ]
unfolding find
holds_key_of_find k [] = refl
holds_key_of_find k ((j, v) ∷ q) = ground (arith, holds_key_of_find k q)

find_of_holds_key :
    (k : Bytes) (q : Assoc)
    → (if holds_key k (keys q) then some (value_of k q) else none) ≡ find k q
find_of_holds_key k q = ground (arith, holds_key_of_find k q)

-- Keys and values of bytes.
abbrev pub IsByteMap : Assoc → Type 0
IsByteMap = All (λ kv. IsBytes kv.0 × IsBytes kv.1)

value_of-IsBytes : (k : Bytes) (q : Assoc) → IsByteMap q → IsBytes (value_of k q)
unfolding find
value_of-IsBytes k [] h = tt
value_of-IsBytes k ((j, v) ∷ q) ((_, hv), h) = elim (Bool-cases (bytes_eq j k)) [
  | inl same ↦ rw (value_of, same) hv
  | inr other ↦ rw (value_of, other) (value_of-IsBytes k q h)
]

keys-IsBytes :
    (p q : Assoc)
    → IsByteMap p
    → IsByteMap q
    → All (λ k. IsBytes k × IsBytes (value_of k p)) (keys q)
keys-IsBytes p [] hp hq = tt
keys-IsBytes p ((k, v) ∷ q) hp ((hk, _), hq) =
    ((hk, value_of-IsBytes k p hp), keys-IsBytes p q hp hq)

-- A query that is encoded from a map of texts of bytes is read without an error, and what is read
-- has for every key what the map has.
pub read_query-encode :
    (q : Assoc)
    → IsByteMap q
    → (ps : Assoc) × (read_query (encode q) ≡ some ps) × ((k : Bytes) → find k ps ≡ find k q)
unfolding encode
read_query-encode q h =
    let sorted = All-sort_strings _ (keys q) (keys-IsBytes q q h h) in
    (
      entries q (sort_strings (keys q)),
      read_query-join_with q (sort_strings (keys q)) sorted,
      λ k.
          find-entries k q (sort_strings (keys q))
          ∙ ap (λ b. if b then some (value_of k q) else none) (holds_key-sort_strings k (keys q))
          ∙ find_of_holds_key k q,
    )
