-- ===== src/Query/Read.antt =====
-- How a server reads the query of a URL, and that it reads what `encode` writes.
use firezone_sdk_go.Common.{
  ℕ, ◌<◌, ◌≡◌, refl, ap, ◌∙◌, Bool, true, false, not, ◌&&◌, Option, none, some, List, [], ◌∷◌, map,
  Bytes, Assoc, Lacks, IsBytes, bytes_eq, bytes_eq_iff, if◌then◌else◌, ◌==◌, arith, holds_below,
  holds_below-eq-true, split_on, cut_at, cut_at-append, All-append, map-append,
}
use firezone_sdk_go.Query.{
  should_escape_query, query_escape, query_escape_byte, value_of, encode_pair,
}
use firezone_sdk_go.Url.{path_unescape, escape, escape_byte}
use firezone_sdk_go.Url.Escape.{path_unescape-escape}

-- "+" stands for a space, and "%" with two digits for a byte.
abbrev space_of : ℕ → ℕ
space_of c = if c == b'+' then b' ' else c

unfoldable pub read_component : Bytes → Option Bytes
read_component s = path_unescape (map space_of s)

-- Two results as one, where both are there.
abbrev pub both_read {ℓ κ μ} :
    {A : Type ℓ} {B : Type κ} {C : Type μ} → (A → B → C) → Option A → Option B → Option C
both_read f none o = none
both_read f (some a) none = none
both_read f (some a) (some b) = some (f a b)

-- "key=value"
unfoldable pub read_pair : Bytes → Option (Bytes × Bytes)
unfolding read_component
read_pair p =
    both_read (λ k v. (k, v)) (read_component (cut_at b'=' p).0) (read_component (cut_at b'=' p).1)

unfoldable pub read_pairs : List Bytes → Option Assoc
unfolding read_pair
read_pairs [] = some []
read_pairs (p ∷ ps) = both_read (λ kv m. kv ∷ m) (read_pair p) (read_pairs ps)

-- The parameters of a query, in their order.
unfoldable pub read_query : Bytes → Option Assoc
unfolding read_pairs
read_query [] = some []
read_query (c ∷ s) = read_pairs (split_on b'&' (c ∷ s))

-- The escaping without its special case for a space.
abbrev spaced : ℕ → Bool
spaced c = if c == b' ' then false else should_escape_query c

-- The bytes that delimit a query: none of them is in an escaped component.
abbrev delimits_none : Bytes → Bool
delimits_none [] = true
delimits_none (d ∷ s) = not (d == b'=') && not (d == b'&') && delimits_none s

delimits_none_sound : (s : Bytes) → delimits_none s ≡ true → Lacks b'=' s × Lacks b'&' s
delimits_none_sound [] h = (tt, tt)
delimits_none_sound (d ∷ s) h = ground (arith, delimits_none_sound s)

both : (a b : Bool) → (a && b) ≡ true → (a ≡ true) × (b ≡ true)
both true b h = (refl, h)
both false b h = cc

-- One byte of a component: no delimiter, and read back as the escaping of that byte.
abbrev byte_fits : ℕ → Bool
byte_fits c =
    bytes_eq (map space_of (query_escape_byte c)) (escape_byte spaced c)
    && delimits_none (query_escape_byte c)

byte_table : holds_below byte_fits 256 ≡ true
unfolding holds_below query_escape_byte escape_byte should_escape_query
byte_table = refl

spaces_read : (c : ℕ) → c < 256 → map space_of (query_escape_byte c) ≡ escape_byte spaced c
spaces_read c lt =
    (bytes_eq_iff _ _).0 (both _ _ (holds_below-eq-true byte_fits 256 lt byte_table)).0

byte_delimits_none :
    (c : ℕ) → c < 256 → Lacks b'=' (query_escape_byte c) × Lacks b'&' (query_escape_byte c)
byte_delimits_none c lt =
    delimits_none_sound _ (both _ _ (holds_below-eq-true byte_fits 256 lt byte_table)).1

map-query_escape : (s : Bytes) → IsBytes s → map space_of (query_escape s) ≡ escape spaced s
unfolding query_escape escape
map-query_escape [] h = refl
map-query_escape (c ∷ s) (lt, h) =
    map-append space_of (query_escape_byte c) (query_escape s)
    ∙ cc (spaces_read c lt, map-query_escape s h)

pub query_escape-Lacks :
    (s : Bytes) → IsBytes s → Lacks b'=' (query_escape s) × Lacks b'&' (query_escape s)
unfolding query_escape
query_escape-Lacks [] h = (tt, tt)
query_escape-Lacks (c ∷ s) (lt, h) =
    let here = byte_delimits_none c lt in
    let behind = query_escape-Lacks s h in
    (All-append _ _ _ here.0 behind.0, All-append _ _ _ here.1 behind.1)

read_component-query_escape : (s : Bytes) → IsBytes s → read_component (query_escape s) ≡ some s
unfolding read_component should_escape_query
read_component-query_escape s h =
    ap path_unescape (map-query_escape s h) ∙ path_unescape-escape spaced s refl h

pub read_pair-encode_pair :
    (q : Assoc) (k : Bytes)
    → IsBytes k
    → IsBytes (value_of k q)
    → read_pair (encode_pair q k) ≡ some (k, value_of k q)
unfolding read_pair encode_pair
read_pair-encode_pair q k h hv =
    ap (λ c. both_read (λ k v. (k, v)) (read_component c.0) (read_component c.1))
      (cut_at-append b'=' (query_escape k) _ (query_escape-Lacks k h).0)
    ∙ ap (λ o. both_read (λ k v. (k, v)) o (read_component (query_escape (value_of k q))))
        (read_component-query_escape k h)
    ∙ ap (both_read (λ k v. (k, v)) (some k)) (read_component-query_escape (value_of k q) hv)
