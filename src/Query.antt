-- ===== src/Query.antt =====
-- firezone.go and pagination.go: list options, filters, and the query that they become.
pub mod Laws
pub mod Read
pub mod Encoded
pub mod Filters
use firezone_sdk_go.Common.{
  ℕ, ℤ, pos, ltb_ℤ, Bool, true, false, ◌&&◌, ◌||◌, Option, none, some, List, [], ◌∷◌, ◌++◌, Bytes,
  codes, Assoc, put, find, keys, map, join_with, sort_strings, ltb, ◌==◌, if◌then◌else◌, is_empty,
}
use firezone_sdk_go.Decimal.{format_int}
use firezone_sdk_go.Url.{escape_byte, is_unreserved}

pub record ListOptions : Type 0 where
  pub limit : ℤ
  pub page_cursor : Bytes

abbrev pub no_options : ListOptions
no_options = record { limit = pos 0; page_cursor = [] }

-- `if opts == nil`: the options at their zero values.
abbrev pub or_default {ℓ} : {A : Type ℓ} → A → Option A → A
or_default z none = z
or_default z (some opts) = opts

abbrev pub put_limit : ℤ → Assoc → Assoc
put_limit n q = if ltb_ℤ (pos 0) n then put (codes "limit") (format_int n) q else q

-- One filter: it is set only where its value is not empty.
abbrev pub put_nonempty : Bytes → Bytes → Assoc → Assoc
put_nonempty k v q = if is_empty v then q else put k v q

unfoldable pub list_options_to_query : Option ListOptions → Assoc
list_options_to_query none = []
list_options_to_query (some opts) =
    put_nonempty (codes "page_cursor") opts.page_cursor (put_limit opts.limit [])

unfoldable pub put_filters : List (Bytes × Bytes) → Assoc → Assoc
put_filters [] q = q
put_filters ((k, v) ∷ kvs) q = put_filters kvs (put_nonempty k v q)

unfoldable pub filter_query : ListOptions → List (Bytes × Bytes) → Assoc
unfolding put_filters list_options_to_query
filter_query opts filters = put_filters filters (list_options_to_query (some opts))

-- `shouldEscape(c, encodeQueryComponent)`; a space is written as "+" before.
unfoldable pub should_escape_query : ℕ → Bool
unfolding is_unreserved
should_escape_query c = if is_unreserved c then false else true

unfoldable pub query_escape_byte : ℕ → Bytes
unfolding escape_byte should_escape_query
query_escape_byte c = if c == b' ' then b'+' ∷ [] else escape_byte should_escape_query c

-- `url.QueryEscape`
unfoldable pub query_escape : Bytes → Bytes
unfolding query_escape_byte
query_escape [] = []
query_escape (c ∷ s) = query_escape_byte c ++ query_escape s

-- `v[k]`, which is nil for a key that is not there.
abbrev pub value_of : Bytes → Assoc → Bytes
value_of k q = elim (find k q) [ none ↦ [] | some v ↦ v ]

unfoldable pub encode_pair : Assoc → Bytes → Bytes
encode_pair q k = query_escape k ++ b'=' ∷ query_escape (value_of k q)

-- `Values.Encode`: "key=value" joined by "&", in the order of the keys. Each key has one value.
unfoldable pub encode : Assoc → Bytes
unfolding encode_pair query_escape
encode q = join_with (codes "&") (map (encode_pair q) (sort_strings (keys q)))
