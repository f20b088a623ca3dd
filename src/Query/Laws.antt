-- ===== src/Query/Laws.antt =====
-- What the query of a list call holds.
use firezone_sdk_go.Common.{
  ◌≡◌, refl, ap, ◌∙◌, ℤ, pos, ltb_ℤ, not, ◌&&◌, Option, none, some, List, [], ◌∷◌, Bytes, codes,
  Assoc, find, find-put, is_empty, bytes_eq, if◌then◌else◌, arith, Bool-cases, inl, inr,
}
use firezone_sdk_go.Decimal.{format_int}
use firezone_sdk_go.Query.{
  ListOptions, put_limit, put_nonempty, put_filters, list_options_to_query, filter_query,
}

-- The last filter of that name with a value, or what stood there before.
abbrev pub last_filter : Bytes → List (Bytes × Bytes) → Option Bytes → Option Bytes
last_filter k [] before = before
last_filter k ((j, v) ∷ rest) before =
    last_filter k rest (if is_empty v then before else if bytes_eq j k then some v else before)

-- What the options shared by all lists say of a parameter.
abbrev pub paging_value : Bytes → ListOptions → Option Bytes
paging_value k opts =
    if bytes_eq (codes "page_cursor") k && not (is_empty opts.page_cursor)
    then some opts.page_cursor
    else if bytes_eq (codes "limit") k && ltb_ℤ (pos 0) opts.limit
    then some (format_int opts.limit)
    else none

find-put_nonempty :
    (k j v : Bytes) (q : Assoc)
    → find k (put_nonempty j v q)
      ≡ (if is_empty v then find k q else if bytes_eq j k then some v else find k q)
find-put_nonempty k j v q = elim (Bool-cases (is_empty v)) [
  | inl h ↦ rw h refl
  | inr h ↦ rw h (find-put j k v q)
]

find-put_filters :
    (k : Bytes) (filters : List (Bytes × Bytes)) (q : Assoc)
    → find k (put_filters filters q) ≡ last_filter k filters (find k q)
unfolding put_filters
find-put_filters k [] q = refl
find-put_filters k ((j, v) ∷ rest) q =
    find-put_filters k rest (put_nonempty j v q)
    ∙ ap (last_filter k rest) (find-put_nonempty k j v q)

find-put_limit :
    (k : Bytes) (n : ℤ)
    → find k (put_limit n [])
      ≡ (if bytes_eq (codes "limit") k && ltb_ℤ (pos 0) n then some (format_int n) else none)
find-put_limit k n = elim (Bool-cases (ltb_ℤ (pos 0) n)) [
  | inl h ↦ rw h (find-put (codes "limit") k (format_int n) [] ∙ unfold find in ground arith)
  | inr h ↦ rw h (unfold find in ground arith)
]

find-list_options :
    (k : Bytes) (opts : ListOptions)
    → find k (list_options_to_query (some opts)) ≡ paging_value k opts
unfolding list_options_to_query find
find-list_options k opts =
    find-put_nonempty k (codes "page_cursor") opts.page_cursor _
    ∙ ground (arith, find-put_limit k opts.limit)

-- The query of a list call has, for each name, the last filter of that name that is not empty, and
-- otherwise what the shared options say: a page cursor that is not empty, a limit above zero.
pub find-filter_query :
    (k : Bytes) (opts : ListOptions) (filters : List (Bytes × Bytes))
    → find k (filter_query opts filters) ≡ last_filter k filters (paging_value k opts)
unfolding filter_query
find-filter_query k opts filters =
    find-put_filters k filters _ ∙ ap (last_filter k filters) (find-list_options k opts)
