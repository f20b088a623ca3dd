-- ===== src/Query/Filters.antt =====
-- The query of a list call, as a server reads it.
use firezone_sdk_go.Common.{
  ℕ, zero, suc, ◌+◌, ◌/◌, ◌%◌, ◌≡◌, ◌∙◌, ℤ, pos, negsuc, ltb_ℤ, some, List, [], ◌∷◌, Bytes, codes,
  Assoc, put, find, IsBytes, is_empty, ltb, bytes_eq, arith, Bool-cases, inl, inr,
}
use firezone_sdk_go.Decimal.{emit, format, format_int}
use firezone_sdk_go.Query.{
  ListOptions, put_limit, put_nonempty, put_filters, list_options_to_query, filter_query, encode,
}
use firezone_sdk_go.Query.Encoded.{IsByteMap, read_query-encode}
use firezone_sdk_go.Query.Laws.{last_filter, paging_value, find-filter_query}
use firezone_sdk_go.Query.Read.{read_query}

put-IsByteMap :
    (k v : Bytes) (q : Assoc) → IsBytes k → IsBytes v → IsByteMap q → IsByteMap (put k v q)
unfolding put
put-IsByteMap k v [] hk hv h = ((hk, hv), tt)
put-IsByteMap k v ((j, w) ∷ q) hk hv (hj, h) = elim (Bool-cases (bytes_eq j k)) [
  | inl same ↦ rw same ((hk, hv), h)
  | inr other ↦ rw other (hj, put-IsByteMap k v q hk hv h)
]

put_nonempty-IsByteMap :
    (k v : Bytes) (q : Assoc) → IsBytes k → IsBytes v → IsByteMap q → IsByteMap (put_nonempty k v q)
put_nonempty-IsByteMap k v q hk hv h = elim (Bool-cases (is_empty v)) [
  | inl none_given ↦ rw none_given h
  | inr given ↦ rw given (put-IsByteMap k v q hk hv h)
]

put_filters-IsByteMap :
    (filters : List (Bytes × Bytes)) (q : Assoc)
    → IsByteMap filters
    → IsByteMap q
    → IsByteMap (put_filters filters q)
unfolding put_filters
put_filters-IsByteMap [] q hf h = h
put_filters-IsByteMap ((k, v) ∷ filters) q ((hk, hv), hf) h =
    put_filters-IsByteMap filters (put_nonempty k v q) hf (put_nonempty-IsByteMap k v q hk hv h)

emit-IsBytes : (f n : ℕ) (out : Bytes) → IsBytes out → IsBytes (emit f n out)
unfolding emit
emit-IsBytes zero n out h = h
emit-IsBytes (suc f) n out h =
    let shown : IsBytes ((b'0' + n % 10) ∷ out) = (omega arith, h) in
    let rest = emit-IsBytes f (n / 10) ((b'0' + n % 10) ∷ out) shown in
    elim (Bool-cases (ltb n 10)) [ inl last ↦ rw last shown | inr more ↦ rw more rest ]

format_int-IsBytes : (n : ℤ) → IsBytes (format_int n)
unfolding format_int format
format_int-IsBytes (pos n) = emit-IsBytes 20 n [] tt
format_int-IsBytes (negsuc n) = (omega arith, emit-IsBytes 20 (suc n) [] tt)

put_limit-IsByteMap : (n : ℤ) → IsByteMap (put_limit n [])
put_limit-IsByteMap n = elim (Bool-cases (ltb_ℤ (pos 0) n)) [
  | inl given ↦
      rw given
        (put-IsByteMap (codes "limit") (format_int n) [] (ground arith) (format_int-IsBytes n) tt)
  | inr absent ↦ rw absent tt
]

-- A server that reads the query of a list call gets no error, and finds for each name the last
-- filter of that name that is not empty, and otherwise what the shared options say: a page cursor
-- that is not empty, a limit above zero. The filters and the page cursor are texts of bytes.
pub read_query-filter_query :
    (opts : ListOptions) (filters : List (Bytes × Bytes))
    → IsBytes opts.page_cursor
    → IsByteMap filters
    → (ps : Assoc) × (read_query (encode (filter_query opts filters)) ≡ some ps)
      × ((k : Bytes) → find k ps ≡ last_filter k filters (paging_value k opts))
unfolding filter_query list_options_to_query
read_query-filter_query opts filters hc hf =
    let options =
      put_nonempty-IsByteMap (codes "page_cursor") opts.page_cursor (put_limit opts.limit [])
        (ground arith) hc (put_limit-IsByteMap opts.limit) in
    let (ps, read, same) =
      read_query-encode (filter_query opts filters) (put_filters-IsByteMap filters _ hf options) in
    (ps, read, λ k. same k ∙ find-filter_query k opts filters)
