-- ===== src/Api/Pages.antt =====
-- A page of a list, from the API's envelope to the caller.
use firezone_sdk_go.Common.{
  ℤ, ◌≡◌, refl, ap, ◌∙◌, Option, none, some, List, [], ◌∷◌, Bytes, codes, Assoc, All, map,
}
use firezone_sdk_go.Api.{
  Page, decode_metadata, decode_page, or_error, read_page, on_success, do_list,
}
use firezone_sdk_go.Client.{Client}
use firezone_sdk_go.Env.{Env}
use firezone_sdk_go.Error.{decoding_response, ok}
use firezone_sdk_go.Json.{
  Json, null, int, str, arr, obj, items, items_of, end, field, member, to_string, to_int, to_all,
  scalar, to_list, to_struct, ◌>>=◌,
}
use firezone_sdk_go.Retry.{request_with_retry}

-- The API's cursor: null where there is no page.
abbrev pub cursor : Bytes → Json
cursor [] = null
cursor (b ∷ s) = str (b ∷ s)

-- The envelope of a page whose items are encoded in that way.
abbrev pub envelope : {A : Type 0} → (A → Json) → Page A → Json
envelope encode page = obj (
    field (codes "data") (arr (items_of (map encode page.items))) (
      field (codes "metadata")
        (obj (
          field (codes "count") (int page.metadata.count) (
            field (codes "limit") (int page.metadata.limit) (
              field (codes "next_page") (cursor page.metadata.next_page)
                (field (codes "prev_page") (cursor page.metadata.prev_page) end)))))
        end))

metadata_read :
    (count limit : ℤ) (next_page prev_page : Bytes)
    → decode_metadata (
        some (
          obj (
            field (codes "count") (int count) (
              field (codes "limit") (int limit) (
                field
                  (codes "next_page")
                  (cursor next_page)
                  (field (codes "prev_page") (cursor prev_page) end))))))
      ≡ some (record { count = count; limit = limit; next_page = next_page; prev_page = prev_page })
unfolding decode_metadata scalar to_struct to_int to_string
metadata_read count limit [] [] = refl
metadata_read count limit [] (c ∷ p) = refl
metadata_read count limit (b ∷ n) [] = refl
metadata_read count limit (b ∷ n) (c ∷ p) = refl

module _ {A : Type 0} (encode : A → Json) (decode : Json → Option A) where
  -- Each of these values is read back from its encoding.
  abbrev pub ReadsBack : List A → Type 0
  ReadsBack = All (λ a. decode (encode a) ≡ some a)

  to_all-items_of :
      (as' : List A) → ReadsBack as' → to_all decode (items (items_of (map encode as'))) ≡ some as'
  unfolding to_all
  to_all-items_of [] h = refl
  to_all-items_of (a ∷ as') (e, h) =
      ap (λ o. o >>= λ b. to_all decode (items (items_of (map encode as'))) >>= λ bs. some (b ∷ bs))
        e
      ∙ ap (λ o. o >>= λ bs. some (a ∷ bs)) (to_all-items_of as' h)

  decode_page-envelope :
      (page : Page A) → ReadsBack page.items → decode_page decode (envelope encode page) ≡ some page
  unfolding decode_page member to_list to_struct
  decode_page-envelope page h = rw (to_all-items_of page.items h) (
      rw
        (metadata_read page.metadata.count page.metadata.limit page.metadata.next_page
          page.metadata.prev_page)
        refl)

  -- Where a list call ends with a body that parses as the envelope of a page, whose items the
  -- service reads back from their encodings, the caller gets that page: the items in their order,
  -- the total count, the limit, and both cursors, an empty one for a null.
  pub do_list-envelope :
      {W : Type 0} (env : Env W) (c : Client) (method request_path : Bytes) (query : Assoc)
      (page : Page A) (body : Bytes) (w w' : W)
      → ReadsBack page.items
      → env.parse_json body ≡ some (envelope encode page)
      → request_with_retry env c method request_path (some query) none w ≡ (ok body, w')
      → do_list env c method request_path query decode w ≡ (ok page, w')
  unfolding do_list
  do_list-envelope env c method request_path query page body w w' h parsed answered =
      ap (on_success env (read_page env decode)) answered
      ∙ ap (λ o. (or_error decoding_response (o >>= decode_page decode), w')) parsed
      ∙ ap (λ o. (or_error decoding_response o, w')) (decode_page-envelope page h)
