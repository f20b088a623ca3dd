-- ===== src/Response/Text.antt =====
-- errors.go: the text of an APIError. A Go map is ranged over in any order.
use firezone_sdk_go.Common.{
  ◌≡◌, refl, ap, sym, ◌∙◌, Option, none, some, List, [], ◌∷◌, ◌++◌, map, Bytes, codes, Map, find,
  keys, SameMap, is_empty, if◌then◌else◌, join_with, sort_strings, sort_strings-Perm,
}
use mathlib.Core.List.{Permᴰ}
use mathlib.Core.Logic.{∥∥₁_elim}
use firezone_sdk_go.Decimal.{format}
use firezone_sdk_go.Error.{ApiError}

-- `errs[field]`, which is nil for a key that is not there.
abbrev or_nil : Option (List Bytes) → List Bytes
or_nil none = []
or_nil (some ms) = ms

-- One field of the text.
unfoldable pub format_part : Map (List Bytes) → Bytes → Bytes
format_part errs name = name ++ (codes ": " ++ join_with (codes ", ") (or_nil (find name errs)))

unfoldable pub format_validation_errors : Map (List Bytes) → Bytes
unfolding format_part
format_validation_errors errs =
    join_with (codes "; ") (map (format_part errs) (sort_strings (keys errs)))

-- `Error()`
unfoldable pub error_text : ApiError → Bytes
unfolding format_validation_errors
error_text e =
    codes "firezone: "
    ++ (format e.status_code
        ++ (codes " "
            ++ (e.title
                ++ ((if is_empty e.detail then [] else codes ": " ++ e.detail)
                    ++ (if is_empty e.validation_errors
                        then []
                        else codes " ("
                          ++ (format_validation_errors e.validation_errors ++ codes ")"))))))

map_same :
    (l r : Map (List Bytes)) (names : List Bytes)
    → ((k : Bytes) → find k l ≡ find k r)
    → map (format_part l) names ≡ map (format_part r) names
unfolding format_part
map_same l r [] h = refl
map_same l r (k ∷ names) h =
    cc
      (ap (λ o. k ++ (codes ": " ++ join_with (codes ", ") (or_nil o))) (h k), map_same l r names h)

format_validation_errors_same :
    (l r : Map (List Bytes)) → SameMap l r → format_validation_errors l ≡ format_validation_errors r
unfolding format_validation_errors
format_validation_errors_same l r s = ap (join_with (codes "; ")) (
    ap (map (format_part l)) (sort_strings-Perm s.same_keys)
    ∙ map_same l r (sort_strings (keys r)) s.same_values)

is_empty-Permᴰ : {a b : List Bytes} → Permᴰ a b → is_empty a ≡ is_empty b
is_empty-Permᴰ Permᴰ.nil = refl
is_empty-Permᴰ (Permᴰ.cons e p) = refl
is_empty-Permᴰ (Permᴰ.swap e f) = refl
is_empty-Permᴰ (Permᴰ.trans p q) = is_empty-Permᴰ p ∙ is_empty-Permᴰ q

is_empty-keys : (m : Map (List Bytes)) → is_empty m ≡ is_empty (keys m)
is_empty-keys [] = refl
is_empty-keys ((k, v) ∷ m) = refl

same_empty : (l r : Map (List Bytes)) → SameMap l r → is_empty l ≡ is_empty r
same_empty l r s =
    is_empty-keys l ∙ ∥∥₁_elim s.same_keys (hlevel) is_empty-Permᴰ ∙ sym (is_empty-keys r)

-- The text of an error does not depend on the order in which Go ranges over its map of validation
-- errors: two lists that stand for the same map give the same text.
pub error_text-SameMap :
    (e : ApiError) (errs : Map (List Bytes))
    → SameMap e.validation_errors errs
    → error_text e ≡ error_text (record e { validation_errors = errs })
unfolding error_text
error_text-SameMap e errs s = cc (same_empty _ _ s, format_validation_errors_same _ _ s)
