-- ===== src/Witnesses/Postures.antt =====
-- Concrete cases of the theorems on posture expressions.
use firezone_sdk_go.Common.{◌≡◌, ◌↔◌, refl, pos, some, [], ◌∷◌, codes}
use firezone_sdk_go.Error.{ok}
use firezone_sdk_go.Json.{Json, int, str, arr, obj, nil, cons, end, field}
use firezone_sdk_go.Posture.{
  PostureNode, node, more, empty, absent, present, marshal, marshal_nodes, marshal_maybe,
  shape_error, unmarshal,
}
use firezone_sdk_go.Posture.Shape.{IsShaped, marshal_iff}
use firezone_sdk_go.Posture.Returned.{
  Returned, read_nil, read_int, read_strings, node_returned, none_returned, one_returned,
  absent_returned, present_returned,
}
use firezone_sdk_go.Posture.RoundTrip.{unmarshal-marshal}
use firezone_sdk_go.Value.{
  nil_value, a_strings, an_int, an_array, a_string, a_float, finite, whole, one_value, no_values,
  value_json, encode_any,
}

-- "firezone.os" is one of "macos", and not unverified.
abbrev posture : PostureNode
posture =
    node
      (more
        (node empty empty absent (codes "firezone.os") (codes "is_in")
          (a_strings (some (codes "macos" ∷ []))) [])
        (more
          (node empty empty
            (present (
              node empty empty absent (codes "client_verified") (codes "is") (an_int (pos 1))
                (codes "any")))
            [] [] nil_value [])
          empty))
      empty absent [] [] nil_value []

abbrev posture_json : Json
posture_json = obj (
    field (codes "and")
      (arr (
        cons
          (obj (
            field (codes "field") (str (codes "firezone.os")) (
              field (codes "op") (str (codes "is_in"))
                (field (codes "value") (arr (cons (str (codes "macos")) nil)) end))))
          (cons
            (obj (
              field (codes "not")
                (obj (
                  field (codes "field") (str (codes "client_verified")) (
                    field (codes "op") (str (codes "is")) (
                      field (codes "rows") (str (codes "any"))
                        (field (codes "value") (int (pos 1)) end)))))
                end))
            nil)))
      end)

posture_written : marshal posture ≡ ok posture_json
unfolding marshal marshal_nodes marshal_maybe shape_error value_json encode_any
posture_written = refl

marshal_iff_example : ((j : Json) × (marshal posture ≡ ok j)) ↔ IsShaped posture
marshal_iff_example = marshal_iff posture

-- The value 1 is a float64 behind decoding, and the []string a []any.
abbrev decoded : PostureNode
decoded =
    node
      (more
        (node empty empty absent (codes "firezone.os") (codes "is_in")
          (an_array (one_value (a_string (codes "macos")) no_values)) [])
        (more
          (node empty empty
            (present (
              node empty empty absent (codes "client_verified") (codes "is")
                (a_float (finite (whole (pos 1)))) (codes "any")))
            [] [] nil_value [])
          empty))
      empty absent [] [] nil_value []

posture-Returned : Returned (λ x. some x) posture decoded
posture-Returned =
    node_returned
      (one_returned
        (node_returned none_returned none_returned absent_returned
          (read_strings (codes "macos" ∷ [])))
        (one_returned
          (node_returned none_returned none_returned
            (present_returned (
              node_returned none_returned none_returned absent_returned
                (read_int (pos 1) (whole (pos 1)) refl)))
            read_nil)
          none_returned))
      none_returned absent_returned read_nil

unmarshal-marshal_example : unmarshal (λ x. some x) posture_json ≡ some decoded
unmarshal-marshal_example = unmarshal-marshal (λ x. some x) posture-Returned posture_written
