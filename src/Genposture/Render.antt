-- ===== src/Genposture/Render.antt =====
-- internal/genposture/main.go: `render`, up to the formatting by package go/format.
use firezone_sdk_go.Common.{
  Bool, true, not, Option, none, some, List, [], ◌∷◌, ◌++◌, Bytes, codes, find, bytes_eq,
  if◌then◌else◌,
}
use firezone_sdk_go.Genposture.{
  FieldType, bool_field, string_field, integer_field, float_field, version_field, timestamp_field,
  ip_field, json_field, string_array_field, go_type, Field, provider,
}

abbrev pub type_text : FieldType → Bytes
type_text bool_field = codes "PostureBoolField"
type_text string_field = codes "PostureStringField"
type_text integer_field = codes "PostureIntegerField"
type_text float_field = codes "PostureFloatField"
type_text version_field = codes "PostureVersionField"
type_text timestamp_field = codes "PostureTimestampField"
type_text ip_field = codes "PostureIPField"
type_text json_field = codes "PostureJSONField"
type_text string_array_field = codes "PostureStringArrayField"

-- The verb %q, on texts with nothing to escape: the names that `tableRow` matches.
abbrev pub quoted : Bytes → Bytes
quoted s = b'"' ∷ s ++ b'"' ∷ []

abbrev pub field_type_text : Field → Bytes
field_type_text f = elim (find f.spec_type go_type) [ none ↦ [] | some t ↦ type_text t ]

-- What is written for a field, line by line.
abbrev pub block_start : Field → List Bytes
block_start f =
    []
    ∷ (codes "// Fields of the " ++ (quoted (provider f) ++ codes " provider."))
    ∷ codes "const ("
    ∷ []

abbrev pub comment_line : Field → Bytes
comment_line f =
    9 ∷ codes "// "
    ++ (f.ident
        ++ (codes " is the "
            ++ (f.spec_type
                ++ (codes " field "
                    ++ (quoted f.name ++ (codes ". Platforms: " ++ (f.platforms ++ codes ".")))))))

abbrev pub constant_line : Field → Bytes
constant_line f =
    9 ∷ (f.ident ++ b' ' ∷ (field_type_text f ++ b' ' ∷ (codes "= " ++ quoted f.name)))

-- Whether a field is of no provider, or of another than that one.
abbrev pub other_provider : Field → Option Field → Bool
other_provider f none = true
other_provider f (some g) = not (bytes_eq (provider f) (provider g))

abbrev pub first_field : List Field → Option Field
first_field [] = none
first_field (f ∷ _) = some f

-- The loop over the fields, behind the field in front of them.
unfoldable pub render_fields : Option Field → List Field → List Bytes
unfolding provider
render_fields prev [] = []
render_fields prev (f ∷ fs) =
    (if other_provider f prev then block_start f else [])
    ++ comment_line f
      ∷ constant_line f
      ∷ ((if other_provider f (first_field fs) then codes ")" ∷ [] else [])
          ++ render_fields (some f) fs)

-- Each line with the line feed that ends it.
unfoldable pub unlines : List Bytes → Bytes
unlines [] = []
unlines (l ∷ ls) = l ++ 10 ∷ unlines ls

unfoldable pub render : List Field → Bytes
unfolding render_fields unlines
render fields = unlines (
    codes "// Code generated by internal/genposture from testdata/openapi.json; DO NOT EDIT."
    ∷ []
    ∷ codes "package firezone"
    ∷ render_fields none fields)
