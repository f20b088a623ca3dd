-- ===== src/Witnesses/Genposture.antt =====
-- Concrete cases of the theorems on the generator of the posture field constants.
use firezone_sdk_go.Common.{
  ◌≡◌, ◌≢◌, refl, true, Option, none, some, List, [], ◌∷◌, ◌++◌, Bytes, codes, inl, find, map,
  arith,
}
use firezone_sdk_go.Genposture.{Field}
use firezone_sdk_go.Genposture.Load.{load, loaded, leaf_types}
use firezone_sdk_go.Genposture.Loaded.{Source, load-Loaded}
use firezone_sdk_go.Genposture.Render.{render}
use firezone_sdk_go.Genposture.Rendered.{IsPlain, constant_of, lacks_sound, read_constants}
use firezone_sdk_go.Genposture.Written.{read_constants-render}
use firezone_sdk_go.Json.{Json, str, arr, obj, nil, cons, end, field}
use firezone_sdk_go.Posture.{with_rows}
use firezone_sdk_go.PostureFields.BoolField
use firezone_sdk_go.PostureFields.Generated.{Sent, load-Sent}
use firezone_sdk_go.PostureFields.Typed.{bool_is}

-- A document with one boolean field.
abbrev leaf_schema : Json
leaf_schema = obj (
    field (codes "properties")
      (obj (
        field (codes "field")
          (obj (
            field (codes "description") (str (codes "boolean field"))
              (field (codes "enum") (arr (cons (str (codes "santa.enrolled")) nil)) end)))
          end))
      end)

abbrev document : Json
document = obj (
    field (codes "components")
      (obj (
        field (codes "schemas")
          (obj (
            field (codes "PolicyPostureNode")
              (obj (
                field (codes "description")
                  (str (codes "Fields:" ++ 10 ∷ codes "| `santa.enrolled` | boolean | macos |"))
                  end))
              (field (codes "PolicyPostureLeaf")
                (obj (field (codes "oneOf") (arr (cons leaf_schema nil)) end)) end)))
          end))
      end)

abbrev parse : Bytes → Option Json
parse s = some document

abbrev enrolled : Field
enrolled = record {
  name = codes "santa.enrolled";
  spec_type = codes "boolean";
  platforms = codes "macos";
  ident = codes "PostureSantaEnrolled";
}

one_field : load parse (some []) ≡ loaded (enrolled ∷ [])
unfolding load firezone_sdk_go.Json.to_all find firezone_sdk_go.Genposture.Table.find_rows
    firezone_sdk_go.Common.put firezone_sdk_go.Common.cut_at
    firezone_sdk_go.Genposture.Load.trim_right firezone_sdk_go.Genposture.ident_for
    firezone_sdk_go.Genposture.Load.trim_left firezone_sdk_go.Common.split_on
one_field = refl

load-Loaded_example : Source parse (some []) (enrolled ∷ [])
load-Loaded_example = load-Loaded parse (some []) one_field

load-Sent_example :
    (source : Source parse (some []) (enrolled ∷ [])) × Sent
      (find (codes "santa.enrolled") (leaf_types source.leaf.one_of))
      enrolled
      (with_rows [] (BoolField.is (record { name = codes "santa.enrolled" }) true))
unfolding find BoolField.is
load-Sent_example =
    load-Sent (λ (t : Bytes). t) (λ (p : Bytes). p) (λ d. []) parse (some []) enrolled [] one_field
      (inl refl) refl (bool_is (record { name = codes "santa.enrolled" }) true) (λ e. cc e)
      (inl refl) tt

enrolled-IsPlain : IsPlain enrolled
enrolled-IsPlain = record {
  first = b'P';
  rest = codes "ostureSantaEnrolled";
  is_word = refl;
  no_comment = λ e. omega (arith, e);
  ident_spaceless = lacks_sound b' ' (codes "PostureSantaEnrolled") refl;
  ident_one_line = lacks_sound 10 (codes "PostureSantaEnrolled") refl;
  type_one_line = lacks_sound 10 (codes "boolean") refl;
  platforms_one_line = lacks_sound 10 (codes "macos") refl;
  name_one_line = lacks_sound 10 (codes "santa.enrolled") refl;
  name_unquoted = lacks_sound b'"' (codes "santa.enrolled") refl;
  name_in_table = (
    refl,
    (
      refl,
      (
        refl,
        (refl, (refl, (refl, (refl, (refl, (refl, (refl, (refl, (refl, (refl, (refl, tt))))))))))),
      ),
    ),
  );
}

read_constants-render_example :
    read_constants (render (enrolled ∷ [])) ≡ map constant_of (enrolled ∷ [])
read_constants-render_example = read_constants-render (enrolled ∷ []) (enrolled-IsPlain, tt)
