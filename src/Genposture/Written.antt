-- ===== src/Genposture/Written.antt =====
-- The constants that a reader of the generated source finds in it.
use firezone_sdk_go.Common.{
  ◌≡◌, refl, ap, ◌∙◌, Bool, true, false, Option, none, some, List, [], ◌∷◌, ◌++◌, append-nil, codes,
  All, Lacks, if◌then◌else◌, map, All-append, Bytes,
}
use firezone_sdk_go.Genposture.{Field, provider}
use firezone_sdk_go.Genposture.Render.{
  quoted, block_start, comment_line, constant_line, other_provider, first_field, render_fields,
  render,
}
use firezone_sdk_go.Genposture.Rendered.{
  constants, read_constants, split_on-unlines, constants-append, IsPlain, constant_of, lacks_sound,
  read_constant-constant_line, cut_at-Lacks, quoted-Lacks, literal-Lacks, constant_line-Lacks,
  comment_line-Lacks, add_some,
}

-- The lines in front of a field's own, and those behind.
start_of : Bool → Field → List Bytes
start_of other f = if other then block_start f else []

end_of : Bool → List Bytes
end_of other = if other then codes ")" ∷ [] else []

constants-start_of : (other : Bool) (f : Field) → constants (start_of other f) ≡ []
unfolding constants start_of
constants-start_of true f = refl
constants-start_of false f = refl

constants-end_of : (other : Bool) → constants (end_of other) ≡ []
unfolding constants end_of
constants-end_of true = refl
constants-end_of false = refl

start_of-Lacks : (other : Bool) (f : Field) → IsPlain f → All (Lacks 10) (start_of other f)
unfolding start_of provider
start_of-Lacks false f plain = tt
start_of-Lacks true f plain =
    let opening =
      literal-Lacks (codes "// Fields of the ") (quoted (provider f) ++ codes " provider.") refl (
        All-append _ (quoted (provider f)) (codes " provider.")
          (quoted-Lacks (provider f) (cut_at-Lacks 10 b'.' f.name plain.name_one_line))
          (lacks_sound 10 (codes " provider.") refl)) in
    (tt, (opening, (lacks_sound 10 (codes "const (") refl, tt)))

end_of-Lacks : (other : Bool) → All (Lacks 10) (end_of other)
unfolding end_of
end_of-Lacks true = (lacks_sound 10 (codes ")") refl, tt)
end_of-Lacks false = tt

field_lines :
    (f : Field) (ls : List Bytes)
    → IsPlain f
    → constants (comment_line f ∷ constant_line f ∷ ls) ≡ constant_of f ∷ constants ls
unfolding constants
field_lines f ls plain = ap (λ o. add_some o (constants ls)) (read_constant-constant_line f plain)

constants-render_fields :
    (prev : Option Field) (fs : List Field)
    → All IsPlain fs
    → constants (render_fields prev fs) ≡ map constant_of fs
unfolding render_fields start_of end_of
constants-render_fields prev [] h = unfold constants in refl
constants-render_fields prev (f ∷ fs) (plain, h) =
    let rest = end_of (other_provider f (first_field fs)) ++ render_fields (some f) fs in
    constants-append (start_of (other_provider f prev) f) (comment_line f ∷ constant_line f ∷ rest)
    ∙ ap (λ s. s ++ constants (comment_line f ∷ constant_line f ∷ rest))
        (constants-start_of (other_provider f prev) f)
    ∙ field_lines f rest plain
    ∙ ap (λ cs. constant_of f ∷ cs)
        (constants-append (end_of (other_provider f (first_field fs))) (render_fields (some f) fs)
          ∙ ap (λ s. s ++ constants (render_fields (some f) fs))
              (constants-end_of (other_provider f (first_field fs)))
          ∙ constants-render_fields (some f) fs h)

render_fields-Lacks :
    (prev : Option Field) (fs : List Field)
    → All IsPlain fs
    → All (Lacks 10) (render_fields prev fs)
unfolding render_fields start_of end_of
render_fields-Lacks prev [] h = tt
render_fields-Lacks prev (f ∷ fs) (plain, h) =
    All-append (Lacks 10) (start_of (other_provider f prev) f) _
      (start_of-Lacks (other_provider f prev) f plain)
      (
        comment_line-Lacks f plain,
        (
          constant_line-Lacks f plain,
          All-append (Lacks 10) (end_of (other_provider f (first_field fs))) _
              (end_of-Lacks (other_provider f (first_field fs)))
              (render_fields-Lacks (some f) fs h),
        ),
      )

header_lines : List Bytes
header_lines =
    codes "// Code generated by internal/genposture from testdata/openapi.json; DO NOT EDIT."
    ∷ []
    ∷ codes "package firezone"
    ∷ []

-- The source that the generator renders has one constant for each field, in their order: with the
-- field's identifier, the Go type of its type, and its name as the value. The identifiers are words
-- that start no comment, no text has a line feed in it, and a name has the characters that the names
-- of the table have.
pub read_constants-render :
    (fields : List Field)
    → All IsPlain fields
    → read_constants (render fields) ≡ map constant_of fields
unfolding read_constants render header_lines
read_constants-render fields h =
    let ls = render_fields none fields in
    ap constants (
      split_on-unlines (header_lines ++ ls) (
        lacks_sound 10
            (codes
              "// Code generated by internal/genposture from testdata/openapi.json; DO NOT EDIT.")
            refl,
        (tt, (lacks_sound 10 (codes "package firezone") refl, render_fields-Lacks none fields h)),
      ))
    ∙ constants-append (header_lines ++ ls) ([] ∷ [])
    ∙ append-nil (constants ls)
    ∙ constants-render_fields none fields h
