-- ===== src/PostureFields/Generated.antt =====
-- The typed fields that the generator writes, in the SDK that they are a part of.
use firezone_sdk_go.Common.{
  ℕ, ◌≡◌, ◌≢◌, ◌⊎◌, inl, inr, sym, subst, Option, some, List, [], ◌∷◌, Bytes, All, find,
}
use firezone_sdk_go.Error.{ok}
use firezone_sdk_go.Genposture.{FieldType, go_type, Field}
use firezone_sdk_go.Genposture.Load.{leaf_types, load, loaded}
use firezone_sdk_go.Genposture.Checked.{Agrees}
use firezone_sdk_go.Genposture.Loaded.{Source, load-Loaded}
use firezone_sdk_go.Json.{Json}
use firezone_sdk_go.Posture.{PostureNode, with_rows, marshal}
use firezone_sdk_go.PostureFields.Schema.{Conforms}
use firezone_sdk_go.PostureFields.Typed.{TypedLeaf}
use firezone_sdk_go.PostureFields.Accepted.{RowsChosen, WithinLimits, TypedLeaf-Conforms}

-- One of the fields.
abbrev pub OneOf : Field → List Field → Type 0
OneOf f [] = ⊥
OneOf f (g ∷ gs) = (f ≡ g) ⊎ OneOf f gs

of_one : (P : Field → Type 0) (f : Field) (fs : List Field) → All P fs → OneOf f fs → P f
of_one P f [] h i = absurd i
of_one P f (g ∷ gs) (p, h) (inl same) = subst P (sym same) p
of_one P f (g ∷ gs) (p, h) (inr i) = of_one P f gs h i

-- What is sent for a leaf on a field of the generator.
pub record Sent (leaf_type : Option Bytes) (f : Field) (n : PostureNode) : Type 0 where
  pub type_agrees : leaf_type ≡ some f.spec_type
  pub body : Json
  pub is_sent : marshal n ≡ ok body
  pub conforms : Conforms f.spec_type f.name body

module _ {T P : Type 0} (utc_text : T → Bytes) (prefix_text : P → Bytes)
    (seconds_text : ℕ → Bytes) where
  -- Where the generator loads its fields off an OpenAPI document, a leaf built by a method of the Go
  -- type of one of them, with rows chosen or not, is sent as a comparison that conforms to the API's
  -- schema for the type that the document's leaf schemas give that field. The field has a name; rows
  -- are "any" or "all" and only chosen for a field that is not of the device's own record; and the
  -- value is within the limits on texts, times, lists, durations and floats. What the API checks beyond
  -- its schema is left aside.
  pub load-Sent :
      (parse_json : Bytes → Option Json) (raw : Option Bytes) (f : Field) (rows : Bytes)
      {fs : List Field} {type : FieldType} {n : PostureNode}
      → load parse_json raw ≡ loaded fs
      → OneOf f fs
      → find f.spec_type go_type ≡ some type
      → TypedLeaf utc_text prefix_text seconds_text type f.name n
      → f.name ≢ []
      → RowsChosen f.name rows
      → WithinLimits n
      → (source : Source parse_json raw fs) × Sent
          (find f.name (leaf_types source.leaf.one_of))
          f
          (with_rows rows n)
  load-Sent parse_json raw f rows {fs} e i known built p r h =
      let source = load-Loaded parse_json raw e in
      let agrees = of_one (Agrees (leaf_types source.leaf.one_of)) f fs source.is_loaded.agree i in
      let (j, sent, conforms) =
        TypedLeaf-Conforms utc_text prefix_text seconds_text f.spec_type rows built known p r h in
      (
        source,
        record { type_agrees = agrees.same_type; body = j; is_sent = sent; conforms = conforms },
      )
