-- ===== src/PostureFields/Accepted.antt =====
-- Every leaf that a typed field builds is one that the API accepts for that field.
use firezone_sdk_go.Common.{
  ℕ, Bool, true, false, ◌≡◌, ◌≢◌, refl, sym, ap, ◌∙◌, subst, Option, none, some, [], ◌∷◌, Bytes,
  codes, find, Map, inl, inr, ◌⊎◌, bytes_eq, if◌then◌else◌,
}
use firezone_sdk_go.Error.{ok}
use firezone_sdk_go.Json.{Json, str, nil, member}
use firezone_sdk_go.Genposture.{FieldType, go_type}
use firezone_sdk_go.Value.{Any, value_json}
use firezone_sdk_go.Posture.{PostureNode, node, posture_check, with_rows, marshal, wire, has_prefix}
use firezone_sdk_go.Posture.Operators.{rows_any, rows_all}
use firezone_sdk_go.Posture.Shape.{RowsFit, marshal_leaf}
use firezone_sdk_go.PostureFields.Schema.{takes, accepts, leaf_schemas, Conforms, RowsAccepted}
use firezone_sdk_go.PostureFields.Typed.{TypedLeaf, operators_of}
use firezone_sdk_go.PostureFields.Leaves.{Leaf, Limited, typed_leaf}

unfoldable map_values {ℓ κ} : {A : Type ℓ} {B : Type κ} → (A → B) → Map A → Map B
map_values f [] = []
map_values f ((k, a) ∷ m) = (k, f a) ∷ map_values f m

step_mapped {ℓ κ} :
    {A : Type ℓ} {B : Type κ} (f : A → B) (found : Bool) (b : A) {a : A} (o : Option A)
    (o' : Option B)
    → (if found then some b else o) ≡ some a
    → (o ≡ some a → o' ≡ some (f a))
    → (if found then some (f b) else o') ≡ some (f a)
step_mapped f true b o o' e rest = cc e
step_mapped f false b o o' e rest = rest e

find-map_values {ℓ κ} :
    {A : Type ℓ} {B : Type κ} (f : A → B) (k : Bytes) (m : Map A) {a : A}
    → find k m ≡ some a
    → find k (map_values f m) ≡ some (f a)
unfolding find map_values
find-map_values f k [] e = cc
find-map_values f k ((j, b) ∷ m) e =
    step_mapped f (bytes_eq j k) b (find k m) (find k (map_values f m)) e (find-map_values f k m)

schemas_table : leaf_schemas ≡ map_values operators_of go_type
unfolding map_values
schemas_table = refl

pub find-leaf_schemas :
    (spec_type : Bytes) {type : FieldType}
    → find spec_type go_type ≡ some type
    → find spec_type leaf_schemas ≡ some (operators_of type)
find-leaf_schemas spec_type e =
    ap (find spec_type) schemas_table ∙ find-map_values operators_of spec_type go_type e

accepted :
    (spec_type operator : Bytes) (value : Option Json) {type : FieldType}
    → find spec_type go_type ≡ some type
    → takes (operators_of type) operator value ≡ true
    → accepts spec_type operator value ≡ true
accepted spec_type operator value e h =
    ap (λ o. elim o [ none ↦ false | some operators ↦ takes operators operator value ])
      (find-leaf_schemas spec_type e)
    ∙ h

-- Rows are left to the API, or chosen for a field that is not of the device's own record.
abbrev pub RowsChosen : Bytes → Bytes → Type 0
RowsChosen name rows =
    (rows ≡ [])
    ⊎ (((rows ≡ rows_any) ⊎ (rows ≡ rows_all)) × (has_prefix name (codes "firezone.") ≡ false))

RowsFit-RowsChosen : (name rows : Bytes) → RowsChosen name rows → RowsFit name rows
RowsFit-RowsChosen name rows (inl e) = inl e
RowsFit-RowsChosen name rows (inr (_, h)) = inr h

rows_accepted :
    (name : Bytes) (r : ℕ) (rows : Bytes)
    → RowsChosen name (r ∷ rows)
    → RowsAccepted name (some (str (r ∷ rows)))
rows_accepted name r rows (inl e) = cc
rows_accepted name r rows (inr (inl e, h)) = (inl (ap str e), h)
rows_accepted name r rows (inr (inr e, h)) = (inr (ap str e), h)

leaf-Conforms :
    (spec_type name operator : Bytes) (value : Option Json) (rows : Bytes)
    → name ≢ []
    → operator ≢ []
    → RowsChosen name rows
    → accepts spec_type operator value ≡ true
    → Conforms spec_type name (wire nil nil none name operator value rows)
unfolding member
leaf-Conforms t [] operator value rows p q r h = absurd (p refl)
leaf-Conforms t (c ∷ name) [] value rows p q r h = absurd (q refl)
leaf-Conforms t (c ∷ name) (b ∷ operator) none [] p q r h = record {
  members = _;
  operator = b ∷ operator;
  is_object = refl;
  known = (refl, (refl, tt));
  names_field = refl;
  names_operator = refl;
  rows_fit = tt;
  value_fits = h;
}
leaf-Conforms t (c ∷ name) (b ∷ operator) (some v) [] p q r h = record {
  members = _;
  operator = b ∷ operator;
  is_object = refl;
  known = (refl, (refl, (refl, tt)));
  names_field = refl;
  names_operator = refl;
  rows_fit = tt;
  value_fits = h;
}
leaf-Conforms t (c ∷ name) (b ∷ operator) none (x ∷ rows) p q r h = record {
  members = _;
  operator = b ∷ operator;
  is_object = refl;
  known = (refl, (refl, (refl, tt)));
  names_field = refl;
  names_operator = refl;
  rows_fit = rows_accepted (c ∷ name) x rows r;
  value_fits = h;
}
leaf-Conforms t (c ∷ name) (b ∷ operator) (some v) (x ∷ rows) p q r h = record {
  members = _;
  operator = b ∷ operator;
  is_object = refl;
  known = (refl, (refl, (refl, (refl, tt))));
  names_field = refl;
  names_operator = refl;
  rows_fit = rows_accepted (c ∷ name) x rows r;
  value_fits = h;
}

abbrev pub value_of_node : PostureNode → Any
value_of_node (node _ _ _ _ _ value _) = value

abbrev pub operator_of_node : PostureNode → Bytes
operator_of_node (node _ _ _ _ operator _ _) = operator

check-Conforms :
    (spec_type name operator : Bytes) (value : Any) (rows : Bytes) {jv : Option Json}
    → name ≢ []
    → operator ≢ []
    → RowsChosen name rows
    → value_json value ≡ ok jv
    → accepts spec_type operator jv ≡ true
    → (j : Json) × (marshal (with_rows rows (posture_check name operator value)) ≡ ok j)
      × Conforms spec_type name j
unfolding with_rows posture_check
check-Conforms spec_type name operator value rows {jv} p q r e h = (
  wire nil nil none name operator jv rows,
  marshal_leaf name operator value rows p q (RowsFit-RowsChosen name rows r) e,
  leaf-Conforms spec_type name operator jv rows p q r h,
)

-- The value is within the limits of its operator.
abbrev pub WithinLimits : PostureNode → Type 0
WithinLimits n = Limited (operator_of_node n) (value_of_node n)

Leaf-accepted :
    {type : FieldType} {name : Bytes} {n : PostureNode} (spec_type rows : Bytes)
    → Leaf type name n
    → find spec_type go_type ≡ some type
    → name ≢ []
    → RowsChosen name rows
    → WithinLimits n
    → (j : Json) × (marshal (with_rows rows n) ≡ ok j) × Conforms spec_type name j
unfolding posture_check
Leaf-accepted {type} {name} spec_type rows leaf e p r h =
    let (jv, written, taken) = leaf.taken (subst WithinLimits leaf.is_check h) in
    subst (λ m. (j : Json) × (marshal (with_rows rows m) ≡ ok j) × Conforms spec_type name j)
      (sym leaf.is_check)
      (check-Conforms spec_type name leaf.operator leaf.value rows p leaf.names_operator r written
        (accepted spec_type leaf.operator jv e taken))

module _ {T P : Type 0} (utc_text : T → Bytes) (prefix_text : P → Bytes)
    (seconds_text : ℕ → Bytes) where
  -- A leaf that one call of a typed field's method builds, with rows chosen or not, is encoded, and
  -- the object conforms to the API's schema of a comparison for every attribute type whose constants
  -- have that field type. The field has a name; rows are "any" or "all" and only chosen for a field
  -- that is not of the device's own record; and the value is within the limits: a regular
  -- expression has at most 256 bytes and any other text 1024, a time is written in the form of RFC
  -- 3339, a duration is not PT0S, as one that is not positive is written, a list has 1 to 100 texts,
  -- and a float is finite. Left aside are which fields the document gives an attribute type, and
  -- what the API checks beyond its schema: the syntax of regular expressions, versions and
  -- prefixes.
  pub TypedLeaf-Conforms :
      {type : FieldType} {name : Bytes} {n : PostureNode} (spec_type rows : Bytes)
      → TypedLeaf utc_text prefix_text seconds_text type name n
      → find spec_type go_type ≡ some type
      → name ≢ []
      → RowsChosen name rows
      → WithinLimits n
      → (j : Json) × (marshal (with_rows rows n) ≡ ok j) × Conforms spec_type name j
  TypedLeaf-Conforms spec_type rows leaf e p r h =
      Leaf-accepted spec_type rows (typed_leaf utc_text prefix_text seconds_text leaf) e p r h
