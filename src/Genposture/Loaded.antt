-- ===== src/Genposture/Loaded.antt =====
-- What holds of the fields that `load` returns.
use firezone_sdk_go.Common.{
  ◌∷◌, bytes_eq_refl, ◌≡◌, ◌≢◌, refl, sym, ap, ◌∙◌, subst, Bool, true, false, Option, none, some,
  List, [], Bytes, codes, Map, All, holds_key, arith, Option-cases, inl, inr, Distinct, find, keys,
  length, ==_iff, ◌==◌, if◌then◌else◌, holds_key_of_All,
}
use firezone_sdk_go.Genposture.{Field}
use firezone_sdk_go.Genposture.Spec.{Schema, decode_doc}
use firezone_sdk_go.Genposture.Table.{find_rows}
use firezone_sdk_go.Genposture.Load.{
  Outcome, loaded, failed, counts_differ, leaf_types, sort_fields, finish, read_table, load_decoded,
  load,
}
use firezone_sdk_go.Genposture.Sorted.{
  Sorted, texts, All-sort_fields, sort_fields-Sorted, holds_key-sort_fields, sort_fields-Distinct,
}
use firezone_sdk_go.Genposture.Checked.{
  Agrees, Checked, Checked-Agrees, Checked-Distinct, names-Distinct, names_in_leaves, length-keys,
  length-texts, load_rows-Checked, loaded_injective,
}
use firezone_sdk_go.Json.{Json, ◌>>=◌}

-- The fields stand for the leaf schemas' registry: each has its type there, the identifiers differ,
-- none of the registry is left out, and they are in the order of their names.
pub record Loaded (leaves : Map Bytes) (fields : List Field) : Type 0 where
  pub agree : All (Agrees leaves) fields
  pub idents_differ : Distinct (texts (λ f. f.ident) fields)
  pub none_left_out : All (λ name. holds_key name (texts (λ f. f.name) fields) ≡ true) (keys leaves)
  pub in_order : Sorted fields

each_held :
    (ks js : List Bytes)
    → ((k : Bytes) → holds_key k ks ≡ true → holds_key k js ≡ true)
    → All (λ k. holds_key k js ≡ true) ks
each_held [] js h = tt
each_held (k ∷ ks) js h =
    (h k (ground (arith, bytes_eq_refl k)), each_held ks js (λ j e. h j (ground (arith, e))))

sorted-Loaded :
    (leaves : Map Bytes) (fs : List Field)
    → Checked leaves [] fs
    → length fs ≡ length leaves
    → Loaded leaves (sort_fields fs)
sorted-Loaded leaves fs checked same =
    let agree = Checked-Agrees leaves [] fs checked in
    let differ = Checked-Distinct leaves [] fs checked in
    record {
      agree = All-sort_fields (Agrees leaves) fs agree;
      idents_differ = sort_fields-Distinct (λ f. f.ident) fs differ;
      none_left_out = each_held (keys leaves) _ (λ name h.
          holds_key-sort_fields (λ f. f.name) name fs
          ∙ holds_key_of_All (texts (λ f. f.name) fs) (keys leaves) name
              (names-Distinct leaves fs agree differ) (names_in_leaves leaves fs agree)
              (omega (arith, same, length-keys leaves, length-texts (λ f. f.name) fs)) h);
      in_order = sort_fields-Sorted fs;
    }

counted :
    (leaves : Map Bytes) (gs : List Field) (same : Bool) {fs : List Field}
    → (if same then loaded (sort_fields gs) else failed (counts_differ (length gs) (length leaves)))
      ≡ loaded fs
    → (same ≡ true) × (fs ≡ sort_fields gs)
counted leaves gs true e = (refl, sym (loaded_injective e))
counted leaves gs false e = cc

finish-Loaded :
    (leaves : Map Bytes) (o : Outcome) {fs : List Field}
    → ((gs : List Field) → o ≡ loaded gs → Checked leaves [] gs)
    → finish leaves o ≡ loaded fs
    → Loaded leaves fs
unfolding finish
finish-Loaded leaves (failed x) checked e = cc
finish-Loaded leaves (loaded gs) checked e =
    let (same, sorted) = counted leaves gs (length gs == length leaves) e in
    subst (Loaded leaves) (sym sorted)
      (sorted-Loaded leaves gs (checked gs refl) ((==_iff (length gs) (length leaves)).0 same))

table-Loaded :
    (o p : Option Schema) {fs : List Field}
    → read_table o p ≡ loaded fs
    → (leaf : Schema) × (p ≡ some leaf) × Loaded (leaf_types leaf.one_of) fs
unfolding read_table
table-Loaded none p e = cc
table-Loaded (some described) none e = cc
table-Loaded (some described) (some leaf) e = (
  leaf,
  refl,
  finish-Loaded (leaf_types leaf.one_of) _
      (λ gs h. load_rows-Checked (leaf_types leaf.one_of) [] (find_rows described.description) h) e,
)

-- What `load` has read when it returns: the document, and its schema of the leaves.
pub record Source (parse_json : Bytes → Option Json) (raw : Option Bytes) (fields : List Field)
    : Type 0 where
  pub text : Bytes
  pub document : Json
  pub schemas : Map Schema
  pub leaf : Schema
  pub is_read : raw ≡ some text
  pub is_parsed : parse_json text ≡ some document
  pub is_decoded : decode_doc document ≡ some schemas
  pub is_leaf : find (codes "PolicyPostureLeaf") schemas ≡ some leaf
  pub is_loaded : Loaded (leaf_types leaf.one_of) fields

not_loaded : {fs : List Field} → load_decoded none ≢ loaded fs
unfolding load_decoded
not_loaded e = cc

table_read :
    (schemas : Map Schema)
    → load_decoded (some schemas)
      ≡ read_table
          (find (codes "PolicyPostureNode") schemas)
          (find (codes "PolicyPostureLeaf") schemas)
unfolding load_decoded
table_read schemas = refl

decoded-Source :
    (parse_json : Bytes → Option Json) (text : Bytes) (o : Option Json) {fs : List Field}
    → parse_json text ≡ o
    → load_decoded (o >>= decode_doc) ≡ loaded fs
    → Source parse_json (some text) fs
decoded-Source parse_json text none p e = absurd (not_loaded e)
decoded-Source parse_json text (some j) p e = elim (Option-cases (decode_doc j)) [
  | inl bad ↦ absurd (not_loaded (ap load_decoded (sym bad) ∙ e))
  | inr (schemas, good) ↦
      let (leaf, is_leaf, is_loaded) =
        table-Loaded _ _ (sym (table_read schemas) ∙ (ap load_decoded (sym good) ∙ e)) in
      record {
        text = text;
        document = j;
        schemas = schemas;
        leaf = leaf;
        is_read = refl;
        is_parsed = p;
        is_decoded = good;
        is_leaf = is_leaf;
        is_loaded = is_loaded;
      }
]

-- Where the generator loads fields, it has read them off a document with a schema of the leaves, and
-- each field has a Go type, the type that the leaf schemas give it and the identifier of its name,
-- no two have one identifier, every field that the leaf schemas accept is among them, and they are
-- sorted by name.
pub load-Loaded :
    (parse_json : Bytes → Option Json) (raw : Option Bytes) {fs : List Field}
    → load parse_json raw ≡ loaded fs
    → Source parse_json raw fs
unfolding load
load-Loaded parse_json none e = cc
load-Loaded parse_json (some text) e = decoded-Source parse_json text (parse_json text) refl e
