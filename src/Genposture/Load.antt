-- ===== src/Genposture/Load.antt =====
-- internal/genposture/main.go: `load`, which reads the fields off the OpenAPI document.
use firezone_sdk_go.Common.{
  ℕ, Bool, true, false, Option, none, some, List, [], ◌∷◌, Bytes, codes, Map, find, put, cut_at,
  length, bytes_eq, bytes_ltb, ◌==◌, ◌||◌, if◌then◌else◌,
}
use firezone_sdk_go.Genposture.{FieldType, go_type, Field, ident_for}
use firezone_sdk_go.Genposture.Spec.{LeafSchema, Schema, decode_doc}
use firezone_sdk_go.Genposture.Table.{Row, find_rows}
use firezone_sdk_go.Json.{Json, ◌>>=◌}

-- The errors of `load`, with what their messages name.
pub data GenError : Type 0 where
  unreadable undecodable no_node_schema no_leaf_schema : GenError
  unknown_type : (name spec_type : Bytes) → GenError
  drifted : (name spec_type leaf_type : Bytes) → GenError
  same_ident : (first second ident : Bytes) → GenError
  counts_differ : (fields leaf_fields : ℕ) → GenError

pub data Outcome : Type 0 where
  loaded : List Field → Outcome
  failed : GenError → Outcome

-- The entries of `leafType` for one alternative.
unfoldable pub put_names : Bytes → List Bytes → Map Bytes → Map Bytes
put_names type [] m = m
put_names type (f ∷ fs) m = put_names type fs (put f type m)

unfoldable pub put_leaves : List LeafSchema → Map Bytes → Map Bytes
unfolding put_names
put_leaves [] m = m
put_leaves (l ∷ ls) m = put_leaves ls (put_names (cut_at b' ' l.description).0 l.names m)

-- `leafType`
unfoldable pub leaf_types : List LeafSchema → Map Bytes
unfolding put_leaves
leaf_types ls = put_leaves ls []

-- A missing entry is the empty text.
abbrev pub type_of : Bytes → Map Bytes → Bytes
type_of name m = elim (find name m) [ none ↦ [] | some t ↦ t ]

-- `strings.TrimSpace`, of a text in ASCII.
abbrev pub is_space : ℕ → Bool
is_space c = c == b' ' || c == 9 || c == 10 || c == 11 || c == 12 || c == 13

unfoldable pub trim_left : Bytes → Bytes
trim_left [] = []
trim_left (c ∷ s) = let rest = trim_left s in if is_space c then rest else c ∷ s

-- The text up to its last byte that is no space.
unfoldable pub trim_right : Bytes → Bytes
trim_right [] = []
trim_right (c ∷ s) = elim (trim_right s) [
  | [] ↦ if is_space c then [] else c ∷ []
  | d ∷ t ↦ c ∷ d ∷ t
]

unfoldable pub field_of : Row → Field
field_of row = record {
  name = row.name;
  spec_type = row.spec_type;
  platforms = trim_right (trim_left row.platforms);
  ident = ident_for row.name;
}

-- The tests of one row, in their order: its type in `goType`, whether that is `got`,
-- its type in the leaf schemas, and the name behind its identifier in `seen`.
unfoldable pub judge : Row → Bytes → Option FieldType → Bool → Option Bytes → Option GenError
judge row got none same seen = some (unknown_type row.name row.spec_type)
judge row got (some type) false seen = some (drifted row.name row.spec_type got)
judge row got (some type) true (some prev) = some (same_ident prev row.name (ident_for row.name))
judge row got (some type) true none = none

-- What is wrong with a row, given the identifiers in front of it.
unfoldable pub row_error : Map Bytes → Map Bytes → Row → Option GenError
unfolding judge
row_error leaves seen row =
    let got = type_of row.name leaves in
    judge row got (find row.spec_type go_type) (bytes_eq got row.spec_type)
      (find (ident_for row.name) seen)

-- One turn of the loop, given how the turns behind it end.
unfoldable pub add_row : Option GenError → Field → Outcome → Outcome
add_row (some e) f rest = failed e
add_row none f (failed e) = failed e
add_row none f (loaded fs) = loaded (f ∷ fs)

-- The loop over the rows.
unfoldable pub load_rows : Map Bytes → Map Bytes → List Row → Outcome
unfolding row_error field_of add_row
load_rows leaves seen [] = loaded []
load_rows leaves seen (row ∷ rows) =
    let rest = load_rows leaves (put (ident_for row.name) row.name seen) rows in
    add_row (row_error leaves seen row) (field_of row) rest

-- `sort.Slice` by name.
unfoldable pub insert_field : Field → List Field → List Field
insert_field f [] = f ∷ []
insert_field f (g ∷ gs) =
    let rest = insert_field f gs in if bytes_ltb g.name f.name then g ∷ rest else f ∷ g ∷ gs

unfoldable pub sort_fields : List Field → List Field
unfolding insert_field
sort_fields [] = []
sort_fields (f ∷ fs) = insert_field f (sort_fields fs)

-- The comparison of the two counts, and the sorting.
unfoldable pub finish : Map Bytes → Outcome → Outcome
unfolding sort_fields
finish leaves (failed e) = failed e
finish leaves (loaded fs) =
    if length fs == length leaves
    then loaded (sort_fields fs)
    else failed (counts_differ (length fs) (length leaves))

-- The two schemas, and the table in the description of the first.
unfoldable pub read_table : Option Schema → Option Schema → Outcome
unfolding load_rows leaf_types finish
read_table none _ = failed no_node_schema
read_table (some described) none = failed no_leaf_schema
read_table (some described) (some leaf) =
    let leaves = leaf_types leaf.one_of in
    finish leaves (load_rows leaves [] (find_rows described.description))

unfoldable pub load_decoded : Option (Map Schema) → Outcome
unfolding read_table
load_decoded none = failed undecodable
load_decoded (some schemas) =
    read_table (find (codes "PolicyPostureNode") schemas) (find (codes "PolicyPostureLeaf") schemas)

-- `load`, of what `os.ReadFile` returns.
unfoldable pub load : (Bytes → Option Json) → Option Bytes → Outcome
unfolding load_decoded decode_doc
load parse_json none = failed unreadable
load parse_json (some raw) = load_decoded (parse_json raw >>= decode_doc)
