-- ===== src/Posture.antt =====
-- postures.go: device posture expressions and their JSON.
pub mod Encodable
pub mod Members
pub mod Returned
pub mod RoundTrip
pub mod Shape
pub mod Operators
use firezone_sdk_go.Common.{
  ℕ, suc, ◌+◌, Bool, true, false, not, ◌&&◌, ◌||◌, Option, none, some, List, [], ◌∷◌, Bytes, codes,
  ◌==◌, if◌then◌else◌, is_empty,
}
use firezone_sdk_go.Value.{Any, Number, nil_value, value_json, read_any, ◌then◌}
use firezone_sdk_go.Error.{Error, posture_shape, encoding_body, Result, ok, err, ◌>>=◌}
use firezone_sdk_go.Json.{
  Json, Items, Fields, null, str, arr, obj, nil, cons, end, field, keep_text, keep_some, same_fold,
}

-- `PostureNode`. The lists `And` and `Or` and the pointer `Not` have types of their own; `value`
-- is a Go value of type `any`.
mutual
  pub data PostureNode : Type 0 where
    node :
        (and_nodes or_nodes : Nodes)
        → (not_node : MaybeNode) → (name operator : Bytes) → (value : Any) → (rows : Bytes)
        → PostureNode

  pub data Nodes : Type 0 where
    empty : Nodes
    more : PostureNode → Nodes → Nodes

  pub data MaybeNode : Type 0 where
    absent : MaybeNode
    present : PostureNode → MaybeNode

abbrev pub nodes_of : List PostureNode → Nodes
nodes_of [] = empty
nodes_of (n ∷ ns) = more n (nodes_of ns)

unfoldable pub posture_and : List PostureNode → PostureNode
posture_and children = node (nodes_of children) empty absent [] [] nil_value []

unfoldable pub posture_or : List PostureNode → PostureNode
posture_or children = node empty (nodes_of children) absent [] [] nil_value []

unfoldable pub posture_not : PostureNode → PostureNode
posture_not child = node empty empty (present child) [] [] nil_value []

unfoldable pub posture_check : Bytes → Bytes → Any → PostureNode
posture_check name operator value = node empty empty absent name operator value []

unfoldable pub with_rows : Bytes → PostureNode → PostureNode
with_rows rows (node as' os n name operator value _) = node as' os n name operator value rows

-- `strings.HasPrefix(s, prefix)`
abbrev pub has_prefix : Bytes → Bytes → Bool
has_prefix s [] = true
has_prefix [] (_ ∷ _) = false
has_prefix (a ∷ s) (b ∷ p) = (a == b) && has_prefix s p

-- The counter `shapes`, one summand for each test.
abbrev pub count_nodes : Nodes → ℕ
count_nodes empty = 0
count_nodes (more _ _) = 1

abbrev pub count_maybe : MaybeNode → ℕ
count_maybe absent = 0
count_maybe (present _) = 1

abbrev pub count_leaf : Bytes → Bytes → ℕ
count_leaf name operator = if is_empty name && is_empty operator then 0 else 1

-- The checks of `MarshalJSON` on a node alone, in their order.
unfoldable pub shape_error : PostureNode → Option Error
shape_error (node as' os n name operator value rows) =
    if (not (is_empty name) || not (is_empty operator)) && (is_empty name || is_empty operator)
    then some posture_shape
    else if not (count_nodes as' + count_nodes os + count_maybe n + count_leaf name operator == 1)
    then some posture_shape
    else if not (is_empty rows) && is_empty name
    then some posture_shape
    else if not (is_empty rows) && has_prefix name (codes "firezone.")
    then some posture_shape
    else none

-- A member for a list or a pointer of `postureWire`; an empty one is left out.
abbrev pub keep_items : Bytes → Items → Fields → Fields
keep_items k nil fs = fs
keep_items k (cons j js) fs = field k (arr (cons j js)) fs

-- The object of `postureWire`.
abbrev pub wire : Items → Items → Option Json → Bytes → Bytes → Option Json → Bytes → Json
wire as' os n name operator value rows = obj (
    keep_items (codes "and") as' (
      keep_items (codes "or") os (
        keep_some (λ j. j) (codes "not") n
          (keep_text (codes "field") name (
            keep_text (codes "op") operator
              (keep_text (codes "rows") rows (keep_some (λ j. j) (codes "value") value end)))))))

-- An error that is found first.
abbrev pub refuse : Option Error → Result Json → Result Json
refuse (some e) r = err e
refuse none r = r

unfoldable mutual
  unfolding value_json

  -- `MarshalJSON`; the children are encoded in turn, and any that fails fails the whole.
  pub marshal : PostureNode → Result Json
  marshal (node as' os n name operator value rows) =
      refuse (shape_error (node as' os n name operator value rows)) (
        marshal_nodes as' >>= λ ja. marshal_nodes os >>= λ jo. marshal_maybe n >>= λ jn.
        value_json value >>= λ jv. ok (wire ja jo jn name operator jv rows))

  pub marshal_nodes : Nodes → Result Items
  marshal_nodes empty = ok nil
  marshal_nodes (more n ns) = marshal n >>= λ j. marshal_nodes ns >>= λ js. ok (cons j js)

  pub marshal_maybe : MaybeNode → Result (Option Json)
  marshal_maybe absent = ok none
  marshal_maybe (present n) = marshal n >>= λ j. ok (some j)

-- The fields of `postureWire`.
pub data Key : Type 0 where
  and_key or_key not_key field_key op_key rows_key value_key other_key : Key

abbrev pub key_of : Bytes → Key
key_of k =
    if same_fold k (codes "and")
    then and_key
    else if same_fold k (codes "or")
    then or_key
    else if same_fold k (codes "not")
    then not_key
    else if same_fold k (codes "field")
    then field_key
    else if same_fold k (codes "op")
    then op_key
    else if same_fold k (codes "rows")
    then rows_key
    else if same_fold k (codes "value")
    then value_key
    else other_key

abbrev pub zero_node : PostureNode
zero_node = node empty empty absent [] [] nil_value []

-- A null leaves a string field as it is.
abbrev pub text_or : Bytes → Json → Option Bytes
text_or old null = some old
text_or old (str s) = some s
text_or old _ = none

-- One member of the object, decoded into its field; `ns`, `m` and `a` are its value as a list of nodes,
-- as a pointer to one and as an `any`. Keys that name no field are passed over.
abbrev pub set_member :
    Key → Json → Option Nodes → Option MaybeNode → Option Any → PostureNode → Option PostureNode
set_member and_key v ns m a (node as' os n f o x r) = ns then λ l. some (node l os n f o x r)
set_member or_key v ns m a (node as' os n f o x r) = ns then λ l. some (node as' l n f o x r)
set_member not_key v ns m a (node as' os n f o x r) = m then λ p. some (node as' os p f o x r)
set_member field_key v ns m a (node as' os n f o x r) =
    text_or f v then λ s. some (node as' os n s o x r)
set_member op_key v ns m a (node as' os n f o x r) =
    text_or o v then λ s. some (node as' os n f s x r)
set_member rows_key v ns m a (node as' os n f o x r) =
    text_or r v then λ s. some (node as' os n f o x s)
set_member value_key v ns m a (node as' os n f o x r) = a then λ y. some (node as' os n f o y r)
set_member other_key v ns m a acc = some acc

module _ (float_of : Number → Option Number) where
  unfoldable mutual
    unfolding read_any

    -- `UnmarshalJSON`; the members are decoded in their order, over what those before them left.
    pub unmarshal : Json → Option PostureNode
    unmarshal (obj fs) = unmarshal_members fs zero_node
    unmarshal null = some zero_node
    unmarshal _ = none

    pub unmarshal_members : Fields → PostureNode → Option PostureNode
    unmarshal_members end acc = some acc
    unmarshal_members (field k v fs) acc =
        let ns = unmarshal_list v in
        let m = unmarshal_pointer v in
        let a = read_any float_of v in
        set_member (key_of k) v ns m a acc then λ acc'. unmarshal_members fs acc'

    pub unmarshal_list : Json → Option Nodes
    unmarshal_list (arr js) = unmarshal_items js
    unmarshal_list null = some empty
    unmarshal_list _ = none

    pub unmarshal_pointer : Json → Option MaybeNode
    unmarshal_pointer null = some absent
    unmarshal_pointer (obj fs) = unmarshal_members fs zero_node then λ n. some (present n)
    unmarshal_pointer _ = none

    pub unmarshal_items : Items → Option Nodes
    unmarshal_items nil = some empty
    unmarshal_items (cons (obj fs) js) =
        unmarshal_members fs zero_node then λ n. unmarshal_items js then λ ns. some (more n ns)
    unmarshal_items (cons null js) = unmarshal_items js then λ ns. some (more zero_node ns)
    unmarshal_items (cons _ js) = none
