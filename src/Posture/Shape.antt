-- ===== src/Posture/Shape.antt =====
-- Which posture expressions can be sent.
use firezone_sdk_go.Common.{
  ℕ, ◌≡◌, ◌≢◌, ◌↔◌, ◌⊎◌, refl, false, Option, none, some, [], ◌∷◌, Bytes, codes, arith, inl, inr,
}
use firezone_sdk_go.Error.{ok, >>=-eq-ok}
use firezone_sdk_go.Json.{Json, Items, nil, cons}
use firezone_sdk_go.Value.{Any, value_json}
use firezone_sdk_go.Posture.Encodable.{Encodable, value-Encodable, Encodable-value}
use firezone_sdk_go.Posture.{
  PostureNode, Nodes, MaybeNode, node, empty, more, absent, present, shape_error, has_prefix, wire,
  marshal, marshal_nodes, marshal_maybe,
}
use firezone_sdk_go.Posture.Members.{refuse_inv, marshal_inv}

-- Rows are left to the default, or the field is not one of the device's own record.
abbrev pub RowsFit : Bytes → Bytes → Type 0
RowsFit name rows = (rows ≡ []) ⊎ (has_prefix name (codes "firezone.") ≡ false)

-- Exactly one of the four shapes, at every depth. A value beside `and`, `or` or `not` is no part
-- of what is checked, but is encoded with them.
mutual
  pub data IsShaped : PostureNode → Type 0 where
    an_and :
        {n : PostureNode} {ns : Nodes} {value : Any}
        → IsShaped n
        → AllShaped ns
        → Encodable value
        → IsShaped (node (more n ns) empty absent [] [] value [])
    an_or :
        {n : PostureNode} {ns : Nodes} {value : Any}
        → IsShaped n
        → AllShaped ns
        → Encodable value
        → IsShaped (node empty (more n ns) absent [] [] value [])
    a_not :
        {n : PostureNode} {value : Any}
        → IsShaped n
        → Encodable value
        → IsShaped (node empty empty (present n) [] [] value [])
    a_leaf :
        {name operator rows : Bytes} {value : Any}
        → name ≢ []
        → operator ≢ []
        → RowsFit name rows
        → Encodable value
        → IsShaped (node empty empty absent name operator value rows)

  pub data AllShaped : Nodes → Type 0 where
    none_left : AllShaped empty
    one_more : {n : PostureNode} {ns : Nodes} → IsShaped n → AllShaped ns → AllShaped (more n ns)

-- The shapes of a node alone.
data Shape : Nodes → Nodes → MaybeNode → Bytes → Bytes → Bytes → Type 0 where
  of_and : {n : PostureNode} {ns : Nodes} → Shape (more n ns) empty absent [] [] []
  of_or : {n : PostureNode} {ns : Nodes} → Shape empty (more n ns) absent [] [] []
  of_not : {n : PostureNode} → Shape empty empty (present n) [] [] []
  of_leaf :
      {name operator rows : Bytes}
      → name ≢ []
      → operator ≢ []
      → RowsFit name rows
      → Shape empty empty absent name operator rows

leaf_rows :
    (c : ℕ) (name : Bytes) (b : ℕ) (operator rows : Bytes) (value : Any)
    → shape_error (node empty empty absent (c ∷ name) (b ∷ operator) value rows) ≡ none
    → RowsFit (c ∷ name) rows
unfolding shape_error
leaf_rows c name b operator [] value e = inl refl
leaf_rows c name b operator (r ∷ rows) value e = inr (ground arith)

-- A node that passes the checks has one of the shapes.
node-Shape :
    (as' os : Nodes) (n : MaybeNode) (name operator : Bytes) (value : Any) (rows : Bytes)
    → shape_error (node as' os n name operator value rows) ≡ none
    → Shape as' os n name operator rows
unfolding shape_error
node-Shape (more n ns) empty absent [] [] value [] e = of_and
node-Shape empty (more n ns) absent [] [] value [] e = of_or
node-Shape empty empty (present n) [] [] value [] e = of_not
node-Shape empty empty absent (c ∷ name) (b ∷ operator) value rows e =
    of_leaf (cc) (cc) (leaf_rows c name b operator rows value e)
node-Shape _ _ _ [] (b ∷ operator) _ _ e = cc
node-Shape _ _ _ (c ∷ name) [] _ _ e = cc
node-Shape _ _ _ (c ∷ name) (b ∷ operator) _ _ e = absurd (ground arith)
node-Shape _ _ _ [] [] _ _ e = absurd (ground arith)

MaybeShaped : MaybeNode → Type 0
MaybeShaped absent = Unit
MaybeShaped (present n) = IsShaped n

join-Shape :
    {as' os : Nodes} {n : MaybeNode} {name operator : Bytes} {value : Any} {rows : Bytes}
    → Shape as' os n name operator rows
    → AllShaped as'
    → AllShaped os
    → MaybeShaped n
    → Encodable value
    → IsShaped (node as' os n name operator value rows)
unfolding MaybeShaped
join-Shape of_and (one_more h hs) ho hn hv = an_and h hs hv
join-Shape of_or ha (one_more h hs) hn hv = an_or h hs hv
join-Shape of_not ha ho hn hv = a_not hn hv
join-Shape (of_leaf p q r) ha ho hn hv = a_leaf p q r hv

mutual
  unfolding marshal MaybeShaped

  shaped : (n : PostureNode) {j : Json} → marshal n ≡ ok j → IsShaped n
  shaped (node as' os n name operator value rows) e =
      let (passed, _) = refuse_inv (shape_error (node as' os n name operator value rows)) _ e in
      let enc = marshal_inv as' os n name operator value rows e in
      join-Shape (node-Shape as' os n name operator value rows passed)
        (all_shaped as' enc.and_encoded) (all_shaped os enc.or_encoded)
        (maybe_shaped n enc.not_encoded) (value-Encodable value enc.value_encoded)

  all_shaped : (ns : Nodes) {js : Items} → marshal_nodes ns ≡ ok js → AllShaped ns
  all_shaped empty e = none_left
  all_shaped (more n ns) e =
      let (j, ej, r) = >>=-eq-ok (marshal n) _ e in
      let (js, ejs, _) = >>=-eq-ok (marshal_nodes ns) _ r in
      one_more (shaped n ej) (all_shaped ns ejs)

  maybe_shaped : (n : MaybeNode) {jn : Option Json} → marshal_maybe n ≡ ok jn → MaybeShaped n
  maybe_shaped absent e = tt
  maybe_shaped (present n) e = let (j, ej, _) = >>=-eq-ok (marshal n) _ e in shaped n ej

leaf_passes :
    (name operator : Bytes) (value : Any) (rows : Bytes)
    → name ≢ []
    → operator ≢ []
    → RowsFit name rows
    → shape_error (node empty empty absent name operator value rows) ≡ none
unfolding shape_error
leaf_passes [] operator value rows p q r = absurd (p refl)
leaf_passes (c ∷ name) [] value rows p q r = absurd (q refl)
leaf_passes (c ∷ name) (b ∷ operator) value [] p q r = refl
leaf_passes (c ∷ name) (b ∷ operator) value (x ∷ rows) p q (inl e) = cc
leaf_passes (c ∷ name) (b ∷ operator) value (x ∷ rows) p q (inr h) = rw h refl

marshal_of_parts :
    (as' os : Nodes) (n : MaybeNode) (name operator : Bytes) (value : Any) (rows : Bytes)
    {ja jo : Items} {jn jv : Option Json}
    → shape_error (node as' os n name operator value rows) ≡ none
    → marshal_nodes as' ≡ ok ja
    → marshal_nodes os ≡ ok jo
    → marshal_maybe n ≡ ok jn
    → value_json value ≡ ok jv
    → marshal (node as' os n name operator value rows) ≡ ok (wire ja jo jn name operator jv rows)
unfolding marshal
marshal_of_parts as' os n name operator value rows h ea eo en ev =
    rw h (rw ea (rw eo (rw en (rw ev refl))))

encoded_empty : marshal_nodes empty ≡ ok nil
unfolding marshal
encoded_empty = refl

encoded_absent : marshal_maybe absent ≡ ok none
unfolding marshal
encoded_absent = refl

encoded_present :
    (n : PostureNode) {j : Json} → marshal n ≡ ok j → marshal_maybe (present n) ≡ ok (some j)
unfolding marshal
encoded_present n e = rw e refl

encoded_more :
    (n : PostureNode) (ns : Nodes) {j : Json} {js : Items}
    → marshal n ≡ ok j
    → marshal_nodes ns ≡ ok js
    → marshal_nodes (more n ns) ≡ ok (cons j js)
unfolding marshal
encoded_more n ns e es = rw e (rw es refl)

-- A field check is encoded as the members of its own fields.
pub marshal_leaf :
    (name operator : Bytes) (value : Any) (rows : Bytes) {jv : Option Json}
    → name ≢ []
    → operator ≢ []
    → RowsFit name rows
    → value_json value ≡ ok jv
    → marshal (node empty empty absent name operator value rows)
      ≡ ok (wire nil nil none name operator jv rows)
marshal_leaf name operator value rows p q r ev =
    marshal_of_parts empty empty absent name operator value rows
      (leaf_passes name operator value rows p q r) encoded_empty encoded_empty encoded_absent ev

mutual
  unfolding shape_error

  shaped_marshals : {n : PostureNode} → IsShaped n → (j : Json) × (marshal n ≡ ok j)
  shaped_marshals (an_and {n} {ns} {value} h hs hv) =
      let (j, e) = shaped_marshals h in
      let (js, es) = all_marshal hs in
      let (jv, ev) = Encodable-value value hv in
      (
        wire (cons j js) nil none [] [] jv [],
        marshal_of_parts (more n ns) empty absent [] [] value [] refl (encoded_more n ns e es)
            encoded_empty encoded_absent ev,
      )
  shaped_marshals (an_or {n} {ns} {value} h hs hv) =
      let (j, e) = shaped_marshals h in
      let (js, es) = all_marshal hs in
      let (jv, ev) = Encodable-value value hv in
      (
        wire nil (cons j js) none [] [] jv [],
        marshal_of_parts empty (more n ns) absent [] [] value [] refl encoded_empty
            (encoded_more n ns e es) encoded_absent ev,
      )
  shaped_marshals (a_not {n} {value} h hv) =
      let (j, e) = shaped_marshals h in
      let (jv, ev) = Encodable-value value hv in
      (
        wire nil nil (some j) [] [] jv [],
        marshal_of_parts empty empty (present n) [] [] value [] refl encoded_empty encoded_empty
            (encoded_present n e) ev,
      )
  shaped_marshals (a_leaf {name} {operator} {rows} {value} p q r hv) =
      let (jv, ev) = Encodable-value value hv in
      (wire nil nil none name operator jv rows, marshal_leaf name operator value rows p q r ev)

  all_marshal : {ns : Nodes} → AllShaped ns → (js : Items) × (marshal_nodes ns ≡ ok js)
  all_marshal none_left = (nil, encoded_empty)
  all_marshal (one_more {n} {ns} h hs) =
      let (j, e) = shaped_marshals h in
      let (js, es) = all_marshal hs in (cons j js, encoded_more n ns e es)

-- An expression is encoded exactly when every node in it is one of the four shapes and has a value
-- that encoding/json writes: a non-empty `and`, a non-empty `or`, a `not`, or a field check with a
-- field and an operator, whose rows are set only if the field is not one of the device's own
-- record; and no value that is or holds a NaN, an infinity or a value of a type that it refuses.
pub marshal_iff : (n : PostureNode) → ((j : Json) × (marshal n ≡ ok j)) ↔ IsShaped n
marshal_iff n = (λ (j, e). shaped n e, shaped_marshals)
