-- ===== src/Posture/RoundTrip.antt =====
-- Encoding a posture expression and decoding it again.
use firezone_sdk_go.Common.{
  false, ◌≡◌, refl, sym, ◌∙◌, subst, Option, none, some, List, [], ◌∷◌, Bytes, map,
}
use firezone_sdk_go.Error.{ok, >>=-eq-ok, ok_injective}
use firezone_sdk_go.Json.{Json, Items, Fields, str, arr, obj, nil, cons, items_of}
use firezone_sdk_go.Value.{
  Any, Anys, Number, whole, text, finite, a_float, number, is_nil, value_json, encode_any,
  encode_anys, read_any, read_items, read_number,
}
use firezone_sdk_go.Posture.Members.{
  marshal_inv, Points, Holds, and_member, or_member, not_member, field_member, op_member,
  rows_member, value_member,
}
use firezone_sdk_go.Posture.Returned.{
  ReadAs, AllReadAs, Returned, AllReturned, MaybeReturned, array_of, read_nil, read_bool, read_int,
  read_float, read_string, read_nil_slice, read_strings, read_array, none_read, one_read,
  node_returned, none_returned, one_returned, absent_returned, present_returned,
}
use firezone_sdk_go.Posture.{
  PostureNode, Nodes, MaybeNode, node, empty, more, absent, present, wire, marshal, marshal_nodes,
  marshal_maybe, zero_node, unmarshal, unmarshal_members, unmarshal_pointer, unmarshal_items,
}

nodes_inv :
    (n : PostureNode) (ns : Nodes) {js : Items}
    → marshal_nodes (more n ns) ≡ ok js
    → (j : Json) × (rest : Items) × (marshal n ≡ ok j)
      × (marshal_nodes ns ≡ ok rest)
      × (js ≡ cons j rest)
unfolding marshal
nodes_inv n ns e =
    let (j, ej, r) = >>=-eq-ok (marshal n) _ e in
    let (js, ejs, r') = >>=-eq-ok (marshal_nodes ns) _ r in (j, js, ej, ejs, sym (ok_injective r'))

maybe_inv :
    (n : PostureNode) {jn : Option Json}
    → marshal_maybe (present n) ≡ ok jn
    → (j : Json) × (marshal n ≡ ok j) × (jn ≡ some j)
unfolding marshal
maybe_inv n e = let (j, ej, r) = >>=-eq-ok (marshal n) _ e in (j, ej, sym (ok_injective r))

module _ (float_of : Number → Option Number) where
  read_number-some :
      (y : Number) {x : Number}
      → float_of y ≡ some x
      → read_any float_of (number y) ≡ some (a_float (finite x))
  unfolding read_any read_number
  read_number-some (whole n) e = rw e refl
  read_number-some (text s) e = rw e refl

  texts_read : (ss : List Bytes) → read_items float_of (items_of (map str ss)) ≡ some (array_of ss)
  unfolding read_any
  texts_read [] = refl
  texts_read (s ∷ ss) = rw (texts_read ss) refl

  mutual
    unfolding encode_any read_any read_number

    -- A value is encoded, and read from that as what it returns as.
    encoded_read :
        {v w : Any}
        → ReadAs float_of v w
        → (j : Json) × (encode_any v ≡ ok j) × (read_any float_of j ≡ some w)
    encoded_read read_nil = (_, refl, refl)
    encoded_read (read_bool b) = (_, refl, refl)
    encoded_read (read_int n x e) = (_, refl, rw e refl)
    encoded_read (read_float y x e) = (_, refl, read_number-some y e)
    encoded_read (read_string s) = (_, refl, refl)
    encoded_read read_nil_slice = (_, refl, refl)
    encoded_read (read_strings ss) = (_, refl, rw (texts_read ss) refl)
    encoded_read (read_array h) = let (js, e, r) = encoded_reads h in (arr js, rw e refl, rw r refl)

    encoded_reads :
        {vs ws : Anys}
        → AllReadAs float_of vs ws
        → (js : Items) × (encode_anys vs ≡ ok js) × (read_items float_of js ≡ some ws)
    encoded_reads none_read = (nil, refl, refl)
    encoded_reads (one_read h hs) =
        let (j, e, r) = encoded_read h in
        let (js, es, rs) = encoded_reads hs in (cons j js, rw e (rw es refl), rw r (rw rs refl))

  present_held :
      {v w : Any}
      → is_nil v ≡ false
      → ReadAs float_of v w
      → (jv : Option Json) × (value_json v ≡ ok jv) × Holds float_of w jv
  unfolding value_json
  present_held h read = let (j, e, r) = encoded_read read in (some j, rw e (rw h refl), r)

  value_read :
      {v w : Any}
      → ReadAs float_of v w
      → (jv : Option Json) × (value_json v ≡ ok jv) × Holds float_of w jv
  unfolding value_json encode_any
  value_read read_nil = (none, refl, refl)
  value_read (read_bool b) = present_held refl (read_bool b)
  value_read (read_int n x e) = present_held refl (read_int n x e)
  value_read (read_float y x e) = present_held refl (read_float y x e)
  value_read (read_string s) = present_held refl (read_string s)
  value_read read_nil_slice = present_held refl read_nil_slice
  value_read (read_strings ss) = present_held refl (read_strings ss)
  value_read (read_array h) = present_held refl (read_array h)

  -- The object that `unmarshal` decodes into a node.
  abbrev Decodes : PostureNode → Json → Type 0
  Decodes n j = (fs : Fields) × (j ≡ obj fs) × (unmarshal_members float_of fs zero_node ≡ some n)

  wire-Decodes :
      {as' os : Nodes} {n : MaybeNode} {name operator : Bytes} {value : Any} {rows : Bytes}
      (ja jo : Items) (jn jv : Option Json)
      → unmarshal_items float_of ja ≡ some as'
      → unmarshal_items float_of jo ≡ some os
      → Points float_of n jn
      → Holds float_of value jv
      → Decodes (node as' os n name operator value rows) (wire ja jo jn name operator jv rows)
  wire-Decodes {as'} {os} {n} {name} {operator} {value} {rows} ja jo jn jv ua uo un uv = (
    _,
    refl,
    and_member float_of _ ja ua
        ∙ or_member float_of _ as' jo uo
        ∙ not_member float_of _ as' os n jn un
        ∙ field_member float_of _ as' os n name
        ∙ op_member float_of _ as' os n name operator
        ∙ rows_member float_of _ as' os n name operator rows
        ∙ value_member float_of as' os n name operator value jv rows uv,
  )

  pointer_of_Decodes :
      (n : PostureNode) (j : Json) → Decodes n j → unmarshal_pointer float_of j ≡ some (present n)
  unfolding unmarshal
  pointer_of_Decodes n j (fs, e, u) = rw e (rw u refl)

  items_of_Decodes :
      (n : PostureNode) (ns : Nodes) (j : Json) (js : Items)
      → Decodes n j
      → unmarshal_items float_of js ≡ some ns
      → unmarshal_items float_of (cons j js) ≡ some (more n ns)
  unfolding unmarshal
  items_of_Decodes n ns j js (fs, e, u) us = rw e (rw u (rw us refl))

  empty_items :
      {js : Items} → marshal_nodes empty ≡ ok js → unmarshal_items float_of js ≡ some empty
  unfolding marshal unmarshal
  empty_items e = rw (← ok_injective e) refl

  absent-Points : {jn : Option Json} → marshal_maybe absent ≡ ok jn → Points float_of absent jn
  unfolding marshal
  absent-Points e = rw (← ok_injective e) refl

  value_held :
      {v w : Any} {jv : Option Json}
      → value_json v ≡ ok jv
      → ReadAs float_of v w
      → Holds float_of w jv
  value_held {v} {w} e h =
      let (kv, e', held) = value_read h in subst (Holds float_of w) (ok_injective (sym e' ∙ e)) held

  mutual
    marshal-Decodes :
        {n m : PostureNode} {j : Json} → marshal n ≡ ok j → Returned float_of n m → Decodes m j
    marshal-Decodes e (node_returned ha ho hn hv) =
        let enc = marshal_inv _ _ _ _ _ _ _ e in
        let (fs, shape, u) =
          wire-Decodes enc.ja enc.jo enc.jn enc.jv (marshal-items enc.and_encoded ha)
            (marshal-items enc.or_encoded ho) (marshal-Points enc.not_encoded hn)
            (value_held enc.value_encoded hv) in
        (fs, enc.written ∙ shape, u)

    marshal-items :
        {ns ms : Nodes} {js : Items}
        → marshal_nodes ns ≡ ok js
        → AllReturned float_of ns ms
        → unmarshal_items float_of js ≡ some ms
    marshal-items e none_returned = empty_items e
    marshal-items e (one_returned {n} {m} {ns} {ms} h hs) =
        let (j, js, ej, ejs, shape) = nodes_inv n ns e in
        rw shape (items_of_Decodes m ms j js (marshal-Decodes ej h) (marshal-items ejs hs))

    marshal-Points :
        {n m : MaybeNode} {jn : Option Json}
        → marshal_maybe n ≡ ok jn
        → MaybeReturned float_of n m
        → Points float_of m jn
    marshal-Points e absent_returned = absent-Points e
    marshal-Points e (present_returned {n} {m} h) =
        let (j, ej, shape) = maybe_inv n e in
        rw shape (pointer_of_Decodes m j (marshal-Decodes ej h))

  -- An expression that is encoded is decoded to the same expression at every depth, with its
  -- shapes, fields, operators and row settings, but for the values: there a number has become the
  -- float64 nearest to it, a []string a []any, and a nil slice a nil interface. Values that are
  -- maps or of another type are left aside.
  pub unmarshal-marshal :
      {n m : PostureNode} {j : Json}
      → Returned float_of n m
      → marshal n ≡ ok j
      → unmarshal float_of j ≡ some m
  unfolding unmarshal
  unmarshal-marshal h e = let (fs, shape, u) = marshal-Decodes e h in rw shape u
