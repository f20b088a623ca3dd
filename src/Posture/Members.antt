-- ===== src/Posture/Members.antt =====
-- The members of an encoded posture node, one by one.
use firezone_sdk_go.Common.{◌≡◌, refl, sym, Option, none, some, [], ◌∷◌, Bytes, codes}
use firezone_sdk_go.Error.{Error, Result, ok, >>=-eq-ok, ok_injective}
use firezone_sdk_go.Json.{Json, Items, Fields, nil, cons, end, keep_text, keep_some}
use firezone_sdk_go.Value.{Any, Number, nil_value, value_json, read_any}
use firezone_sdk_go.Posture.{
  Nodes, MaybeNode, node, empty, absent, shape_error, refuse, keep_items, wire, marshal,
  marshal_nodes, marshal_maybe, unmarshal, unmarshal_members, unmarshal_pointer, unmarshal_items,
}

-- What `marshal` has encoded when it succeeds.
pub record Encoded (as' os : Nodes) (n : MaybeNode) (name operator : Bytes) (value : Any)
    (rows : Bytes) (j : Json) : Type 0 where
  pub ja : Items
  pub jo : Items
  pub jn : Option Json
  pub jv : Option Json
  pub and_encoded : marshal_nodes as' ≡ ok ja
  pub or_encoded : marshal_nodes os ≡ ok jo
  pub not_encoded : marshal_maybe n ≡ ok jn
  pub value_encoded : value_json value ≡ ok jv
  pub written : j ≡ wire ja jo jn name operator jv rows

pub refuse_inv :
    (o : Option Error) (r : Result Json) {j : Json} → refuse o r ≡ ok j → (o ≡ none) × (r ≡ ok j)
refuse_inv none r e = (refl, e)
refuse_inv (some x) r e = cc

pub marshal_inv :
    (as' os : Nodes) (n : MaybeNode) (name operator : Bytes) (value : Any) (rows : Bytes) {j : Json}
    → marshal (node as' os n name operator value rows) ≡ ok j
    → Encoded as' os n name operator value rows j
unfolding marshal
marshal_inv as' os n name operator value rows e =
    let (_, r0) = refuse_inv (shape_error (node as' os n name operator value rows)) _ e in
    let (ja, ea, r1) = >>=-eq-ok (marshal_nodes as') _ r0 in
    let (jo, eo, r2) = >>=-eq-ok (marshal_nodes os) _ r1 in
    let (jn, en, r3) = >>=-eq-ok (marshal_maybe n) _ r2 in
    let (jv, ev, r4) = >>=-eq-ok (value_json value) _ r3 in
    record {
      ja = ja;
      jo = jo;
      jn = jn;
      jv = jv;
      and_encoded = ea;
      or_encoded = eo;
      not_encoded = en;
      value_encoded = ev;
      written = sym (ok_injective r4);
    }

module _ (float_of : Number → Option Number) where
  -- What the encodings of a pointer and of a value are read back as.
  abbrev pub Points : MaybeNode → Option Json → Type 0
  Points n none = n ≡ absent
  Points n (some j) = unmarshal_pointer float_of j ≡ some n

  abbrev pub Holds : Any → Option Json → Type 0
  Holds v none = v ≡ nil_value
  Holds v (some j) = read_any float_of j ≡ some v

  empty_of_items : {ns : Nodes} → unmarshal_items float_of nil ≡ some ns → ns ≡ empty
  unfolding unmarshal
  empty_of_items e = cc

  -- One lemma for each member: what is behind it is decoded over a node with that field set.
  pub and_member :
      (fs : Fields) (ja : Items) {as' : Nodes}
      → unmarshal_items float_of ja ≡ some as'
      → unmarshal_members float_of
          (keep_items (codes "and") ja fs)
          (node empty empty absent [] [] nil_value [])
        ≡ unmarshal_members float_of fs (node as' empty absent [] [] nil_value [])
  unfolding unmarshal
  and_member fs nil u = rw (empty_of_items u) refl
  and_member fs (cons j js) u = rw u refl

  pub or_member :
      (fs : Fields) (as' : Nodes) (jo : Items) {os : Nodes}
      → unmarshal_items float_of jo ≡ some os
      → unmarshal_members float_of
          (keep_items (codes "or") jo fs)
          (node as' empty absent [] [] nil_value [])
        ≡ unmarshal_members float_of fs (node as' os absent [] [] nil_value [])
  unfolding unmarshal
  or_member fs as' nil u = rw (empty_of_items u) refl
  or_member fs as' (cons j js) u = rw u refl

  pub not_member :
      (fs : Fields) (as' os : Nodes) (n : MaybeNode) (jn : Option Json)
      → Points n jn
      → unmarshal_members float_of
          (keep_some (λ j. j) (codes "not") jn fs)
          (node as' os absent [] [] nil_value [])
        ≡ unmarshal_members float_of fs (node as' os n [] [] nil_value [])
  unfolding unmarshal
  not_member fs as' os n none u = rw u refl
  not_member fs as' os n (some j) u = rw u refl

  pub field_member :
      (fs : Fields) (as' os : Nodes) (n : MaybeNode) (f : Bytes)
      → unmarshal_members float_of
          (keep_text (codes "field") f fs)
          (node as' os n [] [] nil_value [])
        ≡ unmarshal_members float_of fs (node as' os n f [] nil_value [])
  unfolding unmarshal
  field_member fs as' os n [] = refl
  field_member fs as' os n (b ∷ s) = refl

  pub op_member :
      (fs : Fields) (as' os : Nodes) (n : MaybeNode) (f o : Bytes)
      → unmarshal_members float_of (keep_text (codes "op") o fs) (node as' os n f [] nil_value [])
        ≡ unmarshal_members float_of fs (node as' os n f o nil_value [])
  unfolding unmarshal
  op_member fs as' os n f [] = refl
  op_member fs as' os n f (b ∷ s) = refl

  pub rows_member :
      (fs : Fields) (as' os : Nodes) (n : MaybeNode) (f o r : Bytes)
      → unmarshal_members float_of (keep_text (codes "rows") r fs) (node as' os n f o nil_value [])
        ≡ unmarshal_members float_of fs (node as' os n f o nil_value r)
  unfolding unmarshal
  rows_member fs as' os n f o [] = refl
  rows_member fs as' os n f o (b ∷ s) = refl

  pub value_member :
      (as' os : Nodes) (n : MaybeNode) (f o : Bytes) (v : Any) (jv : Option Json) (r : Bytes)
      → Holds v jv
      → unmarshal_members float_of
          (keep_some (λ j. j) (codes "value") jv end)
          (node as' os n f o nil_value r)
        ≡ some (node as' os n f o v r)
  unfolding unmarshal
  value_member as' os n f o v none r u = rw u refl
  value_member as' os n f o v (some j) r u = rw u refl
