-- ===== src/PostureFields/Offered.antt =====
-- The methods of the typed fields are all that the API's schema asks for, and no more.
use firezone_sdk_go.Common.{
  ℕ, Bool, true, false, ◌||◌, ◌≡◌, ◌↔◌, sym, ap, ◌∙◌, subst, none, some, List, [], ◌∷◌, Bytes, find,
  keys, holds_key, All, Bool-cases, inl, inr, bytes_eq, bytes_eq_iff,
}
use firezone_sdk_go.Genposture.{FieldType, go_type}
use firezone_sdk_go.Posture.{PostureNode, posture_check}
use firezone_sdk_go.PostureFields.Schema.{leaf_schemas}
use firezone_sdk_go.PostureFields.Leaves.{typed_leaf}
use firezone_sdk_go.PostureFields.Accepted.{operator_of_node, find-leaf_schemas}
use firezone_sdk_go.PostureFields.Typed.{TypedLeaf, operators_of}
use firezone_sdk_go.PostureFields.Methods.{Offers, All-offered}

-- Whether the schema has the operator for attributes of that type.
abbrev pub schema_offers : Bytes → Bytes → Bool
schema_offers spec_type operator = elim (find spec_type leaf_schemas) [
  | none ↦ false
  | some operators ↦ holds_key operator (keys operators)
]

-- What holds of every key of a list.
All_of_holds_key {ℓ} :
    (P : Bytes → Type ℓ) (k : Bytes) (ks : List Bytes) → All P ks → holds_key k ks ≡ true → P k
All_of_holds_key P k [] h e = cc
All_of_holds_key P k (j ∷ ks) (p, h) e = elim (Bool-cases (bytes_eq j k)) [
  | inl same ↦ subst P ((bytes_eq_iff j k).0 same) p
  | inr other ↦ All_of_holds_key P k ks h (ap (λ b. b || holds_key k ks) (sym other) ∙ e)
]

module _ {T P : Type 0} (utc_text : T → Bytes) (prefix_text : P → Bytes)
    (seconds_text : ℕ → Bytes) where
  offered_of_leaf :
      {type : FieldType} {name : Bytes} {n : PostureNode} (operator : Bytes)
      → TypedLeaf utc_text prefix_text seconds_text type name n
      → operator_of_node n ≡ operator
      → holds_key operator (keys (operators_of type)) ≡ true
  unfolding posture_check
  offered_of_leaf {type} operator built e =
      let leaf = typed_leaf utc_text prefix_text seconds_text built in
      subst (λ k. holds_key k (keys (operators_of type)) ≡ true)
        (sym (ap operator_of_node leaf.is_check) ∙ e) leaf.offered

  -- The typed fields offer exactly the operators of the API's schema: for each type of an attribute
  -- that has a field type, a leaf by an operator can be built by a method of that field type if and
  -- only if the schema has the operator for attributes of that type. There is a time at all, to
  -- compare a timestamp with.
  pub typed_operator_iff :
      (spec_type name operator : Bytes) {type : FieldType}
      → T
      → find spec_type go_type ≡ some type
      → Offers utc_text prefix_text seconds_text type name operator
        ↔ (schema_offers spec_type operator ≡ true)
  typed_operator_iff spec_type name operator {type} t e =
      let same =
        ap (λ o. elim o [ none ↦ false | some operators ↦ holds_key operator (keys operators) ])
          (find-leaf_schemas spec_type e) in
      (
        λ (n, built, by). same ∙ offered_of_leaf operator built by,
        λ h.
            All_of_holds_key (Offers utc_text prefix_text seconds_text type name) operator
              (keys (operators_of type)) (All-offered utc_text prefix_text seconds_text type name t)
              (sym same ∙ h),
      )
