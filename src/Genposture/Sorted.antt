-- ===== src/Genposture/Sorted.antt =====
-- The fields of the generator in the order of their names.
use firezone_sdk_go.Common.{
  ◌≡◌, refl, ap, ◌∙◌, false, ◌||◌, List, [], ◌∷◌, Bytes, All, bytes_eq, bytes_eq_iff, holds_key,
  bytes_ltb, asymmetric, below_trans, arith, Bool-cases, inl, inr, Distinct,
}
use firezone_sdk_go.Genposture.{Field}
use firezone_sdk_go.Genposture.Load.{insert_field, sort_fields}

-- No field has a name below that of a field in front of it.
abbrev pub Sorted : List Field → Type 0
Sorted [] = Unit
Sorted (f ∷ fs) = All (λ g. bytes_ltb g.name f.name ≡ false) fs × Sorted fs

-- A text of each field.
abbrev pub texts : (Field → Bytes) → List Field → List Bytes
texts t [] = []
texts t (f ∷ fs) = t f ∷ texts t fs

All-insert_field :
    (P : Field → Type 0) (f : Field) (fs : List Field) → P f → All P fs → All P (insert_field f fs)
unfolding insert_field
All-insert_field P f [] p h = (p, tt)
All-insert_field P f (g ∷ gs) p (pg, h) = elim (Bool-cases (bytes_ltb g.name f.name)) [
  | inl below ↦ rw below (pg, All-insert_field P f gs p h)
  | inr above ↦ rw above (p, (pg, h))
]

pub All-sort_fields : (P : Field → Type 0) (fs : List Field) → All P fs → All P (sort_fields fs)
unfolding sort_fields
All-sort_fields P [] h = tt
All-sort_fields P (f ∷ fs) (p, h) = All-insert_field P f _ p (All-sort_fields P fs h)

not_below :
    (f g : Field) (gs : List Field)
    → bytes_ltb g.name f.name ≡ false
    → All (λ h. bytes_ltb h.name g.name ≡ false) gs
    → All (λ h. bytes_ltb h.name f.name ≡ false) gs
not_below f g [] e all = tt
not_below f g (h ∷ hs) e (here, all) =
    (ground (arith, below_trans h.name g.name f.name here), not_below f g hs e all)

insert_field-Sorted : (f : Field) (fs : List Field) → Sorted fs → Sorted (insert_field f fs)
unfolding insert_field
insert_field-Sorted f [] s = (tt, tt)
insert_field-Sorted f (g ∷ gs) (all, s) = elim (Bool-cases (bytes_ltb g.name f.name)) [
  | inl below ↦ rw below (
    All-insert_field (λ h. bytes_ltb h.name g.name ≡ false) f gs (asymmetric g.name f.name below)
        all,
    insert_field-Sorted f gs s,
  )
  | inr above ↦ rw above ((above, not_below f g gs above all), (all, s))
]

pub sort_fields-Sorted : (fs : List Field) → Sorted (sort_fields fs)
unfolding sort_fields
sort_fields-Sorted [] = tt
sort_fields-Sorted (f ∷ fs) = insert_field-Sorted f (sort_fields fs) (sort_fields-Sorted fs)

module _ (t : Field → Bytes) where
  holds_key-insert_field :
      (k : Bytes) (f : Field) (fs : List Field)
      → holds_key k (texts t (insert_field f fs)) ≡ (bytes_eq (t f) k || holds_key k (texts t fs))
  unfolding insert_field
  holds_key-insert_field k f [] = refl
  holds_key-insert_field k f (g ∷ gs) = ground (arith, holds_key-insert_field k f gs)

  pub holds_key-sort_fields :
      (k : Bytes) (fs : List Field)
      → holds_key k (texts t (sort_fields fs)) ≡ holds_key k (texts t fs)
  unfolding sort_fields
  holds_key-sort_fields k [] = refl
  holds_key-sort_fields k (f ∷ fs) =
      holds_key-insert_field k f (sort_fields fs)
      ∙ ap (λ b. bytes_eq (t f) k || b) (holds_key-sort_fields k fs)

  insert_field-Distinct :
      (f : Field) (fs : List Field)
      → holds_key (t f) (texts t fs) ≡ false
      → Distinct (texts t fs)
      → Distinct (texts t (insert_field f fs))
  unfolding insert_field
  insert_field-Distinct f [] h d = (refl, tt)
  insert_field-Distinct f (g ∷ gs) h (apart, d) = elim (Bool-cases (bytes_ltb g.name f.name)) [
    | inl below ↦ rw below (
      holds_key-insert_field (t g) f gs
          ∙ ground (arith, bytes_eq_iff (t f) (t g), bytes_eq_iff (t g) (t f)),
      insert_field-Distinct f gs (ground arith) d,
    )
    | inr above ↦ rw above (h, (apart, d))
  ]

  pub sort_fields-Distinct :
      (fs : List Field) → Distinct (texts t fs) → Distinct (texts t (sort_fields fs))
  unfolding sort_fields
  sort_fields-Distinct [] d = tt
  sort_fields-Distinct (f ∷ fs) (apart, d) =
      insert_field-Distinct f (sort_fields fs) (holds_key-sort_fields (t f) fs ∙ apart)
        (sort_fields-Distinct fs d)
