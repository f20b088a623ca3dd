-- ===== src/Genposture/Checked.antt =====
-- What the loop of `load` has checked of the fields that it has collected.
use firezone_sdk_go.Common.{
  ◌≡◌, ◌≢◌, refl, sym, ap, ◌∙◌, subst, Bool, true, false, Option, none, some, List, [], ◌∷◌, Bytes,
  Map, All, bytes_eq, bytes_eq_iff, holds_key, arith, Bool-cases, Option-cases, inl, inr, Distinct,
  find, put, find-put, keys, length, if◌then◌else◌,
}
use firezone_sdk_go.Genposture.{FieldType, go_type, Field, ident_for}
use firezone_sdk_go.Genposture.Table.{Row}
use firezone_sdk_go.Genposture.Load.{
  Outcome, loaded, failed, GenError, type_of, field_of, judge, row_error, add_row, load_rows,
}
use firezone_sdk_go.Genposture.Sorted.{texts}

-- A field whose type has constants and is the one that the leaf schemas give it, with the
-- identifier of its name.
pub record Agrees (leaves : Map Bytes) (f : Field) : Type 0 where
  pub type : FieldType
  pub has_type : find f.spec_type go_type ≡ some type
  pub same_type : find f.name leaves ≡ some f.spec_type
  pub has_ident : f.ident ≡ ident_for f.name

-- What the loop has checked of its fields, behind the identifiers that it has seen.
unfoldable pub Checked : Map Bytes → Map Bytes → List Field → Type 0
Checked leaves seen [] = Unit
Checked leaves seen (f ∷ fs) =
    Agrees leaves f × (find f.ident seen ≡ none) × Checked leaves (put f.ident f.name seen) fs

pub loaded_injective : {fs gs : List Field} → loaded fs ≡ loaded gs → fs ≡ gs
loaded_injective e = cc e

-- A row with nothing wrong.
record Passed (got : Bytes) (row : Row) (o : Option FieldType) (same : Bool) (prev : Option Bytes)
    : Type 0 where
  type : FieldType
  has_type : o ≡ some type
  is_same : same ≡ true
  unseen : prev ≡ none

passes :
    (got : Bytes) (row : Row) (o : Option FieldType) (same : Bool) (prev : Option Bytes)
    → judge row got o same prev ≡ none
    → Passed got row o same prev
unfolding judge
passes got row none same prev e = cc
passes got row (some t) false prev e = cc
passes got row (some t) true (some p) e = cc
passes got row (some t) true none e = record {
  type = t;
  has_type = refl;
  is_same = refl;
  unseen = refl;
}

no_empty_type : (t : FieldType) → find [] go_type ≢ some t
unfolding find
no_empty_type t e = cc

-- An entry that is the type of a row is there.
found_type :
    (name spec_type : Bytes) (leaves : Map Bytes) (t : FieldType)
    → find spec_type go_type ≡ some t
    → type_of name leaves ≡ spec_type
    → find name leaves ≡ some spec_type
found_type name spec_type leaves t known same = elim (Option-cases (find name leaves)) [
  | inl missing ↦ absurd (
      no_empty_type t (
        ap (λ s. find s go_type) (sym (ap (λ o. elim o [ none ↦ [] | some x ↦ x ]) missing) ∙ same)
        ∙ known))
  | inr (s, there) ↦
      there ∙ ap some (sym (ap (λ o. elim o [ none ↦ [] | some x ↦ x ]) there) ∙ same)
]

row-Agrees :
    (leaves seen : Map Bytes) (row : Row)
    → row_error leaves seen row ≡ none
    → Agrees leaves (field_of row) × (find (ident_for row.name) seen ≡ none)
unfolding row_error field_of
row-Agrees leaves seen row e =
    let p = passes _ row (find row.spec_type go_type) _ _ e in
    let same = (bytes_eq_iff _ _).0 p.is_same in
    (
      record {
        type = p.type;
        has_type = p.has_type;
        same_type = found_type row.name row.spec_type leaves p.type p.has_type same;
        has_ident = refl;
      },
      p.unseen,
    )

add_row_inv :
    (o : Option GenError) (f : Field) (rest : Outcome) {fs : List Field}
    → add_row o f rest ≡ loaded fs
    → (o ≡ none) × (gs : List Field) × (rest ≡ loaded gs) × (fs ≡ f ∷ gs)
unfolding add_row
add_row_inv (some e) f rest h = cc
add_row_inv none f (failed e) h = cc
add_row_inv none f (loaded gs) h = (refl, gs, refl, sym (loaded_injective h))

pub load_rows-Checked :
    (leaves seen : Map Bytes) (rows : List Row) {fs : List Field}
    → load_rows leaves seen rows ≡ loaded fs
    → Checked leaves seen fs
unfolding load_rows Checked
load_rows-Checked leaves seen [] {fs} e = subst (Checked leaves seen) (loaded_injective e) tt
load_rows-Checked leaves seen (row ∷ rows) e =
    let (passed, gs, rest, same) = add_row_inv (row_error leaves seen row) (field_of row) _ e in
    let (agrees, unseen) = row-Agrees leaves seen row passed in
    subst (Checked leaves seen) (sym same)
      (agrees, unseen, load_rows-Checked leaves (put (ident_for row.name) row.name seen) rows rest)

take_other {ℓ} : {A : Type ℓ} (b : Bool) (x y : A) → b ≡ false → (if b then x else y) ≡ y
take_other true x y h = cc
take_other false x y h = refl

still_unseen :
    (k v : Bytes) (seen : Map Bytes) (fs : List Field)
    → All (λ g. find g.ident (put k v seen) ≡ none) fs
    → All (λ g. find g.ident seen ≡ none) fs
still_unseen k v seen [] h = tt
still_unseen k v seen (g ∷ fs) (e, h) =
    (ground (arith, find-put k g.ident v seen, e), still_unseen k v seen fs h)

not_among :
    (k v : Bytes) (seen : Map Bytes) (fs : List Field)
    → All (λ g. find g.ident (put k v seen) ≡ none) fs
    → holds_key k (texts (λ g. g.ident) fs) ≡ false
not_among k v seen [] h = refl
not_among k v seen (g ∷ fs) (e, h) = ground (
  arith,
  find-put k g.ident v seen,
  e,
  bytes_eq_iff k g.ident,
  bytes_eq_iff g.ident k,
  not_among k v seen fs h,
)

find-holds_key {ℓ} :
    {A : Type ℓ} (k : Bytes) (m : Map A) {a : A} → find k m ≡ some a → holds_key k (keys m) ≡ true
unfolding find
find-holds_key k [] e = cc
find-holds_key k ((j, b) ∷ m) e = elim (Bool-cases (bytes_eq j k)) [
  | inl same ↦ rw same refl
  | inr other ↦
      rw other (find-holds_key k m (sym (take_other (bytes_eq j k) (some b) (find k m) other) ∙ e))
]

pub length-keys {ℓ} : {A : Type ℓ} (m : Map A) → length (keys m) ≡ length m
length-keys [] = refl
length-keys ((k, a) ∷ m) = omega (arith, length-keys m)

pub length-texts : (t : Field → Bytes) (fs : List Field) → length (texts t fs) ≡ length fs
length-texts t [] = refl
length-texts t (f ∷ fs) = omega (arith, length-texts t fs)

module _ (leaves : Map Bytes) where
  pub Checked-Agrees :
      (seen : Map Bytes) (fs : List Field) → Checked leaves seen fs → All (Agrees leaves) fs
  unfolding Checked
  Checked-Agrees seen [] h = tt
  Checked-Agrees seen (f ∷ fs) (a, _, h) = (a, Checked-Agrees (put f.ident f.name seen) fs h)

  -- No identifier is among those that were seen before.
  Checked-unseen :
      (seen : Map Bytes) (fs : List Field)
      → Checked leaves seen fs
      → All (λ g. find g.ident seen ≡ none) fs
  unfolding Checked
  Checked-unseen seen [] h = tt
  Checked-unseen seen (f ∷ fs) (_, unseen, h) =
      (unseen, still_unseen f.ident f.name seen fs (Checked-unseen (put f.ident f.name seen) fs h))

  pub Checked-Distinct :
      (seen : Map Bytes) (fs : List Field)
      → Checked leaves seen fs
      → Distinct (texts (λ f. f.ident) fs)
  unfolding Checked
  Checked-Distinct seen [] h = tt
  Checked-Distinct seen (f ∷ fs) (_, _, h) = (
    not_among f.ident f.name seen fs (Checked-unseen (put f.ident f.name seen) fs h),
    Checked-Distinct (put f.ident f.name seen) fs h,
  )

  apart_names :
      (f : Field) (fs : List Field)
      → Agrees leaves f
      → All (Agrees leaves) fs
      → holds_key f.ident (texts (λ g. g.ident) fs) ≡ false
      → holds_key f.name (texts (λ g. g.name) fs) ≡ false
  apart_names f [] a h e = refl
  apart_names f (g ∷ fs) a (b, h) e = ground (
    arith,
    apart_names f fs a h,
    bytes_eq_iff g.name f.name,
    bytes_eq_iff g.ident f.ident,
    ap ident_for {x = g.name} {y = f.name},
    a.has_ident,
    b.has_ident,
  )

  pub names-Distinct :
      (fs : List Field)
      → All (Agrees leaves) fs
      → Distinct (texts (λ f. f.ident) fs)
      → Distinct (texts (λ f. f.name) fs)
  names-Distinct [] h d = tt
  names-Distinct (f ∷ fs) (a, h) (apart, d) = (apart_names f fs a h apart, names-Distinct fs h d)

  pub names_in_leaves :
      (fs : List Field)
      → All (Agrees leaves) fs
      → All (λ k. holds_key k (keys leaves) ≡ true) (texts (λ f. f.name) fs)
  names_in_leaves [] h = tt
  names_in_leaves (f ∷ fs) (a, h) = (find-holds_key f.name leaves a.same_type, names_in_leaves fs h)
