-- ===== src/Genposture/Rendered.antt =====
-- Reading the constants of a generated source, line by line.
use firezone_sdk_go.Common.{
  ℕ, sym, subst, ◌≡◌, ◌≢◌, refl, ap, ◌∙◌, Bool, true, not, ◌&&◌, Option, none, some, List, [], ◌∷◌,
  ◌++◌, Bytes, codes, All, All-append, Lacks, arith, Bool-cases, inl, inr, if◌then◌else◌, ◌==◌,
  split_on, split_on_behind, cut_at, cut_at-append, find,
}
use firezone_sdk_go.Genposture.{
  FieldType, Field, go_type, bool_field, string_field, integer_field, float_field, version_field,
  timestamp_field, ip_field, json_field, string_array_field,
}
use firezone_sdk_go.Genposture.Table.{in_name}
use firezone_sdk_go.Genposture.Render.{
  type_text, quoted, field_type_text, comment_line, constant_line, unlines,
}
use firezone_sdk_go.Genposture.Table.{behind}

-- One constant: its identifier, its type and its value.
abbrev pub Constant : Type 0
Constant = Bytes × Bytes × Bytes

-- The value of a literal in quotes.
abbrev pub literal_of : Option Bytes → Option Bytes
literal_of none = none
literal_of (some s) = some (cut_at b'"' s).0

abbrev pub with_value : Bytes → Bytes → Option Bytes → Option Constant
with_value ident type none = none
with_value ident type (some value) = some (ident, type, value)

-- A line of a const block: a tab, and no comment behind it.
unfoldable pub read_constant : Bytes → Option Constant
unfolding behind
read_constant [] = none
read_constant (t ∷ []) = none
read_constant (t ∷ c ∷ s) =
    let first = cut_at b' ' (c ∷ s) in
    let second = cut_at b' ' first.1 in
    if t == 9 && not (c == b'/')
    then with_value first.0 second.0 (literal_of (behind (codes "= \"") second.1))
    else none

abbrev pub add_some {ℓ} : {A : Type ℓ} → Option A → List A → List A
add_some none as' = as'
add_some (some a) as' = a ∷ as'

unfoldable pub constants : List Bytes → List Constant
unfolding read_constant
constants [] = []
constants (l ∷ ls) = add_some (read_constant l) (constants ls)

unfoldable pub read_constants : Bytes → List Constant
unfolding constants
read_constants s = constants (split_on 10 s)

pub split_on-unlines :
    (ls : List Bytes) → All (Lacks 10) ls → split_on 10 (unlines ls) ≡ ls ++ [] ∷ []
unfolding unlines split_on
split_on-unlines [] h = refl
split_on-unlines (l ∷ ls) (p, h) =
    split_on_behind 10 l (unlines ls) p ∙ ap (λ r. l ∷ r) (split_on-unlines ls h)

pub constants-append : (ls rs : List Bytes) → constants (ls ++ rs) ≡ constants ls ++ constants rs
unfolding constants
constants-append [] rs = refl
constants-append (l ∷ ls) rs =
    add_some-append (read_constant l) (constants ls) (constants rs) (constants-append ls rs)
  where
    add_some-append :
        (o : Option Constant) (as' bs : List Constant) {cs : List Constant}
        → cs ≡ as' ++ bs
        → add_some o cs ≡ add_some o as' ++ bs
    add_some-append none as' bs e = e
    add_some-append (some a) as' bs e = ap (λ r. a ∷ r) e

-- A field that can be written: the identifier is a word, and nothing in the texts ends the line or
-- the literal. The name has the characters that the table's names have, which %q leaves as they
-- are.
pub record IsPlain (f : Field) : Type 0 where
  pub first : ℕ
  pub rest : Bytes
  pub is_word : f.ident ≡ first ∷ rest
  pub no_comment : first ≢ b'/'
  pub ident_spaceless : Lacks b' ' f.ident
  pub ident_one_line : Lacks 10 f.ident
  pub type_one_line : Lacks 10 f.spec_type
  pub platforms_one_line : Lacks 10 f.platforms
  pub name_one_line : Lacks 10 f.name
  pub name_unquoted : Lacks b'"' f.name
  pub name_in_table : All (λ c. in_name c ≡ true) f.name

abbrev pub constant_of : Field → Constant
constant_of f = (f.ident, field_type_text f, f.name)

abbrev pub lacks : ℕ → Bytes → Bool
lacks d [] = true
lacks d (c ∷ s) = not (c == d) && lacks d s

pub lacks_sound : (d : ℕ) (s : Bytes) → lacks d s ≡ true → Lacks d s
lacks_sound d [] h = tt
lacks_sound d (c ∷ s) h = ground (arith, lacks_sound d s)

type_lacks : (t : FieldType) → (lacks b' ' (type_text t) ≡ true) × (lacks 10 (type_text t) ≡ true)
type_lacks bool_field = (refl, refl)
type_lacks string_field = (refl, refl)
type_lacks integer_field = (refl, refl)
type_lacks float_field = (refl, refl)
type_lacks version_field = (refl, refl)
type_lacks timestamp_field = (refl, refl)
type_lacks ip_field = (refl, refl)
type_lacks json_field = (refl, refl)
type_lacks string_array_field = (refl, refl)

type_plain : (t : FieldType) → Lacks b' ' (type_text t) × Lacks 10 (type_text t)
type_plain t =
    (lacks_sound b' ' (type_text t) (type_lacks t).0, lacks_sound 10 (type_text t) (type_lacks t).1)

field_type_plain : (f : Field) → Lacks b' ' (field_type_text f) × Lacks 10 (field_type_text f)
field_type_plain f = of_found (find f.spec_type go_type)
  where
    of_found :
        (o : Option FieldType)
        → Lacks b' ' (elim o [ none ↦ [] | some t ↦ type_text t ])
          × Lacks 10 (elim o [ none ↦ [] | some t ↦ type_text t ])
    of_found none = (tt, tt)
    of_found (some t) = type_plain t

read_words :
    (c : ℕ) (s first second : Bytes) (r : Bytes × Bytes) (value : Bytes)
    → c ≢ b'/'
    → cut_at b' ' (c ∷ s) ≡ (first, r.1)
    → cut_at b' ' r.1 ≡ (second, r.0)
    → literal_of (behind (codes "= \"") r.0) ≡ some value
    → read_constant (9 ∷ c ∷ s) ≡ some (first, second, value)
unfolding read_constant
read_words c s first second r value n e f g = rw (e, f, g) (ground arith)

read_line :
    (c : ℕ) (s type name : Bytes)
    → c ≢ b'/'
    → Lacks b' ' (c ∷ s)
    → Lacks b' ' type
    → Lacks b'"' name
    → read_constant (9 ∷ ((c ∷ s) ++ b' ' ∷ (type ++ b' ' ∷ (codes "= " ++ quoted name))))
      ≡ some (c ∷ s, type, name)
unfolding behind
read_line c s type name n h ht hn =
    read_words c _ (c ∷ s) type
      (codes "= " ++ quoted name, type ++ b' ' ∷ (codes "= " ++ quoted name)) name n
      (cut_at-append b' ' (c ∷ s) _ h) (cut_at-append b' ' type _ ht)
      (ap (λ r. some r.0) (cut_at-append b'"' name [] hn))

pub read_constant-constant_line :
    (f : Field) → IsPlain f → read_constant (constant_line f) ≡ some (constant_of f)
read_constant-constant_line f plain =
    subst
      (λ i.
        read_constant
          (9 ∷ (i ++ b' ' ∷ (field_type_text f ++ b' ' ∷ (codes "= " ++ quoted f.name))))
        ≡ some (i, field_type_text f, f.name))
      (sym plain.is_word)
      (read_line plain.first plain.rest (field_type_text f) f.name plain.no_comment
        (subst (Lacks b' ') plain.is_word plain.ident_spaceless) (field_type_plain f).0
        plain.name_unquoted)

pub cut_at-Lacks : (d e : ℕ) (s : Bytes) → Lacks d s → Lacks d (cut_at e s).0
unfolding cut_at
cut_at-Lacks d e [] h = tt
cut_at-Lacks d e (c ∷ s) (n, h) = elim (Bool-cases (c == e)) [
  | inl here ↦ rw here tt
  | inr on ↦ rw on (n, cut_at-Lacks d e s h)
]

pub quoted-Lacks : (s : Bytes) → Lacks 10 s → Lacks 10 (quoted s)
quoted-Lacks s h = (λ e. omega (arith, e), All-append _ s _ h (lacks_sound 10 (b'"' ∷ []) refl))

-- A literal in front of a text.
pub literal-Lacks : (s t : Bytes) → lacks 10 s ≡ true → Lacks 10 t → Lacks 10 (s ++ t)
literal-Lacks s t e h = All-append _ s t (lacks_sound 10 s e) h

pub constant_line-Lacks : (f : Field) → IsPlain f → Lacks 10 (constant_line f)
constant_line-Lacks f plain = (
  λ e. omega (arith, e),
  All-append _ f.ident _ plain.ident_one_line (
    λ e. omega (arith, e),
    All-append _ (field_type_text f) _ (field_type_plain f).1 (
      λ e. omega (arith, e),
      literal-Lacks (codes "= ") (quoted f.name) refl (quoted-Lacks f.name plain.name_one_line),
    ),
  ),
)

pub comment_line-Lacks : (f : Field) → IsPlain f → Lacks 10 (comment_line f)
comment_line-Lacks f plain =
    let last =
      All-append _ f.platforms (codes ".") plain.platforms_one_line
        (lacks_sound 10 (codes ".") refl) in
    let platforms = literal-Lacks (codes ". Platforms: ") (f.platforms ++ codes ".") refl last in
    let name =
      All-append _ (quoted f.name) (codes ". Platforms: " ++ (f.platforms ++ codes "."))
        (quoted-Lacks f.name plain.name_one_line) platforms in
    literal-Lacks (9 ∷ codes "// ") _ refl (
      All-append _ f.ident _ plain.ident_one_line (
        literal-Lacks (codes " is the ") _ refl (
          All-append _ f.spec_type _ plain.type_one_line (
            literal-Lacks (codes " field ")
              (quoted f.name ++ (codes ". Platforms: " ++ (f.platforms ++ codes "."))) refl name))))
