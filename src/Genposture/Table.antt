-- ===== src/Genposture/Table.antt =====
-- internal/genposture/main.go: the rows that `tableRow` finds in the description of a schema.
use firezone_sdk_go.Common.{
  ℕ, zero, suc, ◌-◌, Bool, true, not, ◌&&◌, ◌||◌, Option, none, some, List, [], ◌∷◌, Bytes, codes,
  leb, ◌==◌, if◌then◌else◌, length, span,
}
use firezone_sdk_go.Json.{◌>>=◌}

-- The groups of a match.
pub record Row : Type 0 where
  pub name : Bytes
  pub spec_type : Bytes
  pub platforms : Bytes

abbrev pub in_name : ℕ → Bool
in_name c = leb b'a' c && leb c b'z' || leb b'0' c && leb c b'9' || c == b'_' || c == b'.'

-- `\w`
abbrev in_word : ℕ → Bool
in_word c =
    leb b'a' c && leb c b'z' || leb b'A' c && leb c b'Z' || leb b'0' c && leb c b'9' || c == b'_'

abbrev in_cell : ℕ → Bool
in_cell c = not (c == b'|')

-- The text behind a literal.
unfoldable pub behind : Bytes → Bytes → Option Bytes
behind [] s = some s
behind (_ ∷ _) [] = none
behind (b ∷ p) (c ∷ s) = let rest = behind p s in if b == c then rest else none

-- A run of one byte or more.
abbrev pub some_run : Bytes × Bytes → Option (Bytes × Bytes)
some_run ([], rest) = none
some_run (c ∷ run, rest) = some (c ∷ run, rest)

-- A cell without the one space at its end; something is in front of that space.
unfoldable pub cell_text : Bytes → Option Bytes
cell_text [] = none
cell_text (c ∷ []) = none
cell_text (c ∷ d ∷ []) = if d == b' ' then some (c ∷ []) else none
cell_text (c ∷ d ∷ e ∷ s) = do text ← cell_text (d ∷ e ∷ s); some (c ∷ text)

-- `$` in multi-line mode.
abbrev pub at_line_end : Bytes → Bool
at_line_end [] = true
at_line_end (c ∷ _) = c == 10

abbrev pub ends_line {ℓ} : {A : Type ℓ} → Bytes → A → Option A
ends_line s found = if at_line_end s then some found else none

-- `tableRow` at the start of a line, and the text behind the match.
unfoldable pub match_row : Bytes → Option (Row × Bytes)
unfolding behind cell_text span
match_row s = do
  s1 ← behind (codes "| `") s
  name ← some_run (span in_name s1)
  s2 ← behind (codes "` | ") name.1
  word ← some_run (span in_word s2)
  s3 ← behind (codes " | ") word.1
  platforms ← cell_text (span in_cell s3).0
  s4 ← behind (codes "|") (span in_cell s3).1
  ends_line s4 (record { name = name.0; spec_type = word.0; platforms = platforms }, s4)

-- The matches of `FindAllStringSubmatch`: `skip` bytes belong to a match that is found, and `start`
-- says whether a line starts here.
unfoldable pub rows_from : ℕ → Bool → Bytes → List Row
unfolding match_row
rows_from skip start [] = []
rows_from (suc skip) start (c ∷ s) = rows_from skip (c == 10) s
rows_from zero start (c ∷ s) = elim (if start then match_row (c ∷ s) else none) [
  | none ↦ rows_from zero (c == 10) s
  | some found ↦ found.0 ∷ rows_from (length s - length found.1) (c == 10) s
]

unfoldable pub find_rows : Bytes → List Row
unfolding rows_from
find_rows s = rows_from 0 true s
