-- ===== src/PostureFields/Durations.antt =====
-- A duration that the SDK writes is read back.
use firezone_sdk_go.Common.{
  ℕ, zero, suc, ◌+◌, ◌-◌, ◌*◌, ◌/◌, ◌^◌, ◌≤◌, ◌<◌, ℤ, pos, negsuc, pos_part, max_int64, ltb_ℤ, ◌≡◌,
  refl, sym, ap, ◌∙◌, false, Option, none, some, [], ◌∷◌, ◌++◌, append_assoc, Bytes, codes, ltb,
  if◌then◌else◌, arith, Bool-cases, inl, inr,
}
use firezone_sdk_go.Decimal.{format, read_digits}
use firezone_sdk_go.Decimal.Laws.{read_digits-emit}
use firezone_sdk_go.PostureFields.Duration.{
  hour, minute, whole_part, remainder, seconds_part, parts, iso_duration,
}
use firezone_sdk_go.PostureFields.Reading.{
  amount, sum, piece, Numeral, NumeralIfAny, read_parts, read_duration, read_parts-piece,
  emit-Numeral,
}

-- The amount that `whole_part` writes.
abbrev whole : ℕ → ℕ → Option Bytes
whole unit d = if ltb 0 (d / unit) then some (format (d / unit)) else none

abbrev seconds_of : (ℕ → Bytes) → ℕ → Option Bytes
seconds_of seconds_text d = if ltb 0 d then some (seconds_text d) else none

whole-Numeral : (unit d : ℕ) → NumeralIfAny (whole unit d)
unfolding format
whole-Numeral unit d = elim (Bool-cases (ltb 0 (d / unit))) [
  | inl there ↦ rw there (emit-Numeral 20 (d / unit) [] tt)
  | inr absent ↦ rw absent tt
]

whole_part-piece :
    (unit letter d : ℕ) (rest : Bytes)
    → whole_part unit letter d ++ rest ≡ piece letter (whole unit d) rest
unfolding whole_part
whole_part-piece unit letter d rest = elim (Bool-cases (ltb 0 (d / unit))) [
  | inl there ↦ rw there (append_assoc (format (d / unit)) (letter ∷ []) rest)
  | inr absent ↦ rw absent refl
]

no_units : (count unit : ℕ) → ltb 0 count ≡ false → count * unit ≡ 0
no_units zero unit h = omega arith
no_units (suc count) unit h = absurd (ground arith)

amount-whole :
    (unit d : ℕ)
    → d / unit < 10 ^ 20
    → amount (λ t. some (read_digits 0 t)) unit (whole unit d) ≡ some (d / unit * unit)
unfolding format
amount-whole unit d h = elim (Bool-cases (ltb 0 (d / unit))) [
  | inl there ↦ rw there (
      ap (λ n. some (n * unit))
        (unfold read_digits in read_digits-emit 20 (d / unit) [] h (omega arith)))
  | inr absent ↦ rw absent (ap some (sym (no_units (d / unit) unit absent)))
]

remainder_lem : (unit d : ℕ) → remainder unit d ≡ d - d / unit * unit
unfolding remainder
remainder_lem unit d = elim (Bool-cases (ltb 0 (d / unit))) [
  | inl there ↦ rw there refl
  | inr absent ↦ rw absent (omega (arith, no_units (d / unit) unit absent))
]

not_positive : (d : ℤ) → ltb_ℤ (pos 0) d ≡ false → 0 ≡ pos_part d
not_positive (pos zero) h = refl
not_positive (pos (suc n)) h = absurd (ground arith)
not_positive (negsuc n) h = refl

total_of :
    {o p q : Option ℕ} {a b c : ℕ}
    → o ≡ some a
    → p ≡ some b
    → q ≡ some c
    → sum o (sum p q) ≡ some (a + (b + c))
total_of e f g = rw (e, f, g) refl

-- `seconds_text` writes an amount of seconds for each duration below a minute, and that amount is
-- read back to the nanosecond.
abbrev pub WritesSeconds : (Bytes → Option ℕ) → (ℕ → Bytes) → Type 0
WritesSeconds read_seconds seconds_text =
    (d : ℕ) → d < minute → Numeral (seconds_text d) × (read_seconds (seconds_text d) ≡ some d)

module _ (read_seconds : Bytes → Option ℕ) (seconds_text : ℕ → Bytes)
    (writes : WritesSeconds read_seconds seconds_text) where
  seconds-Numeral : (d : ℕ) → d < minute → NumeralIfAny (seconds_of seconds_text d)
  seconds-Numeral d lt = elim (Bool-cases (ltb 0 d)) [
    | inl there ↦ rw there (writes d lt).0
    | inr absent ↦ rw absent tt
  ]

  amount_seconds : (d : ℕ) → d < minute → amount read_seconds 1 (seconds_of seconds_text d) ≡ some d
  amount_seconds d lt = elim (Bool-cases (ltb 0 d)) [
    | inl there ↦ rw (there, (writes d lt).1) (ap some (omega arith))
    | inr absent ↦ rw absent (ap some (ground arith))
  ]

  seconds_piece : (d : ℕ) → seconds_part seconds_text d ≡ piece b'S' (seconds_of seconds_text d) []
  unfolding seconds_part
  seconds_piece d = elim (Bool-cases (ltb 0 d)) [
    | inl there ↦ rw there refl
    | inr absent ↦ rw absent refl
  ]

  parts-piece :
      (d : ℕ)
      → parts seconds_text d
        ≡ piece b'H' (whole hour d) (
            piece b'M'
              (whole minute (remainder hour d))
              (piece b'S' (seconds_of seconds_text (remainder minute (remainder hour d))) []))
  unfolding parts
  parts-piece d =
      whole_part-piece hour b'H' d _
      ∙ ap (piece b'H' (whole hour d)) (
          whole_part-piece minute b'M' (remainder hour d) _
          ∙ ap (piece b'M' (whole minute (remainder hour d)))
              (seconds_piece (remainder minute (remainder hour d))))

  left_behind : (d : ℕ) → remainder minute (remainder hour d) < minute
  left_behind d = rw (remainder_lem minute (remainder hour d)) (omega arith)

  parts_value : (d : ℕ) → d ≤ max_int64 → read_parts read_seconds (parts seconds_text d) ≡ some d
  parts_value d le =
      let d' = remainder hour d in
      let d'' = remainder minute d' in
      let first = remainder_lem hour d in
      let second' = remainder_lem minute d' in
      ap (read_parts read_seconds) (parts-piece d)
      ∙ read_parts-piece read_seconds (whole hour d) (whole minute d') (seconds_of seconds_text d'')
          (whole-Numeral hour d) (whole-Numeral minute d') (seconds-Numeral d'' (left_behind d))
      ∙ total_of (amount-whole hour d (omega arith)) (amount-whole minute d' (omega (arith, first)))
          (amount_seconds d'' (left_behind d))
      ∙ ap some (omega (arith, first, second'))

  -- Every duration that fits an int64 is written as a text of ISO 8601 that is read as that number
  -- of nanoseconds, and as no time at all if the duration is not positive. The amount of seconds is
  -- read back to the nanosecond.
  pub read_duration-iso_duration :
      (d : ℤ)
      → pos_part d ≤ max_int64
      → read_seconds (codes "0") ≡ some 0
      → read_duration read_seconds (iso_duration seconds_text d) ≡ some (pos_part d)
  unfolding read_duration iso_duration
  read_duration-iso_duration d le zero_text = elim (Bool-cases (ltb_ℤ (pos 0) d)) [
    | inl positive ↦ rw positive (parts_value (pos_part d) le)
    | inr other ↦ rw (other, zero_text) (ap some (not_positive d other))
  ]
