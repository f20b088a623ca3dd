-- ===== src/PostureFields/Duration.antt =====
-- posture_fields.go: durations in ISO 8601.
use firezone_sdk_go.Common.{
  ℕ, ◌-◌, ◌*◌, ◌/◌, ℤ, pos, pos_part, [], ◌∷◌, ◌++◌, Bytes, codes, ltb, ltb_ℤ, if◌then◌else◌,
}
use firezone_sdk_go.Client.{second}
use firezone_sdk_go.Decimal.{format}

abbrev pub hour : ℕ
hour = 3600 * second

abbrev pub minute : ℕ
minute = 60 * second

-- The number of whole units in `d`, with their letter, where there is one.
unfoldable pub whole_part : ℕ → ℕ → ℕ → Bytes
whole_part unit letter d = if ltb 0 (d / unit) then format (d / unit) ++ letter ∷ [] else []

-- What is left of `d` behind that part.
unfoldable pub remainder : ℕ → ℕ → ℕ
remainder unit d = if ltb 0 (d / unit) then d - d / unit * unit else d

unfoldable pub seconds_part : (ℕ → Bytes) → ℕ → Bytes
seconds_part seconds_text d = if ltb 0 d then seconds_text d ++ b'S' ∷ [] else []

-- The parts of a duration of `d` nanoseconds.
unfoldable pub parts : (ℕ → Bytes) → ℕ → Bytes
unfolding whole_part remainder seconds_part
parts seconds_text d =
    let behind_hours = remainder hour d in
    whole_part hour b'H' d
    ++ (whole_part minute b'M' behind_hours
        ++ seconds_part seconds_text (remainder minute behind_hours))

-- `isoDuration`; `seconds_text` is `strconv.FormatFloat(d.Seconds(), 'f', -1, 64)` of a duration
-- below a minute.
unfoldable pub iso_duration : (ℕ → Bytes) → ℤ → Bytes
unfolding parts
iso_duration seconds_text d =
    if ltb_ℤ (pos 0) d then codes "PT" ++ parts seconds_text (pos_part d) else codes "PT0S"
