-- ===== src/Retry/Waits.antt =====
-- How long the SDK waits before it tries again.
use native.Mathlib.Nat.{pow-le-pow_right, one-le-pow}
use Prim.Native.Nat.{min, max}
use mathlib.Core.Path.{ap₂}
use firezone_sdk_go.Common.{
  ℕ, zero, suc, ◌+◌, ◌*◌, ◌^◌, ◌≤◌, ◌<◌, ℤ, pos, negsuc, ◌≤ℤ◌, ltb_ℤ, max_ℤ, min_ℤ, add64, half,
  max_int64, pos_part, ◌⊎◌, ◌≡◌, refl, Option, none, some, arith, Bool-cases, inl, inr, leb, ap,
  ◌∙◌, add64_of_fits, if◌then◌else◌,
}
use firezone_sdk_go.Client.{Client, second}
use firezone_sdk_go.Env.{Env, DrawsBelow}
use firezone_sdk_go.Retry.{
  max_retry_jitter, max_retry_wait, exponential_backoff, padding, base_wait, retry_jitter,
  retry_wait,
}

-- Doubling stays in reach of an int64 up to the thirtieth attempt: the backoff is a whole power of
-- two seconds, and from there on the largest duration.
pub exponential_backoff_exact :
    (attempt : ℕ)
    → (b : ℕ) × (exponential_backoff attempt ≡ pos b)
      × (second ≤ b)
      × (b ≤ max_int64)
      × ((b ≡ 2 ^ attempt * second) ⊎ (b ≡ max_int64))
unfolding exponential_backoff
exponential_backoff_exact a = elim (Bool-cases (leb 30 a)) [
  | inl h ↦ (max_int64, rw h refl, omega arith, omega arith, inr refl)
  | inr h ↦
      let fits : 2 ^ a ≤ 2 ^ 29 = pow-le-pow_right (omega arith) {i = a} {j = 29} (ground arith) in
      let one : 1 ≤ 2 ^ a = one-le-pow a 2 (omega arith) in
      (2 ^ a * second, rw h refl, omega arith, omega arith, inl refl)
]

max_retry_wait_pos : (c : Client) → (k : ℕ) × (max_retry_wait c ≡ pos k) × (0 < k)
unfolding max_retry_wait
max_retry_wait_pos c = positive c.retry_max_wait
  where
    positive :
        (d : ℤ) → (k : ℕ) × ((if ltb_ℤ (pos 0) d then d else pos (30 * second)) ≡ pos k) × (0 < k)
    positive (pos zero) = (30 * second, refl, omega arith)
    positive (pos (suc n)) = (suc n, ground arith, omega arith)
    positive (negsuc n) = (30 * second, ground arith, omega arith)

-- The wait before the padding, as a number.
record BaseWait (cap : ℕ) (attempt : ℕ) (retry_after : ℤ) (b : ℕ) : Type 0 where
  positive : 0 < b
  capped : b ≤ cap
  floor : min_ℤ retry_after (pos cap) ≤ℤ pos b
  escalates : min_ℤ (pos (2 ^ attempt * second)) (pos cap) ≤ℤ pos b

base_of :
    (cap attempt b0 : ℕ) (retry_after : ℤ)
    → 0 < cap
    → cap ≤ max_int64
    → 0 < b0
    → (b0 ≡ 2 ^ attempt * second) ⊎ (b0 ≡ max_int64)
    → (b : ℕ) × (min_ℤ (max_ℤ retry_after (pos b0)) (pos cap) ≡ pos b)
      × BaseWait cap attempt retry_after b
base_of cap attempt b0 (pos n) p fits q h = (
  min (max n b0) cap,
  ground arith,
  record {
    positive = ground arith;
    capped = ground arith;
    floor = ground arith;
    escalates = ground arith;
  },
)
base_of cap attempt b0 (negsuc n) p fits q h = (
  min b0 cap,
  ground arith,
  record {
    positive = ground arith;
    capped = ground arith;
    floor = ground arith;
    escalates = ground arith;
  },
)

padding_bounds :
    {W : Type 0} (o : Option ℕ × W) (k : ℕ)
    → ((n : ℕ) → o.0 ≡ some n → n < k)
    → (j : ℕ) × ((padding o).0 ≡ pos j) × (j ≤ k)
padding_bounds (none, w) k h = (0, refl, omega arith)
padding_bounds (some n, w) k h = (n, refl, omega (arith, h n refl))

bounds_of :
    (cap b j : ℕ) (retry_after : ℤ) (e : ℕ)
    → j ≤ 2 * second
    → b ≤ cap
    → min_ℤ retry_after (pos cap) ≤ℤ pos b
    → min_ℤ (pos e) (pos cap) ≤ℤ pos b
    → (min_ℤ retry_after (pos cap) ≤ℤ pos (b + j))
      × (min_ℤ (pos e) (pos cap) ≤ℤ pos (b + j))
      × (pos (b + j) ≤ℤ pos (pos_part (pos cap) + 2 * second))
bounds_of cap b j retry_after e h k p q = (omega arith, omega arith, omega arith)

module _ {W : Type 0} (env : Env W) (draws : DrawsBelow env) where
  -- The padding is at most half of the wait, and at most two seconds.
  retry_jitter_bounds :
      (base : ℤ) (w : W)
      → (j : ℕ) × ((retry_jitter env base w).0 ≡ pos j) × (j ≤ 2 * second) × (2 * j ≤ pos_part base)
  unfolding retry_jitter
  retry_jitter_bounds base w =
      elim (Bool-cases (ltb_ℤ (pos 0) (min_ℤ (half base) max_retry_jitter))) [
        | inl h ↦
            let k = pos_part (min_ℤ (half base) max_retry_jitter) in
            let (j, e, le) = padding_bounds (env.draw k w) k (draws k w) in
            (j, rw h e, ground arith, ground arith)
        | inr h ↦ (0, rw h refl, omega arith, omega arith)
      ]

  -- The wait is the base wait and the padding: nothing wraps around.
  retry_wait_sum :
      (c : Client) (attempt cap : ℕ) (retry_after : ℤ) (w : W)
      → max_retry_wait c ≡ pos cap
      → 0 < cap
      → cap + 2 * second ≤ max_int64
      → (b : ℕ) × BaseWait cap attempt retry_after b
        × ((j : ℕ) × (j ≤ 2 * second) × ((retry_wait env c attempt retry_after w).0 ≡ pos (b + j)))
  unfolding retry_wait base_wait
  retry_wait_sum c attempt cap retry_after w is_cap cap_pos fits =
      let (b0, is_b0, b0_pos, _, shape) = exponential_backoff_exact attempt in
      let (b, is_b, base) =
        base_of cap attempt b0 retry_after cap_pos (omega arith) (omega arith) shape in
      let is_base : base_wait c attempt retry_after ≡ pos b =
        ap₂ (λ x y. min_ℤ (max_ℤ retry_after x) y) is_b0 is_cap ∙ is_b in
      let (j, is_j, j_le, _) = retry_jitter_bounds (pos b) w in
      (
        b,
        base,
        (
          j,
          j_le,
          ap (λ x. add64 x (retry_jitter env x w).0) is_base
              ∙ ap (add64 (pos b)) is_j
              ∙ add64_of_fits b j (omega arith),
        ),
      )

  -- Where the random source draws below its bound and the cap on waits lies two seconds below the
  -- largest duration, the wait before a retry is not less than what the server asked for, nor than
  -- the doubling backoff, as far as the cap allows, and at most two seconds above the cap.
  pub retry_wait_bounds :
      (c : Client) (attempt : ℕ) (retry_after : ℤ) (w : W)
      → pos_part (max_retry_wait c) + 2 * second ≤ max_int64
      → (min_ℤ retry_after (max_retry_wait c) ≤ℤ (retry_wait env c attempt retry_after w).0)
        × (min_ℤ (pos (2 ^ attempt * second)) (max_retry_wait c)
            ≤ℤ (retry_wait env c attempt retry_after w).0)
        × ((retry_wait env c attempt retry_after w).0
            ≤ℤ pos (pos_part (max_retry_wait c) + 2 * second))
  retry_wait_bounds c attempt retry_after w fits =
      let (cap, is_cap, cap_pos) = max_retry_wait_pos c in
      let (b, base, rest) =
        retry_wait_sum c attempt cap retry_after w is_cap cap_pos (rw is_cap at fits) in
      let (j, j_le, sum) = rest in
      rw (is_cap, sum)
        (bounds_of cap b j retry_after (2 ^ attempt * second) j_le base.capped base.floor
          base.escalates)
