-- ===== src/Relayer/Backoff.antt =====
-- relayer/src/backoff.ts, class BackoffState, for a multiplier that is an integer. The draw of the
-- generator enters as a fraction `num / den` below 1.
use native.Mathlib.Nat.{div-lt_iff_lt-mul, mul-le-mul_left, pow-le-pow_right, pow-zero}
use perihelion.Prelude.{ℕ, ◌+◌, ◌*◌, ◌/◌, ◌^◌, ◌≤◌, ◌<◌, ◌≡◌, min, Option, or_default, arith}

pub record BackoffConfig : Type 0 where
  pub poll_interval_ms : ℕ
  pub max_jitter_ms : Option ℕ
  pub backoff_multiplier : Option ℕ
  pub max_backoff_ms : Option ℕ

pub record BackoffState : Type 0 where
  pub poll_interval_ms : ℕ
  pub failures : ℕ
  pub max_jitter_ms : ℕ
  pub backoff_multiplier : ℕ
  pub max_backoff_ms : ℕ

unfoldable pub new_backoff : BackoffConfig → BackoffState
new_backoff c = record {
  poll_interval_ms = c.poll_interval_ms;
  failures = 0;
  max_jitter_ms = or_default c.max_jitter_ms (c.poll_interval_ms / 4);
  backoff_multiplier = or_default c.backoff_multiplier 2;
  max_backoff_ms = or_default c.max_backoff_ms 60000;
}

unfoldable pub record_success : BackoffState → BackoffState
record_success b = record b { failures = 0 }

unfoldable pub record_failure : BackoffState → BackoffState
record_failure b = record b { failures = b.failures + 1 }

unfoldable pub backed : BackoffState → ℕ
backed b = min (b.poll_interval_ms * b.backoff_multiplier ^ b.failures) b.max_backoff_ms

unfoldable pub next_delay : ℕ → ℕ → BackoffState → ℕ
unfolding backed
next_delay num den b = backed b + num * (b.max_jitter_ms + 1) / den

jitter_le : (num den j : ℕ) → num < den → num * (j + 1) / den ≤ j
jitter_le num den j h =
    let small : num * (j + 1) < (j + 1) * den = grind arith in
    let t : num * (j + 1) / den < j + 1 = (div-lt_iff_lt-mul (omega arith)).1 small in omega arith

grow : (a m n : ℕ) → 1 ≤ m → a * m ^ n ≤ a * m ^ (n + 1)
grow a m n h = mul-le-mul_left a (pow-le-pow_right h (omega arith))

-- Whatever the generator draws below 1, with a multiplier of at least 1, the delay lies between the backed-off interval and that plus the
-- jitter, so it never exceeds the cap plus the jitter; a failure never shortens the backed-off
-- interval, and after a success it is the poll interval again, up to the cap.
pub next_delay_bounds :
    (num den : ℕ) (b : BackoffState)
    → num < den
    → 1 ≤ b.backoff_multiplier
    → (backed b ≤ next_delay num den b)
      × (next_delay num den b ≤ b.max_backoff_ms + b.max_jitter_ms)
      × (backed b ≤ backed (record_failure b))
      × (backed (record_success b) ≡ min b.poll_interval_ms b.max_backoff_ms)
unfolding next_delay backed record_failure record_success
next_delay_bounds num den b h m =
    let j = jitter_le num den b.max_jitter_ms h in
    let g = grow b.poll_interval_ms b.backoff_multiplier b.failures m in
    (omega arith, omega arith, omega arith, grind (arith, pow-zero b.backoff_multiplier))
