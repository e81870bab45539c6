-- ===== src/Engine/Tasks/Delay/Bounds.antt =====
-- Bounds of the retry delays of Engine/Tasks/Delay.antt.
use native.Mathlib.Nat.{one-le-pow, pow-le-pow_right}
use ows_runtime_rust.Prelude.{
  ℕ, ◌+◌, ◌-◌, ◌*◌, ◌/◌, ◌^◌, ◌≤◌, ◌<◌, min, ◌≡◌, Option, none, some, unwrap_or, arith,
}
use ows_runtime_rust.Engine.Ir.{Backoff, constant, linear, exponential, RetryPolicyDef}
use ows_runtime_rust.Engine.Tasks.Delay.{
  saturating_pow2, backoff_delay, compute_delay, duration_max, as_u32, add_jitter,
}

pow2_pos : (e : ℕ) → 1 ≤ 2 ^ e
pow2_pos e = one-le-pow e 2 (omega arith)

pow2_fits : (e : ℕ) → e < 32 → 2 ^ e ≤ 2 ^ 31
pow2_fits e h = pow-le-pow_right {n = 2} (omega arith) {i = e} {j = 31} (omega arith)

factor_pos : (e : ℕ) → 1 ≤ saturating_pow2 e
unfolding saturating_pow2
factor_pos e = omega (arith, pow2_pos e)

le_mul : (a n : ℕ) → 1 ≤ n → a ≤ a * n
le_mul a n h = grind arith

backoff_bounds :
    (b : Backoff) (base attempt : ℕ)
    → base ≤ duration_max
    → 1 ≤ attempt
    → attempt < 2 ^ 32
    → (base ≤ backoff_delay b base attempt) × (backoff_delay b base attempt ≤ duration_max)
unfolding backoff_delay
backoff_bounds constant base attempt fits first small = omega arith
backoff_bounds linear base attempt fits first small =
    omega (arith, le_mul base (as_u32 attempt) (omega arith))
backoff_bounds exponential base attempt fits first small =
    let factor = saturating_pow2 (as_u32 attempt - 1) in
    omega (arith, le_mul base factor (factor_pos (as_u32 attempt - 1)))

add_jitter_bounds :
    (j : Option (ℕ × ℕ)) (scale : ℕ → ℕ) (base delay : ℕ)
    → (base ≤ delay) × (delay ≤ duration_max)
    → (base ≤ add_jitter j scale delay) × (add_jitter j scale delay ≤ duration_max)
unfolding add_jitter
add_jitter_bounds none scale base delay h = h
add_jitter_bounds (some (from, to)) scale base delay h = omega arith

-- With a base delay that a `Duration` holds, the delay before any retry below 2^32 is at least the
-- base delay and is a `Duration` again, whatever the backoff, the jitter and the random number.
pub compute_delay_bounds :
    (retry : RetryPolicyDef) (attempt : ℕ) (scale : ℕ → ℕ)
    → unwrap_or retry.delay 0 ≤ duration_max
    → 1 ≤ attempt
    → attempt < 2 ^ 32
    → (unwrap_or retry.delay 0 ≤ compute_delay retry attempt scale)
      × (compute_delay retry attempt scale ≤ duration_max)
unfolding compute_delay
compute_delay_bounds retry attempt scale fits first small =
    add_jitter_bounds retry.jitter scale _ _
      (backoff_bounds retry.backoff _ attempt fits first small)

-- The n-th exponential retry waits the base delay times 2^(n - 1), for n up to 32, as long as that
-- is a `Duration`.
pub exponential_exact :
    (base n : ℕ)
    → n < 32
    → base * 2 ^ n ≤ duration_max
    → backoff_delay exponential base (n + 1) ≡ base * 2 ^ n
unfolding backoff_delay
exponential_exact base n h fits =
    let index : as_u32 (n + 1) - 1 ≡ n = omega arith in
    let factor : min (2 ^ n) (2 ^ 32 - 1) ≡ 2 ^ n = omega (arith, pow2_fits n h) in
    rw (index, factor) (omega arith)

-- A jitter adds at least its lower end and at most its upper end, short of the largest `Duration`,
-- when the random fraction is at most one.
pub jitter_bounds :
    (retry : RetryPolicyDef) (attempt from to : ℕ) (scale : ℕ → ℕ)
    → retry.jitter ≡ some (from, to)
    → from ≤ to
    → scale ((to - from) / 1000000) ≤ (to - from) / 1000000
    → let plain = backoff_delay retry.backoff (unwrap_or retry.delay 0) attempt in
      (min (plain + from) duration_max ≤ compute_delay retry attempt scale)
      × (compute_delay retry attempt scale ≤ plain + to)
unfolding compute_delay
jitter_bounds retry attempt from to scale drawn ordered fraction = rw drawn (omega arith)
