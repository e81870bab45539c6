-- ===== src/Engine/Tasks/Delay.antt =====
-- `compute_delay` of crates/ows-runtime/src/tasks.rs. A `Duration` is a number of nanoseconds up to
-- `duration_max`, at which its saturating operations stop.
pub mod Bounds
use ows_runtime_rust.Prelude.{ℕ, ◌+◌, ◌-◌, ◌*◌, ◌/◌, ◌%◌, ◌^◌, min, none, some, unwrap_or, Option}
use ows_runtime_rust.Engine.Ir.{Backoff, constant, linear, exponential, RetryPolicyDef}

-- `Duration::MAX`: 2^64 - 1 seconds and 999,999,999 nanoseconds
abbrev pub duration_max : ℕ
duration_max = 2 ^ 64 * 1000000000 - 1

unfoldable pub saturating_add : ℕ → ℕ → ℕ
saturating_add a b = min (a + b) duration_max

unfoldable pub saturating_mul : ℕ → ℕ → ℕ
saturating_mul a n = min (a * n) duration_max

-- `2u32.saturating_pow(e)`
unfoldable pub saturating_pow2 : ℕ → ℕ
saturating_pow2 e = min (2 ^ e) (2 ^ 32 - 1)

-- `attempt as u32`
abbrev pub as_u32 : ℕ → ℕ
as_u32 n = n % 2 ^ 32

-- the delay before jitter
unfoldable pub backoff_delay : Backoff → ℕ → ℕ → ℕ
unfolding saturating_mul saturating_pow2
backoff_delay constant base attempt = base
backoff_delay linear base attempt = saturating_mul base (as_u32 attempt)
backoff_delay exponential base attempt = saturating_mul base (saturating_pow2 (as_u32 attempt - 1))

-- `from + (range.as_millis() as f64 * f) as u64` milliseconds; `scale` is the multiplication by the
-- random fraction
unfoldable pub jitter_of : ℕ → ℕ → (ℕ → ℕ) → ℕ
unfolding saturating_add
jitter_of from to scale = saturating_add from (scale ((to - from) / 1000000) * 1000000)

unfoldable pub add_jitter : Option (ℕ × ℕ) → (ℕ → ℕ) → ℕ → ℕ
unfolding jitter_of saturating_add
add_jitter none scale delay = delay
add_jitter (some (from, to)) scale delay = saturating_add delay (jitter_of from to scale)

unfoldable pub compute_delay : RetryPolicyDef → ℕ → (ℕ → ℕ) → ℕ
unfolding backoff_delay add_jitter
compute_delay retry attempt scale =
    add_jitter retry.jitter scale (backoff_delay retry.backoff (unwrap_or retry.delay 0) attempt)
