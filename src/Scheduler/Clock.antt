-- ===== src/Scheduler/Clock.antt =====
-- The arithmetic that both schedulers of src/scheduler.rs use.
use ratash.Common.{ℕ, ◌+◌, ◌<◌, ◌≡◌, ◌≢◌, arith, u64_max, wrapping_add, ◌==◌, min, if◌then◌else◌}

-- A duration in milliseconds as `u64`, `u64::MAX` where it does not fit.
abbrev pub duration_ms : ℕ → ℕ
duration_ms duration = min duration u64_max

unfoldable pub next_nonzero : ℕ → ℕ
next_nonzero value = let next = wrapping_add value 1 in if next == 0 then 1 else next

-- An identifier is never zero, also after the counter wraps.
pub next_nonzero_lem : (value : ℕ) → next_nonzero value ≢ 0
unfolding next_nonzero
next_nonzero_lem value = ground arith

pub next_nonzero-suc : (value : ℕ) → value < u64_max → next_nonzero value ≡ value + 1
unfolding next_nonzero
next_nonzero-suc value h = ground arith
