-- ===== src/Prelude/Time.antt =====
-- Instants and durations. A Go `time.Time` is the number of nanoseconds since the zero time (January
-- 1 of year 1, UTC), so `IsZero` is a test against 0; a `time.Duration` that the code keeps
-- non-negative is a number of nanoseconds. `t.Sub(u)` is not clipped at the int64 range.
use Prim.Native.Nat.{ℕ, ◌*◌}
use mathlib.Core.Bool.{Bool}
use dbs_monitor.Prelude.Tests.{◌==◌}

abbrev pub second : ℕ
second = 1000000000

abbrev pub minute : ℕ
minute = 60 * second

abbrev pub hour : ℕ
hour = 60 * minute

abbrev pub is_zero_time : ℕ → Bool
is_zero_time t = t == 0
