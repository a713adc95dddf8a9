-- ===== src/Metric/Rate.antt =====
-- internal/metric/rate.go: the rate of a counter between two readings.
mod Readings
mod Tests
use dbs_monitor.Prelude.{
  ℕ, Bool, true, false, not, ◌&&◌, ◌||◌, Option, none, some, leb, if◌then◌else◌, Float64,
}

pub data ResetReason : Type 0 where
  reset_none reset_counter reset_invalid_interval reset_non_finite : ResetReason

-- The value, where the Boolean of the source is true, and the reason. The elapsed time that is not
-- positive is 0; `seconds` is `elapsed.Seconds()`.
module _ (f : Float64) (seconds : ℕ → f.F) where
  abbrev pub is_finite : f.F → Bool
  is_finite x = not (f.is_nan x || f.is_inf x)

  unfoldable pub rate : f.F → f.F → ℕ → Option f.F × ResetReason
  rate previous current elapsed =
      if not (is_finite previous && is_finite current)
      then (none, reset_non_finite)
      else if leb elapsed 0
      then (none, reset_invalid_interval)
      else if f.lt current previous
      then (none, reset_counter)
      else (some (f.div (f.sub current previous) (seconds elapsed)), reset_none)
