-- ===== src/Metric/Rate/Readings.antt =====
-- Which readings have a rate.
use dbs_monitor.Prelude.{ℕ, ◌<◌, ◌≡◌, ◌↔◌, true, false, none, arith, Float64, Float64Laws}
use dbs_monitor.Metric.Rate.{is_finite, rate}

module _ (f : Float64) (seconds : ℕ → f.F) where
  -- Where the readings are finite numbers and time has passed, there is no rate exactly if the
  -- counter fell.
  pub rate-reset_iff :
      (laws : Float64Laws f) (previous current : f.F) (elapsed : ℕ)
      → is_finite f seconds previous ≡ true
      → is_finite f seconds current ≡ true
      → 0 < elapsed
      → ((rate f seconds previous current elapsed).0 ≡ none) ↔ (f.le previous current ≡ false)
  unfolding rate
  rate-reset_iff laws previous current elapsed h k t = (
    λ e. ground (arith, laws.le_not_lt previous current),
    λ e. ground (arith, laws.le_not_lt previous current),
  )
