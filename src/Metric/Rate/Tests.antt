-- ===== src/Metric/Rate/Tests.antt =====
-- Rates of concrete readings, with whole numbers for floats.
use dbs_monitor.Prelude.{ℕ, ◌≡◌, refl, Option, none, some, whole}
use dbs_monitor.Metric.Rate.{reset_counter, rate}

abbrev seconds : ℕ → Option ℕ
seconds n = some n

counter_reset : rate whole seconds (some 9) (some 4) 2 ≡ (none, reset_counter)
unfolding rate
counter_reset = refl
