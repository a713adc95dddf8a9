-- ===== src/Alerting/Window/Tests.antt =====
-- The aggregation of internal/alerting/evaluation.go over concrete samples, with whole numbers for
-- floats.
use dbs_monitor.Prelude.{
  ◌≡◌, ◌↔◌, ◌⊎◌, refl, false, none, some, List, [], ◌∷◌, arith, whole, whole_laws,
}
use dbs_monitor.Alerting.Window.{Point, aggregate_window}
use dbs_monitor.Alerting.Window.Bounds.{kept, is_aggregation, aggregate_window-none_iff}
use dbs_monitor.Alerting.Window.Extremes.{AtLeast, Reached, aggregate_window-max}

abbrev samples : List (Point whole)
samples =
    record { timestamp = 1; value = some 9 }
    ∷ record { timestamp = 7; value = some 4 }
    ∷ record { timestamp = 9; value = some 6 }
    ∷ []

aggregate_window-none_iff_example :
    (aggregate_window whole samples 10 5 "min" ≡ none)
    ↔ ((is_aggregation whole "min" ≡ false) ⊎ (kept whole 10 5 samples ≡ []))
aggregate_window-none_iff_example = aggregate_window-none_iff whole samples 10 5 "min"

aggregate_window-max_example :
    AtLeast whole whole_laws (some 6) (kept whole 10 5 samples)
    × Reached whole whole_laws (some 6) (kept whole 10 5 samples)
unfolding aggregate_window kept
aggregate_window-max_example =
    aggregate_window-max whole whole_laws samples 10 5 (some 6) (ground arith) refl
