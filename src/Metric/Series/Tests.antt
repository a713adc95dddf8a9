-- ===== src/Metric/Series/Tests.antt =====
-- Two series of internal/metric/aggregate.go, with whole numbers for floats.
use dbs_monitor.Prelude.{ℕ, ◌≡◌, refl, Option, some, List, [], ◌∷◌, whole}
use dbs_monitor.Metric.Aggregate.{
  aggregation_sum, aggregate_to_instance, reduce_some, usable, sum_from,
}
use dbs_monitor.Metric.Series.{
  DatabasePoint, DatabaseSeries, append_at, gather_points, gather_series, add_reduced, insert_point,
  sort_points, reduce_times, aggregate_series_to_instance,
}
use dbs_monitor.Metric.Series.Merged.{
  Ascending, value_at, values_at, value_of, aggregate_series_to_instance_lem,
}

abbrev point : ℕ → ℕ → DatabasePoint (Option ℕ)
point t n = record { at_time = t; value = some n; weight = some 1 }

abbrev series : List (DatabaseSeries (Option ℕ))
series =
    record { database_name = "a"; points = point 20 1 ∷ point 10 2 ∷ [] }
    ∷ record { database_name = "b"; points = point 10 5 ∷ [] }
    ∷ []

sums_are_sorted :
    aggregate_series_to_instance whole aggregation_sum series
    ≡ record { at_time = 10; value = some 7 } ∷ record { at_time = 20; value = some 1 } ∷ []
unfolding aggregate_series_to_instance gather_series gather_points append_at reduce_times
    add_reduced sort_points insert_point aggregate_to_instance reduce_some usable sum_from
sums_are_sorted = refl

aggregate_series_to_instance_lem_example :
    Ascending (aggregate_series_to_instance whole aggregation_sum series)
    × (value_at 10 (aggregate_series_to_instance whole aggregation_sum series)
        ≡ value_of whole (aggregate_to_instance whole aggregation_sum (values_at 10 series)))
aggregate_series_to_instance_lem_example =
    aggregate_series_to_instance_lem whole aggregation_sum series 10
