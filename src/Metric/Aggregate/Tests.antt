-- ===== src/Metric/Aggregate/Tests.antt =====
-- Aggregates over concrete databases, with whole numbers for floats.
use dbs_monitor.Prelude.{◌≡◌, refl, none, some, [], ◌∷◌, whole}
use dbs_monitor.Metric.Aggregate.{
  DatabaseValue, aggregation_weighted_average, aggregated, usable, weigh_from,
  aggregate_to_instance,
}

abbrev main : DatabaseValue whole.F
main = record { database_name = "main"; value = some 60; weight = some 9 }

abbrev empty : DatabaseValue whole.F
empty = record { database_name = "empty"; value = some 100; weight = some 1 }

abbrev broken : DatabaseValue whole.F
broken = record { database_name = "broken"; value = none; weight = some 5 }

-- The weighted average stays near the large database.
weighted :
    aggregate_to_instance whole aggregation_weighted_average (main ∷ empty ∷ [])
    ≡ aggregated (some 64)
unfolding aggregate_to_instance usable weigh_from
weighted = refl
