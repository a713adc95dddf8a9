-- ===== src/Metric/Aggregate.antt =====
-- `AggregateToInstance` of internal/metric/aggregate.go: one value of an instance from the values of
-- its databases at one time.
mod Usable
mod Tests
use dbs_monitor.Prelude.{
  ℕ, String, Bool, true, false, not, ◌&&◌, ◌||◌, List, [], ◌∷◌, if◌then◌else◌, Float64,
}

-- A Go `MetricAggregation` is a string; `unknown_aggregation` is any other one.
pub data MetricAggregation : Type 0 where
  aggregation_none aggregation_sum aggregation_weighted_average unknown_aggregation :
      MetricAggregation

pub record DatabaseValue (F : Type 0) : Type 0 where
  pub database_name : String
  pub value : F
  pub weight : F

-- A value, or an error that wraps `ErrNotAggregatable` or `ErrNoWeight`.
pub data Aggregated (F : Type 0) : Type 0 where
  aggregated : F → Aggregated F
  not_aggregatable no_weight : Aggregated F

module _ (f : Float64) where
  unfoldable pub usable : List (DatabaseValue f.F) → List (DatabaseValue f.F)
  usable [] = []
  usable (v ∷ values) =
      let rest = usable values in if f.is_nan v.value || f.is_inf v.value then rest else v ∷ rest

  unfoldable pub sum_from : f.F → List (DatabaseValue f.F) → f.F
  sum_from total [] = total
  sum_from total (v ∷ values) = sum_from (f.add total v.value) values

  abbrev pub has_weight : DatabaseValue f.F → Bool
  has_weight v = not (f.is_nan v.weight || f.is_inf v.weight || f.lt v.weight (f.of_ℕ 0))

  -- The weighted sum and the total weight.
  unfoldable pub weigh_from : f.F → f.F → List (DatabaseValue f.F) → f.F × f.F
  weigh_from weighted total_weight [] = (weighted, total_weight)
  weigh_from weighted total_weight (v ∷ values) =
      weigh_from (if has_weight v then f.add weighted (f.mul v.value v.weight) else weighted)
        (if has_weight v then f.add total_weight v.weight else total_weight) values

  average : f.F × f.F → Aggregated f.F
  average (weighted, total_weight) =
      if f.le total_weight (f.of_ℕ 0) then no_weight else aggregated (f.div weighted total_weight)

  -- The `switch`, where some value is usable.
  reduce : MetricAggregation → List (DatabaseValue f.F) → Aggregated f.F
  unfolding average
  reduce aggregation_sum values = aggregated (sum_from (f.of_ℕ 0) values)
  reduce aggregation_weighted_average values = average (weigh_from (f.of_ℕ 0) (f.of_ℕ 0) values)
  reduce aggregation_none values = not_aggregatable
  reduce unknown_aggregation values = not_aggregatable

  unfoldable pub reduce_some : MetricAggregation → List (DatabaseValue f.F) → Aggregated f.F
  unfolding reduce
  reduce_some aggregation [] = not_aggregatable
  reduce_some aggregation (v ∷ values) = reduce aggregation (v ∷ values)

  unfoldable pub aggregate_to_instance :
      MetricAggregation → List (DatabaseValue f.F) → Aggregated f.F
  unfolding reduce_some
  aggregate_to_instance aggregation values = reduce_some aggregation (usable values)
