-- ===== src/Metric/Aggregate/Usable.antt =====
-- Which databases count in an aggregate.
use dbs_monitor.Prelude.{◌≡◌, ap, true, ◌||◌, List, [], ◌∷◌, ◌++◌, arith, Float64}
use dbs_monitor.Metric.Aggregate.{
  MetricAggregation, DatabaseValue, usable, reduce_some, aggregate_to_instance,
}

module _ (f : Float64) where
  usable-drop :
      (xs ys : List (DatabaseValue f.F)) (v : DatabaseValue f.F)
      → (f.is_nan v.value || f.is_inf v.value) ≡ true
      → usable f (xs ++ v ∷ ys) ≡ usable f (xs ++ ys)
  unfolding usable
  usable-drop [] ys v h = ground (arith, h)
  usable-drop (x ∷ xs) ys v h = ground (arith, usable-drop xs ys v h)

  -- A value that is not a finite number does not change the aggregate of the others, wherever it
  -- stands.
  pub aggregate-drop_non_finite :
      (aggregation : MetricAggregation) (xs ys : List (DatabaseValue f.F)) (v : DatabaseValue f.F)
      → (f.is_nan v.value || f.is_inf v.value) ≡ true
      → aggregate_to_instance f aggregation (xs ++ v ∷ ys)
        ≡ aggregate_to_instance f aggregation (xs ++ ys)
  unfolding aggregate_to_instance
  aggregate-drop_non_finite aggregation xs ys v h =
      ap (reduce_some f aggregation) (usable-drop xs ys v h)
