-- ===== src/Metric/Series.antt =====
-- `AggregateSeriesToInstance` of internal/metric/aggregate.go: the series of the databases of an instance,
-- put together time by time. The Go map from times is an association list; the order of its keys is
-- free there, and the points are sorted afterwards.
pub mod Merged
mod Tests
use dbs_monitor.Prelude.{
  ℕ, String, Option, none, some, List, [], ◌∷◌, ◌++◌, ltb, ◌==◌, if◌then◌else◌, Float64,
}
use dbs_monitor.Metric.Aggregate.{
  MetricAggregation, DatabaseValue, Aggregated, aggregated, not_aggregatable, no_weight,
  aggregate_to_instance,
}

pub record DatabasePoint (F : Type 0) : Type 0 where
  pub at_time : ℕ
  pub value : F
  pub weight : F

pub record DatabaseSeries (F : Type 0) : Type 0 where
  pub database_name : String
  pub points : List (DatabasePoint F)

pub record InstancePoint (F : Type 0) : Type 0 where
  pub at_time : ℕ
  pub value : F

abbrev pub ByTime : Type 0 → Type 0
ByTime F = List (ℕ × List (DatabaseValue F))

module _ {F : Type 0} where
  -- `byTime[at] = append(byTime[at], v)`.
  unfoldable pub append_at : ℕ → DatabaseValue F → ByTime F → ByTime F
  append_at t v [] = (t, v ∷ []) ∷ []
  append_at t v ((u, vs) ∷ rest) =
      let later = append_at t v rest in if u == t then (u, vs ++ v ∷ []) ∷ rest else (u, vs) ∷ later

  abbrev pub named : String → DatabasePoint F → DatabaseValue F
  named database_name point = record {
    database_name = database_name;
    value = point.value;
    weight = point.weight;
  }

  -- The inner loop, and the outer one.
  unfoldable pub gather_points : String → List (DatabasePoint F) → ByTime F → ByTime F
  unfolding append_at
  gather_points database_name [] by_time = by_time
  gather_points database_name (point ∷ points) by_time =
      gather_points database_name points
        (append_at point.at_time (named database_name point) by_time)

  unfoldable pub gather_series : List (DatabaseSeries F) → ByTime F → ByTime F
  unfolding gather_points
  gather_series [] by_time = by_time
  gather_series (item ∷ series) by_time =
      gather_series series (gather_points item.database_name item.points by_time)

  unfoldable pub insert_point : InstancePoint F → List (InstancePoint F) → List (InstancePoint F)
  insert_point p [] = p ∷ []
  insert_point p (x ∷ xs) =
      let later = insert_point p xs in if ltb x.at_time p.at_time then x ∷ later else p ∷ x ∷ xs

  unfoldable pub sort_points : List (InstancePoint F) → List (InstancePoint F)
  unfolding insert_point
  sort_points [] = []
  sort_points (p ∷ ps) = insert_point p (sort_points ps)

module _ (f : Float64) where
  open f use {F}

  -- The body of the loop over the times: a time with no value is dropped.
  unfoldable pub add_reduced : ℕ → Aggregated F → List (InstancePoint F) → List (InstancePoint F)
  add_reduced t (aggregated value) points = record { at_time = t; value = value } ∷ points
  add_reduced t not_aggregatable points = points
  add_reduced t no_weight points = points

  unfoldable pub reduce_times : MetricAggregation → ByTime F → List (InstancePoint F)
  unfolding add_reduced
  reduce_times aggregation [] = []
  reduce_times aggregation ((t, values) ∷ rest) =
      add_reduced t (aggregate_to_instance f aggregation values) (reduce_times aggregation rest)

  unfoldable pub aggregate_series_to_instance :
      MetricAggregation → List (DatabaseSeries F) → List (InstancePoint F)
  unfolding gather_series reduce_times sort_points
  aggregate_series_to_instance aggregation series =
      sort_points (reduce_times aggregation (gather_series series []))
