-- ===== src/Metric/Series/Merged.antt =====
-- What the merged series of internal/metric/aggregate.go has at each time.
use dbs_monitor.Prelude.{
  append_nil, append_assoc, ℕ, ◌≤◌, ◌≡◌, refl, sym, ap, ◌∙◌, String, Bool, true, false, ◌||◌,
  Option, none, some, List, [], ◌∷◌, ◌++◌, ◌==◌, if◌then◌else◌, arith, Float64, Bool-cases, inl,
  inr,
}
use dbs_monitor.Metric.Aggregate.{
  MetricAggregation, DatabaseValue, Aggregated, aggregated, not_aggregatable, no_weight,
  aggregate_to_instance, reduce_some, usable,
}
use dbs_monitor.Metric.Series.{
  DatabasePoint, DatabaseSeries, InstancePoint, ByTime, append_at, named, gather_points,
  gather_series, insert_point, sort_points, add_reduced, reduce_times, aggregate_series_to_instance,
}

module _ {F : Type 0} where
  -- The value of the point at a time.
  unfoldable pub value_at : ℕ → List (InstancePoint F) → Option F
  value_at t [] = none
  value_at t (p ∷ ps) = let later = value_at t ps in if p.at_time == t then some p.value else later

  value_at-insert_point :
      (t : ℕ) (p : InstancePoint F) (ps : List (InstancePoint F))
      → value_at t (insert_point p ps) ≡ (if p.at_time == t then some p.value else value_at t ps)
  unfolding value_at insert_point
  value_at-insert_point t p [] = refl
  value_at-insert_point t p (x ∷ ps) = ground (arith, value_at-insert_point t p ps)

  value_at-sort_points :
      (t : ℕ) (ps : List (InstancePoint F)) → value_at t (sort_points ps) ≡ value_at t ps
  unfolding value_at sort_points
  value_at-sort_points t [] = refl
  value_at-sort_points t (p ∷ ps) =
      value_at-insert_point t p (sort_points ps)
      ∙ ap (λ o. if p.at_time == t then some p.value else o) (value_at-sort_points t ps)

  -- The points are in the order of their times.
  abbrev pub Ascending : List (InstancePoint F) → Type 0
  Ascending [] = Unit
  Ascending (p ∷ []) = Unit
  Ascending (p ∷ q ∷ ps) = (p.at_time ≤ q.at_time) × Ascending (q ∷ ps)

  insert_point-Ascending :
      (p : InstancePoint F) (ps : List (InstancePoint F))
      → Ascending ps
      → Ascending (insert_point p ps)
  unfolding insert_point
  insert_point-Ascending p [] h = tt
  insert_point-Ascending p (x ∷ []) h = ground arith
  insert_point-Ascending p (x ∷ y ∷ ps) h = ground (arith, insert_point-Ascending p (y ∷ ps))

  sort_points-Ascending : (ps : List (InstancePoint F)) → Ascending (sort_points ps)
  unfolding sort_points
  sort_points-Ascending [] = tt
  sort_points-Ascending (p ∷ ps) =
      insert_point-Ascending p (sort_points ps) (sort_points-Ascending ps)

  -- The values that the map has at a time, and whether it has the time.
  unfoldable pub values_of : ℕ → ByTime F → List (DatabaseValue F)
  values_of t [] = []
  values_of t ((u, vs) ∷ rest) = let later = values_of t rest in if u == t then vs else later

  has_time : ℕ → ByTime F → Bool
  has_time t [] = false
  has_time t ((u, vs) ∷ rest) = (u == t) || has_time t rest

  abbrev Distinct : ByTime F → Type 0
  Distinct [] = Unit
  Distinct ((u, vs) ∷ rest) = (has_time u rest ≡ false) × Distinct rest

  has_time-append_at :
      (t u : ℕ) (v : DatabaseValue F) (m : ByTime F)
      → has_time t (append_at u v m) ≡ ((u == t) || has_time t m)
  unfolding has_time append_at
  has_time-append_at t u v [] = refl
  has_time-append_at t u v ((w, vs) ∷ rest) = ground (arith, has_time-append_at t u v rest)

  append_at-Distinct :
      (u : ℕ) (v : DatabaseValue F) (m : ByTime F) → Distinct m → Distinct (append_at u v m)
  unfolding has_time append_at
  append_at-Distinct u v [] h = (refl, tt)
  append_at-Distinct u v ((w, vs) ∷ rest) h =
      ground (arith, append_at-Distinct u v rest, has_time-append_at w u v rest)

  values_of-append_at :
      (t u : ℕ) (v : DatabaseValue F) (m : ByTime F)
      → values_of t (append_at u v m) ≡ (if u == t then values_of t m ++ v ∷ [] else values_of t m)
  unfolding values_of append_at
  values_of-append_at t u v [] = refl
  values_of-append_at t u v ((w, vs) ∷ rest) = ground (arith, values_of-append_at t u v rest)

  -- The values of the databases at a time, in the order of the series and of their points.
  unfoldable pub points_at : ℕ → String → List (DatabasePoint F) → List (DatabaseValue F)
  points_at t database_name [] = []
  points_at t database_name (p ∷ ps) =
      let later = points_at t database_name ps in
      if p.at_time == t then named database_name p ∷ later else later

  unfoldable pub values_at : ℕ → List (DatabaseSeries F) → List (DatabaseValue F)
  unfolding points_at
  values_at t [] = []
  values_at t (item ∷ series) = points_at t item.database_name item.points ++ values_at t series

  gather_points-values :
      (t : ℕ) (database_name : String) (ps : List (DatabasePoint F)) (m : ByTime F)
      → values_of t (gather_points database_name ps m)
        ≡ values_of t m ++ points_at t database_name ps
  unfolding gather_points points_at
  gather_points-values t database_name [] m = sym (append_nil (values_of t m))
  gather_points-values t database_name (p ∷ ps) m =
      gather_points-values t database_name ps (append_at p.at_time (named database_name p) m)
      ∙ rw (values_of-append_at t p.at_time (named database_name p) m)
          (elim (Bool-cases (p.at_time == t)) [
            | inl here ↦ rw here (
                append_assoc (values_of t m) (named database_name p ∷ [])
                  (points_at t database_name ps))
            | inr elsewhere ↦ rw elsewhere refl
          ])

  gather_series-values :
      (t : ℕ) (series : List (DatabaseSeries F)) (m : ByTime F)
      → values_of t (gather_series series m) ≡ values_of t m ++ values_at t series
  unfolding gather_series values_at
  gather_series-values t [] m = sym (append_nil (values_of t m))
  gather_series-values t (item ∷ series) m =
      gather_series-values t series (gather_points item.database_name item.points m)
      ∙ ap (λ l. l ++ values_at t series) (gather_points-values t item.database_name item.points m)
      ∙ append_assoc (values_of t m) (points_at t item.database_name item.points)
          (values_at t series)

  gather_points-Distinct :
      (database_name : String) (ps : List (DatabasePoint F)) (m : ByTime F)
      → Distinct m
      → Distinct (gather_points database_name ps m)
  unfolding gather_points
  gather_points-Distinct database_name [] m h = h
  gather_points-Distinct database_name (p ∷ ps) m h =
      gather_points-Distinct database_name ps (append_at p.at_time (named database_name p) m)
        (append_at-Distinct p.at_time (named database_name p) m h)

  gather_series-Distinct :
      (series : List (DatabaseSeries F)) (m : ByTime F)
      → Distinct m
      → Distinct (gather_series series m)
  unfolding gather_series
  gather_series-Distinct [] m h = h
  gather_series-Distinct (item ∷ series) m h =
      gather_series-Distinct series (gather_points item.database_name item.points m)
        (gather_points-Distinct item.database_name item.points m h)

module _ (f : Float64) where
  open f use {F}

  abbrev pub value_of : Aggregated F → Option F
  value_of (aggregated value) = some value
  value_of not_aggregatable = none
  value_of no_weight = none

  add_reduced-here :
      (t u : ℕ) (a : Aggregated F) (ps : List (InstancePoint F))
      → (u == t) ≡ true
      → value_at t ps ≡ none
      → value_at t (add_reduced f u a ps) ≡ value_of a
  unfolding value_at add_reduced
  add_reduced-here t u (aggregated value) ps here absent = ground arith
  add_reduced-here t u not_aggregatable ps here absent = absent
  add_reduced-here t u no_weight ps here absent = absent

  add_reduced-elsewhere :
      (t u : ℕ) (a : Aggregated F) (ps : List (InstancePoint F))
      → (u == t) ≡ false
      → value_at t (add_reduced f u a ps) ≡ value_at t ps
  unfolding value_at add_reduced
  add_reduced-elsewhere t u (aggregated value) ps elsewhere = ground arith
  add_reduced-elsewhere t u not_aggregatable ps elsewhere = refl
  add_reduced-elsewhere t u no_weight ps elsewhere = refl

  reduce_times-absent :
      (aggregation : MetricAggregation) (t : ℕ) (m : ByTime F)
      → has_time t m ≡ false
      → value_at t (reduce_times f aggregation m) ≡ none
  unfolding value_at reduce_times has_time
  reduce_times-absent aggregation t [] h = refl
  reduce_times-absent aggregation t ((u, vs) ∷ rest) h =
      add_reduced-elsewhere t u (aggregate_to_instance f aggregation vs)
        (reduce_times f aggregation rest) (ground arith)
      ∙ reduce_times-absent aggregation t rest (ground arith)

  reduce_times-value :
      (aggregation : MetricAggregation) (t : ℕ) (m : ByTime F)
      → Distinct m
      → value_at t (reduce_times f aggregation m)
        ≡ value_of (aggregate_to_instance f aggregation (values_of t m))
  unfolding value_at reduce_times values_of has_time aggregate_to_instance reduce_some usable
  reduce_times-value aggregation t [] h = refl
  reduce_times-value aggregation t ((u, vs) ∷ rest) (fresh, distinct) =
      let reduced = aggregate_to_instance f aggregation vs in
      let later = reduce_times f aggregation rest in
      elim (Bool-cases (u == t)) [
        | inl here ↦
            add_reduced-here t u reduced later here
              (reduce_times-absent aggregation t rest (ground arith))
            ∙ rw here refl
        | inr elsewhere ↦
            add_reduced-elsewhere t u reduced later elsewhere
            ∙ reduce_times-value aggregation t rest distinct
            ∙ rw elsewhere refl
      ]

  -- The merged series is in the order of the times. At each time it has a point exactly if the values of
  -- the databases at that time have an aggregate, and then that is the value.
  pub aggregate_series_to_instance_lem :
      (aggregation : MetricAggregation) (series : List (DatabaseSeries F)) (t : ℕ)
      → Ascending (aggregate_series_to_instance f aggregation series)
        × (value_at t (aggregate_series_to_instance f aggregation series)
            ≡ value_of (aggregate_to_instance f aggregation (values_at t series)))
  unfolding aggregate_series_to_instance values_of
  aggregate_series_to_instance_lem aggregation series t =
      let m = gather_series series [] in
      (
        sort_points-Ascending (reduce_times f aggregation m),
        value_at-sort_points t (reduce_times f aggregation m)
            ∙ reduce_times-value aggregation t m (gather_series-Distinct series [] tt)
            ∙ ap (λ l. value_of (aggregate_to_instance f aggregation l))
                (gather_series-values t series []),
      )
