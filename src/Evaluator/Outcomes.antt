-- ===== src/Evaluator/Outcomes.antt =====
-- How an evaluation of a rule in internal/evaluator/service.go can go, when it comes back with no error.
use dbs_monitor.Prelude.{
  ℕ, ◌≡◌, refl, sym, subst, ◌∙◌, ◌⊎◌, String, true, Option, none, some, List, [], ◌∷◌, Bool-cases,
  Option-cases, inl, inr, Float64,
}
use dbs_monitor.Metric.Catalog.{Metric, weight_metric_for, producer_for}
use dbs_monitor.Notify.Maintenance.{find_active_maintenance_window}
use dbs_monitor.Evaluator.Run.{
  Run, Effect, pure, or_fail, read_facts, read_samples, match_maintenance,
  mark_alert_rule_evaluated, ◌>>=◌,
}
use dbs_monitor.Evaluator.Target.{
  Target, is_control_plane, collection_failure_blocks_samples, structurally_not_applicable,
  snapshot_from_evaluation_target,
}
use dbs_monitor.Evaluator.Reading.{
  MetricEvaluation, Conversions, read_projection, read_window, rule_window_points, evaluate_points,
  evaluate_control_plane, evaluate_metric,
}
use dbs_monitor.Evaluator.Columns.{ScheduledTarget, Database, checkpoint}
use dbs_monitor.Evaluator.Rule.{context, act_on, evaluate_found, evaluate_target, evaluate_rule}
use dbs_monitor.Evaluator.Effects.{
  is_ok, bind-quiet, quiet_bind, or_fail-quiet, or_fail-some, exec-once,
}

module _ (f : Float64) (conversions : Conversions f.F) (metrics : List Metric)
    (db : Database f) where
  open f use {F}

  rule_window_points-quiet :
      (target : Target F) → (rule_window_points f conversions metrics db.readings target).0 ≡ []
  unfolding rule_window_points
  rule_window_points-quiet target =
      elim (Option-cases (weight_metric_for metrics target.metric_id)) [
        | inl alone ↦
            rw (alone, rule_window_points) (or_fail-quiet {F = F} read_samples db.readings.samples)
        | inr (weight, weighed) ↦
            rw (weighed, rule_window_points)
              (or_fail-quiet {F = F} read_samples (db.readings.weighted_samples weight))
      ]

  evaluate_metric-quiet :
      (target : Target F) (now : ℕ)
      → (evaluate_metric f conversions metrics db.readings target now).0 ≡ []
  unfolding evaluate_metric read_projection read_window
  evaluate_metric-quiet target now =
      elim (Bool-cases (is_control_plane (producer_for metrics target.metric_id))) [
        | inl projected ↦
            rw (projected, evaluate_metric)
              (quiet_bind (or_fail read_facts db.readings.facts)
                (λ facts. pure (evaluate_control_plane f conversions metrics target facts now))
                (or_fail-quiet {F = F} read_facts db.readings.facts) (λ facts. refl))
        | inr sampled ↦
            elim (Bool-cases
              (collection_failure_blocks_samples target.metric_id target.last_error_code)) [
                | inl blocked ↦ rw (sampled, blocked, evaluate_metric) refl
                | inr free ↦
                    rw (sampled, free, evaluate_metric)
                      (quiet_bind (rule_window_points f conversions metrics db.readings target)
                        (λ points. pure (evaluate_points f conversions metrics target points now))
                        (rule_window_points-quiet target) (λ points. refl))
              ]
      ]

  -- The evaluation acts on a reading of the metric.
  abbrev pub Acts : ScheduledTarget → Target F → ℕ → List (Effect F) → Type 0
  Acts scheduled target now effects =
      (result : MetricEvaluation F) × (window : Option String) × (find_active_maintenance_window
          db.maintenance_windows target.instance_id now
        ≡ some window)
      × (effects
          ≡ (act_on f conversions metrics db
              (context f conversions metrics db scheduled target now window) result
              (snapshot_from_evaluation_target target)).0)
      × (is_ok
            (act_on f conversions metrics db
              (context f conversions metrics db scheduled target now window) result
              (snapshot_from_evaluation_target target)).1
          ≡ true)

  evaluate_target-Acts :
      (scheduled : ScheduledTarget) (target : Target F) (now : ℕ)
      → is_ok (evaluate_target f conversions metrics db scheduled target now).1 ≡ true
      → Acts scheduled target now (evaluate_target f conversions metrics db scheduled target now).0
  unfolding evaluate_target
  evaluate_target-Acts scheduled target now o =
      let windows = find_active_maintenance_window db.maintenance_windows target.instance_id now in
      let act : MetricEvaluation F → Option String → Run F Unit = λ result window.
        act_on f conversions metrics db
          (context f conversions metrics db scheduled target now window) result
          (snapshot_from_evaluation_target target) in
      let (result, read, eq, o1) =
        bind-quiet (evaluate_metric f conversions metrics db.readings target now)
          (λ result. or_fail match_maintenance windows >>= act result)
          (evaluate_metric-quiet target now) o in
      let (window, found, eq1, o2) =
        bind-quiet (or_fail match_maintenance windows) (act result)
          (or_fail-quiet {F = F} match_maintenance windows) o1 in
      (result, window, or_fail-some F match_maintenance windows window found, eq ∙ eq1, o2)

  -- Only the checkpoint is written, or the evaluation acts on a reading of the metric.
  abbrev pub Outcome : ScheduledTarget → Target F → ℕ → Run F Unit → Type 0
  Outcome scheduled target now m =
      is_ok m.1 ≡ true
      → (m.0
          ≡ mark_alert_rule_evaluated
              (checkpoint (context f conversions metrics db scheduled target now none))
            ∷ [])
        ⊎ Acts scheduled target now m.0

  evaluate_found-Outcome :
      (scheduled : ScheduledTarget) (target : Target F) (now : ℕ)
      → Outcome scheduled target now (evaluate_found f conversions metrics db scheduled now target)
  unfolding evaluate_found
  evaluate_found-Outcome scheduled target now =
      let mark =
        mark_alert_rule_evaluated
          (checkpoint (context f conversions metrics db scheduled target now none)) in
      let inapplicable =
        structurally_not_applicable metrics target.metric_id target.last_error_code
          target.agent_metrics_enabled target.agent_expected in
      elim (Bool-cases inapplicable) [
        | inl skipped ↦
            subst (Outcome scheduled target now) (sym (rw (skipped, evaluate_found) refl))
              (λ o. inl (exec-once db.executed mark o))
        | inr applies ↦
            subst (Outcome scheduled target now) (sym (rw (applies, evaluate_found) refl))
              (λ o. inr (evaluate_target-Acts scheduled target now o))
      ]

  pub evaluate_rule-Outcome :
      (scheduled : ScheduledTarget) (target : Target F) (now : ℕ)
      → db.target ≡ some target
      → Outcome scheduled target now (evaluate_rule f conversions metrics db scheduled now)
  unfolding evaluate_rule ◌>>=◌
  evaluate_rule-Outcome scheduled target now found =
      rw (found, evaluate_rule) (evaluate_found-Outcome scheduled target now)
