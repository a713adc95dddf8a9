-- ===== src/Evaluator/Reading.antt =====
-- `evaluateMetric` of internal/evaluator/service.go: the value of a metric, and what it says of a rule.
use dbs_monitor.Prelude.{
  ℕ, ◌*◌, String, Option, none, some, List, if◌then◌else◌, str_eq, second, Float64,
}
use dbs_monitor.Alerting.State.{Evaluation, missing}
use dbs_monitor.Alerting.Window.{Point, aggregate_window, evaluate}
use dbs_monitor.Metric.Catalog.{Metric, weight_metric_for, producer_for}
use dbs_monitor.Metric.ControlPlane.{
  ControlPlaneFacts, ControlPlaneProjection, project_control_plane_metric,
  metric_collector_last_success_time,
}
use dbs_monitor.Evaluator.Run.{Run, pure, or_fail, read_facts, read_samples, ◌>>=◌}
use dbs_monitor.Evaluator.Target.{Target, is_control_plane, collection_failure_blocks_samples}

-- `metricEvaluation`.
pub record MetricEvaluation (F : Type 0) : Type 0 where
  pub outcome : Evaluation
  pub current_value : Option F
  pub unavailability : Option String

-- `time.Unix(int64(x), 0)` of a float, `now.Sub(t).Seconds()` of two times, which is negative where `t`
-- is the later, and `fmt.Sprint` of a float.
pub record Conversions (F : Type 0) : Type 0 where
  pub unix_time : F → ℕ
  pub seconds_since : ℕ → ℕ → F
  pub sprint : F → String

-- What the queries of one evaluation answer; `none` is an error. The samples are those of the window,
-- of the metric and of its weight.
pub record Readings (f : Float64) : Type 0 where
  pub facts : Option ControlPlaneFacts
  pub samples : Option (List (Point f))
  pub weighted_samples : String → Option (List (Point f))

module _ (f : Float64) (conversions : Conversions f.F) (metrics : List Metric) where
  open f use {F}

  abbrev pub control_plane_rule_value : String → ControlPlaneProjection F → ℕ → F
  control_plane_rule_value metric_id projection now =
      if str_eq metric_id metric_collector_last_success_time
      then conversions.seconds_since now (conversions.unix_time projection.value)
      else projection.value

  abbrev pub no_samples_yet : MetricEvaluation F
  no_samples_yet = record {
    outcome = missing;
    current_value = none;
    unavailability = some "NO_SAMPLES_YET";
  }

  unfoldable pub evaluated : Target F → F → MetricEvaluation F
  evaluated target value = record {
    outcome =
        evaluate f value target.operator target.threshold target.recovery_operator
          target.recovery_threshold;
    current_value = some value;
    unavailability = none;
  }

  unfoldable pub evaluate_control_plane : Target F → ControlPlaneFacts → ℕ → MetricEvaluation F
  unfolding evaluated
  evaluate_control_plane target facts now =
      elim (project_control_plane_metric f target.metric_id facts now) [
        | none ↦ no_samples_yet
        | some projection ↦
            evaluated target (control_plane_rule_value target.metric_id projection now)
      ]

  unfoldable pub rule_window_points : Readings f → Target F → Run F (List (Point f))
  rule_window_points readings target = elim (weight_metric_for metrics target.metric_id) [
    | some weight_metric ↦ or_fail read_samples (readings.weighted_samples weight_metric)
    | none ↦ or_fail read_samples readings.samples
  ]

  unfoldable pub evaluate_points : Target F → List (Point f) → ℕ → MetricEvaluation F
  unfolding evaluated
  evaluate_points target points now =
      elim (aggregate_window f points now (target.window_seconds * second) target.aggregation) [
        | none ↦ no_samples_yet
        | some value ↦ evaluated target value
      ]

  unfoldable pub read_projection : Readings f → Target F → ℕ → Run F (MetricEvaluation F)
  unfolding evaluate_control_plane
  read_projection readings target now = do
    facts ← or_fail read_facts readings.facts
    pure (evaluate_control_plane target facts now)

  unfoldable pub read_window : Readings f → Target F → ℕ → Run F (MetricEvaluation F)
  unfolding rule_window_points evaluate_points
  read_window readings target now = do
    points ← rule_window_points readings target
    pure (evaluate_points target points now)

  unfoldable pub evaluate_metric : Readings f → Target F → ℕ → Run F (MetricEvaluation F)
  unfolding read_projection read_window
  evaluate_metric readings target now =
      if is_control_plane (producer_for metrics target.metric_id)
      then read_projection readings target now
      else if collection_failure_blocks_samples target.metric_id target.last_error_code
      then pure (record no_samples_yet { unavailability = target.last_error_code })
      else read_window readings target now
