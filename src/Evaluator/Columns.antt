-- ===== src/Evaluator/Columns.antt =====
-- The columns that `evaluateRule` of internal/evaluator/service.go writes. The counts of an alert are
-- bounded by those of its rule, which are 32 bits wide, so their conversion to 32 bits keeps them.
use dbs_monitor.Prelude.{
  ℕ, String, Bool, true, false, Option, none, some, List, if◌then◌else◌, Float64,
}
use dbs_monitor.Alerting.State.{
  State, unset, is_no_data, Snapshot, Evaluation, step_collection, initial,
}
use dbs_monitor.Notify.Message.{EventType}
use dbs_monitor.Notify.Maintenance.{MaintenanceWindowRow}
use dbs_monitor.Evaluator.{starts_firing_lifecycle, sets_recovered_at}
use dbs_monitor.Evaluator.Run.{Effect, Checkpoint, CounterReset, RecoveredColumns, SavedColumns}
use dbs_monitor.Evaluator.Target.{Target}
use dbs_monitor.Evaluator.Reading.{MetricEvaluation, Readings}

-- `ListEvaluationTargetsRow`.
pub record ScheduledTarget : Type 0 where
  pub rule_id : String
  pub instance_id : String
  pub metric_dimension_key : String
  pub rule_name : String
  pub instance_name : String

-- What the database answers during one evaluation; `none` is an error.
pub record Database (f : Float64) : Type 0 where
  pub target : Option (Target f.F)
  pub readings : Readings f
  pub maintenance_windows : Option (List MaintenanceWindowRow)
  pub executed : Effect f.F → Bool
  pub alert_instance_id : Option String
  pub trigger_snapshot_id : Option String
  pub notification_ids : EventType → Option (List String)

-- What the rest of an evaluation goes by.
pub record Context (F : Type 0) : Type 0 where
  pub scheduled : ScheduledTarget
  pub target : Target F
  pub now : ℕ
  pub in_maintenance : Bool
  pub maintenance_window_id : Option String

abbrev pub is_unset : State → Bool
is_unset unset = true
is_unset _ = false

-- `*alerting.StepCollection(&current, outcome, false, ...)`.
unfoldable pub stepped : Snapshot → Evaluation → ℕ → ℕ → Snapshot
stepped current outcome trigger_count recovery_limit =
    elim (step_collection (some current) outcome false trigger_count recovery_limit) [
      | none ↦ initial
      | some next ↦ next
    ]

module _ {F : Type 0} where
  unfoldable pub next_snapshot : Target F → Snapshot → Evaluation → Snapshot
  unfolding stepped
  next_snapshot target current outcome =
      stepped current outcome target.consecutive_count target.recovery_consecutive_count

  unfoldable pub checkpoint : Context F → Checkpoint
  checkpoint c = record {
    rule_id = c.target.rule_id;
    instance_id = c.target.instance_id;
    metric_dimension_key = c.scheduled.metric_dimension_key;
    last_evaluated_at = c.now;
  }

  unfoldable pub counter_reset : Context F → Snapshot → CounterReset
  counter_reset c next = record {
    id = c.target.alert_instance_id;
    rule_version = c.target.version;
    severity = c.target.severity;
    rule_snapshot = c.target.rule_snapshot;
    breach_count = next.breach_count;
    recovery_count = next.recovery_count;
    no_data_count = next.no_data_count;
    updated_at = c.now;
    in_maintenance = c.in_maintenance;
    maintenance_window_id = c.maintenance_window_id;
  }

  unfoldable pub recovered_at : Context F → Snapshot → Snapshot → Option ℕ
  unfolding sets_recovered_at
  recovered_at c current next = if sets_recovered_at current next then some c.now else none

  unfoldable pub recovered_columns : Context F → Option F → Snapshot → Snapshot → RecoveredColumns F
  unfolding recovered_at
  recovered_columns c current_value current next = record {
    id = c.target.alert_instance_id;
    metric_id = c.target.metric_id;
    rule_version = c.target.version;
    severity = c.target.severity;
    current_value = current_value;
    rule_snapshot = c.target.rule_snapshot;
    breach_count = next.breach_count;
    recovery_count = next.recovery_count;
    no_data_count = next.no_data_count;
    updated_at = recovered_at c current next;
    in_maintenance = c.in_maintenance;
    maintenance_window_id = c.maintenance_window_id;
  }

  -- `metricResult.unavailability`, which is cleared unless the alert has no data.
  unfoldable pub unavailability : MetricEvaluation F → Snapshot → Option String
  unavailability result next = if is_no_data next.state then result.unavailability else none

  unfoldable pub saved_columns :
      Context F → MetricEvaluation F → Snapshot → Snapshot → SavedColumns F
  unfolding recovered_at unavailability starts_firing_lifecycle
  saved_columns c result current next =
      let starts = starts_firing_lifecycle current next in
      record {
        rule_id = c.target.rule_id;
        instance_id = c.target.instance_id;
        metric_id = c.target.metric_id;
        metric_dimension_key = c.scheduled.metric_dimension_key;
        status = next.state;
        rule_version = c.target.version;
        severity = c.target.severity;
        current_value = result.current_value;
        rule_snapshot = c.target.rule_snapshot;
        breach_count = next.breach_count;
        recovery_count = next.recovery_count;
        no_data_count = next.no_data_count;
        state_before_no_data =
            if is_unset next.state_before_no_data then none else some next.state_before_no_data;
        unavailability = unavailability result next;
        updated_at = c.now;
        first_triggered_at = if starts then some c.now else none;
        first_rule_version = if starts then some c.target.version else none;
        first_rule_snapshot = if starts then some c.target.rule_snapshot else none;
        recovered_at = recovered_at c current next;
        in_maintenance = c.in_maintenance;
        maintenance_window_id = c.maintenance_window_id;
      }
