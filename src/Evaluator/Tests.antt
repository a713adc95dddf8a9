-- ===== src/Evaluator/Tests.antt =====
-- internal/evaluator/service.go: an evaluation at which an alert begins to fire, in a maintenance window.
use dbs_monitor.Prelude.{
  ◌-◌, ℕ, ◌*◌, ◌≡◌, refl, true, false, Option, none, some, [], ◌∷◌, arith, second, whole,
}
use dbs_monitor.Alerting.State.{ok, step_collection}
use dbs_monitor.Alerting.State.Invariant.{initial-Inv}
use dbs_monitor.Alerting.Events.{state_events, performance_event_type_for_metric}
use dbs_monitor.Alerting.TriggerSnapshot.{trigger_snapshot_scope_for_metric}
use dbs_monitor.Alerting.Window.{aggregate_window, evaluate}
use dbs_monitor.Metric.Catalog.{weight_metric_for}
use dbs_monitor.Notify.Message.{firing}
use dbs_monitor.Notify.Maintenance.{
  MaintenanceWindowRow, find_active_maintenance_window, contains_instance,
}
use dbs_monitor.Evaluator.Run.{Run, ◌>>=◌, for_each}
use dbs_monitor.Evaluator.Target.{
  Target, snapshot_from_evaluation_target, collection_failure_blocks_samples,
}
use dbs_monitor.Evaluator.Reading.{Conversions}
use dbs_monitor.Evaluator.Columns.{ScheduledTarget, Database}
use dbs_monitor.Evaluator.Rule.{evaluate_rule}
use dbs_monitor.Evaluator.Effects.{is_ok, pick}
use dbs_monitor.Evaluator.Views.{enqueued, announced, deleted, marked}
use dbs_monitor.Evaluator.Discarded.{discarded}
use dbs_monitor.Evaluator.Promises.{
  evaluate_rule-marked, evaluate_rule-enqueued, evaluate_rule-deleted,
}

abbrev conversions : Conversions (Option ℕ)
conversions = record {
  unix_time = λ x. 62135596800 * second;
  seconds_since = λ now t. some (now - t);
  sprint = λ x. "";
}

abbrev scheduled : ScheduledTarget
scheduled = record {
  rule_id = "rule";
  instance_id = "instance";
  metric_dimension_key = "";
  rule_name = "busy";
  instance_name = "db";
}

abbrev target : Target (Option ℕ)
target = record {
  rule_id = "rule";
  metric_id = "pg.connection.active";
  aggregation = "max";
  operator = ">";
  threshold = some 80;
  recovery_operator = "<";
  recovery_threshold = some 60;
  window_seconds = 60;
  consecutive_count = 1;
  recovery_consecutive_count = 1;
  severity = "CRITICAL";
  no_data_policy = "alert";
  version = 1;
  rule_snapshot = "{}";
  instance_id = "instance";
  last_error_code = none;
  alert_instance_id = none;
  status = ok;
  evaluated_rule_version = 0;
  breach_count = 0;
  recovery_count = 0;
  no_data_count = 0;
  state_before_no_data = none;
  agent_metrics_enabled = false;
  agent_expected = false;
}

abbrev now : ℕ
now = 1000 * second

abbrev window : MaintenanceWindowRow
window = record {
  id = "window";
  starts_at = 900 * second;
  ends_at = 1100 * second;
  deleted_at = none;
}

abbrev database : Database whole
database = record {
  target = some target;
  readings = record {
    facts = none;
    samples = some (record { timestamp = 990 * second; value = some 90 } ∷ []);
    weighted_samples = λ weight. none;
  };
  maintenance_windows = some (window ∷ []);
  executed = λ effect. true;
  alert_instance_id = some "alert";
  trigger_snapshot_id = some "snapshot";
  notification_ids = λ event_type. some ("mail" ∷ "hook" ∷ []);
}

abbrev run : Run (Option ℕ) Unit
run = evaluate_rule whole conversions [] database scheduled now

run-ok : is_ok run.1 ≡ true
unfolding evaluate_rule ◌>>=◌ collection_failure_blocks_samples weight_metric_for contains_instance
    aggregate_window evaluate snapshot_from_evaluation_target step_collection
    trigger_snapshot_scope_for_metric performance_event_type_for_metric for_each state_events
run-ok = refl

firing_is_enqueued : pick enqueued run.0 ≡ firing ∷ []
unfolding pick enqueued evaluate_rule ◌>>=◌ collection_failure_blocks_samples weight_metric_for
    contains_instance aggregate_window evaluate snapshot_from_evaluation_target step_collection
    trigger_snapshot_scope_for_metric performance_event_type_for_metric for_each state_events
firing_is_enqueued = refl

both_are_deleted : pick deleted run.0 ≡ "mail" ∷ "hook" ∷ []
unfolding pick deleted evaluate_rule ◌>>=◌ collection_failure_blocks_samples weight_metric_for
    contains_instance aggregate_window evaluate snapshot_from_evaluation_target step_collection
    trigger_snapshot_scope_for_metric performance_event_type_for_metric for_each state_events
both_are_deleted = refl

maintained :
    find_active_maintenance_window (some (window ∷ [])) "instance" now ≡ some (some "window")
unfolding find_active_maintenance_window contains_instance
maintained = refl

evaluate_rule-marked_example :
    pick marked (evaluate_rule whole conversions [] database scheduled now).0
    ≡ record {
      rule_id = target.rule_id;
      instance_id = target.instance_id;
      metric_dimension_key = scheduled.metric_dimension_key;
      last_evaluated_at = now;
    }
      ∷ []
evaluate_rule-marked_example =
    evaluate_rule-marked whole conversions [] database scheduled target now refl run-ok

evaluate_rule-enqueued_example :
    pick enqueued (evaluate_rule whole conversions [] database scheduled now).0
    ≡ pick announced (evaluate_rule whole conversions [] database scheduled now).0
unfolding snapshot_from_evaluation_target
evaluate_rule-enqueued_example =
    evaluate_rule-enqueued whole conversions [] database scheduled target now refl (omega arith)
      (omega arith) (initial-Inv 1 1) run-ok

evaluate_rule-deleted_example :
    pick deleted (evaluate_rule whole conversions [] database scheduled now).0
    ≡ discarded whole conversions [] database true
        (pick enqueued (evaluate_rule whole conversions [] database scheduled now).0)
evaluate_rule-deleted_example =
    evaluate_rule-deleted whole conversions [] database scheduled target now (some "window") refl
      maintained run-ok
