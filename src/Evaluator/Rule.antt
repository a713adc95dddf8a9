-- ===== src/Evaluator/Rule.antt =====
-- `evaluateRule` of internal/evaluator/service.go: the statements of one evaluation of a rule on an
-- instance, in order.
use dbs_monitor.Prelude.{
  ℕ, String, Bool, true, false, not, ◌&&◌, Option, none, some, List, [], ◌∷◌, if◌then◌else◌, str_eq,
  Float64,
}
use dbs_monitor.Alerting.State.{
  is_recovered, Snapshot, Evaluation, missing, missing_ignored, breaching,
}
use dbs_monitor.Alerting.Events.{
  EventKind, fired, updated, recovered, performance_event_type_for_metric, state_events,
}
use dbs_monitor.Alerting.TriggerSnapshot.{trigger_snapshot_scope_for_metric}
use dbs_monitor.Metric.Catalog.{Metric}
use dbs_monitor.Notify.Message.{EventType, firing, recovery, AlertPayload}
use dbs_monitor.Notify.Maintenance.{find_active_maintenance_window}
use dbs_monitor.Evaluator.{starts_firing_lifecycle}
use dbs_monitor.Evaluator.Run.{
  Run, Effect, AlertEvent, mark_alert_rule_evaluated, reset_ignored_missing_alert,
  recover_alert_snapshot, save_alert_snapshot, create_trigger_snapshot, create_performance_event,
  create_alert_event, enqueue_alert_notifications, delete_pending_notification,
  record_maintenance_suppressed, read_target, match_maintenance, pure, or_fail, returning, exec,
  ◌>>=◌, ◌>>◌, for_each,
}
use dbs_monitor.Evaluator.Target.{
  Target, is_valid, snapshot_from_evaluation_target, structurally_not_applicable,
}
use dbs_monitor.Evaluator.Reading.{MetricEvaluation, Conversions, evaluate_metric}
use dbs_monitor.Evaluator.Columns.{
  ScheduledTarget, Database, Context, next_snapshot, checkpoint, counter_reset, recovered_columns,
  saved_columns, unavailability,
}

abbrev pub is_missing : Evaluation → Bool
is_missing missing = true
is_missing _ = false

abbrev pub is_breaching : Evaluation → Bool
is_breaching breaching = true
is_breaching _ = false

abbrev pub is_updated : EventKind → Bool
is_updated updated = true
is_updated _ = false

abbrev pub is_nonempty : {A : Type 0} → List A → Bool
is_nonempty [] = false
is_nonempty (x ∷ xs) = true

-- The switch over the kind of an event.
abbrev pub notification_event_type : EventKind → Option EventType
notification_event_type fired = some firing
notification_event_type recovered = some recovery
notification_event_type _ = none

abbrev pub template_id : EventType → String
template_id recovery = "builtin.notification.recovery.v1"
template_id _ = "builtin.notification.firing.v1"

-- Only the event of a firing names the trigger snapshot.
abbrev pub event_snapshot : EventKind → Option String → Option String
event_snapshot fired snapshot_id = snapshot_id
event_snapshot _ snapshot_id = none

module _ (f : Float64) (conversions : Conversions f.F) (metrics : List Metric)
    (db : Database f) where
  open f use {F}

  abbrev pub perform : Effect F → Run F Unit
  perform effect = exec db.executed effect

  abbrev value_or_zero : Option F → F
  value_or_zero none = f.of_ℕ 0
  value_or_zero (some value) = value

  unfoldable pub alert_payload : Context F → MetricEvaluation F → String → AlertPayload
  alert_payload c result alert_id = record {
    alert_instance_id = alert_id;
    rule_name = c.scheduled.rule_name;
    instance_name = c.scheduled.instance_name;
    metric_id = c.target.metric_id;
    severity = c.target.severity;
    current_value = conversions.sprint (value_or_zero result.current_value);
  }

  unfoldable pub alert_event :
      Context F
      → MetricEvaluation F
      → Snapshot
      → Snapshot
      → String
      → Option String
      → EventKind
      → AlertEvent F
  unfolding unavailability
  alert_event c result current next alert_id snapshot_id kind = record {
    alert_instance_id = alert_id;
    rule_id = c.target.rule_id;
    rule_version = c.target.version;
    kind = kind;
    from_state = current.state;
    to_state = next.state;
    current_value = result.current_value;
    unavailability = unavailability result next;
    rule_snapshot = c.target.rule_snapshot;
    evaluated_at = c.now;
    trigger_snapshot_id = event_snapshot kind snapshot_id;
    in_maintenance = c.in_maintenance;
    maintenance_window_id = c.maintenance_window_id;
  }

  -- The branch `inMaintenance && len(notificationIDs) > 0`.
  unfoldable pub suppress : Context F → String → List String → Run F Unit
  suppress c alert_id ids =
      if c.in_maintenance && is_nonempty ids
      then for_each ids (λ id. perform (delete_pending_notification id))
        >> perform (record_maintenance_suppressed alert_id c.maintenance_window_id c.now)
      else pure tt

  unfoldable pub notify : Context F → MetricEvaluation F → String → EventType → Run F Unit
  unfolding alert_payload suppress
  notify c result alert_id event_type = do
    ids ←
        returning
          (enqueue_alert_notifications (record {
            alert_instance_id = alert_id;
            event_type = event_type;
            template_id = template_id event_type;
            payload = alert_payload c result alert_id;
            next_attempt_at = c.now;
          }))
          (db.notification_ids event_type)
    suppress c alert_id ids

  unfoldable pub notify_of : Context F → MetricEvaluation F → String → EventKind → Run F Unit
  unfolding notify
  notify_of c result alert_id kind = elim (notification_event_type kind) [
    | none ↦ pure tt
    | some event_type ↦ notify c result alert_id event_type
  ]

  -- The body of the loop over the events.
  unfoldable pub emit :
      Context F
      → MetricEvaluation F
      → Snapshot
      → Snapshot
      → String
      → Option String
      → EventKind
      → Run F Unit
  unfolding alert_event notify_of
  emit c result current next alert_id snapshot_id kind =
      if is_updated kind && not (is_valid result.current_value)
      then pure tt
      else perform
          (create_alert_event (alert_event c result current next alert_id snapshot_id kind))
        >> notify_of c result alert_id kind

  unfoldable pub save : Context F → MetricEvaluation F → Snapshot → Snapshot → Run F String
  unfolding recovered_columns saved_columns
  save c result current next =
      if is_recovered next.state
      then returning
          (recover_alert_snapshot (recovered_columns c result.current_value current next))
          db.alert_instance_id
      else returning (save_alert_snapshot (saved_columns c result current next))
          db.alert_instance_id

  -- The trigger snapshot of an alert that begins to fire.
  unfoldable pub capture : Context F → Bool → String → Run F (Option String)
  capture c starts alert_id = elim (trigger_snapshot_scope_for_metric c.target.metric_id) [
    | none ↦ pure none
    | some scope ↦
        if starts
        then returning (create_trigger_snapshot alert_id c.now scope) db.trigger_snapshot_id
          >>= (λ id. pure (some id))
        else pure none
  ]

  unfoldable pub derive : Context F → Bool → String → Run F Unit
  derive c starts alert_id = elim (performance_event_type_for_metric c.target.metric_id) [
    | none ↦ pure tt
    | some event_type ↦
        if starts then perform (create_performance_event alert_id event_type c.now) else pure tt
  ]

  -- From the step of the state to the checkpoint.
  unfoldable pub take_step : Context F → MetricEvaluation F → Snapshot → Run F Unit
  unfolding next_snapshot starts_firing_lifecycle save capture derive emit checkpoint
  take_step c result current = do
    let next = next_snapshot c.target current result.outcome
    let starts = starts_firing_lifecycle current next
    alert_id ← save c result current next
    snapshot_id ← capture c starts alert_id
    derive c starts alert_id
    for_each (state_events current.state next.state)
        (emit c result current next alert_id snapshot_id)
    perform (mark_alert_rule_evaluated (checkpoint c))

  -- Missing data of a rule that ignores it.
  unfoldable pub ignore : Context F → Snapshot → Run F Unit
  unfolding next_snapshot counter_reset checkpoint
  ignore c current =
      let reset =
        if is_valid c.target.alert_instance_id && not (is_recovered current.state)
        then perform (
            reset_ignored_missing_alert
              (counter_reset c (next_snapshot c.target current missing_ignored)))
        else pure tt in
      reset >> perform (mark_alert_rule_evaluated (checkpoint c))

  unfoldable pub act_on : Context F → MetricEvaluation F → Snapshot → Run F Unit
  unfolding take_step ignore checkpoint
  act_on c result current =
      if is_missing result.outcome && str_eq c.target.no_data_policy "ignore"
      then ignore c current
      else if is_recovered current.state && not (is_breaching result.outcome)
      then perform (mark_alert_rule_evaluated (checkpoint c))
      else take_step c result current

  abbrev pub context : ScheduledTarget → Target F → ℕ → Option String → Context F
  context scheduled target now window = record {
    scheduled = scheduled;
    target = target;
    now = now;
    in_maintenance = is_valid window;
    maintenance_window_id = window;
  }

  unfoldable pub evaluate_target : ScheduledTarget → Target F → ℕ → Run F Unit
  unfolding evaluate_metric find_active_maintenance_window act_on
  evaluate_target scheduled target now = do
    result ← evaluate_metric f conversions metrics db.readings target now
    window ←
        or_fail match_maintenance
          (find_active_maintenance_window db.maintenance_windows target.instance_id now)
    act_on (context scheduled target now window) result (snapshot_from_evaluation_target target)

  unfoldable pub evaluate_found : ScheduledTarget → ℕ → Target F → Run F Unit
  unfolding structurally_not_applicable evaluate_target checkpoint
  evaluate_found scheduled now target =
      if structurally_not_applicable metrics target.metric_id target.last_error_code
        target.agent_metrics_enabled target.agent_expected
      then perform (mark_alert_rule_evaluated (checkpoint (context scheduled target now none)))
      else evaluate_target scheduled target now

  unfoldable pub evaluate_rule : ScheduledTarget → ℕ → Run F Unit
  unfolding evaluate_found
  evaluate_rule scheduled now = or_fail read_target db.target >>= evaluate_found scheduled now
