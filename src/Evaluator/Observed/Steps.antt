-- ===== src/Evaluator/Observed/Steps.antt =====
-- What a step and a whole evaluation in internal/evaluator/service.go are seen to do.
use dbs_monitor.Prelude.{
  append_assoc, ◌≡◌, sym, String, Bool, not, ◌&&◌, Option, none, some, List, [], ◌++◌,
  if◌then◌else◌, str_eq, Bool-cases, Option-cases, inl, inr, Float64,
}
use dbs_monitor.Alerting.State.{Snapshot, is_recovered, missing_ignored}
use dbs_monitor.Alerting.Events.{EventKind, state_events, performance_event_type_for_metric}
use dbs_monitor.Alerting.TriggerSnapshot.{trigger_snapshot_scope_for_metric}
use dbs_monitor.Metric.Catalog.{Metric}
use dbs_monitor.Evaluator.{starts_firing_lifecycle}
use dbs_monitor.Evaluator.Run.{
  Run, RecoveredColumns, SavedColumns, Effect, reset_ignored_missing_alert, save_alert_snapshot,
  recover_alert_snapshot, create_trigger_snapshot, create_performance_event,
  mark_alert_rule_evaluated, returning, for_each, pure, ◌>>=◌, ◌>>◌,
}
use dbs_monitor.Evaluator.Target.{is_valid}
use dbs_monitor.Evaluator.Reading.{MetricEvaluation, Conversions}
use dbs_monitor.Evaluator.Columns.{
  Database, Context, next_snapshot, recovered_columns, saved_columns, checkpoint, counter_reset,
}
use dbs_monitor.Evaluator.Rule.{
  emit, perform, save, capture, derive, take_step, ignore, act_on, is_missing, is_breaching,
}
use dbs_monitor.Evaluator.Effects.{
  show_as, pick, Shows, pure-Shows, returning-Shows, exec-Shows, bind-Shows, choose-Shows,
  optional-Shows, for_each-Shows,
}
use dbs_monitor.Evaluator.Observed.{View, shown_kind, exec-Shows_as, emit-Shows}

module _ (f : Float64) (conversions : Conversions f.F) (metrics : List Metric) (db : Database f)
    {B : Type 0} (read : Effect f.F → List B) (view : View read) where
  open f use {F}

  capture-Shows :
      (c : Context F) (starts : Bool) (alert_id : String)
      → Shows read (capture f conversions metrics db c starts alert_id) []
  unfolding capture
  capture-Shows c starts alert_id =
      elim (Option-cases (trigger_snapshot_scope_for_metric c.target.metric_id)) [
        | inl out_of_scope ↦ rw (out_of_scope, capture) (pure-Shows read {A = Option String} none)
        | inr (scope, in_scope) ↦ elim (Bool-cases starts) [
          | inl begins ↦
              rw (in_scope, begins, capture)
                (bind-Shows read
                  (returning (create_trigger_snapshot alert_id c.now scope) db.trigger_snapshot_id)
                  (λ id. pure (some id)) [] []
                  (show_as read
                    (returning (create_trigger_snapshot alert_id c.now scope)
                      db.trigger_snapshot_id)
                    (view.at_snapshot alert_id c.now scope)
                    (returning-Shows read (create_trigger_snapshot alert_id c.now scope)
                      db.trigger_snapshot_id))
                  (λ id _. pure-Shows read (some id)))
          | inr goes_on ↦ rw (in_scope, goes_on, capture) (pure-Shows read {A = Option String} none)
        ]
      ]

  derive-Shows :
      (c : Context F) (starts : Bool) (alert_id : String)
      → Shows read (derive f conversions metrics db c starts alert_id) []
  unfolding derive
  derive-Shows c starts alert_id =
      elim (Option-cases (performance_event_type_for_metric c.target.metric_id)) [
        | inl underivable ↦ rw (underivable, derive) (pure-Shows read tt)
        | inr (event_type, derived) ↦ elim (Bool-cases starts) [
          | inl begins ↦
              rw (derived, begins, derive)
                (exec-Shows_as f conversions metrics db read view
                  (create_performance_event alert_id event_type c.now)
                  (view.at_performance alert_id event_type c.now))
          | inr goes_on ↦ rw (derived, goes_on, derive) (pure-Shows read tt)
        ]
      ]

  -- The statement that keeps the new state of the alert.
  unfoldable pub saving : Context F → MetricEvaluation F → Snapshot → Snapshot → Effect F
  saving c result current next =
      if is_recovered next.state
      then recover_alert_snapshot (recovered_columns c result.current_value current next)
      else save_alert_snapshot (saved_columns c result current next)

  save-Shows :
      (c : Context F) (result : MetricEvaluation F) (current next : Snapshot)
      → Shows read
          (save f conversions metrics db c result current next)
          (read (saving c result current next))
  unfolding save saving
  save-Shows c result current next =
      let recovering =
        recover_alert_snapshot (recovered_columns c result.current_value current next) in
      let going_on = save_alert_snapshot (saved_columns c result current next) in
      choose-Shows read (is_recovered next.state) recovering going_on db.alert_instance_id

  -- A step is seen as the new state of the alert, the notifications of its events, and the checkpoint.
  pub take_step-Shows :
      (c : Context F) (result : MetricEvaluation F) (current : Snapshot)
      → Shows read (take_step f conversions metrics db c result current) (
          read (saving c result current (next_snapshot c.target current result.outcome))
          ++ (pick
                (shown_kind f conversions metrics db read view c.in_maintenance)
                (state_events current.state (next_snapshot c.target current result.outcome).state)
              ++ read (mark_alert_rule_evaluated (checkpoint c))))
  unfolding take_step
  take_step-Shows c result current =
      let next = next_snapshot c.target current result.outcome in
      let starts = starts_firing_lifecycle current next in
      let marks = read (mark_alert_rule_evaluated (checkpoint c)) in
      let kinds = state_events current.state next.state in
      let events = pick (shown_kind f conversions metrics db read view c.in_maintenance) kinds in
      let mark = perform f conversions metrics db (mark_alert_rule_evaluated (checkpoint c)) in
      let body : String → Option String → EventKind → Run F Unit =
        emit f conversions metrics db c result current next in
      let told : String → Option String → Run F Unit =
        λ alert_id snapshot_id. for_each kinds (body alert_id snapshot_id) >> mark in
      let derived : String → Option String → Run F Unit = λ alert_id snapshot_id.
        derive f conversions metrics db c starts alert_id >> told alert_id snapshot_id in
      bind-Shows read (save f conversions metrics db c result current next)
        (λ alert_id. capture f conversions metrics db c starts alert_id >>= derived alert_id)
        (read (saving c result current next)) (events ++ marks) (save-Shows c result current next)
        (λ alert_id _.
          bind-Shows read (capture f conversions metrics db c starts alert_id) (derived alert_id) []
            (events ++ marks) (capture-Shows c starts alert_id)
            (λ snapshot_id _.
              bind-Shows read (derive f conversions metrics db c starts alert_id)
                (λ _. told alert_id snapshot_id) [] (events ++ marks)
                (derive-Shows c starts alert_id)
                (λ _ _.
                  bind-Shows read (for_each kinds (body alert_id snapshot_id)) (λ _. mark) events
                    marks
                    (for_each-Shows read kinds (body alert_id snapshot_id)
                      (shown_kind f conversions metrics db read view c.in_maintenance)
                      (emit-Shows f conversions metrics db read view c result current next alert_id
                        snapshot_id))
                    (λ _ _.
                      exec-Shows read db.executed (mark_alert_rule_evaluated (checkpoint c))))))

  ignore-Shows :
      (c : Context F) (current : Snapshot)
      → Shows read
          (ignore f conversions metrics db c current)
          (read (mark_alert_rule_evaluated (checkpoint c)))
  unfolding ignore
  ignore-Shows c current =
      let reset =
        reset_ignored_missing_alert
          (counter_reset c (next_snapshot c.target current missing_ignored)) in
      let mark = perform f conversions metrics db (mark_alert_rule_evaluated (checkpoint c)) in
      let resets = is_valid c.target.alert_instance_id && not (is_recovered current.state) in
      bind-Shows read (if resets then perform f conversions metrics db reset else pure tt)
        (λ _. mark) [] (read (mark_alert_rule_evaluated (checkpoint c)))
        (optional-Shows read resets (perform f conversions metrics db reset) (
          exec-Shows_as f conversions metrics db read view reset
            (view.at_reset (counter_reset c (next_snapshot c.target current missing_ignored)))))
        (λ _ _. exec-Shows read db.executed (mark_alert_rule_evaluated (checkpoint c)))

  -- What a step is seen to do before the checkpoint.
  unfoldable pub shown_step : Context F → MetricEvaluation F → Snapshot → List B
  unfolding saving shown_kind
  shown_step c result current =
      let next = next_snapshot c.target current result.outcome in
      read (saving c result current next)
      ++ pick (shown_kind f conversions metrics db read view c.in_maintenance)
          (state_events current.state next.state)

  -- Whether an evaluation takes a step.
  abbrev pub steps : Context F → MetricEvaluation F → Snapshot → Bool
  steps c result current =
      not (is_missing result.outcome && str_eq c.target.no_data_policy "ignore")
      && not (is_recovered current.state && not (is_breaching result.outcome))

  -- An evaluation is seen as its step, if it takes one, and the checkpoint.
  pub act_on-Shows :
      (c : Context F) (result : MetricEvaluation F) (current : Snapshot)
      → Shows read (act_on f conversions metrics db c result current) (
          (if steps c result current then shown_step c result current else [])
          ++ read (mark_alert_rule_evaluated (checkpoint c)))
  unfolding act_on shown_step
  act_on-Shows c result current =
      elim (Bool-cases (is_missing result.outcome && str_eq c.target.no_data_policy "ignore")) [
        | inl ignored ↦ rw (ignored, act_on) (ignore-Shows c current)
        | inr read_out ↦
            elim (Bool-cases (is_recovered current.state && not (is_breaching result.outcome))) [
              | inl over ↦
                  rw (read_out, over, act_on)
                    (exec-Shows read db.executed (mark_alert_rule_evaluated (checkpoint c)))
              | inr steps_on ↦
                  let next = next_snapshot c.target current result.outcome in
                  rw (read_out, steps_on, act_on)
                    (show_as read (take_step f conversions metrics db c result current)
                      (sym (
                        append_assoc (read (saving c result current next))
                          (pick (shown_kind f conversions metrics db read view c.in_maintenance)
                            (state_events current.state next.state))
                          (read (mark_alert_rule_evaluated (checkpoint c)))))
                      (take_step-Shows c result current))
            ]
      ]

  pub saving-nothing :
      (c : Context F) (result : MetricEvaluation F) (current next : Snapshot)
      → ((columns : RecoveredColumns F) → read (recover_alert_snapshot columns) ≡ [])
      → ((columns : SavedColumns F) → read (save_alert_snapshot columns) ≡ [])
      → read (saving c result current next) ≡ []
  unfolding saving
  saving-nothing c result current next recover_nothing save_nothing =
      elim (Bool-cases (is_recovered next.state)) [
        | inl over ↦
            rw (over, saving)
              (recover_nothing (recovered_columns c result.current_value current next))
        | inr goes_on ↦ rw (goes_on, saving) (save_nothing (saved_columns c result current next))
      ]
