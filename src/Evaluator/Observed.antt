-- ===== src/Evaluator/Observed.antt =====
-- What the parts of `evaluateRule` in internal/evaluator/service.go are seen to do, by an observer that
-- looks at the state of the alert, the notifications and the checkpoint only.
pub mod Steps
use dbs_monitor.Prelude.{
  append_nil, append_assoc, ℕ, ◌≡◌, refl, sym, ap, ◌∙◌, String, Bool, true, false, not, ◌&&◌,
  Option, none, some, List, [], ◌∷◌, ◌++◌, if◌then◌else◌, arith, str_eq, Bool-cases, Option-cases,
  inl, inr, Float64,
}
use dbs_monitor.Alerting.State.{Snapshot, is_recovered, missing_ignored}
use dbs_monitor.Alerting.Events.{
  EventKind, pending_started, fired, updated, recovered, no_data_entered, no_data_exited, frozen,
  unfrozen, PerformanceEventType, state_events, performance_event_type_for_metric,
}
use dbs_monitor.Alerting.TriggerSnapshot.{TriggerSnapshotScope, trigger_snapshot_scope_for_metric}
use dbs_monitor.Notify.Message.{EventType}
use dbs_monitor.Metric.Catalog.{Metric}
use dbs_monitor.Evaluator.{starts_firing_lifecycle}
use dbs_monitor.Evaluator.Run.{
  Run, Effect, Enqueued, CounterReset, reset_ignored_missing_alert, AlertEvent, ok,
  save_alert_snapshot, recover_alert_snapshot, enqueue_alert_notifications,
  delete_pending_notification, record_maintenance_suppressed, create_alert_event,
  create_trigger_snapshot, create_performance_event, mark_alert_rule_evaluated, returning, exec,
  for_each, pure, ◌>>=◌, ◌>>◌,
}
use dbs_monitor.Evaluator.Target.{is_valid}
use dbs_monitor.Evaluator.Reading.{MetricEvaluation, Conversions}
use dbs_monitor.Evaluator.Columns.{
  Database, Context, next_snapshot, recovered_columns, saved_columns, checkpoint, counter_reset,
}
use dbs_monitor.Evaluator.Rule.{
  notification_event_type, suppress, notify, notify_of, emit, perform, save, capture, derive,
  take_step, ignore, act_on, is_missing, is_breaching, is_nonempty, is_updated, alert_event,
  alert_payload, template_id,
}
use dbs_monitor.Evaluator.Effects.{
  is_ok, show_as, pick, pick-nothing, Shows, pure-Shows, returning-Shows, exec-Shows, bind-Shows,
  choose-Shows, optional-Shows, for_each-Shows,
}

-- What an observer sees of the statements. It sees nothing of the others.
pub record View {F B : Type 0} (read : Effect F → List B) : Type 0 where
  pub noticed : EventType → List B
  pub dropped : String → List B
  pub at_enqueue : (e : Enqueued) → read (enqueue_alert_notifications e) ≡ noticed e.event_type
  pub at_delete : (id : String) → read (delete_pending_notification id) ≡ dropped id
  pub at_reset : (r : CounterReset) → read (reset_ignored_missing_alert r) ≡ []
  pub at_event : (e : AlertEvent F) → read (create_alert_event e) ≡ []
  pub at_snapshot :
      (id : String) (t : ℕ) (s : TriggerSnapshotScope) → read (create_trigger_snapshot id t s) ≡ []
  pub at_performance :
      (id : String) (e : PerformanceEventType) (t : ℕ) → read (create_performance_event id e t) ≡ []
  pub at_suppressed :
      (id : String) (w : Option String) (t : ℕ) → read (record_maintenance_suppressed id w t) ≡ []

abbrev pub ids_of : Option (List String) → List String
ids_of none = []
ids_of (some ids) = ids

module _ (f : Float64) (conversions : Conversions f.F) (metrics : List Metric) (db : Database f)
    {B : Type 0} (read : Effect f.F → List B) (view : View read) where
  open f use {F}

  -- What a notification is seen to do: it is enqueued, and in maintenance discarded.
  unfoldable pub shown_notice : Bool → EventType → List B
  shown_notice in_maintenance e =
      view.noticed e
      ++ (if in_maintenance then pick view.dropped (ids_of (db.notification_ids e)) else [])

  unfoldable pub shown_kind : Bool → EventKind → List B
  unfolding shown_notice
  shown_kind in_maintenance kind = elim (notification_event_type kind) [
    | none ↦ []
    | some e ↦ shown_notice in_maintenance e
  ]

  pub exec-Shows_as :
      (effect : Effect F) {l : List B}
      → read effect ≡ l
      → Shows read (perform f conversions metrics db effect) l
  exec-Shows_as effect e =
      show_as read (exec db.executed effect) e (exec-Shows read db.executed effect)

  discard-Shows :
      (c : Context F) (alert_id : String) (ids : List String)
      → Shows read
          (for_each ids (λ id. perform f conversions metrics db (delete_pending_notification id))
            >> perform f conversions metrics db
                (record_maintenance_suppressed alert_id c.maintenance_window_id c.now))
          (pick view.dropped ids)
  discard-Shows c alert_id ids =
      let each : String → Run F Unit =
        λ id. perform f conversions metrics db (delete_pending_notification id) in
      let record_it =
        perform f conversions metrics db
          (record_maintenance_suppressed alert_id c.maintenance_window_id c.now) in
      show_as read (for_each ids each >> record_it) (append_nil (pick view.dropped ids)) (
        bind-Shows read (for_each ids each) (λ _. record_it) (pick view.dropped ids) []
          (for_each-Shows read ids each view.dropped
            (λ id. exec-Shows_as (delete_pending_notification id) (view.at_delete id)))
          (λ _ _.
            exec-Shows_as (record_maintenance_suppressed alert_id c.maintenance_window_id c.now)
              (view.at_suppressed alert_id c.maintenance_window_id c.now)))

  suppress-Shows :
      (c : Context F) (alert_id : String) (ids : List String)
      → Shows read
          (suppress f conversions metrics db c alert_id ids)
          (if c.in_maintenance then pick view.dropped ids else [])
  unfolding suppress pick
  suppress-Shows c alert_id [] = elim (Bool-cases c.in_maintenance) [
    | inl discard ↦ rw discard (pure-Shows read tt)
    | inr keep ↦ rw keep (pure-Shows read tt)
  ]
  suppress-Shows c alert_id (id ∷ ids) = elim (Bool-cases c.in_maintenance) [
    | inl discard ↦ rw discard (discard-Shows c alert_id (id ∷ ids))
    | inr keep ↦ rw keep (pure-Shows read tt)
  ]

  returned :
      {A : Type 0} (effect : Effect F) (o : Option A) (a : A)
      → (returning effect o).1 ≡ ok a
      → o ≡ some a
  returned effect none a h = absurd (ground arith)
  returned effect (some x) a h = ground arith

  notify-Shows :
      (c : Context F) (result : MetricEvaluation F) (alert_id : String) (e : EventType)
      → Shows read
          (notify f conversions metrics db c result alert_id e)
          (shown_notice c.in_maintenance e)
  unfolding notify shown_notice
  notify-Shows c result alert_id e =
      let request : Enqueued = record {
        alert_instance_id = alert_id;
        event_type = e;
        template_id = template_id e;
        payload = alert_payload f conversions metrics db c result alert_id;
        next_attempt_at = c.now;
      } in
      let enqueue = returning (enqueue_alert_notifications request) (db.notification_ids e) in
      bind-Shows read enqueue (suppress f conversions metrics db c alert_id) (view.noticed e)
        (if c.in_maintenance then pick view.dropped (ids_of (db.notification_ids e)) else [])
        (show_as read enqueue (view.at_enqueue request)
          (returning-Shows read (enqueue_alert_notifications request) (db.notification_ids e)))
        (λ ids answered.
          rw (returned (enqueue_alert_notifications request) (db.notification_ids e) ids answered)
            (suppress-Shows c alert_id ids))

  notify_of-Shows :
      (c : Context F) (result : MetricEvaluation F) (alert_id : String) (kind : EventKind)
      → Shows read
          (notify_of f conversions metrics db c result alert_id kind)
          (shown_kind c.in_maintenance kind)
  unfolding notify_of shown_kind
  notify_of-Shows c result alert_id kind = elim (Option-cases (notification_event_type kind)) [
    | inl quiet ↦ rw (quiet, notify_of, shown_kind) (pure-Shows read tt)
    | inr (e, loud) ↦ rw (loud, notify_of, shown_kind) (notify-Shows c result alert_id e)
  ]

  silent_update : (m : Bool) (kind : EventKind) → is_updated kind ≡ true → shown_kind m kind ≡ []
  unfolding shown_kind
  silent_update m kind h = ground arith

  pub emit-Shows :
      (c : Context F) (result : MetricEvaluation F) (current next : Snapshot) (alert_id : String)
      (snapshot_id : Option String) (kind : EventKind)
      → Shows read
          (emit f conversions metrics db c result current next alert_id snapshot_id kind)
          (shown_kind c.in_maintenance kind)
  unfolding emit
  emit-Shows c result current next alert_id snapshot_id kind =
      elim (Bool-cases (is_updated kind && not (is_valid result.current_value))) [
        | inl skipped ↦ rw skipped (
            show_as read (pure tt) (sym (silent_update c.in_maintenance kind (ground arith)))
              (pure-Shows read tt))
        | inr told ↦
            let event =
              alert_event f conversions metrics db c result current next alert_id snapshot_id
                kind in
            rw told (
              bind-Shows read (perform f conversions metrics db (create_alert_event event))
                (λ _. notify_of f conversions metrics db c result alert_id kind) []
                (shown_kind c.in_maintenance kind)
                (exec-Shows_as (create_alert_event event) (view.at_event event))
                (λ _ _. notify_of-Shows c result alert_id kind))
      ]

  pub discards_nothing :
      (m : Bool) (ids : List String)
      → ((id : String) → view.dropped id ≡ [])
      → (if m then pick view.dropped ids else []) ≡ []
  discards_nothing true ids h = pick-nothing view.dropped ids h
  discards_nothing false ids h = refl

  -- An observer that looks at no notification sees none.
  pub shown_kind-nothing :
      (m : Bool) (kind : EventKind)
      → ((e : EventType) → view.noticed e ≡ [])
      → ((id : String) → view.dropped id ≡ [])
      → shown_kind m kind ≡ []
  unfolding shown_kind shown_notice
  shown_kind-nothing m kind unnoticed undropped =
      elim (Option-cases (notification_event_type kind)) [
        | inl quiet ↦ rw (quiet, shown_kind) refl
        | inr (e, loud) ↦
            rw (loud, shown_kind, shown_notice, unnoticed e)
              (discards_nothing m (ids_of (db.notification_ids e)) undropped)
      ]
