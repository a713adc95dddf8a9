-- ===== src/Evaluator/Discarded.antt =====
-- The notifications that internal/evaluator/service.go discards, against those that it enqueues.
use dbs_monitor.Prelude.{
  append_nil, ◌≡◌, refl, sym, ap, ◌∙◌, String, Bool, true, false, List, [], ◌∷◌, ◌++◌, Option-cases,
  inl, inr, Float64, if◌then◌else◌,
}
use dbs_monitor.Alerting.State.{Snapshot}
use dbs_monitor.Alerting.Events.{EventKind, state_events}
use dbs_monitor.Metric.Catalog.{Metric}
use dbs_monitor.Notify.Message.{EventType}
use dbs_monitor.Evaluator.Reading.{MetricEvaluation, Conversions}
use dbs_monitor.Evaluator.Columns.{Database, Context, next_snapshot}
use dbs_monitor.Evaluator.Rule.{act_on, notification_event_type}
use dbs_monitor.Evaluator.Effects.{is_ok, pick, pick-append, pick-nothing}
use dbs_monitor.Evaluator.Views.{enqueued, deleted, enqueued_view, deleted_view, nothing}
use dbs_monitor.Evaluator.Observed.{shown_kind, shown_notice, ids_of}
use dbs_monitor.Evaluator.Observed.Steps.{act_on-Shows, shown_step, saving-nothing, steps}

pick-each : (l : List String) → pick (λ id. id ∷ []) l ≡ l
unfolding pick
pick-each [] = refl
pick-each (x ∷ l) = ap (λ m. x ∷ m) (pick-each l)

module _ (f : Float64) (conversions : Conversions f.F) (metrics : List Metric)
    (db : Database f) where
  open f use {F}

  -- What is deleted of the notifications of some event types.
  abbrev pub discarded : Bool → List EventType → List String
  discarded m types = if m then pick (λ e. ids_of (db.notification_ids e)) types else []

  discarded-append :
      (m : Bool) (xs ys : List EventType)
      → discarded m (xs ++ ys) ≡ discarded m xs ++ discarded m ys
  discarded-append true xs ys = pick-append (λ e. ids_of (db.notification_ids e)) xs ys
  discarded-append false xs ys = refl

  shown_notice-deleted :
      (m : Bool) (e : EventType)
      → shown_notice f conversions metrics db deleted deleted_view m e
        ≡ discarded m (shown_notice f conversions metrics db enqueued enqueued_view m e)
  unfolding shown_notice deleted_view enqueued_view pick
  shown_notice-deleted true e =
      rw
        (
          pick-each (ids_of (db.notification_ids e)),
          pick-nothing (nothing {B = EventType}) (ids_of (db.notification_ids e)) (λ _. refl),
        )
        (sym (append_nil (ids_of (db.notification_ids e))))
  shown_notice-deleted false e = refl

  pub discarded-nothing : (m : Bool) → discarded m [] ≡ []
  unfolding pick
  discarded-nothing true = refl
  discarded-nothing false = refl

  shown_kind-deleted :
      (m : Bool) (kind : EventKind)
      → shown_kind f conversions metrics db deleted deleted_view m kind
        ≡ discarded m (shown_kind f conversions metrics db enqueued enqueued_view m kind)
  unfolding shown_kind
  shown_kind-deleted m kind = elim (Option-cases (notification_event_type kind)) [
    | inl quiet ↦ rw (quiet, shown_kind) (sym (discarded-nothing m))
    | inr (e, loud) ↦ rw (loud, shown_kind) (shown_notice-deleted m e)
  ]

  shown_kinds-deleted :
      (m : Bool) (kinds : List EventKind)
      → pick (shown_kind f conversions metrics db deleted deleted_view m) kinds
        ≡ discarded m (pick (shown_kind f conversions metrics db enqueued enqueued_view m) kinds)
  unfolding pick
  shown_kinds-deleted m [] = sym (discarded-nothing m)
  shown_kinds-deleted m (kind ∷ kinds) =
      let noticed = shown_kind f conversions metrics db enqueued enqueued_view m in
      rw (shown_kind-deleted m kind, shown_kinds-deleted m kinds)
        (sym (discarded-append m (noticed kind) (pick noticed kinds)))

  shown_step-deleted :
      (c : Context F) (result : MetricEvaluation F) (current : Snapshot)
      → shown_step f conversions metrics db deleted deleted_view c result current
        ≡ discarded c.in_maintenance
            (shown_step f conversions metrics db enqueued enqueued_view c result current)
  unfolding shown_step deleted enqueued
  shown_step-deleted c result current =
      let next = next_snapshot c.target current result.outcome in
      rw
        (
          saving-nothing f conversions metrics db deleted deleted_view c result current next
              (λ _. refl) (λ _. refl),
          saving-nothing f conversions metrics db enqueued enqueued_view c result current next
              (λ _. refl) (λ _. refl),
        )
        (shown_kinds-deleted c.in_maintenance (state_events current.state next.state))

  discarded_if :
      (b m : Bool) (dropped : List String) (types : List EventType)
      → dropped ≡ discarded m types
      → (if b then dropped else []) ++ [] ≡ discarded m ((if b then types else []) ++ [])
  discarded_if true m dropped types h = rw (append_nil dropped, append_nil types) h
  discarded_if false m dropped types h = sym (discarded-nothing m)

  pub act_on-deleted :
      (c : Context F) (result : MetricEvaluation F) (current : Snapshot)
      → is_ok (act_on f conversions metrics db c result current).1 ≡ true
      → pick deleted (act_on f conversions metrics db c result current).0
        ≡ discarded c.in_maintenance
            (pick enqueued (act_on f conversions metrics db c result current).0)
  unfolding deleted enqueued
  act_on-deleted c result current o =
      act_on-Shows f conversions metrics db deleted deleted_view c result current o
      ∙ discarded_if (steps f conversions metrics db deleted deleted_view c result current)
          c.in_maintenance
          (shown_step f conversions metrics db deleted deleted_view c result current)
          (shown_step f conversions metrics db enqueued enqueued_view c result current)
          (shown_step-deleted c result current)
      ∙ ap (discarded c.in_maintenance)
          (sym (act_on-Shows f conversions metrics db enqueued enqueued_view c result current o))
