-- ===== src/Evaluator/Announced.antt =====
-- The notifications of an evaluation in internal/evaluator/service.go, against the columns it writes.
use dbs_monitor.Prelude.{
  append_nil, ℕ, ◌<◌, ◌≡◌, refl, sym, ◌∙◌, Bool, true, false, none, some, List, [], ◌∷◌,
  if◌then◌else◌, arith, Bool-cases, Option-cases, inl, inr, Float64,
}
use dbs_monitor.Alerting.State.{
  State, Snapshot, Evaluation, is_recovered, is_firing, step, step_collection,
}
use dbs_monitor.Alerting.State.Invariant.{Inv}
use dbs_monitor.Alerting.Events.{EventKind, state_events}
use dbs_monitor.Notify.Message.{EventType, firing, recovery}
use dbs_monitor.Metric.Catalog.{Metric}
use dbs_monitor.Evaluator.{starts_firing_lifecycle, sets_recovered_at}
use dbs_monitor.Evaluator.Reading.{MetricEvaluation, Conversions}
use dbs_monitor.Evaluator.Columns.{
  Database, Context, next_snapshot, recovered_columns, saved_columns, recovered_at, stepped,
}
use dbs_monitor.Evaluator.Rule.{notification_event_type}
use dbs_monitor.Evaluator.Views.{enqueued, announced, enqueued_view, announced_view}
use dbs_monitor.Evaluator.Observed.{
  shown_kind, shown_notice, shown_kind-nothing, discards_nothing, ids_of,
}
use dbs_monitor.Evaluator.Observed.Steps.{shown_step, saving, saving-nothing}
use dbs_monitor.Evaluator.Effects.{pick, pick-cong, pick-nothing}

abbrev notices : EventKind → List EventType
notices kind = elim (notification_event_type kind) [ none ↦ [] | some e ↦ e ∷ [] ]

abbrev noticed_if : Bool → Bool → List EventType
noticed_if starts recovers = if starts then firing ∷ [] else if recovers then recovery ∷ [] else []

not_firing : (s : State) → is_recovered s ≡ true → is_firing s ≡ false
not_firing s h = ground arith

notices-columns :
    (t r : ℕ) (s : Snapshot) (e : Evaluation)
    → 0 < t
    → 0 < r
    → Inv t r s
    → pick notices (state_events s.state (step s e t r).state) ≡ (
        if starts_firing_lifecycle s (step s e t r)
        then firing ∷ []
        else if sets_recovered_at s (step s e t r)
        then recovery ∷ []
        else [])
unfolding pick state_events starts_firing_lifecycle sets_recovered_at step
notices-columns t r s e ht hr i = ground arith

module _ (f : Float64) (conversions : Conversions f.F) (metrics : List Metric)
    (db : Database f) where
  open f use {F}

  saving-enqueued :
      (c : Context F) (result : MetricEvaluation F) (current next : Snapshot)
      → enqueued (saving f conversions metrics db enqueued enqueued_view c result current next) ≡ []
  unfolding enqueued
  saving-enqueued c result current next =
      saving-nothing f conversions metrics db enqueued enqueued_view c result current next
        (λ _. refl) (λ _. refl)

  saving-announced :
      (c : Context F) (result : MetricEvaluation F) (current next : Snapshot)
      → announced (saving f conversions metrics db announced announced_view c result current next)
        ≡ (if starts_firing_lifecycle current next
            then firing ∷ []
            else if sets_recovered_at current next
            then recovery ∷ []
            else [])
  unfolding saving announced saved_columns recovered_columns recovered_at starts_firing_lifecycle
      sets_recovered_at
  saving-announced c result current next = elim (Bool-cases (is_recovered next.state)) [
    | inl over ↦ rw over (ground (arith, not_firing next.state over))
    | inr goes_on ↦ rw goes_on (ground arith)
  ]

  shown_kind-enqueued :
      (m : Bool) (kind : EventKind)
      → shown_kind f conversions metrics db enqueued enqueued_view m kind ≡ notices kind
  unfolding shown_kind shown_notice enqueued_view
  shown_kind-enqueued m kind = elim (Option-cases (notification_event_type kind)) [
    | inl quiet ↦ rw (quiet, shown_kind, notices) refl
    | inr (e, loud) ↦
        rw
          (
            loud,
            shown_kind,
            shown_notice,
            notices,
            discards_nothing f conversions metrics db enqueued enqueued_view m
                (ids_of (db.notification_ids e)) (λ _. refl),
          )
          refl
  ]

  shown_kind-announced :
      (m : Bool) (kind : EventKind)
      → shown_kind f conversions metrics db announced announced_view m kind ≡ []
  unfolding announced_view
  shown_kind-announced m kind =
      shown_kind-nothing f conversions metrics db announced announced_view m kind (λ _. refl)
        (λ _. refl)

  -- What is enqueued at a step is what the columns of the step announce.
  pub shown_step-enqueued :
      (c : Context F) (result : MetricEvaluation F) (current : Snapshot)
      → 0 < c.target.consecutive_count
      → 0 < c.target.recovery_consecutive_count
      → Inv c.target.consecutive_count c.target.recovery_consecutive_count current
      → shown_step f conversions metrics db enqueued enqueued_view c result current
        ≡ shown_step f conversions metrics db announced announced_view c result current
  unfolding shown_step next_snapshot stepped step_collection
  shown_step-enqueued c result current ht hr i =
      let next = next_snapshot c.target current result.outcome in
      let kinds = state_events current.state next.state in
      rw
        (
          saving-enqueued c result current next,
          saving-announced c result current next,
          pick-cong (shown_kind f conversions metrics db enqueued enqueued_view c.in_maintenance)
              notices kinds (shown_kind-enqueued c.in_maintenance),
          pick-nothing
              (shown_kind f conversions metrics db announced announced_view c.in_maintenance) kinds
              (shown_kind-announced c.in_maintenance),
        )
        (notices-columns c.target.consecutive_count c.target.recovery_consecutive_count current
            result.outcome ht hr i
          ∙ sym (
              append_nil (
                noticed_if (starts_firing_lifecycle current next)
                  (sets_recovered_at current next))))
