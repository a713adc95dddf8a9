-- ===== src/Evaluator/Promises.antt =====
-- What every evaluation of a rule in internal/evaluator/service.go does, when it comes back with no
-- error.
use dbs_monitor.Prelude.{
  ℕ, ◌<◌, ◌≡◌, refl, sym, ap, ◌∙◌, String, Bool, true, false, Option, some, List, [], ◌∷◌, ◌++◌,
  arith, inl, inr, Float64, if◌then◌else◌,
}
use dbs_monitor.Alerting.State.{Snapshot}
use dbs_monitor.Alerting.State.Invariant.{Inv}
use dbs_monitor.Alerting.Events.{state_events}
use dbs_monitor.Metric.Catalog.{Metric}
use dbs_monitor.Notify.Maintenance.{find_active_maintenance_window}
use dbs_monitor.Evaluator.Target.{Target, is_valid, snapshot_from_evaluation_target}
use dbs_monitor.Evaluator.Reading.{MetricEvaluation, Conversions}
use dbs_monitor.Evaluator.Columns.{ScheduledTarget, Database, Context, checkpoint, next_snapshot}
use dbs_monitor.Evaluator.Rule.{context, act_on, evaluate_rule}
use dbs_monitor.Evaluator.Effects.{is_ok, pick, pick-nothing}
use dbs_monitor.Evaluator.Views.{
  enqueued, announced, deleted, marked, enqueued_view, announced_view, marked_view,
}
use dbs_monitor.Evaluator.Observed.{shown_kind, shown_kind-nothing}
use dbs_monitor.Evaluator.Observed.Steps.{act_on-Shows, shown_step, saving-nothing, steps}
use dbs_monitor.Evaluator.Announced.{shown_step-enqueued}
use dbs_monitor.Evaluator.Discarded.{discarded, discarded-nothing, act_on-deleted}
use dbs_monitor.Evaluator.Outcomes.{evaluate_rule-Outcome}

only_if : {B : Type 0} {l : List B} (b : Bool) → l ≡ [] → (if b then l else []) ≡ []
only_if true h = h
only_if false h = refl

same_window : {o : Option (Option String)} {a b : Option String} → o ≡ some a → o ≡ some b → a ≡ b
same_window h g = ground (arith, h, g)

module _ (f : Float64) (conversions : Conversions f.F) (metrics : List Metric)
    (db : Database f) where
  open f use {F}

  shown_step-marked :
      (c : Context F) (result : MetricEvaluation F) (current : Snapshot)
      → shown_step f conversions metrics db marked marked_view c result current ≡ []
  unfolding shown_step marked marked_view
  shown_step-marked c result current =
      let next = next_snapshot c.target current result.outcome in
      rw
        (saving-nothing f conversions metrics db marked marked_view c result current next
          (λ _. refl) (λ _. refl))
        (pick-nothing (shown_kind f conversions metrics db marked marked_view c.in_maintenance)
          (state_events current.state next.state)
          (λ kind.
            shown_kind-nothing f conversions metrics db marked marked_view c.in_maintenance kind
              (λ _. refl) (λ _. refl)))

  act_on-marked :
      (c : Context F) (result : MetricEvaluation F) (current : Snapshot)
      → is_ok (act_on f conversions metrics db c result current).1 ≡ true
      → pick marked (act_on f conversions metrics db c result current).0 ≡ checkpoint c ∷ []
  unfolding marked
  act_on-marked c result current o =
      act_on-Shows f conversions metrics db marked marked_view c result current o
      ∙ ap (λ l. l ++ checkpoint c ∷ [])
          (only_if (steps f conversions metrics db marked marked_view c result current)
            (shown_step-marked c result current))

  act_on-enqueued :
      (c : Context F) (result : MetricEvaluation F) (current : Snapshot)
      → 0 < c.target.consecutive_count
      → 0 < c.target.recovery_consecutive_count
      → Inv c.target.consecutive_count c.target.recovery_consecutive_count current
      → is_ok (act_on f conversions metrics db c result current).1 ≡ true
      → pick enqueued (act_on f conversions metrics db c result current).0
        ≡ pick announced (act_on f conversions metrics db c result current).0
  unfolding enqueued announced
  act_on-enqueued c result current ht hr i o =
      act_on-Shows f conversions metrics db enqueued enqueued_view c result current o
      ∙ ap
          (λ l.
            (if steps f conversions metrics db enqueued enqueued_view c result current
              then l
              else [])
            ++ [])
          (shown_step-enqueued f conversions metrics db c result current ht hr i)
      ∙ sym (act_on-Shows f conversions metrics db announced announced_view c result current o)

  -- Of a rule that the database knows, an evaluation that comes back with no error marks exactly one
  -- thing as evaluated, exactly once: the rule and the instance of the row that it read, for the
  -- dimension that it was scheduled for, at the time that it was given.
  pub evaluate_rule-marked :
      (scheduled : ScheduledTarget) (target : Target F) (now : ℕ)
      → db.target ≡ some target
      → is_ok (evaluate_rule f conversions metrics db scheduled now).1 ≡ true
      → pick marked (evaluate_rule f conversions metrics db scheduled now).0
        ≡ record {
          rule_id = target.rule_id;
          instance_id = target.instance_id;
          metric_dimension_key = scheduled.metric_dimension_key;
          last_evaluated_at = now;
        }
          ∷ []
  unfolding checkpoint marked pick
  evaluate_rule-marked scheduled target now found o =
      elim (evaluate_rule-Outcome f conversions metrics db scheduled target now found o) [
        | inl marks ↦ rw marks refl
        | inr (result, window, _, acts, fine) ↦ rw acts (
            act_on-marked (context f conversions metrics db scheduled target now window) result
              (snapshot_from_evaluation_target target) fine)
      ]

  -- Of a rule that the database knows, with positive counts, on an alert within its bounds, the
  -- evaluation enqueues the notifications that its own columns call for: of a firing where it writes the
  -- time of the first trigger, of a recovery where it writes the time of recovery, and no others.
  pub evaluate_rule-enqueued :
      (scheduled : ScheduledTarget) (target : Target F) (now : ℕ)
      → db.target ≡ some target
      → 0 < target.consecutive_count
      → 0 < target.recovery_consecutive_count
      → Inv target.consecutive_count target.recovery_consecutive_count
          (snapshot_from_evaluation_target target)
      → is_ok (evaluate_rule f conversions metrics db scheduled now).1 ≡ true
      → pick enqueued (evaluate_rule f conversions metrics db scheduled now).0
        ≡ pick announced (evaluate_rule f conversions metrics db scheduled now).0
  unfolding enqueued announced pick
  evaluate_rule-enqueued scheduled target now found ht hr i o =
      elim (evaluate_rule-Outcome f conversions metrics db scheduled target now found o) [
        | inl marks ↦ rw marks refl
        | inr (result, window, _, acts, fine) ↦ rw acts (
            act_on-enqueued (context f conversions metrics db scheduled target now window) result
              (snapshot_from_evaluation_target target) ht hr i fine)
      ]

  -- Of a rule that the database knows: where the instance is in a maintenance window, the evaluation
  -- deletes every notification that it has enqueued, and otherwise none.
  pub evaluate_rule-deleted :
      (scheduled : ScheduledTarget) (target : Target F) (now : ℕ) (window : Option String)
      → db.target ≡ some target
      → find_active_maintenance_window db.maintenance_windows target.instance_id now ≡ some window
      → is_ok (evaluate_rule f conversions metrics db scheduled now).1 ≡ true
      → pick deleted (evaluate_rule f conversions metrics db scheduled now).0
        ≡ discarded f conversions metrics db
            (is_valid window)
            (pick enqueued (evaluate_rule f conversions metrics db scheduled now).0)
  unfolding deleted enqueued pick
  evaluate_rule-deleted scheduled target now window found matched o =
      elim (evaluate_rule-Outcome f conversions metrics db scheduled target now found o) [
        | inl marks ↦ rw marks (sym (discarded-nothing f conversions metrics db (is_valid window)))
        | inr (result, other, again, acts, fine) ↦
            rw (acts, same_window matched again)
              (act_on-deleted f conversions metrics db
                (context f conversions metrics db scheduled target now other) result
                (snapshot_from_evaluation_target target) fine)
      ]
