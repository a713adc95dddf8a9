-- ===== src/Evaluator/Cycle.antt =====
-- `RunOnce` and `evaluateInstance` of internal/evaluator/service.go: a cycle over the targets that are
-- due, one transaction for the targets of an instance that stand side by side.
pub mod Groups
mod Tests
use dbs_monitor.Prelude.{
  ℕ, zero, suc, String, Bool, true, false, Option, none, some, List, [], ◌∷◌, ◌++◌, if◌then◌else◌,
  str_eq, length, Float64,
}
use dbs_monitor.Metric.Catalog.{Metric}
use dbs_monitor.Evaluator.Run.{
  Run, Effect, Answer, ok, err, list_targets, commit_transaction, read_paused, pure, or_fail,
  for_each, ◌>>=◌,
}
use dbs_monitor.Evaluator.Reading.{Conversions}
use dbs_monitor.Evaluator.Columns.{ScheduledTarget, Database}
use dbs_monitor.Evaluator.Rule.{evaluate_rule}

-- The inner loop of `RunOnce`: the targets from the start on that are of the instance, and the rest.
unfoldable pub span_instance :
    String → List ScheduledTarget → List ScheduledTarget × List ScheduledTarget
span_instance instance_id [] = ([], [])
span_instance instance_id (target ∷ targets) =
    let rest = span_instance instance_id targets in
    if str_eq target.instance_id instance_id
    then (target ∷ rest.0, rest.1)
    else ([], target ∷ targets)

-- `InTx`: what a body that fails has done is rolled back, and so is that of one whose commit fails.
abbrev pub in_tx : {F A : Type 0} → Bool → Run F A → Run F A
in_tx true (effects, ok a) = (effects, ok a)
in_tx false (effects, ok a) = ([], err commit_transaction)
in_tx committed (effects, err e) = ([], err e)

module _ {F : Type 0} (evaluate : List ScheduledTarget → Run F Unit) where
  -- Another transaction after one that has come back.
  unfoldable pub and_then : Run F Unit → Option (Run F Unit) → Option (Run F Unit)
  and_then (effects, err e) rest = some (effects, err e)
  and_then (effects, ok u) none = none
  and_then (effects, ok u) (some (later, last)) = some (effects ++ later, last)

  -- The outer loop; `none` means that the fuel ran out.
  unfoldable pub run_groups : ℕ → List ScheduledTarget → Option (Run F Unit)
  unfolding span_instance and_then
  run_groups zero targets = none
  run_groups (suc fuel) [] = some ([], ok tt)
  run_groups (suc fuel) (target ∷ targets) =
      let (group, others) = span_instance target.instance_id targets in
      let rest = run_groups fuel others in and_then (evaluate (target ∷ group)) rest

module _ (f : Float64) (conversions : Conversions f.F) (metrics : List Metric) where
  open f use {F}

  -- `paused` is what the query of a group answers, `committed` whether its transaction is committed,
  -- and `answers` what the queries of a target answer.
  unfoldable pub evaluate_instance :
      Option Bool → Bool → (ScheduledTarget → Database f) → ℕ → List ScheduledTarget → Run F Unit
  evaluate_instance paused committed answers now targets = in_tx committed (
      or_fail read_paused paused >>= (λ is_paused.
        if is_paused
        then pure tt
        else for_each targets
            (λ target. evaluate_rule f conversions metrics (answers target) target now)))

  -- `due` is what the query for the targets answers.
  unfoldable pub run_once :
      (List ScheduledTarget → Option Bool)
      → (List ScheduledTarget → Bool)
      → (ScheduledTarget → Database f)
      → Option (List ScheduledTarget)
      → ℕ
      → Option (Run F Unit)
  unfolding run_groups evaluate_instance
  run_once paused committed answers none now = some ([], err list_targets)
  run_once paused committed answers (some targets) now =
      run_groups (λ group. evaluate_instance (paused group) (committed group) answers now group)
        (suc (length targets)) targets
