-- ===== src/Collect/TaskState/Tests.antt =====
-- The rows of internal/collect/state.go after concrete failures and a success.
use Prim.Native.Nat.{min}
use dbs_monitor.Prelude.{ℕ, ◌+◌, ◌/◌, ◌*◌, ◌^◌, ◌≡◌, refl, false, none, some, [], ◌∷◌, arith}
use dbs_monitor.Collect.Samples.{run_at}
use dbs_monitor.Collect.Backoff.{backoff_cap}
use dbs_monitor.Collect.Dispatch.{failed, timed_out}
use dbs_monitor.Collect.Eligible.{next_eligible}
use dbs_monitor.Collect.TaskState.{
  Rows, failure_count, record_started, record_failure, record_success, eligible_row,
}
use dbs_monitor.Collect.TaskState.Failures.{willing, Failure, after_failures, failures_back_off}

abbrev begun : Rows
begun = record { task_state = none; connection_state = none; source_failure = none }

abbrev at : ℕ → Failure
at t = record { finished = t; result = failed; code = "QUERY_FAILED" }

abbrev timed_out_at : ℕ → Failure
timed_out_at t = record { finished = t; result = timed_out; code = "TIMEOUT" }

-- What is left of a number of nanoseconds.
abbrev microseconds : ℕ → ℕ
microseconds t = t / 1000 * 1000

-- A success after two failures starts the count anew.
success_resets :
    failure_count
      (record_success
        (run_at "a" 9)
        12
        false
        willing
        (after_failures (run_at "a" 5) (at 8 ∷ at 6 ∷ []) begun)).0.task_state
    ≡ 0
unfolding record_success after_failures record_failure
success_resets = refl

-- An instance that is paused keeps its rows.
paused_writes_nothing :
    record_started (run_at "a" 9) (record willing { collection_active = some false }) begun
    ≡ (begun, false)
unfolding record_started
paused_writes_nothing = refl

failures_back_off_example :
    next_eligible (run_at "a" 5).task (
      eligible_row microseconds
        (after_failures (run_at "a" 5) (timed_out_at 20 ∷ at 12 ∷ at 6 ∷ []) begun))
    ≡ some (microseconds (20 + min backoff_cap (5 * 2 ^ 2)))
failures_back_off_example =
    failures_back_off (run_at "a" 5) microseconds (timed_out_at 20) (at 12 ∷ at 6 ∷ []) begun refl
      refl (omega arith) refl refl
