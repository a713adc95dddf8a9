-- ===== src/Collect/TaskState/Capability/Anew.antt =====
-- The failures of a task that a capability kept from running, as the scheduler of internal/collect
-- counts and reads them.
use Prim.Native.Nat.{min}
use dbs_monitor.Prelude.{
  ℕ, ◌+◌, ◌*◌, ◌^◌, ◌<◌, ◌≡◌, refl, false, none, some, List, ◌∷◌, length, arith,
}
use dbs_monitor.Metric.Task.{is_probe_task}
use dbs_monitor.Metric.Capability.{CapabilityBlockReason}
use dbs_monitor.Collect.Task.{ScheduledRun, is_capability_snapshot_task}
use dbs_monitor.Collect.Backoff.{backoff_cap}
use dbs_monitor.Collect.Eligible.{next_eligible}
use dbs_monitor.Collect.TaskState.{Rows, failure_count, eligible_row}
use dbs_monitor.Collect.TaskState.Failures.{willing, Failure, after_failures, failures_back_off}
use dbs_monitor.Collect.TaskState.Capability.{
  record_capability_blocked, record_capability_not_applicable,
  record_platform_database_capacity_emergency,
}

module _ {T : Type 0} (run : ScheduledRun T) (finished : ℕ) where
  -- Whatever failed before, a task that a capability blocks, or to which it does not apply, backs off
  -- after the next failures as one that never failed.
  blocked_backs_off_anew :
      (reason : CapabilityBlockReason) (stored : ℕ → ℕ) (x : Failure) (failures : List Failure)
      (rows : Rows)
      → is_probe_task run.task.kind ≡ false
      → is_capability_snapshot_task run.task ≡ false
      → 0 < x.finished
      → rows.connection_state ≡ none
      → (next_eligible run.task (
            eligible_row stored (
              after_failures run
                (x ∷ failures)
                (record_capability_blocked run finished reason willing rows).0))
          ≡ some (stored (x.finished + min backoff_cap (run.interval * 2 ^ length failures))))
        × (next_eligible run.task (
              eligible_row stored (
                after_failures run
                  (x ∷ failures)
                  (record_capability_not_applicable run finished reason willing rows).0))
            ≡ some (stored (x.finished + min backoff_cap (run.interval * 2 ^ length failures))))
  unfolding record_capability_blocked record_capability_not_applicable
  blocked_backs_off_anew reason stored x failures rows p c positive no_connection = (
    failures_back_off run stored x failures
        (record_capability_blocked run finished reason willing rows).0 p c positive refl
        no_connection,
    failures_back_off run stored x failures
        (record_capability_not_applicable run finished reason willing rows).0 p c positive refl
        no_connection,
  )

  -- The emergency of the platform's database counts as a failure of a task that has a row, and does
  -- not put off the task.
  emergency_does_not_wait :
      (stored : ℕ → ℕ) (rows : Rows)
      → 0 < failure_count rows.task_state
      → rows.connection_state ≡ none
      → (failure_count
            (record_platform_database_capacity_emergency run finished willing rows).0.task_state
          ≡ failure_count rows.task_state + 1)
        × (next_eligible run.task (
              eligible_row stored
                (record_platform_database_capacity_emergency run finished willing rows).0)
            ≡ some 0)
  unfolding record_platform_database_capacity_emergency next_eligible
  emergency_does_not_wait stored rows h no_connection = ground arith
