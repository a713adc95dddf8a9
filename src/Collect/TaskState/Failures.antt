-- ===== src/Collect/TaskState/Failures.antt =====
-- Failures in a row, from the rows that are written to the time that the scheduler reads.
use Prim.Native.Nat.{min}
use dbs_monitor.Prelude.{
  ℕ, String, ◌+◌, ◌*◌, ◌^◌, ◌<◌, ◌≡◌, refl, true, false, none, some, List, [], ◌∷◌, length, arith,
}
use dbs_monitor.Metric.Task.{is_probe_task}
use dbs_monitor.Collect.Task.{ScheduledRun, is_capability_snapshot_task}
use dbs_monitor.Collect.Backoff.{backoff_cap}
use dbs_monitor.Collect.Backoff.Laws.{failure_backoff_lem}
use dbs_monitor.Collect.Dispatch.{TaskResult}
use dbs_monitor.Collect.Eligible.{next_eligible}
use dbs_monitor.Collect.TaskState.{Rows, Database, failure_count, record_failure, eligible_row}

-- A database that takes everything, with the collection of the instance not paused.
abbrev pub willing : Database
willing = record { collection_active = some true; statements_succeed = true }

-- A failure that is not the connection's: a query that failed, or one that ran out of time.
pub record Failure : Type 0 where
  pub finished : ℕ
  pub result : TaskResult
  pub code : String

module _ {T : Type 0} (run : ScheduledRun T) where
  -- The rows after some failures, the latest first, each of which the database takes.
  unfoldable pub after_failures : List Failure → Rows → Rows
  after_failures [] rows = rows
  after_failures (x ∷ failures) rows =
      (record_failure run x.finished x.result x.code false willing (after_failures failures rows)).0

  after_failures-count :
      (failures : List Failure) (rows : Rows)
      → failure_count rows.task_state ≡ 0
      → failure_count (after_failures failures rows).task_state ≡ length failures
  unfolding after_failures record_failure
  after_failures-count [] rows h = h
  after_failures-count (x ∷ failures) rows h = ground (arith, after_failures-count failures rows h)

  after_failures-connection :
      (failures : List Failure) (rows : Rows)
      → (after_failures failures rows).connection_state ≡ rows.connection_state
  unfolding after_failures record_failure
  after_failures-connection [] rows = refl
  after_failures-connection (x ∷ failures) rows =
      ground (arith, after_failures-connection failures rows)

  -- Of a task that is neither a probe nor the capability snapshot, on an instance with no connection
  -- row, and with no failures before: after failures that are not the connection's, of whatever result
  -- and code, each of which the database takes while the collection is not paused, and the last of them
  -- after the zero time, the scheduler reads that the task waits from the last of them for its
  -- interval, doubled with each further failure, but never more than 60 seconds. The time that it reads
  -- is what the database makes of the one that was written.
  pub failures_back_off :
      (stored : ℕ → ℕ) (x : Failure) (failures : List Failure) (rows : Rows)
      → is_probe_task run.task.kind ≡ false
      → is_capability_snapshot_task run.task ≡ false
      → 0 < x.finished
      → failure_count rows.task_state ≡ 0
      → rows.connection_state ≡ none
      → next_eligible run.task (eligible_row stored (after_failures (x ∷ failures) rows))
        ≡ some (stored (x.finished + min backoff_cap (run.interval * 2 ^ length failures)))
  unfolding after_failures record_failure next_eligible
  failures_back_off stored x failures rows p c later_than h no_connection = ground (
    arith,
    after_failures-count failures rows h,
    after_failures-connection failures rows,
    failure_backoff_lem run.task.kind run.interval (length failures) p,
  )
