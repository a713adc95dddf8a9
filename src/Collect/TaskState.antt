-- ===== src/Collect/TaskState.antt =====
-- The rows of `instance_collection_task_state` and `instance_collection_connection_state` of one task
-- of one instance, and the transactions of internal/collect/state.go that write them: `recordStarted`,
-- `recordUnmet`, `recordFailure` and `recordSuccess`. The samples and snapshots that they store, the
-- watermark of the instance, the error messages and the repair of partitions are not modelled.
mod Failures
mod Capability
mod Tests
use dbs_monitor.Prelude.{
  ℕ, ◌+◌, String, Bool, true, false, not, ◌&&◌, Option, none, some, if◌then◌else◌, is_zero_time,
}
use dbs_monitor.Metric.Task.{sql_task, is_probe_task}
use dbs_monitor.Collect.Task.{ScheduledRun}
use dbs_monitor.Collect.Backoff.{failure_backoff}
use dbs_monitor.Collect.Dispatch.{
  TaskResult, success, failed, timed_out, skipped_backpressure, backoff,
}
use dbs_monitor.Collect.Eligible.{RowRead, no_rows, row}

pub record TaskState : Type 0 where
  pub last_due_at : Option ℕ
  pub last_started_at : Option ℕ
  pub last_finished_at : Option ℕ
  pub last_success_at : Option ℕ
  pub last_result : Option TaskResult
  pub consecutive_failures : ℕ
  pub next_eligible_at : Option ℕ
  pub last_error_code : Option String

pub record ConnectionState : Type 0 where
  pub consecutive_failures : ℕ
  pub next_eligible_at : Option ℕ
  pub last_error_code : Option String

-- `source_failure` is the last error code that `setSourceFailure` wrote for the instance.
pub record Rows : Type 0 where
  pub task_state : Option TaskState
  pub connection_state : Option ConnectionState
  pub source_failure : Option String

-- A row with the defaults of its columns, for an INSERT that names some of them.
abbrev pub blank : TaskState
blank = record {
  last_due_at = none;
  last_started_at = none;
  last_finished_at = none;
  last_success_at = none;
  last_result = none;
  consecutive_failures = 0;
  next_eligible_at = none;
  last_error_code = none;
}

-- The row that ON CONFLICT DO UPDATE changes, or else the one that is inserted.
abbrev pub existing : Option TaskState → TaskState
existing none = blank
existing (some s) = s

abbrev pub nullable_timestamp : ℕ → Option ℕ
nullable_timestamp t = if is_zero_time t then none else some t

abbrev pub failure_count : Option TaskState → ℕ
failure_count none = 0
failure_count (some s) = s.consecutive_failures

abbrev pub connection_failure_count : Option ConnectionState → ℕ
connection_failure_count none = 0
connection_failure_count (some s) = s.consecutive_failures

-- What the database does with a transaction: whether the instance is locked and its collection not
-- paused (`none` is an error), and whether every statement succeeds. One that fails changes nothing.
pub record Database : Type 0 where
  pub collection_active : Option Bool
  pub statements_succeed : Bool

-- The rows, and whether an error is returned.
unfoldable pub transact : Database → (Rows → Rows) → Rows → Rows × Bool
transact db change rows = elim db.collection_active [
  | none ↦ (rows, true)
  | some false ↦ (rows, false)
  | some true ↦ if db.statements_succeed then (change rows, false) else (rows, true)
]

module _ {T : Type 0} (run : ScheduledRun T) where
  started : Rows → Rows
  started rows = record rows {
    task_state = some (record (existing rows.task_state) {
      last_due_at = some run.due_at;
      last_started_at = some run.started_at;
    });
  }

  unfoldable pub record_started : Database → Rows → Rows × Bool
  unfolding transact started
  record_started db rows = transact db started rows

abbrev pub result_name : TaskResult → String
result_name success = "SUCCESS"
result_name failed = "FAILED"
result_name timed_out = "TIMED_OUT"
result_name skipped_backpressure = "SKIPPED_BACKPRESSURE"
result_name backoff = "BACKOFF"

-- The CASE of `recordUnmet`: a row that exists keeps its time where the run was put off.
abbrev unmet_next : TaskResult → Option TaskState → ℕ → Option ℕ
unmet_next backoff (some s) next_eligible = s.next_eligible_at
unmet_next _ _ next_eligible = nullable_timestamp next_eligible

module _ {T : Type 0} (run : ScheduledRun T) (finished : ℕ) where
  unmet : TaskResult → ℕ → Rows → Rows
  unmet result next_eligible rows = record rows {
    task_state = some (record (existing rows.task_state) {
      last_due_at = some run.due_at;
      last_finished_at = some finished;
      last_result = some result;
      next_eligible_at = unmet_next result rows.task_state next_eligible;
      last_error_code = some (result_name result);
    });
    source_failure = some "COLLECTION_FAILED";
  }

  unfoldable pub record_unmet : TaskResult → ℕ → Database → Rows → Rows × Bool
  unfolding transact unmet
  record_unmet result next_eligible db rows = transact db (unmet result next_eligible) rows

  -- The statement on the connection, where the failure is one of the connection.
  connection_failed : String → Option ConnectionState → ConnectionState
  connection_failed code state =
      let failures = connection_failure_count state + 1 in
      record {
        consecutive_failures = failures;
        next_eligible_at = some (finished + failure_backoff sql_task run.interval failures);
        last_error_code = some code;
      }

  failure : TaskResult → String → Bool → Rows → Rows
  unfolding connection_failed
  failure result code is_connection_failure rows =
      let failures = failure_count rows.task_state + 1 in
      let waits = not (is_probe_task run.task.kind) && not is_connection_failure in
      let next =
        if waits then finished + failure_backoff run.task.kind run.interval failures else 0 in
      record {
        task_state = some (record (existing rows.task_state) {
          last_due_at = some run.due_at;
          last_started_at = some run.started_at;
          last_finished_at = some finished;
          last_result = some result;
          consecutive_failures = failures;
          next_eligible_at = nullable_timestamp next;
          last_error_code = some code;
        });
        connection_state =
            if is_connection_failure
            then some (connection_failed code rows.connection_state)
            else rows.connection_state;
        source_failure =
            if is_probe_task run.task.kind then some "DB_UNREACHABLE" else some "COLLECTION_FAILED";
      }

  unfoldable pub record_failure : TaskResult → String → Bool → Database → Rows → Rows × Bool
  unfolding transact failure
  record_failure result code is_connection_failure db rows =
      transact db (failure result code is_connection_failure) rows

  -- The UPDATE of `recordSuccess`, which a missing row does not feel.
  succeeded : Bool → Option TaskState → Option TaskState
  succeeded counter_reset none = none
  succeeded counter_reset (some s) = some (record s {
    last_due_at = some run.due_at;
    last_started_at = some run.started_at;
    last_finished_at = some finished;
    last_success_at = some finished;
    last_result = some success;
    consecutive_failures = 0;
    next_eligible_at = none;
    last_error_code = if counter_reset then some "COUNTER_RESET" else none;
  })

  success_change : Bool → Rows → Rows
  unfolding succeeded
  success_change counter_reset rows = record {
    task_state = succeeded counter_reset rows.task_state;
    connection_state =
        if is_probe_task run.task.kind
        then some
            (record { consecutive_failures = 0; next_eligible_at = none; last_error_code = none })
        else rows.connection_state;
    source_failure = if counter_reset then some "COUNTER_RESET" else rows.source_failure;
  }

  unfoldable pub record_success : Bool → Database → Rows → Rows × Bool
  unfolding transact success_change
  record_success counter_reset db rows = transact db (success_change counter_reset) rows

module _ (stored : ℕ → ℕ) where
  abbrev read_back : Option ℕ → Option ℕ
  read_back none = none
  read_back (some t) = some (stored t)

  abbrev connection_next : Option ConnectionState → Option ℕ
  connection_next none = none
  connection_next (some s) = read_back s.next_eligible_at

  -- The row that the query of `nextEligible` reads: the LEFT JOIN of the two. A `timestamptz` keeps
  -- microseconds; what is read of a time that was written is the parameter.
  abbrev pub eligible_row : Rows → RowRead
  eligible_row rows = elim rows.task_state [
    | none ↦ no_rows
    | some s ↦ row (record {
      task_next = read_back s.next_eligible_at;
      connection_next = connection_next rows.connection_state;
    })
  ]
