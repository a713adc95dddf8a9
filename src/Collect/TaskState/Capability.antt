-- ===== src/Collect/TaskState/Capability.antt =====
-- The transactions of internal/collect/state.go on the rows of a task that is not run to its end:
-- `recordCapabilityBlocked`, `recordCapabilityNotApplicable` and
-- `recordPlatformDatabaseCapacityEmergency`. The watermark of the instance and the error messages are
-- not modelled.
mod Anew
use dbs_monitor.Prelude.{ℕ, ◌+◌, String, Bool, Option, none, some}
use dbs_monitor.Metric.Capability.{
  CapabilityBlockReason, collection_failed, permission_denied, extension_missing, feature_disabled,
  not_applicable_role,
}
use dbs_monitor.Collect.Task.{ScheduledRun}
use dbs_monitor.Collect.Dispatch.{success, failed}
use dbs_monitor.Collect.TaskState.{TaskState, Rows, Database, existing, transact}

-- The string that stands for a reason.
abbrev pub reason_code : CapabilityBlockReason → String
reason_code collection_failed = "COLLECTION_FAILED"
reason_code permission_denied = "PERMISSION_DENIED"
reason_code extension_missing = "EXTENSION_MISSING"
reason_code feature_disabled = "FEATURE_DISABLED"
reason_code not_applicable_role = "NOT_APPLICABLE_ROLE"

module _ {T : Type 0} (run : ScheduledRun T) (finished : ℕ) where
  blocked : CapabilityBlockReason → Rows → Rows
  blocked reason rows = record rows {
    task_state = some (record (existing rows.task_state) {
      last_due_at = some run.due_at;
      last_finished_at = some finished;
      last_result = some failed;
      consecutive_failures = 0;
      next_eligible_at = none;
      last_error_code = some (reason_code reason);
    });
    source_failure = some (reason_code reason);
  }

  unfoldable pub record_capability_blocked : CapabilityBlockReason → Database → Rows → Rows × Bool
  unfolding transact blocked
  record_capability_blocked reason db rows = transact db (blocked reason) rows

  not_applicable : CapabilityBlockReason → Rows → Rows
  not_applicable reason rows = record rows {
    task_state = some (record (existing rows.task_state) {
      last_due_at = some run.due_at;
      last_finished_at = some finished;
      last_success_at = some finished;
      last_result = some success;
      consecutive_failures = 0;
      next_eligible_at = none;
      last_error_code = some (reason_code reason);
    });
  }

  unfoldable pub record_capability_not_applicable :
      CapabilityBlockReason → Database → Rows → Rows × Bool
  unfolding transact not_applicable
  record_capability_not_applicable reason db rows = transact db (not_applicable reason) rows

  -- The UPDATE, which a missing row does not feel.
  refused : Option TaskState → Option TaskState
  refused none = none
  refused (some s) = some (record s {
    last_due_at = some run.due_at;
    last_started_at = some run.started_at;
    last_finished_at = some finished;
    last_result = some failed;
    consecutive_failures = s.consecutive_failures + 1;
    next_eligible_at = none;
    last_error_code = some "PLATFORM_DATABASE_CAPACITY_EMERGENCY_WATERMARK";
  })

  emergency : Rows → Rows
  unfolding refused
  emergency rows = record rows {
    task_state = refused rows.task_state;
    source_failure = some "PLATFORM_DATABASE_CAPACITY_EMERGENCY_WATERMARK";
  }

  unfoldable pub record_platform_database_capacity_emergency : Database → Rows → Rows × Bool
  unfolding transact emergency
  record_platform_database_capacity_emergency db rows = transact db emergency rows
