-- ===== src/Collect/Due.antt =====
-- `initialPhase`, `nextDueAfter` and `initialDue` of internal/collect/scheduler.go: when a task runs
-- first. `hash` is the 64-bit FNV-1a hash of the standard library over the two identifiers, with a
-- zero byte between them.
mod Laws
mod Tests
use dbs_monitor.Prelude.{ℕ, ◌+◌, ◌-◌, ◌*◌, ◌/◌, ◌%◌, String, ltb, ◌==◌, if◌then◌else◌, second}
use dbs_monitor.Collect.Task.{ScheduledRun, is_capability_snapshot_task}

-- The Unix epoch, in nanoseconds since the zero time.
abbrev pub unix_epoch : ℕ
unix_epoch = 62135596800 * second

-- `now.Sub(base)` stops at 292 years; for times within that of the epoch.
unfoldable pub next_due_after : ℕ → ℕ → ℕ → ℕ
next_due_after now phase interval =
    let base = unix_epoch + phase in
    if ltb now base then base else base + ((now - base) / interval + 1) * interval

module _ (hash : String → String → ℕ) where
  unfoldable pub initial_phase : String → String → ℕ → ℕ
  initial_phase instance_id task_id interval =
      if interval == 0 then 0 else hash instance_id task_id % interval

  unfoldable pub initial_due : {T : Type 0} → ℕ → ScheduledRun T → ℕ
  unfolding next_due_after initial_phase
  initial_due now run =
      if is_capability_snapshot_task run.task
      then now
      else next_due_after now (initial_phase run.key.instance_id run.key.task_id run.interval)
          run.interval
