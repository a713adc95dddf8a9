-- ===== src/Collect/Due/Tests.antt =====
-- The due times of internal/collect/scheduler.go at a concrete time.
use dbs_monitor.Prelude.{ℕ, ◌+◌, ◌*◌, ◌≤◌, ◌<◌, ◌≡◌, ◌⊎◌, arith, second}
use dbs_monitor.Collect.Samples.{run_at}
use dbs_monitor.Collect.Task.{ScheduledRun}
use dbs_monitor.Collect.Due.{unix_epoch, next_due_after}
use dbs_monitor.Collect.Due.Laws.{next_due_after_lem}

abbrev now : ℕ
now = unix_epoch + 1000 * second

abbrev run : ScheduledRun ℕ
run = record (run_at "a" 0) { interval = 30 * second }

next_due_after_lem_example :
    (now < next_due_after now 7 (30 * second))
    × (unix_epoch + 7 ≤ next_due_after now 7 (30 * second))
    × ((next_due_after now 7 (30 * second) ≤ now + 30 * second)
        ⊎ (next_due_after now 7 (30 * second) ≡ unix_epoch + 7))
    × ((k : ℕ) × (next_due_after now 7 (30 * second) ≡ unix_epoch + 7 + k * (30 * second)))
next_due_after_lem_example = next_due_after_lem now 7 (30 * second) (omega arith)
