-- ===== src/Collect/Backoff.antt =====
-- `failureBackoff` of internal/collect/scheduler.go: how long a failed task waits.
pub mod Laws
mod Tests
use dbs_monitor.Prelude.{ℕ, zero, suc, ◌-◌, ◌*◌, Bool, ◌||◌, leb, ltb, ◌==◌, if◌then◌else◌, second}
use dbs_monitor.Metric.Task.{TaskKind, is_probe_task}

abbrev pub backoff_cap : ℕ
backoff_cap = 60 * second

-- The loop, with the rounds that `count < failures` leaves.
double_backoff : ℕ → ℕ → ℕ
double_backoff zero backoff = backoff
double_backoff (suc rounds) backoff =
    let next = double_backoff rounds (backoff * 2) in
    if ltb backoff backoff_cap then next else backoff

unfoldable pub failure_backoff : TaskKind → ℕ → ℕ → ℕ
unfolding double_backoff
failure_backoff kind interval failures =
    if is_probe_task kind || leb failures 0
    then 0
    else let backoff = double_backoff (failures - 1) interval in
      if ltb backoff_cap backoff then backoff_cap else backoff
