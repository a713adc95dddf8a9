-- ===== src/Collect/Backoff/Tests.antt =====
-- The backoff of internal/collect/scheduler.go after concrete failures.
use Prim.Native.Nat.{min}
use dbs_monitor.Prelude.{◌*◌, ◌^◌, ◌≡◌, refl, second}
use dbs_monitor.Metric.Task.{sql_task}
use dbs_monitor.Collect.Backoff.{backoff_cap, failure_backoff}
use dbs_monitor.Collect.Backoff.Laws.{failure_backoff_lem}

failure_backoff_lem_example :
    failure_backoff sql_task (5 * second) 7 ≡ min backoff_cap (5 * second * 2 ^ 6)
failure_backoff_lem_example = failure_backoff_lem sql_task (5 * second) 6 refl
