-- ===== src/Collect/Eligible.antt =====
-- `nextEligible` of internal/collect/state.go: the time before which a task that failed is not run
-- again. The row is what the query returns: the two `next_eligible_at` columns, where they are set.
pub mod Later
use dbs_monitor.Prelude.{ℕ, ◌||◌, Option, none, some, ltb, if◌then◌else◌}
use dbs_monitor.Metric.Task.{Task, is_probe_task}
use dbs_monitor.Collect.Task.{is_capability_snapshot_task}

pub record EligibleRow : Type 0 where
  pub task_next : Option ℕ
  pub connection_next : Option ℕ

-- The outcomes of the query: an error, no row, a row.
pub data RowRead : Type 0 where
  read_failed no_rows : RowRead
  row : EligibleRow → RowRead

-- The later of the two columns; the zero time where neither is set.
abbrev pub later : Option ℕ → Option ℕ → ℕ
later none none = 0
later none (some c) = c
later (some t) none = t
later (some t) (some c) = if ltb c t then t else c

-- `none` is the error.
unfoldable pub next_eligible : Task → RowRead → Option ℕ
next_eligible task r =
    if is_probe_task task.kind || is_capability_snapshot_task task then some 0 else elim r [
      | read_failed ↦ none
      | no_rows ↦ some 0
      | row columns ↦ some (later columns.task_next columns.connection_next)
    ]
