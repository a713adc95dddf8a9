-- ===== src/Collect/Pending/Tests.antt =====
-- The pending runs of internal/collect/scheduler.go on concrete lists.
use mathlib.Core.List.{Perm}
use dbs_monitor.Prelude.{ℕ, List, [], ◌∷◌}
use dbs_monitor.Collect.Samples.{run_at}
use dbs_monitor.Collect.Task.{ScheduledRun}
use dbs_monitor.Collect.Pending.{ordered}
use dbs_monitor.Collect.Pending.Order.{IsOrdered, ordered_lem}

abbrev items : List (ScheduledRun ℕ)
items = run_at "a" 9 ∷ run_at "b" 4 ∷ []

ordered_lem_example : Perm (ordered items) items × IsOrdered (ordered items)
ordered_lem_example = ordered_lem items
