-- ===== src/Collect/Pending.antt =====
-- `pendingRuns` of internal/collect/scheduler.go: the runs that are due and have not started, at most
-- one for each task of each instance. The Go map is an association list; `sort.Slice` is an insertion
-- sort (the order is total on distinct keys, so every sorting algorithm gives the same list).
pub mod Map
pub mod Order
pub mod Sorting
mod Tests
use dbs_monitor.Prelude.{
  ℕ, Bool, true, false, not, ◌&&◌, ◌||◌, Option, none, some, List, [], ◌∷◌, ltb, ◌==◌,
  if◌then◌else◌, length,
}
use dbs_monitor.Collect.Task.{
  TaskKey, ScheduledRun, same_key, task_key_less, is_capability_snapshot_task,
}

module _ {T : Type 0} where
  unfoldable pub find : TaskKey → List (ScheduledRun T) → Option (ScheduledRun T)
  find key [] = none
  find key (r ∷ rs) = if same_key r.key key then some r else find key rs

  unfoldable pub delete : TaskKey → List (ScheduledRun T) → List (ScheduledRun T)
  delete key [] = []
  delete key (r ∷ rs) = if same_key r.key key then delete key rs else r ∷ delete key rs

  -- The previous run of the key is returned; `some` where it was replaced.
  unfoldable pub put :
      ScheduledRun T → List (ScheduledRun T) → List (ScheduledRun T) × Option (ScheduledRun T)
  unfolding find delete
  put run items = (run ∷ delete run.key items, find run.key items)

  unfoldable pub take :
      TaskKey → List (ScheduledRun T) → List (ScheduledRun T) × Option (ScheduledRun T)
  unfolding find delete
  take key items = (delete key items, find key items)

  -- The comparison that `ordered` sorts by.
  unfoldable pub run_less : ScheduledRun T → ScheduledRun T → Bool
  run_less left right =
      let left_capability = is_capability_snapshot_task left.task in
      let right_capability = is_capability_snapshot_task right.task in
      if left_capability && not right_capability
      then true
      else if not left_capability && right_capability
      then false
      else if not (left.due_at == right.due_at)
      then ltb left.due_at right.due_at
      else task_key_less left.key right.key

  insert : ScheduledRun T → List (ScheduledRun T) → List (ScheduledRun T)
  insert run [] = run ∷ []
  insert run (r ∷ rs) = if run_less r run then r ∷ insert run rs else run ∷ r ∷ rs

  unfoldable pub ordered : List (ScheduledRun T) → List (ScheduledRun T)
  unfolding insert
  ordered [] = []
  ordered (r ∷ rs) = insert r (ordered rs)

  unfoldable pub has_capability_snapshot : List (ScheduledRun T) → Bool
  has_capability_snapshot [] = false
  has_capability_snapshot (r ∷ rs) =
      is_capability_snapshot_task r.task || has_capability_snapshot rs
