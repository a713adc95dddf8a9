-- ===== src/Collect/Due/Laws.antt =====
-- The first due time lies on the task's own grid, within one interval of the present.
use native.Mathlib.Nat.{mod-lt, div-add-mod}
use dbs_monitor.Prelude.{
  ℕ, ◌+◌, ◌-◌, ◌*◌, ◌/◌, ◌≤◌, ◌<◌, ◌≡◌, ◌⊎◌, inl, inr, String, true, false, arith, ltb,
  if◌then◌else◌, Bool-cases,
}
use dbs_monitor.Collect.Task.{ScheduledRun, is_capability_snapshot_task}
use dbs_monitor.Collect.Due.{unix_epoch, next_due_after, initial_phase, initial_due}

-- With a positive interval the next due time lies after the present, at most one interval after it once
-- the grid has begun, and is the base of the grid plus a whole number of intervals.
pub next_due_after_lem :
    (now phase interval : ℕ)
    → 0 < interval
    → (now < next_due_after now phase interval)
      × (unix_epoch + phase ≤ next_due_after now phase interval)
      × ((next_due_after now phase interval ≤ now + interval)
          ⊎ (next_due_after now phase interval ≡ unix_epoch + phase))
      × ((k : ℕ) × (next_due_after now phase interval ≡ unix_epoch + phase + k * interval))
unfolding next_due_after
next_due_after_lem now phase interval h = elim (Bool-cases (ltb now (unix_epoch + phase))) [
  | inl early ↦ (ground arith, ground arith, inr (ground arith), (0, ground arith))
  | inr late ↦ (
    ground (
      arith,
      mod-lt (now - (unix_epoch + phase)) h,
      div-add-mod (now - (unix_epoch + phase)) interval,
    ),
    ground arith,
    inl (ground (arith, div-add-mod (now - (unix_epoch + phase)) interval)),
    ((now - (unix_epoch + phase)) / interval + 1, ground arith),
  )
]

-- Whatever the hash, a task of a positive interval that is scheduled at least one interval after the
-- epoch runs first within one interval from now; a capability snapshot runs at once.
pub initial_due_soon :
    {T : Type 0} (hash : String → String → ℕ) (now : ℕ) (run : ScheduledRun T)
    → 0 < run.interval
    → unix_epoch + run.interval ≤ now
    → ((is_capability_snapshot_task run.task ≡ true) × (initial_due hash now run ≡ now))
      ⊎ ((is_capability_snapshot_task run.task ≡ false)
          × (now < initial_due hash now run)
          × (initial_due hash now run ≤ now + run.interval))
unfolding initial_due
initial_due_soon hash now run h late = elim (Bool-cases (is_capability_snapshot_task run.task)) [
  | inl snapshot ↦ inl (snapshot, rw (snapshot, if◌then◌else◌))
  | inr task ↦
      let phase = initial_phase hash run.key.instance_id run.key.task_id run.interval in
      inr (
        task,
        ground (arith, next_due_after_lem now phase run.interval h),
        ground (
          arith,
          next_due_after_lem now phase run.interval h,
          mod-lt (hash run.key.instance_id run.key.task_id) h,
        ),
      )
]
