-- ===== src/Collect/Eligible/Later.antt =====
-- The time that `nextEligible` of internal/collect/state.go returns, against the columns of the row.
use dbs_monitor.Prelude.{
  ℕ, ◌≤◌, ◌<◌, ◌≡◌, refl, ◌⊎◌, inl, inr, false, Option, none, some, arith, subst,
}
use dbs_monitor.Metric.Task.{Task, is_probe_task}
use dbs_monitor.Collect.Task.{is_capability_snapshot_task}
use dbs_monitor.Collect.Eligible.{
  EligibleRow, RowRead, read_failed, no_rows, row, later, next_eligible,
}

-- One of the columns is set to `t`.
abbrev pub Ends : EligibleRow → ℕ → Type 0
Ends columns t = (columns.task_next ≡ some t) ⊎ (columns.connection_next ≡ some t)

Ends-later : (a b : Option ℕ) (t : ℕ) → (a ≡ some t) ⊎ (b ≡ some t) → t ≤ later a b
Ends-later none none t h = ground (arith, h)
Ends-later none (some y) t h = ground (arith, h)
Ends-later (some x) none t h = ground (arith, h)
Ends-later (some x) (some y) t h = ground (arith, h)

later-Ends : (a b : Option ℕ) → 0 < later a b → (a ≡ some (later a b)) ⊎ (b ≡ some (later a b))
later-Ends none none h = absurd (omega (arith, h))
later-Ends none (some y) h = inr refl
later-Ends (some x) none h = inl refl
later-Ends (some x) (some y) h = ground arith

-- A time other than zero is that of a column, and the task heeds it.
pub next_eligible-Ends :
    (task : Task) (r : RowRead) (e : ℕ)
    → next_eligible task r ≡ some e
    → 0 < e
    → (is_probe_task task.kind ≡ false)
      × (is_capability_snapshot_task task ≡ false)
      × (columns : EligibleRow) × (r ≡ row columns)
      × Ends columns e
unfolding next_eligible
next_eligible-Ends task read_failed e got positive = absurd (ground arith)
next_eligible-Ends task no_rows e got positive = absurd (ground arith)
next_eligible-Ends task (row columns) e got positive =
    let last : later columns.task_next columns.connection_next ≡ e = ground arith in
    (
      ground arith,
      ground arith,
      columns,
      refl,
      subst (Ends columns) last
          (later-Ends columns.task_next columns.connection_next (rw last positive)),
    )

-- No column that the task heeds is later than the time.
pub Ends-next_eligible :
    (task : Task) (columns : EligibleRow) (e t : ℕ)
    → is_probe_task task.kind ≡ false
    → is_capability_snapshot_task task ≡ false
    → next_eligible task (row columns) ≡ some e
    → Ends columns t
    → t ≤ e
unfolding next_eligible
Ends-next_eligible task columns e t p c got ends =
    let z = Ends-later columns.task_next columns.connection_next t ends in
    ground (arith, z, p, c, got)

-- A task that heeds the row has no time where the row could not be read.
pub not-next_eligible-read_failed :
    (task : Task) (e : ℕ)
    → is_probe_task task.kind ≡ false
    → is_capability_snapshot_task task ≡ false
    → ¬ (next_eligible task read_failed ≡ some e)
unfolding next_eligible
not-next_eligible-read_failed task e p c got = ground (arith, p, c, got)
