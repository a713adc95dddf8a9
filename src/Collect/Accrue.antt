-- ===== src/Collect/Accrue.antt =====
-- `accrue` of internal/collect/scheduler.go: the runs that fall due are put among the pending ones, and
-- a run that is replaced there is recorded as skipped. `recorded` says of a replaced run whether the
-- database took the record of it (a capability snapshot's and another task's take different calls).
mod Laws
mod Tests
use dbs_monitor.Prelude.{
  ℕ, zero, suc, ◌+◌, ◌-◌, ◌*◌, Bool, true, false, Option, none, some, List, [], ◌∷◌, leb,
  if◌then◌else◌,
}
use dbs_monitor.Collect.Task.{TaskKey, ScheduledRun, task_key_less}
use dbs_monitor.Collect.Pending.{put}

pub record ScheduleEntry (T : Type 0) : Type 0 where
  pub template : ScheduledRun T
  pub next_due : ℕ

-- What the loop over one entry changes.
pub record Accrual (T : Type 0) : Type 0 where
  pub pending : List (ScheduledRun T)
  pub skipped : ℕ
  pub next_due : ℕ

-- Fuel for the inner loop: a round for each time unit up to now, and one to leave the loop.
abbrev pub entry_fuel : ℕ → ℕ → ℕ
entry_fuel now next_due = suc (suc now - next_due)

module _ {T : Type 0} where
  insert_entry : ScheduleEntry T → List (ScheduleEntry T) → List (ScheduleEntry T)
  insert_entry e [] = e ∷ []
  insert_entry e (x ∷ xs) =
      if task_key_less x.template.key e.template.key then x ∷ insert_entry e xs else e ∷ x ∷ xs

  -- The keys in order: the entries themselves are sorted, since each stands under its template's key.
  sort_entries : List (ScheduleEntry T) → List (ScheduleEntry T)
  unfolding insert_entry
  sort_entries [] = []
  sort_entries (e ∷ es) = insert_entry e (sort_entries es)

module _ {T : Type 0} (recorded : ScheduledRun T → Bool) where
  -- What is counted for the run that `put` replaced.
  count_replaced : Option (ScheduledRun T) → ℕ → ℕ
  count_replaced none skipped = skipped
  count_replaced (some r) skipped = if recorded r then skipped + 1 else skipped

  -- The body of the inner loop.
  accrue_due : ScheduledRun T → Accrual T → Accrual T
  unfolding count_replaced
  accrue_due template s =
      let (items, replaced) = put (record template { due_at = s.next_due }) s.pending in
      record {
        pending = items;
        skipped = count_replaced replaced s.skipped;
        next_due = s.next_due + template.interval;
      }

  -- The inner loop; `none` means that the fuel ran out.
  unfoldable pub accrue_entry : ℕ → ℕ → ScheduledRun T → Accrual T → Option (Accrual T)
  unfolding accrue_due
  accrue_entry zero now template s = none
  accrue_entry (suc fuel) now template s =
      let rest = accrue_entry fuel now template (accrue_due template s) in
      if leb s.next_due now then rest else some s

  -- The outer loop, over the sorted entries.
  unfoldable pub accrue_entries :
      ℕ
      → List (ScheduleEntry T)
      → List (ScheduledRun T)
      → ℕ
      → Option (List (ScheduleEntry T) × List (ScheduledRun T) × ℕ)
  unfolding accrue_entry
  accrue_entries now [] pending skipped = some ([], pending, skipped)
  accrue_entries now (e ∷ es) pending skipped =
      elim (accrue_entry (entry_fuel now e.next_due) now e.template
        (record { pending = pending; skipped = skipped; next_due = e.next_due })) [
          | none ↦ none
          | some s ↦ elim (accrue_entries now es s.pending s.skipped) [
            | none ↦ none
            | some (rest, items, total) ↦
                some (record e { next_due = s.next_due } ∷ rest, items, total)
          ]
        ]

  unfoldable pub accrue :
      ℕ
      → List (ScheduleEntry T)
      → List (ScheduledRun T)
      → ℕ
      → Option (List (ScheduleEntry T) × List (ScheduledRun T) × ℕ)
  unfolding sort_entries accrue_entries
  accrue now schedule pending skipped = accrue_entries now (sort_entries schedule) pending skipped
