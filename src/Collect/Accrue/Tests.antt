-- ===== src/Collect/Accrue/Tests.antt =====
-- The loop over one entry of the schedule, on a task that fell due three times.
use dbs_monitor.Prelude.{ℕ, ◌+◌, ◌-◌, ◌*◌, ◌≤◌, ◌<◌, ◌≡◌, ◌⊎◌, Bool, true, some, [], ◌∷◌, arith}
use dbs_monitor.Collect.Samples.{run_at}
use dbs_monitor.Collect.Task.{ScheduledRun}
use dbs_monitor.Collect.Pending.{find}
use dbs_monitor.Collect.Accrue.{Accrual, accrue_entry, entry_fuel}
use dbs_monitor.Collect.Accrue.Laws.{due, accrue_entry_lem}

abbrev template : ScheduledRun ℕ
template = run_at "a" 0

abbrev before : Accrual ℕ
before = record { pending = run_at "a" 2 ∷ []; skipped = 0; next_due = 7 }

abbrev recorded : ScheduledRun ℕ → Bool
recorded run = true

accrue_entry_lem_example :
    (rounds : ℕ) × (t : Accrual ℕ) × (accrue_entry recorded (entry_fuel 20 7) 20 template before
      ≡ some t)
    × (20 < t.next_due)
    × (t.next_due ≡ before.next_due + rounds * template.interval)
    × (((rounds ≡ 0) × (t ≡ before))
        ⊎ ((0 < rounds)
            × (t.next_due ≤ 20 + template.interval)
            × (find template.key t.pending
                ≡ some
                    (due recorded template (before.next_due + (rounds - 1) * template.interval)))))
accrue_entry_lem_example = accrue_entry_lem recorded 20 template before (omega arith)
