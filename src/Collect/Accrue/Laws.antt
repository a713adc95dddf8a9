-- ===== src/Collect/Accrue/Laws.antt =====
-- What the loop over one entry of the schedule does.
use dbs_monitor.Prelude.{
  ℕ, zero, suc, ◌+◌, ◌-◌, ◌*◌, ◌≤◌, ◌<◌, ◌≡◌, refl, ◌⊎◌, inl, inr, Bool, true, Option, none, some,
  arith, leb, eq_iff, Bool-cases, ap, ◌∙◌, leb→le,
}
use dbs_monitor.Collect.Task.{TaskKey, ScheduledRun, same_key}
use dbs_monitor.Collect.Pending.{find, put}
use dbs_monitor.Collect.Pending.Map.{find-put}
use dbs_monitor.Collect.Accrue.{Accrual, count_replaced, accrue_due, accrue_entry, entry_fuel}

one_further : (a i k : ℕ) → a + i + (suc k - 1) * i ≡ a + (suc (suc k) - 1) * i
one_further a i k =
    let p : suc k - 1 ≡ k = omega arith in
    let q : suc (suc k) - 1 ≡ suc k = omega arith in rw (p, q) (omega arith)

module _ {T : Type 0} (recorded : ScheduledRun T → Bool) where
  -- The run of a template that is due at a time.
  abbrev pub due : ScheduledRun T → ℕ → ScheduledRun T
  due template at_time = record template { due_at = at_time }

  same_key_refl : (k : TaskKey) → same_key k k ≡ true
  same_key_refl k = ground (arith, eq_iff k.instance_id k.instance_id, eq_iff k.task_id k.task_id)

  -- 1 where a run of the key waits.
  abbrev pub held : Option (ScheduledRun T) → ℕ
  held none = 0
  held (some r) = 1

  -- `s` before the loop, `t` after `rounds` of it.
  record Progress (template : ScheduledRun T) (now rounds : ℕ) (s t : Accrual T) : Type 0 where
    past : now < t.next_due
    grid : t.next_due ≡ s.next_due + rounds * template.interval
    soon : 0 < rounds → t.next_due ≤ now + template.interval
    none_due : rounds ≡ 0 → t ≡ s
    latest :
        0 < rounds
        → find template.key t.pending
          ≡ some (due template (s.next_due + (rounds - 1) * template.interval))
    counted :
        0 < rounds
        → ((r : ScheduledRun T) → recorded r ≡ true)
        → t.skipped + 1 ≡ s.skipped + rounds + held (find template.key s.pending)

  accrue_due-find :
      (template : ScheduledRun T) (s : Accrual T)
      → find template.key (accrue_due recorded template s).pending ≡ some (due template s.next_due)
  unfolding accrue_due
  accrue_due-find template s =
      rw ((find-put (due template s.next_due) template.key s.pending).0, same_key_refl template.key)

  accrue_due-counts :
      (template : ScheduledRun T) (s : Accrual T)
      → ((accrue_due recorded template s).next_due ≡ s.next_due + template.interval)
        × (((r : ScheduledRun T) → recorded r ≡ true)
            → (accrue_due recorded template s).skipped
              ≡ s.skipped + held (find template.key s.pending))
  unfolding accrue_due put find
  accrue_due-counts template s = (refl, λ all. count (find template.key s.pending) all)
    where
      count :
          (o : Option (ScheduledRun T))
          → ((r : ScheduledRun T) → recorded r ≡ true)
          → count_replaced recorded o s.skipped ≡ s.skipped + held o
      count none all = unfold count_replaced in omega arith
      count (some r) all = unfold count_replaced in ground (arith, all r)

  -- One more round in front.
  Progress-suc :
      (template : ScheduledRun T) (now rounds : ℕ) (s t : Accrual T)
      → s.next_due ≤ now
      → Progress template now rounds (accrue_due recorded template s) t
      → Progress template now (suc rounds) s t
  Progress-suc template now zero s t d p =
      let (next, count) = accrue_due-counts template s in
      let same = p.none_due refl in
      record {
        past = p.past;
        grid = omega (arith, p.grid);
        soon = λ _. omega (arith, p.grid);
        none_due = λ e. absurd (omega arith);
        latest = λ _. rw same (ground (arith, accrue_due-find template s));
        counted = λ _ all. rw same (omega (arith, count all));
      }
  Progress-suc template now (suc k) s t d p =
      let (next, count) = accrue_due-counts template s in
      record {
        past = p.past;
        grid = omega (arith, p.grid);
        soon = λ _. p.soon (omega arith);
        none_due = λ e. absurd (omega arith);
        latest = λ _.
            let moved : (accrue_due recorded template s).next_due + (suc k - 1) * template.interval
                ≡ s.next_due + (suc (suc k) - 1) * template.interval =
              rw next (one_further s.next_due template.interval k) in
            p.latest (omega arith) ∙ ap (λ (n : ℕ). some (due template n)) moved;
        counted = λ _ all.
            omega
              (arith, p.counted (omega arith) all, count all, ap held (accrue_due-find template s));
      }

  accrue_entry-Progress :
      (fuel now : ℕ) (template : ScheduledRun T) (s : Accrual T)
      → 0 < template.interval
      → suc now - s.next_due < fuel
      → (rounds : ℕ) × (t : Accrual T) × (accrue_entry recorded fuel now template s ≡ some t)
        × Progress template now rounds s t
  unfolding accrue_entry
  accrue_entry-Progress zero now template s h f = absurd (omega arith)
  accrue_entry-Progress (suc fuel) now template s h f = elim (Bool-cases (leb s.next_due now)) [
    | inl is_due ↦
        let (k, t, e, p) =
          accrue_entry-Progress fuel now template (accrue_due recorded template s) h
            (omega (arith, (accrue_due-counts template s).0, leb→le s.next_due now is_due)) in
        (suc k, t, ground arith, Progress-suc template now k s t (leb→le s.next_due now is_due) p)
    | inr later ↦ (
      0,
      s,
      ground arith,
      record {
        past = ground arith;
        grid = omega arith;
        soon = λ e. absurd (omega arith);
        none_due = λ _. refl;
        latest = λ e. absurd (omega arith);
        counted = λ e. absurd (omega arith);
      },
    )
  ]

  -- For a task of a positive interval the loop ends within its fuel, after some number of rounds. It
  -- leaves the entry due after now, and on the same grid. Either nothing fell due and nothing changed,
  -- or the entry is due within one interval from now and, of the runs that fell due, the latest waits.
  pub accrue_entry_lem :
      (now : ℕ) (template : ScheduledRun T) (s : Accrual T)
      → 0 < template.interval
      → (rounds : ℕ) × (t : Accrual T) × (accrue_entry recorded
            (entry_fuel now s.next_due)
            now
            template
            s
          ≡ some t)
        × (now < t.next_due)
        × (t.next_due ≡ s.next_due + rounds * template.interval)
        × (((rounds ≡ 0) × (t ≡ s))
            ⊎ ((0 < rounds)
                × (t.next_due ≤ now + template.interval)
                × (find template.key t.pending
                    ≡ some (due template (s.next_due + (rounds - 1) * template.interval)))))
  accrue_entry_lem now template s h =
      let (k, t, e, p) =
        accrue_entry-Progress (entry_fuel now s.next_due) now template s h (omega arith) in
      (k, t, e, p.past, p.grid, settled k t p)
    where
      settled :
          (k : ℕ) (t : Accrual T)
          → Progress template now k s t
          → ((k ≡ 0) × (t ≡ s))
            ⊎ ((0 < k)
                × (t.next_due ≤ now + template.interval)
                × (find template.key t.pending
                    ≡ some (due template (s.next_due + (k - 1) * template.interval))))
      settled zero t p = inl (refl, p.none_due refl)
      settled (suc k) t p = inr (omega arith, p.soon (omega arith), p.latest (omega arith))

  -- For a task of a positive interval that is due, and a database that takes every record: of the runs
  -- that fell due all but the latest are counted as skipped, and so is the run that waited before.
  pub accrue_entry_skips :
      (now : ℕ) (template : ScheduledRun T) (s : Accrual T)
      → 0 < template.interval
      → s.next_due ≤ now
      → ((r : ScheduledRun T) → recorded r ≡ true)
      → (rounds : ℕ) × (t : Accrual T) × (accrue_entry recorded
            (entry_fuel now s.next_due)
            now
            template
            s
          ≡ some t)
        × (t.next_due ≡ s.next_due + rounds * template.interval)
        × (t.skipped + 1 ≡ s.skipped + rounds + held (find template.key s.pending))
  accrue_entry_skips now template s h d all =
      let (k, t, e, p) =
        accrue_entry-Progress (entry_fuel now s.next_due) now template s h (omega arith) in
      (k, t, e, p.grid, p.counted (some_round k t p) all)
    where
      some_round : (k : ℕ) (t : Accrual T) → Progress template now k s t → 0 < k
      some_round zero t p = absurd (omega (arith, p.past, p.grid))
      some_round (suc k) t p = omega arith
