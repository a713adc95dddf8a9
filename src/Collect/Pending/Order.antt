-- ===== src/Collect/Pending/Order.antt =====
-- The order in which pending runs are offered to the dispatcher.
use mathlib.Core.List.{Perm}
use mathlib.Core.List.Perm
use dbs_monitor.Prelude.{
  ◌≤◌, ◌≡◌, ◌⊎◌, inl, inr, true, false, List, [], ◌∷◌, arith, All, Bool-cases,
}
use dbs_monitor.Collect.Task.{ScheduledRun, is_capability_snapshot_task}
use dbs_monitor.Collect.Pending.{run_less, insert, ordered}

module _ {T : Type 0} where
  insert-perm : (r : ScheduledRun T) (l : List (ScheduledRun T)) → Perm (insert r l) (r ∷ l)
  unfolding insert
  insert-perm r [] = Perm.rfl
  insert-perm r (x ∷ l) = elim (Bool-cases (run_less x r)) [
    | inl less ↦ rw less (Perm.trans (Perm.cons x (insert-perm r l)) (Perm.swap r x l))
    | inr more ↦ rw more Perm.rfl
  ]

  ordered-perm : (l : List (ScheduledRun T)) → Perm (ordered l) l
  unfolding ordered
  ordered-perm [] = Perm.nil
  ordered-perm (r ∷ l) = Perm.trans (insert-perm r (ordered l)) (Perm.cons r (ordered-perm l))

  -- `a` may stand before `b`: capability snapshots first, then by the time at which they are due.
  abbrev pub Before : ScheduledRun T → ScheduledRun T → Type 0
  Before a b =
      ((is_capability_snapshot_task a.task ≡ true) × (is_capability_snapshot_task b.task ≡ false))
      ⊎ ((is_capability_snapshot_task a.task ≡ is_capability_snapshot_task b.task)
          × (a.due_at ≤ b.due_at))

  abbrev pub IsOrdered : List (ScheduledRun T) → Type 0
  IsOrdered [] = Unit
  IsOrdered (a ∷ l) = All (Before a) l × IsOrdered l

  Before-trans : (a b c : ScheduledRun T) → Before a b → Before b c → Before a c
  Before-trans a b c h k = ground arith

  All-Before :
      (a b : ScheduledRun T) (l : List (ScheduledRun T))
      → Before a b
      → All (Before b) l
      → All (Before a) l
  All-Before a b [] h k = tt
  All-Before a b (c ∷ l) h k = (Before-trans a b c h k.0, All-Before a b l h k.1)

  Before-of_less : (a b : ScheduledRun T) → run_less a b ≡ true → Before a b
  unfolding run_less
  Before-of_less a b h = ground arith

  Before-of_not_less : (a b : ScheduledRun T) → run_less b a ≡ false → Before a b
  unfolding run_less
  Before-of_not_less a b h = ground arith

  All-insert :
      (a r : ScheduledRun T) (l : List (ScheduledRun T))
      → Before a r
      → All (Before a) l
      → All (Before a) (insert r l)
  unfolding insert
  All-insert a r [] h k = (h, tt)
  All-insert a r (x ∷ l) h k = elim (Bool-cases (run_less x r)) [
    | inl less ↦ rw less (k.0, All-insert a r l h k.1)
    | inr more ↦ rw more (h, k)
  ]

  insert-IsOrdered :
      (r : ScheduledRun T) (l : List (ScheduledRun T)) → IsOrdered l → IsOrdered (insert r l)
  unfolding insert
  insert-IsOrdered r [] o = (tt, tt)
  insert-IsOrdered r (x ∷ l) o = elim (Bool-cases (run_less x r)) [
    | inl less ↦ rw less (All-insert x r l (Before-of_less x r less) o.0, insert-IsOrdered r l o.1)
    | inr more ↦
        let first = Before-of_not_less r x more in rw more ((first, All-Before r x l first o.0), o)
  ]

  ordered-sorts : (l : List (ScheduledRun T)) → IsOrdered (ordered l)
  unfolding ordered
  ordered-sorts [] = tt
  ordered-sorts (r ∷ l) = insert-IsOrdered r (ordered l) (ordered-sorts l)

  -- The runs are offered each exactly once, the capability snapshots before all others, and within
  -- each of the two kinds by the time at which they are due.
  pub ordered_lem : (l : List (ScheduledRun T)) → Perm (ordered l) l × IsOrdered (ordered l)
  ordered_lem l = (ordered-perm l, ordered-sorts l)
