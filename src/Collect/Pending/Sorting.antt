-- ===== src/Collect/Pending/Sorting.antt =====
-- Sorting the pending runs keeps what is known of them.
use dbs_monitor.Prelude.{
  ◌≡◌, refl, false, ◌||◌, some, List, [], ◌∷◌, arith, Bool-cases, inl, inr, All, eq_iff,
}
use dbs_monitor.Collect.Task.{TaskKey, ScheduledRun, same_key}
use dbs_monitor.Collect.Pending.{find, run_less, insert, ordered}
use dbs_monitor.Collect.Pending.Map.{has, DistinctKeys}

module _ {T : Type 0} where
  has-insert :
      (k : TaskKey) (r : ScheduledRun T) (l : List (ScheduledRun T))
      → has k (insert r l) ≡ (same_key r.key k || has k l)
  unfolding insert
  has-insert k r [] = refl
  has-insert k r (x ∷ l) = ground (arith, has-insert k r l)

  has-ordered : (k : TaskKey) (l : List (ScheduledRun T)) → has k (ordered l) ≡ has k l
  unfolding ordered
  has-ordered k [] = refl
  has-ordered k (r ∷ l) = ground (arith, has-insert k r (ordered l), has-ordered k l)

  insert-DistinctKeys :
      (r : ScheduledRun T) (l : List (ScheduledRun T))
      → has r.key l ≡ false
      → DistinctKeys l
      → DistinctKeys (insert r l)
  unfolding insert
  insert-DistinctKeys r [] h d = (refl, tt)
  insert-DistinctKeys r (x ∷ l) h d = elim (Bool-cases (run_less x r)) [
    | inl less ↦ rw less (
      ground (
        arith,
        has-insert x.key r l,
        d.0,
        eq_iff x.key.instance_id r.key.instance_id,
        eq_iff x.key.task_id r.key.task_id,
        eq_iff r.key.instance_id x.key.instance_id,
        eq_iff r.key.task_id x.key.task_id,
      ),
      insert-DistinctKeys r l (ground arith) d.1,
    )
    | inr more ↦ rw more (h, d)
  ]

  pub ordered-DistinctKeys : (l : List (ScheduledRun T)) → DistinctKeys l → DistinctKeys (ordered l)
  unfolding ordered
  ordered-DistinctKeys [] d = tt
  ordered-DistinctKeys (r ∷ l) d =
      insert-DistinctKeys r (ordered l) (ground (arith, has-ordered r.key l, d.0))
        (ordered-DistinctKeys l d.1)

  All-insert {κ} :
      (P : ScheduledRun T → Type κ) (r : ScheduledRun T) (l : List (ScheduledRun T))
      → P r
      → All P l
      → All P (insert r l)
  unfolding insert
  All-insert P r [] p ps = (p, tt)
  All-insert P r (x ∷ l) p ps = elim (Bool-cases (run_less x r)) [
    | inl less ↦ rw less (ps.0, All-insert P r l p ps.1)
    | inr more ↦ rw more (p, ps)
  ]

  pub All-ordered {κ} :
      (P : ScheduledRun T → Type κ) (l : List (ScheduledRun T)) → All P l → All P (ordered l)
  unfolding ordered
  All-ordered P [] ps = tt
  All-ordered P (r ∷ l) ps = All-insert P r (ordered l) ps.0 (All-ordered P l ps.1)

  find-tail :
      (r : ScheduledRun T) (l m : List (ScheduledRun T))
      → has r.key m ≡ false
      → All (λ x. find x.key l ≡ some x) m
      → All (λ x. find x.key (r ∷ l) ≡ some x) m
  unfolding find
  find-tail r l [] h w = tt
  find-tail r l (x ∷ m) h w = (
    ground (
      arith,
      w.0,
      eq_iff r.key.instance_id x.key.instance_id,
      eq_iff r.key.task_id x.key.task_id,
      eq_iff x.key.instance_id r.key.instance_id,
      eq_iff x.key.task_id r.key.task_id,
    ),
    find-tail r l m (ground arith) w.1,
  )

  -- Each run of a list with distinct keys is what the map has at its key.
  pub find_self : (l : List (ScheduledRun T)) → DistinctKeys l → All (λ x. find x.key l ≡ some x) l
  find_self [] d = tt
  find_self (r ∷ l) d = (
    unfold find in
        ground
          (arith, eq_iff r.key.instance_id r.key.instance_id, eq_iff r.key.task_id r.key.task_id),
    find-tail r l l d.0 (find_self l d.1),
  )
