-- ===== src/Collect/Pending/Map.antt =====
-- The pending runs as a map from keys.
use dbs_monitor.Prelude.{
  ◌≡◌, refl, Bool, true, false, not, ◌&&◌, ◌||◌, none, some, List, [], ◌∷◌, arith, if◌then◌else◌,
  eq_iff,
}
use dbs_monitor.Collect.Task.{TaskKey, ScheduledRun, same_key}
use dbs_monitor.Collect.Pending.{find, delete, put, take}

same_key_trans : (a b c : TaskKey) → same_key a b ≡ true → same_key a c ≡ same_key b c
same_key_trans a b c h =
    ground (arith, eq_iff a.instance_id b.instance_id, eq_iff a.task_id b.task_id)

module _ {T : Type 0} where
  find-delete :
      (key other : TaskKey) (items : List (ScheduledRun T))
      → find other (delete key items) ≡ (if same_key key other then none else find other items)
  unfolding find delete
  find-delete key other [] = ground arith
  find-delete key other (r ∷ rs) = ground (
    arith,
    find-delete key other rs,
    same_key_trans r.key key other,
    eq_iff key.instance_id other.instance_id,
    eq_iff key.task_id other.task_id,
    eq_iff r.key.instance_id other.instance_id,
    eq_iff r.key.task_id other.task_id,
    eq_iff r.key.instance_id key.instance_id,
    eq_iff r.key.task_id key.task_id,
  )

  -- After `put` the map has the new run at its key and is unchanged elsewhere, and the previous run
  -- of the key is handed back.
  pub find-put :
      (run : ScheduledRun T) (other : TaskKey) (items : List (ScheduledRun T))
      → (find other (put run items).0
          ≡ (if same_key run.key other then some run else find other items))
        × ((put run items).1 ≡ find run.key items)
  unfolding put
  find-put run other items = (unfold find in ground (arith, find-delete run.key other items), refl)

  -- After `take` the key is gone, the map is unchanged elsewhere, and the run is handed back.
  pub find-take :
      (key other : TaskKey) (items : List (ScheduledRun T))
      → (find other (take key items).0 ≡ (if same_key key other then none else find other items))
        × ((take key items).1 ≡ find key items)
  unfolding take
  find-take key other items = (find-delete key other items, refl)

  -- Whether a key stands in the map.
  abbrev pub has : TaskKey → List (ScheduledRun T) → Bool
  has key [] = false
  has key (r ∷ rs) = same_key r.key key || has key rs

  -- No two runs of the list have one key.
  abbrev pub DistinctKeys : List (ScheduledRun T) → Type 0
  DistinctKeys [] = Unit
  DistinctKeys (r ∷ rs) = (has r.key rs ≡ false) × DistinctKeys rs

  has-delete :
      (key other : TaskKey) (items : List (ScheduledRun T))
      → has other (delete key items) ≡ (not (same_key key other) && has other items)
  unfolding delete
  has-delete key other [] = ground arith
  has-delete key other (r ∷ rs) = ground (
    arith,
    has-delete key other rs,
    eq_iff key.instance_id other.instance_id,
    eq_iff key.task_id other.task_id,
    eq_iff r.key.instance_id other.instance_id,
    eq_iff r.key.task_id other.task_id,
    eq_iff r.key.instance_id key.instance_id,
    eq_iff r.key.task_id key.task_id,
  )

  delete-DistinctKeys :
      (key : TaskKey) (items : List (ScheduledRun T))
      → DistinctKeys items
      → DistinctKeys (delete key items)
  unfolding delete
  delete-DistinctKeys key [] d = tt
  delete-DistinctKeys key (r ∷ rs) d =
      ground (arith, has-delete key r.key rs, delete-DistinctKeys key rs d.1)

  -- `put` and `take` keep the keys distinct, so at most one run of a task waits on an instance.
  pub put-take-DistinctKeys :
      (run : ScheduledRun T) (key : TaskKey) (items : List (ScheduledRun T))
      → DistinctKeys items
      → DistinctKeys (put run items).0 × DistinctKeys (take key items).0
  unfolding put take
  put-take-DistinctKeys run key items d = (
    (
      ground (
        arith,
        has-delete run.key run.key items,
        eq_iff run.key.instance_id run.key.instance_id,
        eq_iff run.key.task_id run.key.task_id,
      ),
      delete-DistinctKeys run.key items d,
    ),
    delete-DistinctKeys key items d,
  )
