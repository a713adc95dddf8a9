-- ===== src/Collect/Dispatch/Starts.antt =====
-- A round of the scheduler loses no run: each that was pending is started, deferred or still pending.
use mathlib.Core.List.{Perm, perm_middle}
use mathlib.Core.List.Perm
use dbs_monitor.Prelude.{
  ℕ, ◌≤◌, ◌<◌, ◌≡◌, refl, inl, inr, Bool, true, false, not, ◌&&◌, some, List, [], ◌∷◌, ◌++◌, arith,
  if◌then◌else◌, ltb, is_zero_time, Bool-cases, Option-cases, All, eq_iff,
}
use dbs_monitor.Collect.Task.{TaskKey, ScheduledRun, same_key, is_capability_snapshot_task}
use dbs_monitor.Collect.Dispatcher.{admit}
use dbs_monitor.Metric.Task.{is_probe_task}
use dbs_monitor.Collect.Eligible.{EligibleRow, RowRead, read_failed, row, next_eligible}
use dbs_monitor.Collect.Eligible.Later.{
  Ends, next_eligible-Ends, Ends-next_eligible, not-next_eligible-read_failed,
}
use dbs_monitor.Collect.Pending.{find, delete, take, ordered}
use dbs_monitor.Collect.Pending.Map.{has, DistinctKeys, find-take, put-take-DistinctKeys}
use dbs_monitor.Collect.Pending.Sorting.{ordered-DistinctKeys, All-ordered, find_self}
use dbs_monitor.Collect.Dispatch.{Scheduler, work_of, start, put_off, offer, offer_all, dispatch}

module _ {T : Type 0} where
  delete-absent : (key : TaskKey) (l : List (ScheduledRun T)) → has key l ≡ false → delete key l ≡ l
  unfolding delete
  delete-absent key [] h = refl
  delete-absent key (r ∷ l) h = ground (arith, delete-absent key l)

  has-same : (a b : TaskKey) (l : List (ScheduledRun T)) → same_key a b ≡ true → has a l ≡ has b l
  has-same a b [] h = refl
  has-same a b (r ∷ l) h =
      ground
        (arith, has-same a b l h, eq_iff a.instance_id b.instance_id, eq_iff a.task_id b.task_id)

  -- A run that is found is the only one of its key.
  find-perm :
      (run : ScheduledRun T) (l : List (ScheduledRun T))
      → DistinctKeys l
      → find run.key l ≡ some run
      → Perm l (run ∷ delete run.key l)
  unfolding find delete
  find-perm run [] d e = cc
  find-perm run (r ∷ l) d e = elim (Bool-cases (same_key r.key run.key)) [
    | inl same ↦
        let absent : has run.key l ≡ false = ground (arith, has-same r.key run.key l same, d.0) in
        rw (same, if◌then◌else◌, delete-absent run.key l absent)
          (Perm.cons' (ground arith) Perm.rfl)
    | inr other ↦
        rw (other, if◌then◌else◌)
          (Perm.trans (Perm.cons r (find-perm run l d.1 (ground arith))) (Perm.swap run r _))
  ]

  -- The runs that the scheduler holds or has let go in this round.
  abbrev pub held : Scheduler T → List (ScheduledRun T)
  held s = s.pending ++ (s.started ++ s.deferred)

  -- The runs that are still to be offered, against the pending ones.
  record Offers (runs : List (ScheduledRun T)) (s : Scheduler T) : Type 0 where
    distinct : DistinctKeys s.pending
    apart : DistinctKeys runs
    waiting : All (λ r. find r.key s.pending ≡ some r) runs

  -- `s'` has let `run` go, or is as `s` was.
  data Moves (run : ScheduledRun T) (s s' : Scheduler T) : Type 0 where
    kept :
        s'.pending ≡ s.pending → s'.started ≡ s.started → s'.deferred ≡ s.deferred → Moves run s s'
    begun :
        s'.pending ≡ delete run.key s.pending
        → s'.started ≡ run ∷ s.started
        → s'.deferred ≡ s.deferred
        → Moves run s s'
    postponed :
        s'.pending ≡ delete run.key s.pending
        → s'.started ≡ s.started
        → s'.deferred ≡ run ∷ s.deferred
        → Moves run s s'

  start-Moves : (now : ℕ) (run : ScheduledRun T) (s : Scheduler T) → Moves run s (start now run s)
  unfolding start take
  start-Moves now run s = elim (Bool-cases (admit s.dispatcher (work_of run)).1) [
    | inl admitted ↦ begun (ground arith) (ground arith) (ground arith)
    | inr refused ↦ kept (ground arith) (ground arith) (ground arith)
  ]

  remove-perm :
      (run : ScheduledRun T) (l xs : List (ScheduledRun T))
      → DistinctKeys l
      → find run.key l ≡ some run
      → Perm (delete run.key l ++ run ∷ xs) (l ++ xs)
  remove-perm run l xs d e =
      Perm.trans (perm_middle (delete run.key l) xs)
        (Perm.append_right xs (Perm.symm (find-perm run l d e)))

  Moves-perm :
      (run : ScheduledRun T) (s s' : Scheduler T)
      → DistinctKeys s.pending
      → find run.key s.pending ≡ some run
      → Moves run s s'
      → Perm (held s') (held s)
  Moves-perm run s s' d e (kept p q r) = rw (p, q, r) Perm.rfl
  Moves-perm run s s' d e (begun p q r) =
      rw (p, q, r) (remove-perm run s.pending (s.started ++ s.deferred) d e)
  Moves-perm run s s' d e (postponed p q r) =
      rw (p, q, r)
        (Perm.trans (Perm.append_left (delete run.key s.pending) (perm_middle s.started s.deferred))
          (remove-perm run s.pending (s.started ++ s.deferred) d e))

  delete-DistinctKeys' :
      (run : ScheduledRun T) (l : List (ScheduledRun T))
      → DistinctKeys l
      → DistinctKeys (delete run.key l)
  unfolding take
  delete-DistinctKeys' run l d = (put-take-DistinctKeys run run.key l d).1

  still_waiting :
      (run : ScheduledRun T) (l rest : List (ScheduledRun T))
      → has run.key rest ≡ false
      → All (λ r. find r.key l ≡ some r) rest
      → All (λ r. find r.key (delete run.key l) ≡ some r) rest
  unfolding take
  still_waiting run l [] h w = tt
  still_waiting run l (r ∷ rest) h w = (
    ground (
      arith,
      w.0,
      (find-take run.key r.key l).0,
      eq_iff run.key.instance_id r.key.instance_id,
      eq_iff run.key.task_id r.key.task_id,
    ),
    still_waiting run l rest (ground arith) w.1,
  )

  Moves-Offers :
      (run : ScheduledRun T) (rest : List (ScheduledRun T)) (s s' : Scheduler T)
      → Offers (run ∷ rest) s
      → Moves run s s'
      → Offers rest s'
  Moves-Offers run rest s s' o (kept p q r) = record {
    distinct = rw p o.distinct;
    apart = o.apart.1;
    waiting = rw p o.waiting.1;
  }
  Moves-Offers run rest s s' o (begun p q r) = record {
    distinct = rw p (delete-DistinctKeys' run s.pending o.distinct);
    apart = o.apart.1;
    waiting = rw p (still_waiting run s.pending rest o.apart.0 o.waiting.1);
  }
  Moves-Offers run rest s s' o (postponed p q r) = record {
    distinct = rw p (delete-DistinctKeys' run s.pending o.distinct);
    apart = o.apart.1;
    waiting = rw p (still_waiting run s.pending rest o.apart.0 o.waiting.1);
  }

  module _ (read : ScheduledRun T → RowRead) (recorded : ScheduledRun T → Bool)
      (clock : ScheduledRun T → ℕ) where
    offer-Moves :
        (run : ScheduledRun T) (s : Scheduler T) → Moves run s (offer read recorded clock run s)
    unfolding offer put_off take
    offer-Moves run s = elim (Option-cases (next_eligible run.task (read run))) [
      | inl failed ↦ rw (failed, offer) (kept refl refl refl)
      | inr (e, got) ↦ elim (Bool-cases (not (is_zero_time e) && ltb run.due_at e)) [
        | inl waits ↦ rw (got, offer) (rw (waits, if◌then◌else◌) (postponed refl refl refl))
        | inr runs ↦ rw (got, offer) (rw (runs, if◌then◌else◌) (start-Moves (clock run) run s))
      ]
    ]

    offer_all-perm :
        (runs : List (ScheduledRun T)) (s : Scheduler T)
        → Offers runs s
        → Perm (held (offer_all read recorded clock runs s)) (held s)
    unfolding offer_all
    offer_all-perm [] s o = Perm.rfl
    offer_all-perm (run ∷ runs) s o =
        let moves = offer-Moves run s in
        Perm.trans
          (offer_all-perm runs (offer read recorded clock run s)
            (Moves-Offers run runs s _ o moves))
          (Moves-perm run s _ o.distinct o.waiting.0 moves)

    -- Where the pending runs have distinct keys, a round of dispatching neither loses nor makes up a
    -- run: what was pending, started or deferred before is, in some order, what is so after.
    pub dispatch-conserves :
        (s : Scheduler T)
        → DistinctKeys s.pending
        → Perm (held (dispatch read recorded clock s)) (held s)
    unfolding dispatch
    dispatch-conserves s d = offer_all-perm (ordered s.pending) _ (record {
      distinct = d;
      apart = ordered-DistinctKeys s.pending d;
      waiting = All-ordered (λ r. find r.key s.pending ≡ some r) s.pending (find_self s.pending d);
    })

    -- The row of the database has a backoff of the run, or of its connection, that ends at `t`. A
    -- probe and a capability snapshot heed none.
    abbrev pub Backoff : ScheduledRun T → ℕ → Type 0
    Backoff run t =
        (is_probe_task run.task.kind ≡ false)
        × (is_capability_snapshot_task run.task ≡ false)
        × (columns : EligibleRow) × (read run ≡ row columns)
        × Ends columns t

    -- No backoff of the run ends after the time at which it is due, and its row was read if it heeds
    -- one.
    abbrev pub IsDue : ScheduledRun T → Type 0
    IsDue run =
        ((t : ℕ) → Backoff run t → t ≤ run.due_at)
        × (is_probe_task run.task.kind ≡ false
            → is_capability_snapshot_task run.task ≡ false
            → ¬ (read run ≡ read_failed))

    -- A backoff of the run ends after the time at which it is due.
    abbrev pub IsEarly : ScheduledRun T → Type 0
    IsEarly run = (t : ℕ) × Backoff run t × (run.due_at < t)

    eligible-IsDue :
        (run : ScheduledRun T) (e : ℕ)
        → next_eligible run.task (read run) ≡ some e
        → (not (is_zero_time e) && ltb run.due_at e) ≡ false
        → IsDue run
    eligible-IsDue run e got h = (
      λ t (p, c, columns, found, ends).
          let last = Ends-next_eligible run.task columns e t p c (rw (← found) got) ends in
          ground (arith, h, last),
      λ p c failed. not-next_eligible-read_failed run.task e p c (rw (← failed) got),
    )

    eligible-IsEarly :
        (run : ScheduledRun T) (e : ℕ)
        → next_eligible run.task (read run) ≡ some e
        → (not (is_zero_time e) && ltb run.due_at e) ≡ true
        → IsEarly run
    eligible-IsEarly run e got h =
        (e, next_eligible-Ends run.task (read run) e got (ground arith), ground arith)

    -- Every run that was started is due, and every one that was put off is early.
    abbrev pub Justified : Scheduler T → Type 0
    Justified s = All IsDue s.started × All IsEarly s.deferred

    start-Justified :
        (now : ℕ) (run : ScheduledRun T) (s : Scheduler T)
        → IsDue run
        → Justified s
        → Justified (start now run s)
    unfolding start
    start-Justified now run s due j = elim (Bool-cases (admit s.dispatcher (work_of run)).1) [
      | inl admitted ↦ rw (admitted, start) ((due, j.0), j.1)
      | inr refused ↦ rw (refused, start) j
    ]

    offer-Justified :
        (run : ScheduledRun T) (s : Scheduler T)
        → Justified s
        → Justified (offer read recorded clock run s)
    unfolding offer put_off
    offer-Justified run s j = elim (Option-cases (next_eligible run.task (read run))) [
      | inl failed ↦ rw (failed, offer) j
      | inr (e, got) ↦ elim (Bool-cases (not (is_zero_time e) && ltb run.due_at e)) [
        | inl waits ↦
            let early = eligible-IsEarly run e got waits in
            rw (got, offer) (rw (waits, if◌then◌else◌) (j.0, (early, j.1)))
        | inr runs ↦
            let due = eligible-IsDue run e got runs in
            rw (got, offer) (rw (runs, if◌then◌else◌) (start-Justified (clock run) run s due j))
      ]
    ]

    offer_all-Justified :
        (runs : List (ScheduledRun T)) (s : Scheduler T)
        → Justified s
        → Justified (offer_all read recorded clock runs s)
    unfolding offer_all
    offer_all-Justified [] s j = j
    offer_all-Justified (run ∷ runs) s j =
        offer_all-Justified runs (offer read recorded clock run s) (offer-Justified run s j)

    -- From a round that has started and put off nothing, a round of dispatching starts no run that has
    -- a backoff, its own or its connection's, which ends after the time at which the run is due, nor
    -- one whose backoff could not be read, and puts off only runs that have one which ends after that
    -- time.
    pub dispatch-Justified :
        (s : Scheduler T)
        → s.started ≡ []
        → s.deferred ≡ []
        → Justified (dispatch read recorded clock s)
    unfolding dispatch
    dispatch-Justified s p q = offer_all-Justified (ordered s.pending) _ (rw (p, q) (tt, tt))
