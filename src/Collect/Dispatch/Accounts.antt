-- ===== src/Collect/Dispatch/Accounts.antt =====
-- A round of the scheduler keeps the dispatcher's account of what runs.
use dbs_monitor.Prelude.{
  ℕ, subst, Bool, not, ◌&&◌, List, [], ◌∷◌, ◌++◌, map, if◌then◌else◌, ltb, is_zero_time, Bool-cases,
  Option-cases, inl, inr,
}
use dbs_monitor.Collect.Task.{ScheduledRun}
use dbs_monitor.Collect.Dispatcher.{Work, admit}
use dbs_monitor.Collect.Dispatcher.Slots.{Accounts, admit-Accounts, finish-Accounts, flag-Accounts}
use dbs_monitor.Collect.Eligible.{RowRead, next_eligible}
use dbs_monitor.Collect.Pending.{ordered, has_capability_snapshot}
use dbs_monitor.Collect.Dispatch.{
  Scheduler, work_of, start, put_off, offer, offer_all, dispatch, ExecutionOutcome, complete,
}

module _ {T : Type 0} (ws : List Work) where
  -- The work that runs: what this round started, and what ran before it.
  abbrev pub Accounted : Scheduler T → Type 0
  Accounted s = Accounts s.dispatcher (map work_of s.started ++ ws)

  start-Accounted :
      (now : ℕ) (run : ScheduledRun T) (s : Scheduler T) → Accounted s → Accounted (start now run s)
  unfolding start
  start-Accounted now run s a = elim (Bool-cases (admit s.dispatcher (work_of run)).1) [
    | inl admitted ↦
        rw (admitted, start)
          (flag-Accounts _ _ _ (
            subst
              (λ b. Accounts (admit s.dispatcher (work_of run)).0 (
                if b
                then work_of run ∷ map work_of s.started ++ ws
                else map work_of s.started ++ ws))
              admitted (admit-Accounts s.dispatcher (work_of run) (map work_of s.started ++ ws) a)))
    | inr refused ↦ rw (refused, start) a
  ]

  module _ (read : ScheduledRun T → RowRead) (recorded : ScheduledRun T → Bool)
      (clock : ScheduledRun T → ℕ) where
    offer-Accounted :
        (run : ScheduledRun T) (s : Scheduler T)
        → Accounted s
        → Accounted (offer read recorded clock run s)
    unfolding offer put_off
    offer-Accounted run s a = elim (Option-cases (next_eligible run.task (read run))) [
      | inl failed ↦ rw (failed, offer) a
      | inr (e, got) ↦ elim (Bool-cases (not (is_zero_time e) && ltb run.due_at e)) [
        | inl waits ↦ rw (got, offer) (rw (waits, if◌then◌else◌) a)
        | inr runs ↦
            rw (got, offer) (rw (runs, if◌then◌else◌) (start-Accounted (clock run) run s a))
      ]
    ]

    offer_all-Accounted :
        (runs : List (ScheduledRun T)) (s : Scheduler T)
        → Accounted s
        → Accounted (offer_all read recorded clock runs s)
    unfolding offer_all
    offer_all-Accounted [] s a = a
    offer_all-Accounted (run ∷ runs) s a =
        offer_all-Accounted runs (offer read recorded clock run s) (offer-Accounted run s a)

    -- Whatever the database answers and however late it is, after a round of dispatching the
    -- dispatcher accounts for the work that ran before and for the runs that the round started: the
    -- limits hold, and no instance has two probes or two queries.
    pub dispatch-Accounts :
        (s : Scheduler T)
        → Accounts s.dispatcher (map work_of s.started ++ ws)
        → let next = dispatch read recorded clock s in
          Accounts next.dispatcher (map work_of next.started ++ ws)
    unfolding dispatch
    dispatch-Accounts s a = offer_all-Accounted (ordered s.pending) _ (
        flag-Accounts s.dispatcher (has_capability_snapshot s.pending) (map work_of s.started ++ ws)
          a)

-- Completing a run that the dispatcher accounts for takes its work out of the account, whatever the
-- outcome was.
pub complete-Accounts :
    {T : Type 0} (outcome : ExecutionOutcome T) (s : Scheduler T) (xs ys : List Work)
    → Accounts s.dispatcher (xs ++ work_of outcome.run ∷ ys)
    → Accounts (complete outcome s).dispatcher (xs ++ ys)
unfolding complete
complete-Accounts outcome s xs ys a = finish-Accounts s.dispatcher (work_of outcome.run) xs ys a
