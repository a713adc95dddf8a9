-- ===== src/Collect/Dispatch.antt =====
-- `dispatch` and `complete` of internal/collect/scheduler.go: pending runs are started in order, as far
-- as the dispatcher admits them and their backoff has passed. What the code asks of the database and
-- the clock is a parameter: the row read for a run, whether the record of a deferred run was taken,
-- and the time at which a run is started.
mod Starts
mod Accounts
mod Tests
use dbs_monitor.Prelude.{
  ℕ, ◌+◌, ◌-◌, String, Bool, true, false, not, ◌&&◌, Option, none, some, List, [], ◌∷◌, ltb, ◌==◌,
  if◌then◌else◌, is_zero_time, str_eq,
}
use dbs_monitor.Collect.Task.{TaskKey, ScheduledRun, class_for}
use dbs_monitor.Collect.Dispatcher.{Dispatcher, Work, admit, finish}
use dbs_monitor.Collect.Eligible.{RowRead, next_eligible}
use dbs_monitor.Collect.Pending.{take, ordered, has_capability_snapshot}

pub record DurationSummary : Type 0 where
  pub count : ℕ
  pub total : ℕ
  pub longest : ℕ

pub record SchedulerCounts : Type 0 where
  pub success : ℕ
  pub failed : ℕ
  pub timed_out : ℕ
  pub skipped : ℕ
  pub backoff : ℕ
  pub dispatch_delay_count : ℕ
  pub dispatch_delay_total : ℕ
  pub dispatch_delay_max : ℕ
  pub task_durations : String → DurationSummary

-- `started` holds the runs for which a goroutine was started, the latest first, and `deferred` those
-- that were taken off the list because of their backoff; the source keeps neither.
pub record Scheduler (T : Type 0) : Type 0 where
  pub dispatcher : Dispatcher
  pub pending : List (ScheduledRun T)
  pub counts : SchedulerCounts
  pub started : List (ScheduledRun T)
  pub deferred : List (ScheduledRun T)

-- What is counted for a run that starts; a negative delay counts as 0.
count_delay : ℕ → SchedulerCounts → SchedulerCounts
count_delay delay c = record c {
  dispatch_delay_count = c.dispatch_delay_count + 1;
  dispatch_delay_total = c.dispatch_delay_total + delay;
  dispatch_delay_max = if ltb c.dispatch_delay_max delay then delay else c.dispatch_delay_max;
}

module _ {T : Type 0} where
  abbrev pub work_of : ScheduledRun T → Work
  work_of run = record { instance_id = run.key.instance_id; class = class_for run.task }

  -- From `item := work{…}` to the end of the body.
  start : ℕ → ScheduledRun T → Scheduler T → Scheduler T
  unfolding count_delay
  start now run s =
      let (d, admitted) = admit s.dispatcher (work_of run) in
      if not admitted
      then s
      else let pending = (take run.key s.pending).0 in
        record s {
          pending = pending;
          counts = count_delay (now - run.due_at) s.counts;
          dispatcher = record d { capability_snapshot_waiting = has_capability_snapshot pending };
          started = run ∷ s.started;
        }

  -- The branch of a run whose backoff has not passed.
  put_off : Bool → ScheduledRun T → Scheduler T → Scheduler T
  put_off recorded run s = record s {
    pending = (take run.key s.pending).0;
    counts = if recorded then record s.counts { backoff = s.counts.backoff + 1 } else s.counts;
    deferred = run ∷ s.deferred;
  }

module _ {T : Type 0} (read : ScheduledRun T → RowRead) (recorded : ScheduledRun T → Bool)
    (clock : ScheduledRun T → ℕ) where
  -- The body of the loop.
  offer : ScheduledRun T → Scheduler T → Scheduler T
  unfolding start put_off
  offer run s = elim (next_eligible run.task (read run)) [
    | none ↦ s
    | some eligible ↦
        if not (is_zero_time eligible) && ltb run.due_at eligible
        then put_off (recorded run) run s
        else start (clock run) run s
  ]

  offer_all : List (ScheduledRun T) → Scheduler T → Scheduler T
  unfolding offer
  offer_all [] s = s
  offer_all (run ∷ runs) s = offer_all runs (offer run s)

  unfoldable pub dispatch : Scheduler T → Scheduler T
  unfolding offer_all
  dispatch s = offer_all (ordered s.pending) (record s {
    dispatcher = record s.dispatcher {
      capability_snapshot_waiting = has_capability_snapshot s.pending;
    };
  })

pub data TaskResult : Type 0 where
  success failed timed_out skipped_backpressure backoff : TaskResult

pub record ExecutionOutcome (T : Type 0) : Type 0 where
  pub run : ScheduledRun T
  pub result : TaskResult
  pub duration : ℕ
  pub has_error : Bool

-- The switch over the result.
count_result : TaskResult → SchedulerCounts → SchedulerCounts
count_result success c = record c { success = c.success + 1 }
count_result timed_out c = record c { timed_out = c.timed_out + 1 }
count_result _ c = record c { failed = c.failed + 1 }

-- The summary of a task, with one more duration.
add_duration : ℕ → DurationSummary → DurationSummary
add_duration d s = record {
  count = s.count + 1;
  total = s.total + d;
  longest = if ltb s.longest d then d else s.longest;
}

unfoldable pub complete : {T : Type 0} → ExecutionOutcome T → Scheduler T → Scheduler T
unfolding count_result add_duration
complete outcome s =
    let id = outcome.run.task.id in
    let c = count_result outcome.result s.counts in
    let durations = λ (j : String).
      if str_eq id j
      then add_duration outcome.duration (c.task_durations j)
      else c.task_durations j in
    record s {
      dispatcher = finish s.dispatcher (work_of outcome.run);
      counts = if outcome.has_error then s.counts else record c { task_durations = durations };
    }
