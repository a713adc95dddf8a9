-- ===== src/Collect/Dispatch/Tests.antt =====
-- A round of dispatching of internal/collect/scheduler.go with two pending runs and one query slot.
use mathlib.Core.List.{Perm}
use dbs_monitor.Prelude.{ℕ, refl, Bool, true, false, some, [], ◌∷◌, ◌++◌, map}
use dbs_monitor.Collect.Samples.{run_at}
use dbs_monitor.Collect.Task.{ScheduledRun, class_for}
use dbs_monitor.Collect.Dispatcher.{new_dispatcher, admit}
use dbs_monitor.Collect.Dispatcher.Slots.{Accounts, new_dispatcher-Accounts, admit-Accounts}
use dbs_monitor.Collect.Eligible.{RowRead, row}
use dbs_monitor.Collect.Dispatch.{Scheduler, ExecutionOutcome, success, work_of, dispatch}
use dbs_monitor.Collect.Dispatch.Accounts.{dispatch-Accounts}
use dbs_monitor.Collect.Dispatch.Starts.{held, Justified, dispatch-conserves, dispatch-Justified}

abbrev idle : Scheduler ℕ
idle = record {
  dispatcher = new_dispatcher 1 1;
  pending = run_at "a" 9 ∷ run_at "b" 4 ∷ [];
  counts = record {
    success = 0;
    failed = 0;
    timed_out = 0;
    skipped = 0;
    backoff = 0;
    dispatch_delay_count = 0;
    dispatch_delay_total = 0;
    dispatch_delay_max = 0;
    task_durations = λ id. record { count = 0; total = 0; longest = 0 };
  };
  started = [];
  deferred = [];
}

-- The backoff of a run ends at 6, that of the connection before.
abbrev read : ScheduledRun ℕ → RowRead
read run = row (record { task_next = some 6; connection_next = some 5 })

abbrev recorded : ScheduledRun ℕ → Bool
recorded run = true

abbrev clock : ScheduledRun ℕ → ℕ
clock run = 12

dispatch-Accounts_example :
    Accounts
      (dispatch read recorded clock idle).dispatcher
      (map work_of (dispatch read recorded clock idle).started ++ [])
dispatch-Accounts_example =
    dispatch-Accounts [] read recorded clock idle (new_dispatcher-Accounts 1 1)

dispatch-conserves_example : Perm (held (dispatch read recorded clock idle)) (held idle)
dispatch-conserves_example = dispatch-conserves read recorded clock idle (refl, (refl, tt))

dispatch-Justified_example : Justified read recorded clock (dispatch read recorded clock idle)
dispatch-Justified_example = dispatch-Justified read recorded clock idle refl refl

abbrev outcome : ExecutionOutcome ℕ
outcome = record { run = run_at "b" 4; result = success; duration = 3; has_error = false }

abbrev busy : Scheduler ℕ
busy = record idle { dispatcher = (admit (new_dispatcher 1 1) (work_of (run_at "b" 4))).0 }

busy-Accounts : Accounts busy.dispatcher (work_of (run_at "b" 4) ∷ [])
unfolding admit new_dispatcher class_for
busy-Accounts =
    admit-Accounts (new_dispatcher 1 1) (work_of (run_at "b" 4)) [] (new_dispatcher-Accounts 1 1)
