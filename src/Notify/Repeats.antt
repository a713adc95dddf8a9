-- ===== src/Notify/Repeats.antt =====
-- `EnqueueDueRepeats` of internal/notify/dispatcher.go: the repeats of the alerts that are due. What the
-- database answers is a parameter.
mod Kept
mod Tests
use dbs_monitor.Prelude.{
  ℕ, ◌+◌, ◌*◌, String, Bool, true, false, not, ◌&&◌, Option, none, some, List, [], ◌∷◌, ◌++◌,
  if◌then◌else◌, length, second,
}
use dbs_monitor.Notify.Message.{repeat_event, SuppressionFacts, should_deliver}
use dbs_monitor.Notify.Repeat.{notification_due}
use dbs_monitor.Notify.Maintenance.{MaintenanceWindowRow, find_active_maintenance_window}

-- `ListRepeatCandidatesRow`; the interval is in seconds.
pub record Candidate : Type 0 where
  pub alert_instance_id : String
  pub instance_id : String
  pub payload : String
  pub last_notification_at : ℕ
  pub repeat_interval : ℕ
  pub disposition : String

-- A statement that the database took.
pub data Statement : Type 0 where
  enqueue_alert_notifications : Candidate → Statement
  delete_pending_notification : String → Statement
  record_maintenance_suppressed : String → Option String → ℕ → Statement

-- What the call has done, the number that it returns, and whether it comes back with no error.
pub record Sweep : Type 0 where
  pub statements : List Statement
  pub enqueued : ℕ
  pub is_complete : Bool

-- What the database answers; `none` is an error.
pub record Answers : Type 0 where
  pub candidates : Option (List Candidate)
  pub maintenance_windows : Candidate → Option (List MaintenanceWindowRow)
  pub notification_ids : Candidate → Option (List String)
  pub executed : Statement → Bool

abbrev pub is_given : Option String → Bool
is_given none = false
is_given (some id) = true

abbrev pub is_nonempty : List String → Bool
is_nonempty [] = false
is_nonempty (id ∷ ids) = true

unfoldable pub after : List Statement → Sweep → Sweep
after statements sweep = record sweep { statements = statements ++ sweep.statements }

unfoldable pub is_due : ℕ → Candidate → Bool
is_due now candidate =
    notification_due repeat_event (some candidate.last_notification_at)
      (candidate.repeat_interval * second) candidate.disposition now

module _ (db : Answers) (now : ℕ) where
  unfoldable pub delete_each : List String → List Statement × Bool
  delete_each [] = ([], true)
  delete_each (id ∷ ids) =
      let rest = delete_each ids in
      if db.executed (delete_pending_notification id)
      then (delete_pending_notification id ∷ rest.0, rest.1)
      else ([], false)

  -- The branch of a suppressed repeat: its statements, and whether all of them were taken.
  unfoldable pub discard : Candidate → Option String → List String → List Statement × Bool
  unfolding delete_each
  discard candidate window ids =
      let deletes = delete_each ids in
      let last = record_maintenance_suppressed candidate.alert_instance_id window now in
      if not deletes.1
      then deletes
      else if db.executed last
      then (deletes.0 ++ last ∷ [], true)
      else (deletes.0, false)

  abbrev pub is_suppressed : Option String → List String → Bool
  is_suppressed window ids =
      not (
        should_deliver repeat_event
          (record { maintenance = is_given window; acknowledged = false; paused = false }))
      && is_nonempty ids

  abbrev pub failed : ℕ → Sweep
  failed enqueued = record { statements = []; enqueued = enqueued; is_complete = false }

  -- The rest of the body for a repeat that is due, before the rest of the loop: with the number as it
  -- was, and with that of the notifications added.
  unfoldable pub enqueue_one : Candidate → Option String → List String → ℕ → Sweep → Sweep → Sweep
  unfolding discard after
  enqueue_one candidate window ids enqueued rest kept =
      let discarded = discard candidate window ids in
      after (enqueue_alert_notifications candidate ∷ []) (
        if is_suppressed window ids
        then after discarded.0 (if discarded.1 then rest else failed enqueued)
        else kept)

  unfoldable pub sweep : List Candidate → ℕ → Sweep
  unfolding enqueue_one is_due
  sweep [] enqueued = record { statements = []; enqueued = enqueued; is_complete = true }
  sweep (candidate ∷ candidates) enqueued =
      if not (is_due now candidate)
      then sweep candidates enqueued
      else elim (find_active_maintenance_window (db.maintenance_windows candidate)
          candidate.instance_id now) [
            | none ↦ failed enqueued
            | some window ↦ elim (db.notification_ids candidate) [
              | none ↦ failed enqueued
              | some ids ↦
                  enqueue_one candidate window ids enqueued (sweep candidates enqueued)
                    (sweep candidates (enqueued + length ids))
            ]
          ]

  unfoldable pub sweep_all : Option (List Candidate) → Sweep
  unfolding sweep
  sweep_all none = failed 0
  sweep_all (some candidates) = sweep candidates 0

  unfoldable pub enqueue_due_repeats : Sweep
  unfolding sweep_all
  enqueue_due_repeats = sweep_all db.candidates
