-- ===== src/Evaluator/Run.antt =====
-- A run of the evaluator in internal/evaluator/service.go: the statements that the database took, in
-- order, and what the run comes back with. Values that the code writes are of a type `F`.
use dbs_monitor.Prelude.{ℕ, String, Bool, Option, none, some, List, [], ◌∷◌, ◌++◌, if◌then◌else◌}
use dbs_monitor.Alerting.State.{State}
use dbs_monitor.Alerting.Events.{EventKind, PerformanceEventType}
use dbs_monitor.Alerting.TriggerSnapshot.{TriggerSnapshotScope}
use dbs_monitor.Notify.Message.{EventType, AlertPayload}

-- `MarkAlertRuleEvaluatedParams`.
pub record Checkpoint : Type 0 where
  pub rule_id : String
  pub instance_id : String
  pub metric_dimension_key : String
  pub last_evaluated_at : ℕ

-- `ResetIgnoredMissingAlertParams`.
pub record CounterReset : Type 0 where
  pub id : Option String
  pub rule_version : ℕ
  pub severity : String
  pub rule_snapshot : String
  pub breach_count : ℕ
  pub recovery_count : ℕ
  pub no_data_count : ℕ
  pub updated_at : ℕ
  pub in_maintenance : Bool
  pub maintenance_window_id : Option String

-- `RecoverAlertSnapshotParams`.
pub record RecoveredColumns (F : Type 0) : Type 0 where
  pub id : Option String
  pub metric_id : String
  pub rule_version : ℕ
  pub severity : String
  pub current_value : Option F
  pub rule_snapshot : String
  pub breach_count : ℕ
  pub recovery_count : ℕ
  pub no_data_count : ℕ
  pub updated_at : Option ℕ
  pub in_maintenance : Bool
  pub maintenance_window_id : Option String

-- `SaveAlertSnapshotParams`.
pub record SavedColumns (F : Type 0) : Type 0 where
  pub rule_id : String
  pub instance_id : String
  pub metric_id : String
  pub metric_dimension_key : String
  pub status : State
  pub rule_version : ℕ
  pub severity : String
  pub current_value : Option F
  pub rule_snapshot : String
  pub breach_count : ℕ
  pub recovery_count : ℕ
  pub no_data_count : ℕ
  pub state_before_no_data : Option State
  pub unavailability : Option String
  pub updated_at : ℕ
  pub first_triggered_at : Option ℕ
  pub first_rule_version : Option ℕ
  pub first_rule_snapshot : Option String
  pub recovered_at : Option ℕ
  pub in_maintenance : Bool
  pub maintenance_window_id : Option String

-- `CreateAlertEventParams`.
pub record AlertEvent (F : Type 0) : Type 0 where
  pub alert_instance_id : String
  pub rule_id : String
  pub rule_version : ℕ
  pub kind : EventKind
  pub from_state : State
  pub to_state : State
  pub current_value : Option F
  pub unavailability : Option String
  pub rule_snapshot : String
  pub evaluated_at : ℕ
  pub trigger_snapshot_id : Option String
  pub in_maintenance : Bool
  pub maintenance_window_id : Option String

-- `EnqueueAlertNotificationsParams`, with the payload before `json.Marshal` encodes it.
pub record Enqueued : Type 0 where
  pub alert_instance_id : String
  pub event_type : EventType
  pub template_id : String
  pub payload : AlertPayload
  pub next_attempt_at : ℕ

-- A statement that changes the database. That for the trigger snapshot stands for the whole of
-- `captureAndPersistTriggerSnapshot`.
pub data Effect (F : Type 0) : Type 0 where
  mark_alert_rule_evaluated : Checkpoint → Effect F
  reset_ignored_missing_alert : CounterReset → Effect F
  recover_alert_snapshot : RecoveredColumns F → Effect F
  save_alert_snapshot : SavedColumns F → Effect F
  create_trigger_snapshot : String → ℕ → TriggerSnapshotScope → Effect F
  create_performance_event : String → PerformanceEventType → ℕ → Effect F
  create_alert_event : AlertEvent F → Effect F
  enqueue_alert_notifications : Enqueued → Effect F
  delete_pending_notification : String → Effect F
  record_maintenance_suppressed : String → Option String → ℕ → Effect F

pub data Error : Type 0 where
  list_targets read_paused commit_transaction : Error
  read_target read_facts read_samples match_maintenance : Error
  statement_failed : Error

pub data Answer (A : Type 0) : Type 0 where
  ok : A → Answer A
  err : Error → Answer A

abbrev pub Run : Type 0 → Type 0 → Type 0
Run F A = List (Effect F) × Answer A

module _ {F : Type 0} where
  abbrev pub pure : {A : Type 0} → A → Run F A
  pure a = ([], ok a)

  -- A call of a library or a query that changes nothing: `none` is its error.
  abbrev pub or_fail : {A : Type 0} → Error → Option A → Run F A
  or_fail e none = ([], err e)
  or_fail e (some a) = ([], ok a)

  -- A statement that returns something: `none` is an error, and then nothing was changed.
  abbrev pub returning : {A : Type 0} → Effect F → Option A → Run F A
  returning effect none = ([], err statement_failed)
  returning effect (some a) = (effect ∷ [], ok a)

  -- `executed` says whether the database takes a statement.
  abbrev pub exec : (Effect F → Bool) → Effect F → Run F Unit
  exec executed effect =
      if executed effect then (effect ∷ [], ok tt) else ([], err statement_failed)

  infixl 5 ◌>>=◌ ◌>>◌
  unfoldable pub ◌>>=◌ : {A B : Type 0} → Run F A → (A → Run F B) → Run F B
  m >>= k =
      let (effects, answer) = m in
      elim answer [
        | ok a ↦ let (later, last) = k a in (effects ++ later, last)
        | err e ↦ (effects, err e)
      ]

  abbrev pub ◌>>◌ : {A B : Type 0} → Run F A → Run F B → Run F B
  m >> k = m >>= λ _. k

  -- `for _, x := range l { body }`.
  unfoldable pub for_each : {A : Type 0} → List A → (A → Run F Unit) → Run F Unit
  for_each [] body = pure tt
  for_each (x ∷ xs) body = body x >> for_each xs body
