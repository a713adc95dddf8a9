-- ===== src/Notify/Delivery/Outcomes.antt =====
-- The ways in which one dispatch of internal/notify/dispatcher.go can end.
use Prim.Native.Nat.{min}
use dbs_monitor.Prelude.{
  ℕ, suc, ◌+◌, ◌*◌, ◌^◌, ◌≤◌, ◌<◌, ◌≡◌, refl, true, false, Bool, none, some, List, arith, leb,
  subst, sym, Bool-cases, Option-cases, inl, inr, ◌⊎◌, String, second,
}
use dbs_monitor.Notify.Maintenance.{find_active_maintenance_window}
use dbs_monitor.Notify.Message.{
  EventType, firing, recovery, repeat_event, test, platform_unavailable, other, max_attempts,
  should_deliver, retry_delay,
}
use dbs_monitor.Notify.Message.Laws.{retry_delay_lem}
use dbs_monitor.Notify.Delivery.{
  pending, sent, failed, NotificationDelivery, next_claim, update_pending, delete_pending, lock,
  record_sent, record_failure, next_attempt, Answers, AlertRead, is_test, is_alert_event,
  alert_failed, no_alert, alert_of, Dispatched, has_message, delivers, commit, attempt,
  unless_suppressed, after_claim, dispatch_one,
}

-- The event is of a kind that `FormatAlertMessage` knows.
abbrev pub IsOfAlert : EventType → Type 0
IsOfAlert event = (event ≡ firing) ⊎ (event ≡ recovery) ⊎ (event ≡ repeat_event)

is_alert_event-IsOfAlert : (event : EventType) → is_alert_event event ≡ true → IsOfAlert event
is_alert_event-IsOfAlert firing h = inl refl
is_alert_event-IsOfAlert recovery h = inr (inl refl)
is_alert_event-IsOfAlert repeat_event h = inr (inr refl)
is_alert_event-IsOfAlert test h = cc
is_alert_event-IsOfAlert platform_unavailable h = cc
is_alert_event-IsOfAlert other h = cc

is_test→≡ : (event : EventType) → is_test event ≡ true → event ≡ test
is_test→≡ test h = refl
is_test→≡ firing h = cc
is_test→≡ recovery h = cc
is_test→≡ repeat_event h = cc
is_test→≡ platform_unavailable h = cc
is_test→≡ other h = cc

module _ (answers : Answers) (d : NotificationDelivery) where
  -- There is a message: the test message, or that of an alert whose payload can be read.
  abbrev pub HasMessage : Type 0
  HasMessage = (d.event_type ≡ test) ⊎ (answers.payload_decodes d ≡ true) × IsOfAlert d.event_type

  -- There is a message, and the channel of the delivery exists and takes it.
  abbrev pub Delivered : Type 0
  Delivered =
      HasMessage
      × (send : NotificationDelivery → Bool) × (answers.channels d.channel ≡ some send)
      × (send d ≡ true)

  has_message-HasMessage : has_message answers d ≡ true → HasMessage
  unfolding has_message
  has_message-HasMessage h = elim (Bool-cases (is_test d.event_type)) [
    | inl tests ↦ inl (is_test→≡ d.event_type tests)
    | inr alerts ↦ inr (ground arith, is_alert_event-IsOfAlert d.event_type (ground arith))
  ]

  HasMessage-has_message : HasMessage → has_message answers d ≡ true
  unfolding has_message
  HasMessage-has_message h = ground (arith, h)

  delivers-Delivered : delivers answers d ≡ true → Delivered
  unfolding delivers
  delivers-Delivered h = elim (Option-cases (answers.channels d.channel)) [
    | inl missing ↦ absurd (let z = rw (missing, delivers) at h in ground (arith, z))
    | inr (send, found) ↦
        let z = rw (found, delivers) at h in
        (has_message-HasMessage (ground (arith, z)), send, found, ground (arith, z))
  ]

  not-Delivered : delivers answers d ≡ false → ¬ Delivered
  unfolding delivers
  not-Delivered h (m, send, found, taken) =
      let z = rw (found, HasMessage-has_message m, taken, delivers) at h in ground (arith, z)

-- The statement after the claim was taken, or nothing more was changed and an error comes back.
abbrev pub Recorded :
    Answers → List NotificationDelivery → List NotificationDelivery → Dispatched → Type 0
Recorded answers rows changed r =
    (answers.statement_succeeds ≡ true) × (r.rows ≡ changed) × (r.has_error ≡ false)
    ⊎ (answers.statement_succeeds ≡ false) × (r.rows ≡ rows) × (r.has_error ≡ true)

-- The delivery is of no alert, or the instance of its alert is in no maintenance window.
abbrev pub IsWanted : Answers → ℕ → NotificationDelivery → Type 0
IsWanted answers now d =
    (answers.alert d ≡ no_alert)
    ⊎ (x : String) × (answers.alert d ≡ alert_of x)
      × (find_active_maintenance_window (answers.windows x) x now ≡ some none)

-- What becomes of a claimed delivery. The rows are those with the delivery locked.
pub data Outcome (answers : Answers) (backoff_cap now : ℕ) (d : NotificationDelivery)
    (rows : List NotificationDelivery) (r : Dispatched) : Type 0 where
  unread :
      answers.alert d ≡ alert_failed
      → r.rows ≡ rows
      → r.has_error ≡ true
      → Outcome answers backoff_cap now d rows r
  unmatched :
      (x : String)
      → answers.alert d ≡ alert_of x
      → find_active_maintenance_window (answers.windows x) x now ≡ none
      → r.rows ≡ rows
      → r.has_error ≡ true
      → Outcome answers backoff_cap now d rows r
  was_suppressed :
      (x w : String)
      → answers.alert d ≡ alert_of x
      → find_active_maintenance_window (answers.windows x) x now ≡ some (some w)
      → Recorded answers rows (delete_pending d.id rows) r
      → Outcome answers backoff_cap now d rows r
  was_sent :
      IsWanted answers now d
      → Delivered answers d
      → Recorded answers rows
          (update_pending d.id
            (λ x. record x {
              status = sent;
              attempt_count = d.attempt_count + 1;
              locked_until = none;
              completed_at = some now;
            })
            rows)
          r
      → Outcome answers backoff_cap now d rows r
  was_put_back :
      IsWanted answers now d
      → ¬ Delivered answers d
      → d.attempt_count + 1 < max_attempts
      → Recorded answers rows
          (update_pending d.id
            (λ x. record x {
              status = pending;
              attempt_count = d.attempt_count + 1;
              next_attempt_at = now + min backoff_cap (second * 2 ^ d.attempt_count);
              locked_until = none;
              completed_at = none;
            })
            rows)
          r
      → Outcome answers backoff_cap now d rows r
  was_given_up :
      IsWanted answers now d
      → ¬ Delivered answers d
      → max_attempts ≤ d.attempt_count + 1
      → Recorded answers rows
          (update_pending d.id
            (λ x. record x {
              status = failed;
              attempt_count = d.attempt_count + 1;
              next_attempt_at = now;
              locked_until = none;
              completed_at = some now;
            })
            rows)
          r
      → Outcome answers backoff_cap now d rows r

module _ (answers : Answers) (backoff_cap now : ℕ) (d : NotificationDelivery)
    (rows : List NotificationDelivery) where
  commit-Recorded :
      (changed : List NotificationDelivery)
      → Recorded answers rows changed (commit answers rows changed)
  unfolding commit
  commit-Recorded changed = elim (Bool-cases answers.statement_succeeds) [
    | inl ok ↦ inl (ok, ground arith, ground arith)
    | inr fails ↦ inr (fails, ground arith, ground arith)
  ]

  next_attempt_lem :
      d.attempt_count + 1 < max_attempts
      → next_attempt now (d.attempt_count + 1) backoff_cap
        ≡ now + min backoff_cap (second * 2 ^ d.attempt_count)
  unfolding next_attempt
  next_attempt_lem few =
      let delay : retry_delay (d.attempt_count + 1) backoff_cap
          ≡ some (min backoff_cap (second * 2 ^ d.attempt_count)) =
        let e : d.attempt_count + 1 ≡ suc d.attempt_count = omega arith in
        rw e (retry_delay_lem d.attempt_count backoff_cap (omega (arith, few))) in
      rw (delay, next_attempt) refl

  attempt-Outcome :
      IsWanted answers now d
      → Outcome answers backoff_cap now d rows (attempt answers backoff_cap now d rows)
  unfolding attempt record_sent record_failure
  attempt-Outcome wanted = elim (Bool-cases (delivers answers d)) [
    | inl sends ↦
        rw (sends, attempt)
          (was_sent wanted (delivers-Delivered answers d sends) (commit-Recorded _))
    | inr refuses ↦ elim (Bool-cases (leb max_attempts (d.attempt_count + 1))) [
      | inl spent ↦
          rw (refuses, spent, attempt)
            (was_given_up wanted (not-Delivered answers d refuses) (ground arith)
              (commit-Recorded _))
      | inr few ↦
          rw (refuses, few, attempt)
            (was_put_back wanted (not-Delivered answers d refuses) (ground arith)
              (rw (← next_attempt_lem (ground arith)) (commit-Recorded _)))
    ]
  ]

  unless_suppressed-Outcome :
      (x : String)
      → answers.alert d ≡ alert_of x
      → Outcome answers backoff_cap now d rows (unless_suppressed answers backoff_cap now d x rows)
  unfolding unless_suppressed should_deliver
  unless_suppressed-Outcome x alert =
      elim (Option-cases (find_active_maintenance_window (answers.windows x) x now)) [
        | inl e ↦ rw (e, unless_suppressed) (unmatched x alert e refl refl)
        | inr (none, e) ↦ rw (e, unless_suppressed) (attempt-Outcome (inr (x, alert, e)))
        | inr (some w, e) ↦
            rw (e, unless_suppressed) (was_suppressed x w alert e (commit-Recorded _))
      ]

  after_claim-Outcome :
      (a : AlertRead)
      → answers.alert d ≡ a
      → Outcome answers backoff_cap now d rows (after_claim answers backoff_cap now d rows)
  unfolding after_claim
  after_claim-Outcome alert_failed e = rw (e, after_claim) (unread e refl refl)
  after_claim-Outcome no_alert e = rw (e, after_claim) (attempt-Outcome (inl e))
  after_claim-Outcome (alert_of x) e = rw (e, after_claim) (unless_suppressed-Outcome x e)

-- How a dispatch can end.
pub data Dispatches (answers : Answers) (backoff_cap now : ℕ) (rows : List NotificationDelivery)
    (r : Dispatched) : Type 0 where
  refused :
      answers.claim_succeeds ≡ false
      → r ≡ record { rows = rows; claimed = false; has_error = true }
      → Dispatches answers backoff_cap now rows r
  idle :
      answers.claim_succeeds ≡ true
      → next_claim answers.held_elsewhere now rows ≡ none
      → r ≡ record { rows = rows; claimed = false; has_error = false }
      → Dispatches answers backoff_cap now rows r
  took :
      answers.claim_succeeds ≡ true
      → (d : NotificationDelivery) → next_claim answers.held_elsewhere now rows ≡ some d
      → Outcome answers backoff_cap now d
          (update_pending d.id (λ x. record x { locked_until = some (now + 30 * second) }) rows)
          r
      → Dispatches answers backoff_cap now rows r

-- A dispatch whose claim fails changes nothing and comes back with the error; one that finds no
-- delivery to claim changes nothing. Otherwise the delivery is locked for 30 seconds. Then, if its
-- alert or the maintenance windows cannot be read, nothing more changes and the error comes back; if
-- the instance of its alert is in a maintenance window, the delivery is deleted; else, if there is a
-- message and the channel takes it, it is recorded as sent, and if not, as tried once more: as failed
-- from the third time on, and before that as pending until one second, doubled with each failure, or
-- the cap has passed. Where the deletion or the record fails, nothing more changes and the error comes
-- back.
pub dispatch_one-Outcome :
    (answers : Answers) (backoff_cap now : ℕ) (rows : List NotificationDelivery)
    → Dispatches answers backoff_cap now rows (dispatch_one answers backoff_cap now rows)
unfolding dispatch_one lock
dispatch_one-Outcome answers backoff_cap now rows = elim (Bool-cases answers.claim_succeeds) [
  | inr fails ↦ refused fails (rw (fails, dispatch_one) refl)
  | inl ok ↦ elim (Option-cases (next_claim answers.held_elsewhere now rows)) [
    | inl e ↦ idle ok e (rw (ok, e, dispatch_one) refl)
    | inr (d, e) ↦
        let held = update_pending d.id (lock now) rows in
        subst (Dispatches answers backoff_cap now rows) (sym (rw (ok, e, dispatch_one) refl))
          (took ok d e (after_claim-Outcome answers backoff_cap now d held (answers.alert d) refl))
  ]
]
