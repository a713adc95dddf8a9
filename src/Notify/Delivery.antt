-- ===== src/Notify/Delivery.antt =====
-- The delivery queue: `DispatchOne` of internal/notify/dispatcher.go over the rows of the table
-- `notification_delivery`, with the statements of internal/notify/queries.sql that it runs. What the
-- database, the JSON decoder and the channels answer is a parameter.
mod Outcomes
mod Attempts
mod Claims
mod Tests
use Prim.Native.String.{compare}
use Prim.Native.Nat.{Ordering}
use dbs_monitor.Prelude.{
  ℕ, ◌+◌, ◌*◌, String, Bool, true, false, not, ◌&&◌, ◌||◌, Option, none, some, List, [], ◌∷◌, leb,
  ltb, ◌==◌, if◌then◌else◌, str_eq, second,
}
use dbs_monitor.Notify.Message.{
  EventType, firing, recovery, repeat_event, test, platform_unavailable, other, max_attempts,
  should_deliver, retry_delay,
}
use dbs_monitor.Notify.Maintenance.{MaintenanceWindowRow, find_active_maintenance_window, text_less}

pub data DeliveryStatus : Type 0 where
  pending sent failed : DeliveryStatus

abbrev pub is_pending : DeliveryStatus → Bool
is_pending pending = true
is_pending _ = false

pub data ChannelKey : Type 0 where
  smtp : ChannelKey
  webhook : String → ChannelKey

pub record NotificationDelivery : Type 0 where
  pub id : String
  pub event_type : EventType
  pub channel : ChannelKey
  pub status : DeliveryStatus
  pub attempt_count : ℕ
  pub next_attempt_at : ℕ
  pub locked_until : Option ℕ
  pub created_at : ℕ
  pub completed_at : Option ℕ

abbrev is_unlocked : Option ℕ → ℕ → Bool
is_unlocked none now = true
is_unlocked (some t) now = leb t now

-- The WHERE clause of `ClaimDueNotification`.
abbrev pub is_claimable : ℕ → NotificationDelivery → Bool
is_claimable now d =
    is_pending d.status && leb d.next_attempt_at now && is_unlocked d.locked_until now

-- Its ORDER BY.
unfoldable pub claimed_before : NotificationDelivery → NotificationDelivery → Bool
claimed_before a b =
    if a.next_attempt_at == b.next_attempt_at
    then if a.created_at == b.created_at then text_less a.id b.id else ltb a.created_at b.created_at
    else ltb a.next_attempt_at b.next_attempt_at

prefer : NotificationDelivery → Option NotificationDelivery → NotificationDelivery
prefer a none = a
prefer a (some b) = if claimed_before b a then b else a

-- Its LIMIT 1. FOR UPDATE SKIP LOCKED passes over the rows that other transactions hold.
unfoldable pub next_claim :
    (String → Bool) → ℕ → List NotificationDelivery → Option NotificationDelivery
unfolding prefer
next_claim held now [] = none
next_claim held now (d ∷ ds) =
    let rest = next_claim held now ds in
    if is_claimable now d && not (held d.id) then some (prefer d rest) else rest

-- UPDATE … WHERE id = key AND status = 'PENDING'.
unfoldable pub update_pending :
    String
    → (NotificationDelivery → NotificationDelivery)
    → List NotificationDelivery
    → List NotificationDelivery
update_pending key change [] = []
update_pending key change (d ∷ ds) =
    (if str_eq d.id key && is_pending d.status then change d else d) ∷ update_pending key change ds

-- DELETE … WHERE id = key AND status = 'PENDING'.
unfoldable pub delete_pending : String → List NotificationDelivery → List NotificationDelivery
delete_pending key [] = []
delete_pending key (d ∷ ds) =
    if str_eq d.id key && is_pending d.status
    then delete_pending key ds
    else d ∷ delete_pending key ds

-- `locked_until = claimed_at + interval '30 seconds'`.
pub lock : ℕ → NotificationDelivery → NotificationDelivery
lock now d = record d { locked_until = some (now + 30 * second) }

pub record_sent : ℕ → ℕ → NotificationDelivery → NotificationDelivery
record_sent retry_count now d = record d {
  status = sent;
  attempt_count = retry_count + 1;
  locked_until = none;
  completed_at = some now;
}

pub record_failure : ℕ → ℕ → Bool → ℕ → NotificationDelivery → NotificationDelivery
record_failure retry_count now terminal next_attempt_at d = record d {
  status = if terminal then failed else pending;
  attempt_count = retry_count + 1;
  next_attempt_at = next_attempt_at;
  locked_until = none;
  completed_at = if terminal then some now else none;
}

-- The answer of `GetNotificationAlertInstance`: an error, no row, or the alert's instance.
pub data AlertRead : Type 0 where
  alert_failed no_alert : AlertRead
  alert_of : String → AlertRead

-- What the surroundings answer while one delivery is dispatched: among others which rows other
-- transactions hold, whether the claim succeeds, and whether the statement after it does.
pub record Answers : Type 0 where
  pub alert : NotificationDelivery → AlertRead
  pub windows : String → Option (List MaintenanceWindowRow)
  pub payload_decodes : NotificationDelivery → Bool
  pub channels : ChannelKey → Option (NotificationDelivery → Bool)
  pub held_elsewhere : String → Bool
  pub claim_succeeds : Bool
  pub statement_succeeds : Bool

-- Whether `FormatAlertMessage` knows the event.
abbrev is_alert_event : EventType → Bool
is_alert_event firing = true
is_alert_event recovery = true
is_alert_event repeat_event = true
is_alert_event _ = false

abbrev is_test : EventType → Bool
is_test test = true
is_test _ = false

-- `messageForDelivery` returns no error.
has_message : Answers → NotificationDelivery → Bool
has_message answers d =
    if is_test d.event_type then true else answers.payload_decodes d && is_alert_event d.event_type

-- `deliveryErr == nil` after the channel was asked.
delivers : Answers → NotificationDelivery → Bool
unfolding has_message
delivers answers d =
    has_message answers d
    && (elim (answers.channels d.channel) as (λ _. Bool) [ none ↦ false | some send ↦ send d ])

-- `nextAttemptAt.Add(…)`. The delay is negative from the 35th failure on, which the cap on attempts
-- keeps from being reached; that case is not modelled.
next_attempt : ℕ → ℕ → ℕ → ℕ
next_attempt now failure_count backoff_cap =
    elim (retry_delay failure_count backoff_cap) as (λ _. ℕ) [
      | none ↦ now
      | some delay ↦ now + delay
    ]

-- The new rows, whether a delivery was claimed, and whether an error is returned.
pub record Dispatched : Type 0 where
  pub rows : List NotificationDelivery
  pub claimed : Bool
  pub has_error : Bool

-- A statement that fails changes nothing.
commit : Answers → List NotificationDelivery → List NotificationDelivery → Dispatched
commit answers before changed =
    if answers.statement_succeeds
    then record { rows = changed; claimed = true; has_error = false }
    else record { rows = before; claimed = true; has_error = true }

-- From `message, deliveryErr := …` on.
attempt : Answers → ℕ → ℕ → NotificationDelivery → List NotificationDelivery → Dispatched
unfolding delivers record_sent record_failure next_attempt commit
attempt answers backoff_cap now d rows =
    if delivers answers d
    then commit answers rows (update_pending d.id (record_sent d.attempt_count now) rows)
    else let failure_count = d.attempt_count + 1 in
      let terminal = leb max_attempts failure_count in
      let next_attempt_at = if terminal then now else next_attempt now failure_count backoff_cap in
      commit answers rows
        (update_pending d.id (record_failure d.attempt_count now terminal next_attempt_at) rows)

-- The test for a maintenance window, for a delivery of an alert.
unless_suppressed :
    Answers → ℕ → ℕ → NotificationDelivery → String → List NotificationDelivery → Dispatched
unfolding attempt
unless_suppressed answers backoff_cap now d instance_id rows =
    elim (find_active_maintenance_window (answers.windows instance_id) instance_id now)
      as (λ _. Dispatched) [
        | none ↦ record { rows = rows; claimed = true; has_error = true }
        | some none ↦ attempt answers backoff_cap now d rows
        | some (some window) ↦
            if should_deliver d.event_type
              (record { maintenance = true; acknowledged = false; paused = false })
            then attempt answers backoff_cap now d rows
            else commit answers rows (delete_pending d.id rows)
      ]

after_claim : Answers → ℕ → ℕ → NotificationDelivery → List NotificationDelivery → Dispatched
unfolding unless_suppressed
after_claim answers backoff_cap now d rows = elim (answers.alert d) as (λ _. Dispatched) [
  | alert_failed ↦ record { rows = rows; claimed = true; has_error = true }
  | no_alert ↦ attempt answers backoff_cap now d rows
  | alert_of instance_id ↦ unless_suppressed answers backoff_cap now d instance_id rows
]

unfoldable pub dispatch_one : Answers → ℕ → ℕ → List NotificationDelivery → Dispatched
unfolding lock after_claim
dispatch_one answers backoff_cap now rows =
    if not answers.claim_succeeds
    then record { rows = rows; claimed = false; has_error = true }
    else elim (next_claim answers.held_elsewhere now rows) as (λ _. Dispatched) [
      | none ↦ record { rows = rows; claimed = false; has_error = false }
      | some d ↦ after_claim answers backoff_cap now d (update_pending d.id (lock now) rows)
    ]
