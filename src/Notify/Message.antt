-- ===== src/Notify/Message.antt =====
-- internal/notify/message.go: the events that notify, the suppression of them and the delay of a retry.
pub mod Laws
mod Tests
use dbs_monitor.Prelude.{
  ℕ, zero, suc, ◌-◌, ◌*◌, ◌%◌, ◌^◌, String, Bool, true, false, not, ◌&&◌, ◌||◌, Option, none, some,
  leb, ltb, if◌then◌else◌, second,
}

-- A Go `EventType` is a string; `other` is any other one.
pub data EventType : Type 0 where
  firing recovery repeat_event test platform_unavailable other : EventType

abbrev pub is_repeat : EventType → Bool
is_repeat repeat_event = true
is_repeat _ = false

abbrev pub max_attempts : ℕ
max_attempts = 3

pub record Message : Type 0 where
  pub event_type : EventType
  pub recipient : String
  pub subject : String
  pub body : String

pub record AlertPayload : Type 0 where
  pub alert_instance_id : String
  pub rule_name : String
  pub instance_name : String
  pub metric_id : String
  pub severity : String
  pub current_value : String

pub record SuppressionFacts : Type 0 where
  pub maintenance : Bool
  pub acknowledged : Bool
  pub paused : Bool

unfoldable pub should_deliver : EventType → SuppressionFacts → Bool
should_deliver event facts =
    if facts.maintenance || facts.paused
    then false
    else not (is_repeat event) || not facts.acknowledged

-- `time.Second << (failureCount - 1)` on an int64: the bits past the 64th are lost, and a result of
-- 2^63 or more is a negative number, which the cap does not cut.
abbrev pub shifted_second : ℕ → ℕ
shifted_second n = second * 2 ^ n % 2 ^ 64

-- `none` is a negative duration.
unfoldable pub retry_delay : ℕ → ℕ → Option ℕ
retry_delay failure_count retry_backoff_cap =
    if leb failure_count 0
    then some 0
    else let delay = shifted_second (failure_count - 1) in
      if leb (2 ^ 63) delay
      then none
      else if ltb retry_backoff_cap delay
      then some retry_backoff_cap
      else some delay
