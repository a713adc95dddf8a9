-- ===== src/Notify/Repeat.antt =====
-- internal/notify/repeat.go: whether a notification is due.
use dbs_monitor.Prelude.{
  ℕ, ◌+◌, String, Bool, true, false, not, Option, none, some, ltb, if◌then◌else◌, str_eq,
}
use dbs_monitor.Notify.Message.{EventType, firing, recovery, repeat_event}

unfoldable pub notification_due : EventType → Option ℕ → ℕ → String → ℕ → Bool
notification_due firing last_notification repeat_interval disposition now = true
notification_due recovery last_notification repeat_interval disposition now = true
notification_due repeat_event none repeat_interval disposition now = false
notification_due repeat_event (some last) repeat_interval disposition now =
    if str_eq disposition "ACKED" then false else not (ltb now (last + repeat_interval))
notification_due _ last_notification repeat_interval disposition now = false
