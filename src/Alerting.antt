-- ===== src/Alerting.antt =====
-- internal/alerting: the alert state machine, the evaluation of a rule, the health rollup, and trigger
-- snapshots.
pub mod TriggerSnapshot
pub mod State
pub mod Window
pub mod Events
pub mod Health
