-- ===== src/Alerting/TriggerSnapshot.antt =====
-- internal/alerting/trigger_snapshot.go: which of the sessions on an instance a trigger snapshot keeps.
use dbs_monitor.Prelude.{String, ◌||◌, Option, none, some, if◌then◌else◌, str_eq}

pub data TriggerSnapshotScope : Type 0 where
  lock_blocking long_transactions idle_in_transaction active_sessions : TriggerSnapshotScope

unfoldable pub trigger_snapshot_scope_for_metric : String → Option TriggerSnapshotScope
trigger_snapshot_scope_for_metric metric_id =
    if str_eq metric_id "pg.connection.active"
    then some active_sessions
    else if str_eq metric_id "pg.connection.idle_in_transaction"
    then some idle_in_transaction
    else if str_eq metric_id "pg.transaction.long_count"
        || str_eq metric_id "pg.transaction.max_duration_sec"
    then some long_transactions
    else if str_eq metric_id "pg.lock.waiting_count" || str_eq metric_id "pg.session.blocked_count"
    then some lock_blocking
    else none
