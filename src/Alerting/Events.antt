-- ===== src/Alerting/Events.antt =====
-- internal/alerting/evaluation.go, the second half: the events that a change of state leaves behind;
-- and internal/alerting/performance_event.go: the performance event that a metric derives.
pub mod Lifecycle
mod Tests
use dbs_monitor.Prelude.{
  String, Bool, true, false, not, ◌&&◌, ◌||◌, Option, none, some, List, [], ◌∷◌, if◌then◌else◌,
  str_eq,
}
use dbs_monitor.Alerting.State.{State, is_no_data, is_recovered, is_firing, is_pending}

pub data EventKind : Type 0 where
  pending_started fired updated recovered no_data_entered no_data_exited frozen unfrozen : EventKind

-- The branch `before == NO_DATA && after != NO_DATA`.
exit_events : State → List EventKind
exit_events to = no_data_exited ∷ (if is_recovered to then recovered ∷ [] else [])

unfoldable pub state_events : State → State → List EventKind
unfolding exit_events
state_events before to =
    if is_no_data before && not (is_no_data to)
    then exit_events to
    else if not (is_pending before) && is_pending to
    then pending_started ∷ []
    else if not (is_firing before) && is_firing to
    then fired ∷ []
    else if is_firing before && is_firing to
    then updated ∷ []
    else if not (is_recovered before) && is_recovered to
    then recovered ∷ []
    else if not (is_no_data before) && is_no_data to
    then no_data_entered ∷ []
    else []

pub data PerformanceEventType : Type 0 where
  lock_blocking long_transaction idle_in_transaction : PerformanceEventType
  active_sessions_high replication_lag temp_files_surge : PerformanceEventType

unfoldable pub performance_event_type_for_metric : String → Option PerformanceEventType
performance_event_type_for_metric metric_id =
    if str_eq metric_id "pg.lock.waiting_count" || str_eq metric_id "pg.session.blocked_count"
    then some lock_blocking
    else if str_eq metric_id "pg.transaction.long_count"
        || str_eq metric_id "pg.transaction.max_duration_sec"
    then some long_transaction
    else if str_eq metric_id "pg.connection.idle_in_transaction"
    then some idle_in_transaction
    else if str_eq metric_id "pg.connection.active"
    then some active_sessions_high
    else if str_eq metric_id "pg.replication.wal_lag_bytes"
    then some replication_lag
    else if str_eq metric_id "pg.temp.files_per_sec" || str_eq metric_id "pg.temp.bytes_per_sec"
    then some temp_files_surge
    else none
