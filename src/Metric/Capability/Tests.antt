-- ===== src/Metric/Capability/Tests.antt =====
-- The capabilities of internal/metric/capability.go in concrete snapshots.
use dbs_monitor.Prelude.{◌*◌, ◌≡◌, refl, some, [], ◌∷◌, minute}
use dbs_monitor.Metric.Task.{
  Task, sql_task, role_pg_monitor, extension_pg_stat_statements, topology_has_replication,
  topology_has_slot,
}
use dbs_monitor.Metric.Capability.{
  States, present, missing, not_applicable, permission_denied, collection_failed, state_of,
  complete_capability_snapshot, project_capability_snapshot, task_capability_block_reason,
  first_reason,
}
use dbs_monitor.Metric.Capability.Blocking.{stale_snapshot_blocks}

abbrev activity : Task
activity = record {
  id = "pg.stat_activity";
  kind = sql_task;
  sql = "";
  requires = role_pg_monitor ∷ [];
  interval = 0;
  yields = [];
}

abbrev states : States
states =
    (role_pg_monitor, missing)
    ∷ (extension_pg_stat_statements, present)
    ∷ (topology_has_replication, not_applicable)
    ∷ (topology_has_slot, not_applicable)
    ∷ []

denied : task_capability_block_reason activity states ≡ some permission_denied
unfolding task_capability_block_reason state_of first_reason
denied = refl

stale_snapshot_blocks_example :
    task_capability_block_reason activity (project_capability_snapshot states 1 (6 * minute))
    ≡ some collection_failed
unfolding complete_capability_snapshot
stale_snapshot_blocks_example =
    stale_snapshot_blocks activity role_pg_monitor [] states 1 (6 * minute) refl refl
