-- ===== src/Collect/Samples.antt =====
-- Concrete runs of the scheduler of internal/collect/scheduler.go, for the tests.
use dbs_monitor.Prelude.{ℕ, String, []}
use dbs_monitor.Metric.Task.{Task, sql_task}
use dbs_monitor.Collect.Task.{ScheduledRun}

abbrev pub settings_task : Task
settings_task = record {
  id = "pg.settings";
  kind = sql_task;
  sql = "SELECT 1";
  requires = [];
  interval = 5;
  yields = [];
}

-- The run of that task on an instance that falls due at a time.
abbrev pub run_at : String → ℕ → ScheduledRun ℕ
run_at instance_id due_at = record {
  key = record { instance_id = instance_id; task_id = settings_task.id };
  due_at = due_at;
  started_at = 0;
  target = 0;
  task = settings_task;
  interval = 5;
}
