-- ===== src/Collect/Task.antt =====
-- internal/collect/scheduler.go and service.go: a task that is due on an instance. `T` is the row of
-- the instance, which the scheduler passes on to the database and reads nothing of but its identifier.
use dbs_monitor.Prelude.{
  ℕ, ◌*◌, ◌/◌, String, Bool, true, false, ◌&&◌, [], ltb, if◌then◌else◌, str_eq, minute, second,
}
use dbs_monitor.Metric.Task.{Task, sql_task, is_probe_task}
use dbs_monitor.Collect.Dispatcher.{WorkClass, probe, collection_query, capability_snapshot}
use Prim.Native.String.{compare}
use Prim.Native.Nat.{Ordering}

abbrev pub capability_snapshot_ttl : ℕ
capability_snapshot_ttl = 5 * minute

abbrev pub capability_snapshot_task : Task
capability_snapshot_task = record {
  id = "capability.snapshot";
  kind = sql_task;
  sql = "";
  requires = [];
  interval = capability_snapshot_ttl;
  yields = [];
}

abbrev pub is_capability_snapshot_task : Task → Bool
is_capability_snapshot_task task = str_eq task.id "capability.snapshot"

pub record TaskKey : Type 0 where
  pub instance_id : String
  pub task_id : String

pub record ScheduledRun (T : Type 0) : Type 0 where
  pub key : TaskKey
  pub due_at : ℕ
  pub started_at : ℕ
  pub target : T
  pub task : Task
  pub interval : ℕ

unfoldable pub class_for : Task → WorkClass
class_for task =
    if is_capability_snapshot_task task
    then capability_snapshot
    else if is_probe_task task.kind
    then probe
    else collection_query

-- `==` on two keys.
abbrev pub same_key : TaskKey → TaskKey → Bool
same_key a b = str_eq a.instance_id b.instance_id && str_eq a.task_id b.task_id

-- `<` on two strings.
abbrev string_less : String → String → Bool
string_less s t = elim (compare s t) [ Ordering.lt ↦ true | _ ↦ false ]

unfoldable pub task_key_less : TaskKey → TaskKey → Bool
task_key_less a b =
    if str_eq a.instance_id b.instance_id
    then string_less a.task_id b.task_id
    else string_less a.instance_id b.instance_id

-- `configured` is 0 where the instance has no interval of its own for the task.
unfoldable pub new_scheduled_run : {T : Type 0} → String → T → Task → ℕ → ℕ → ScheduledRun T
new_scheduled_run instance_id target task configured due_at = record {
  key = record { instance_id = instance_id; task_id = task.id };
  due_at = due_at;
  started_at = 0;
  target = target;
  task = task;
  interval = if ltb 0 configured then configured else task.interval;
}

unfoldable pub task_timeout : ℕ → ℕ
task_timeout interval =
    let timeout = interval * 4 / 5 in if ltb (10 * second) timeout then 10 * second else timeout
