-- ===== src/Lib.antt =====
-- A model of the decision logic of dbs-monitor, a monitor for fleets of databases: what its Go
-- packages compute and which state they keep, without their database, network and HTTP code.
--
-- A server collects metrics of each instance (internal/collect), evaluates alert rules over the
-- samples (internal/evaluator with internal/alerting), queues and delivers notifications
-- (internal/notify), and watches its own health (internal/platformhealth). internal/metric declares
-- the tasks that are collected, with the capabilities that they need.
--
-- Alerting. Alerting.State is internal/alerting/state.go: `step` is `Step`, the machine from one
-- evaluation to the next, and `after` folds it over a history, the latest evaluation first.
-- Alerting.Window is `AggregateWindow`, `Compare` and `Evaluate` of internal/alerting/evaluation.go,
-- over any float64 (Prelude.Floats). Alerting.Events is `StateEvents` of the same file and the table
-- of internal/alerting/performance_event.go. Alerting.Health is internal/alerting/health.go.
-- Alerting.TriggerSnapshot has the scopes of internal/alerting/trigger_snapshot.go.
--
-- Evaluator is internal/evaluator/service.go. A run (Run) is the list of the statements that the
-- database took and an answer. Target, Reading, Columns and Rule have what a rule reads, the value of
-- its metric, the columns it writes and `evaluateRule`; Cycle has `evaluateInstance` and `RunOnce`. What
-- the database answers is a record of the model, and an error at any call ends the run. Effects,
-- Observed and Views say what an observer of some of the statements sees.
--
-- Collect. The modules are the parts of internal/collect/scheduler.go: Dispatcher the slots and the
-- one query and one probe of an instance (`admit`, `finish`), Pending the runs that wait, Due and
-- Backoff the times, Accrue the loop that makes runs fall due, Dispatch the loop that starts them and
-- what follows when they end. Collect.Eligible is `nextEligible` of internal/collect/state.go, and
-- Collect.TaskState the transactions of that file that write the rows it reads. A
-- scheduler is one goroutine, so each of its operations is one step; Dispatcher.Runs has them in any
-- order. The database is a parameter: which row a run reads, and whether it takes a record.
--
-- Metric. Capability is internal/metric/capability.go, Rate is rate.go, Aggregate is
-- `AggregateToInstance` of aggregate.go and Series its `AggregateSeriesToInstance`, and ControlPlane has
-- `AgentStatusAt` and `ProjectControlPlaneMetric` of control_plane.go. Catalog is catalog.go over any table of metrics, and
-- Partitions is partitions.go: Names the names of the partitions, over any layouts of times.
--
-- Notify. Message, Repeat and Maintenance are the pure files of internal/notify. Delivery is
-- `DispatchOne` of dispatcher.go over the rows of the table `notification_delivery`, with the
-- statements of internal/notify/queries.sql that it runs; one round is one step, and the channels and
-- the other tables are parameters. Repeats is `EnqueueDueRepeats` of dispatcher.go; the answers of the
-- database are a parameter, and what the call did is the list of its statements.
--
-- PlatformHealth. The parts of internal/platformhealth/health.go: Status the aggregate, Watermark the
-- disk levels with their hysteresis, Source the snapshots of the sources, Store the store with its
-- observer. What is written to the journal is kept as the list of changes.
--
-- AcceptanceReport is `Evaluate` of internal/acceptancereport/evaluate.go, the verdict on a release
-- candidate: Blocks the evidence of a round, Matrix the acceptance matrix, Reasons the set of reasons.
--
-- Numbers. Times and durations are natural numbers of nanoseconds since the zero time (Prelude.Time);
-- counters are natural numbers, and where a Go integer could be negative or overflow this is written
-- out (`retry_delay`, `platform_database_capacity_source`); only the times of `next_due_after` and
-- `partition_boundary` are taken to lie where an int64 of nanoseconds counts them. Floats are an arbitrary structure with,
-- where a theorem needs them, the laws of IEEE 754 comparison; `whole` is an instance of both.
--
-- Fuel. The loop over one entry of the schedule has a round for each nanosecond since the entry was
-- due (`entry_fuel`), and the loop that makes partitions one for each nanosecond of its range
-- (`ensure_fuel`), since each round of a positive interval or span passes at least one. The loop over
-- the targets of a cycle has a round for each target and one more, since each round takes at least one.
-- The other loops are recursion on a list or a number.
--
-- Not modelled: the SQL of the other tables, the HTTP handlers, the agent, the collection of samples
-- from a database, credentials, migrations and the web client.
pub mod Prelude
pub mod Alerting
pub mod Collect
pub mod Metric
pub mod Notify
pub mod PlatformHealth
pub mod Evaluator
pub mod AcceptanceReport
