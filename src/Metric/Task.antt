-- ===== src/Metric/Task.antt =====
-- internal/metric/dictionary.go: the declaration of a collection task. A Go `MetricID`, `TaskID` or
-- `TaskKind` is a string; `TaskKind` holds one of the three kinds that the source names.
use dbs_monitor.Prelude.{ℕ, String, Bool, true, false, List}

pub data TaskKind : Type 0 where
  probe_task sql_task agent_derived_task : TaskKind

abbrev pub is_probe_task : TaskKind → Bool
is_probe_task probe_task = true
is_probe_task _ = false

pub data CapabilityId : Type 0 where
  role_pg_monitor extension_pg_stat_statements : CapabilityId
  topology_has_replication topology_has_slot : CapabilityId

pub record MetricYield : Type 0 where
  pub metric : String
  pub columns : List String
  pub dimensions : List String

pub record Task : Type 0 where
  pub id : String
  pub kind : TaskKind
  pub sql : String
  pub requires : List CapabilityId
  pub interval : ℕ
  pub yields : List MetricYield
