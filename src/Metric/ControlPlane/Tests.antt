-- ===== src/Metric/ControlPlane/Tests.antt =====
-- The status of a concrete agent of internal/metric/control_plane.go.
use dbs_monitor.Prelude.{◌*◌, ◌≡◌, refl, true, second}
use dbs_monitor.Metric.ControlPlane.{offline, ControlPlaneFacts, agent_status_at}

abbrev facts : ControlPlaneFacts
facts = record {
  collector_last_success_at = 0;
  collector_last_error_code = "";
  agent_expected = true;
  agent_metrics_enabled = true;
  agent_last_report_at = 10 * second;
  agent_last_error_code = "";
}

goes_offline : agent_status_at facts (71 * second) ≡ offline
unfolding agent_status_at
goes_offline = refl
