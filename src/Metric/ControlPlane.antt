-- ===== src/Metric/ControlPlane.antt =====
-- internal/metric/control_plane.go: what is known of the agent and the collector of an instance. The
-- query that reads the facts is not modelled.
mod Agent
mod Tests
use dbs_monitor.Prelude.{
  ℕ, ◌-◌, ◌*◌, ◌/◌, String, Bool, true, false, not, ◌&&◌, Option, none, some, leb, if◌then◌else◌,
  str_eq, is_zero_time, second, Float64, List, [], ◌∷◌,
}

pub data AgentStatus : Type 0 where
  offline online not_installed permission_denied error : AgentStatus

abbrev pub agent_offline_after : ℕ
agent_offline_after = 60 * second

pub record ControlPlaneFacts : Type 0 where
  pub collector_last_success_at : ℕ
  pub collector_last_error_code : String
  pub agent_expected : Bool
  pub agent_metrics_enabled : Bool
  pub agent_last_report_at : ℕ
  pub agent_last_error_code : String

-- `now.Sub(t)` is negative for a later `t`, and 0 here: either is within the limit.
unfoldable pub agent_status_at : ControlPlaneFacts → ℕ → AgentStatus
agent_status_at facts now =
    if not facts.agent_expected
    then not_installed
    else if str_eq facts.agent_last_error_code "PERMISSION_DENIED"
    then permission_denied
    else if not (str_eq facts.agent_last_error_code "")
    then error
    else if not (is_zero_time facts.agent_last_report_at)
        && leb (now - facts.agent_last_report_at) agent_offline_after
    then online
    else offline

-- `AgentStatusEncodings`, as the number that the code keeps as a float.
abbrev pub agent_status_encoding : AgentStatus → ℕ
agent_status_encoding offline = 0
agent_status_encoding online = 1
agent_status_encoding not_installed = 2
agent_status_encoding permission_denied = 3
agent_status_encoding error = 4

abbrev pub metric_collector_last_success_time : String
metric_collector_last_success_time = "collector.last_success_time"

abbrev pub metric_agent_status : String
metric_agent_status = "agent.status"

-- `t.Unix()`, for a time that is not before 1970.
abbrev pub unix : ℕ → ℕ
unix t = (t - 62135596800 * second) / second

-- `state` is `none` where the code leaves it empty.
pub record ControlPlaneProjection (F : Type 0) : Type 0 where
  pub observed_at : ℕ
  pub value : F
  pub state : Option AgentStatus
  pub labels : List (String × String)

module _ (f : Float64) where
  open f use {F, of_ℕ}

  unfoldable pub project_control_plane_metric :
      String → ControlPlaneFacts → ℕ → Option (ControlPlaneProjection F)
  unfolding agent_status_at
  project_control_plane_metric metric_id facts now =
      if str_eq metric_id metric_collector_last_success_time
      then if is_zero_time facts.collector_last_success_at
        then none
        else some (record {
          observed_at = now;
          value = of_ℕ (unix facts.collector_last_success_at);
          state = none;
          labels = ("source_type", "SERVER_DIRECT") ∷ [];
        })
      else if str_eq metric_id metric_agent_status
      then some (record {
        observed_at = now;
        value = of_ℕ (agent_status_encoding (agent_status_at facts now));
        state = some (agent_status_at facts now);
        labels = ("node", "agent") ∷ [];
      })
      else none
