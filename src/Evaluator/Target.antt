-- ===== src/Evaluator/Target.antt =====
-- What internal/evaluator/service.go reads of a rule on an instance, and when the rule does not apply.
-- The connection columns of the row are read by the trigger snapshot only and are left out.
use text.Mathlib.Text.{starts_with}
use dbs_monitor.Prelude.{
  ℕ, String, Bool, true, false, not, ◌&&◌, Option, none, some, List, ◌==◌, if◌then◌else◌, str_eq,
}
use dbs_monitor.Alerting.State.{State, unset, Snapshot, initial}
use dbs_monitor.Metric.Catalog.{Metric, MetricProducer, control_plane, agent, producer_for}
use dbs_monitor.Metric.ControlPlane.{metric_agent_status}

-- `GetEvaluationTargetRow`. The texts of the two states are states, and `none` is NULL.
pub record Target (F : Type 0) : Type 0 where
  pub rule_id : String
  pub metric_id : String
  pub aggregation : String
  pub operator : String
  pub threshold : F
  pub recovery_operator : String
  pub recovery_threshold : F
  pub window_seconds : ℕ
  pub consecutive_count : ℕ
  pub recovery_consecutive_count : ℕ
  pub severity : String
  pub no_data_policy : String
  pub version : ℕ
  pub rule_snapshot : String
  pub instance_id : String
  pub last_error_code : Option String
  pub alert_instance_id : Option String
  pub status : State
  pub evaluated_rule_version : ℕ
  pub breach_count : ℕ
  pub recovery_count : ℕ
  pub no_data_count : ℕ
  pub state_before_no_data : Option State
  pub agent_metrics_enabled : Bool
  pub agent_expected : Bool

abbrev pub is_valid : {A : Type 0} → Option A → Bool
is_valid none = false
is_valid (some a) = true

abbrev text_of : Option State → State
text_of none = unset
text_of (some s) = s

module _ {F : Type 0} where
  unfoldable pub snapshot_from_evaluation_target : Target F → Snapshot
  snapshot_from_evaluation_target target =
      if not (is_valid target.alert_instance_id)
      then initial
      else let same_version = target.evaluated_rule_version == target.version in
        record {
          state = target.status;
          state_before_no_data = text_of target.state_before_no_data;
          breach_count = if same_version then target.breach_count else 0;
          recovery_count = if same_version then target.recovery_count else 0;
          no_data_count = if same_version then target.no_data_count else 0;
        }

abbrev pub metric_availability_reachable : String
metric_availability_reachable = "pg.availability.reachable"

abbrev pub is_control_plane : Option MetricProducer → Bool
is_control_plane (some control_plane) = true
is_control_plane _ = false

abbrev pub is_agent : Option MetricProducer → Bool
is_agent (some agent) = true
is_agent _ = false

unfoldable pub collection_failure_blocks_samples : String → Option String → Bool
collection_failure_blocks_samples metric_id last_error_code =
    starts_with metric_id "pg."
    && not (str_eq metric_id metric_availability_reachable)
    && is_valid last_error_code

abbrev pub is_role : Option String → Bool
is_role none = false
is_role (some code) = str_eq code "NOT_APPLICABLE_ROLE"

-- The loop over the table finds what `ProducerFor` finds.
unfoldable pub structurally_not_applicable :
    List Metric → String → Option String → Bool → Bool → Bool
unfolding producer_for
structurally_not_applicable metrics metric_id last_error_code agent_metrics_enabled agent_expected =
    if is_role last_error_code
    then true
    else if agent_metrics_enabled && agent_expected
    then false
    else if str_eq metric_id metric_agent_status
    then true
    else is_agent (producer_for metrics metric_id)
