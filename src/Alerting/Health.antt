-- ===== src/Alerting/Health.antt =====
-- internal/alerting/health.go: the health of an instance, rolled up from its alerts. `V` is the type
-- of `CurrentValue *float64`, which the rollup copies and never reads.
mod Counts
mod Attribution
mod Tests
use dbs_monitor.Prelude.{
  ℕ, ◌+◌, ◌*◌, ◌<◌, String, Bool, true, false, not, ◌&&◌, ◌||◌, Option, none, some, List, [], ◌∷◌,
  ltb, leb, ◌==◌, if◌then◌else◌, hour,
}
use dbs_monitor.Alerting.State.{State, is_recovered, is_firing, is_no_data}

abbrev pub recent_recovery_window : ℕ
recent_recovery_window = 24 * hour

pub data HealthStatus : Type 0 where
  critical warning unknown healthy paused : HealthStatus

-- `unlisted` is any other string.
pub data Severity : Type 0 where
  critical_severity warning_severity info_severity unlisted : Severity

pub data HealthAlertExclusion : Type 0 where
  included structurally_not_applicable configuration_missing : HealthAlertExclusion

abbrev pub is_included : HealthAlertExclusion → Bool
is_included included = true
is_included _ = false

module _ (V : Type 0) where
  pub record HealthAlert : Type 0 where
    pub rule_name : String
    pub severity : Severity
    pub state : State
    pub first_triggered_at : ℕ
    pub current_value : V
    pub recovered_at : Option ℕ
    pub ignored : Bool
    pub exclusion : HealthAlertExclusion

  pub record HealthRollupInput : Type 0 where
    pub is_paused : Bool
    pub ever_collected : Bool
    pub in_maintenance : Bool
    pub configuration_missing_count : ℕ
    pub now : ℕ
    pub alerts : List HealthAlert

  pub record HealthAttribution : Type 0 where
    pub rule_name : String
    pub current_value : V

pub record HealthAlertCounts : Type 0 where
  pub critical_count : ℕ
  pub warning_count : ℕ
  pub info_count : ℕ

pub record HealthFlags : Type 0 where
  pub has_no_data : Bool
  pub in_maintenance : Bool
  pub recently_recovered : Bool
  pub ignored_count : ℕ
  pub configuration_missing_count : ℕ

pub record HealthRollup (V : Type 0) : Type 0 where
  pub status : HealthStatus
  pub attribution : Option (HealthAttribution V)
  pub counts : HealthAlertCounts
  pub flags : HealthFlags

-- The lower end of the window is compared on the other side, where the numbers need no sign.
abbrev pub recovered_recently : Option ℕ → ℕ → Bool
recovered_recently none now = false
recovered_recently (some at_time) now =
    leb now (at_time + recent_recovery_window) && leb at_time now

abbrev pub severity_rank : Severity → ℕ
severity_rank critical_severity = 3
severity_rank warning_severity = 2
severity_rank info_severity = 1
severity_rank unlisted = 0

-- The switch over the severity of an alert.
abbrev pub count_severity : Severity → HealthAlertCounts → HealthAlertCounts
count_severity critical_severity c = record c { critical_count = c.critical_count + 1 }
count_severity warning_severity c = record c { warning_count = c.warning_count + 1 }
count_severity info_severity c = record c { info_count = c.info_count + 1 }
count_severity unlisted c = c

-- The variables of the loop.
pub record Scan (V : Type 0) : Type 0 where
  pub attributed : Option (HealthAlert V)
  pub counts : HealthAlertCounts
  pub flags : HealthFlags

module _ {V : Type 0} where
  unfoldable pub has_higher_attribution_priority : HealthAlert V → HealthAlert V → Bool
  has_higher_attribution_priority candidate current =
      let candidate_rank = severity_rank candidate.severity in
      let current_rank = severity_rank current.severity in
      if not (candidate_rank == current_rank)
      then ltb current_rank candidate_rank
      else ltb candidate.first_triggered_at current.first_triggered_at

  attribute : HealthAlert V → Option (HealthAlert V) → Option (HealthAlert V)
  attribute alert none = some alert
  attribute alert (some current) =
      if has_higher_attribution_priority alert current then some alert else some current

  -- What follows the tests for an alert that is firing or without data.
  visit_active : HealthAlert V → Scan V → Scan V
  visit_active alert s =
      let flags =
        if is_no_data alert.state then record s.flags { has_no_data = true } else s.flags in
      if alert.ignored
      then record s { flags = record flags { ignored_count = flags.ignored_count + 1 } }
      else record s {
        attributed = attribute alert s.attributed;
        counts = count_severity alert.severity s.counts;
        flags = flags;
      }

  visit : ℕ → HealthAlert V → Scan V → Scan V
  unfolding attribute visit_active
  visit now alert s =
      if not (is_included alert.exclusion)
      then s
      else if is_recovered alert.state
      then if recovered_recently alert.recovered_at now
        then record s { flags = record s.flags { recently_recovered = true } }
        else s
      else if not (is_firing alert.state) && not (is_no_data alert.state)
      then s
      else visit_active alert s

  scan : ℕ → List (HealthAlert V) → Scan V → Scan V
  scan now [] s = s
  scan now (alert ∷ alerts) s = scan now alerts (visit now alert s)

  start : HealthRollupInput V → Scan V
  start input = record {
    attributed = none;
    counts = record { critical_count = 0; warning_count = 0; info_count = 0 };
    flags = record {
      has_no_data = false;
      in_maintenance = input.in_maintenance;
      recently_recovered = false;
      ignored_count = 0;
      configuration_missing_count = input.configuration_missing_count;
    };
  }

  status_of : HealthRollupInput V → HealthAlertCounts → HealthStatus
  status_of input counts =
      if input.is_paused
      then paused
      else if ltb 0 counts.critical_count
      then critical
      else if ltb 0 counts.warning_count
      then warning
      else if not input.ever_collected
      then unknown
      else healthy

  attribution_of : Option (HealthAlert V) → Option (HealthAttribution V)
  attribution_of none = none
  attribution_of (some a) =
      some (record { rule_name = a.rule_name; current_value = a.current_value })

  unfoldable pub rollup_instance_health : HealthRollupInput V → HealthRollup V
  unfolding visit scan start status_of attribution_of
  rollup_instance_health input =
      let s = scan input.now input.alerts (start input) in
      record {
        status = status_of input s.counts;
        attribution = attribution_of s.attributed;
        counts = s.counts;
        flags = s.flags;
      }
