-- ===== src/Alerting/Health/Tests.antt =====
-- The rollup of internal/alerting/health.go of a concrete instance.
use dbs_monitor.Prelude.{ℕ, ◌<◌, ◌≡◌, ◌↔◌, refl, true, false, none, [], ◌∷◌}
use dbs_monitor.Alerting.State.{firing}
use dbs_monitor.Alerting.Health.{
  HealthAlert, HealthRollupInput, HealthAttribution, critical_severity, warning_severity,
  rollup_instance_health, has_higher_attribution_priority, included, paused, critical, warning,
  unknown, healthy,
}
use dbs_monitor.Alerting.Health.Counts.{tally, rollup-status_iff}
use dbs_monitor.Alerting.Health.Attribution.{First, Counted, rollup-attribution}

abbrev slow : HealthAlert ℕ
slow = record {
  rule_name = "slow";
  severity = warning_severity;
  state = firing;
  first_triggered_at = 5;
  current_value = 70;
  recovered_at = none;
  ignored = false;
  exclusion = included;
}

abbrev full : HealthAlert ℕ
full = record slow { rule_name = "full"; severity = critical_severity; first_triggered_at = 8 }

abbrev input : HealthRollupInput ℕ
input = record {
  is_paused = false;
  ever_collected = true;
  in_maintenance = false;
  configuration_missing_count = 0;
  now = 10;
  alerts = slow ∷ full ∷ [];
}

rollup-status_iff_example :
    let r = rollup_instance_health input in
    let c = tally critical_severity input.alerts in
    let w = tally warning_severity input.alerts in
    ((r.status ≡ paused) ↔ (input.is_paused ≡ true))
    × ((r.status ≡ critical) ↔ ((input.is_paused ≡ false) × (0 < c)))
    × ((r.status ≡ warning) ↔ ((input.is_paused ≡ false) × (c ≡ 0) × (0 < w)))
    × ((r.status ≡ unknown)
        ↔ ((input.is_paused ≡ false) × (c ≡ 0) × (w ≡ 0) × (input.ever_collected ≡ false)))
    × ((r.status ≡ healthy)
        ↔ ((input.is_paused ≡ false) × (c ≡ 0) × (w ≡ 0) × (input.ever_collected ≡ true)))
rollup-status_iff_example = rollup-status_iff input

abbrev attributed : HealthAttribution ℕ
attributed = record { rule_name = "full"; current_value = 70 }

rollup-attribution_example :
    (b : HealthAlert ℕ) × (attributed
      ≡ record { rule_name = b.rule_name; current_value = b.current_value })
    × Counted b input.alerts
    × First b input.alerts
unfolding rollup_instance_health has_higher_attribution_priority
rollup-attribution_example = rollup-attribution input refl
