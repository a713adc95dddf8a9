-- ===== src/Alerting/Health/Counts.antt =====
-- The status of an instance against the alerts that count.
use dbs_monitor.Prelude.{
  ℕ, ◌+◌, ◌<◌, ◌≡◌, ◌↔◌, Bool, true, false, not, ◌&&◌, ◌||◌, List, [], ◌∷◌, arith, if◌then◌else◌,
}
use dbs_monitor.Alerting.State.{is_firing, is_no_data}
use dbs_monitor.Alerting.Health.{
  critical, warning, unknown, healthy, paused, Severity, critical_severity, warning_severity,
  info_severity, unlisted, is_included, HealthAlert, HealthRollupInput, Scan, visit, scan, start,
  rollup_instance_health,
}

abbrev is_same : Severity → Severity → Bool
is_same critical_severity critical_severity = true
is_same warning_severity warning_severity = true
is_same info_severity info_severity = true
is_same unlisted unlisted = true
is_same _ _ = false

module _ {V : Type 0} where
  -- Applicable, firing or without data, and not ignored.
  abbrev pub is_counted : HealthAlert V → Bool
  is_counted a =
      is_included a.exclusion && (is_firing a.state || is_no_data a.state) && not a.ignored

  -- How many alerts of a severity count.
  unfoldable pub tally : Severity → List (HealthAlert V) → ℕ
  tally v [] = 0
  tally v (a ∷ as_list) =
      let rest = tally v as_list in if is_counted a && is_same a.severity v then rest + 1 else rest

  -- What a visit adds to the counts, one severity at a time.
  visit-counts :
      (now : ℕ) (a : HealthAlert V) (s : Scan V)
      → ((visit now a s).counts.critical_count
          ≡ s.counts.critical_count + tally critical_severity (a ∷ []))
        × ((visit now a s).counts.warning_count
            ≡ s.counts.warning_count + tally warning_severity (a ∷ []))
        × ((visit now a s).counts.info_count ≡ s.counts.info_count + tally info_severity (a ∷ []))
  unfolding visit tally
  visit-counts now a s = ground arith

  tally-cons :
      (v : Severity) (a : HealthAlert V) (alerts : List (HealthAlert V))
      → tally v (a ∷ alerts) ≡ tally v (a ∷ []) + tally v alerts
  unfolding tally
  tally-cons v a alerts = ground arith

  scan-counts :
      (now : ℕ) (alerts : List (HealthAlert V)) (s : Scan V)
      → ((scan now alerts s).counts.critical_count
          ≡ s.counts.critical_count + tally critical_severity alerts)
        × ((scan now alerts s).counts.warning_count
            ≡ s.counts.warning_count + tally warning_severity alerts)
        × ((scan now alerts s).counts.info_count ≡ s.counts.info_count + tally info_severity alerts)
  unfolding scan
  scan-counts now [] s = unfold tally in omega arith
  scan-counts now (a ∷ alerts) s = omega (
    arith,
    visit-counts now a s,
    scan-counts now alerts (visit now a s),
    tally-cons critical_severity a alerts,
    tally-cons warning_severity a alerts,
    tally-cons info_severity a alerts,
  )

  -- The counts of a rollup are the numbers of alerts that count, severity by severity.
  pub rollup-counts :
      (input : HealthRollupInput V)
      → let r = rollup_instance_health input in
        (r.counts.critical_count ≡ tally critical_severity input.alerts)
        × (r.counts.warning_count ≡ tally warning_severity input.alerts)
        × (r.counts.info_count ≡ tally info_severity input.alerts)
  unfolding rollup_instance_health
  rollup-counts input = omega (arith, scan-counts input.now input.alerts (start input))

  -- The status of a rollup, read from the alerts alone: paused before all; then critical and warning
  -- by the alerts that count; with neither, unknown until something was collected.
  pub rollup-status_iff :
      (input : HealthRollupInput V)
      → let r = rollup_instance_health input in
        let c = tally critical_severity input.alerts in
        let w = tally warning_severity input.alerts in
        ((r.status ≡ paused) ↔ (input.is_paused ≡ true))
        × ((r.status ≡ critical) ↔ ((input.is_paused ≡ false) × (0 < c)))
        × ((r.status ≡ warning) ↔ ((input.is_paused ≡ false) × (c ≡ 0) × (0 < w)))
        × ((r.status ≡ unknown)
            ↔ ((input.is_paused ≡ false) × (c ≡ 0) × (w ≡ 0) × (input.ever_collected ≡ false)))
        × ((r.status ≡ healthy)
            ↔ ((input.is_paused ≡ false) × (c ≡ 0) × (w ≡ 0) × (input.ever_collected ≡ true)))
  unfolding rollup_instance_health
  rollup-status_iff input =
      let counts = scan-counts input.now input.alerts (start input) in
      (
        (λ h. ground arith, λ h. ground arith),
        (λ h. ground arith, λ h. ground arith),
        (λ h. ground arith, λ h. ground arith),
        (λ h. ground arith, λ h. ground arith),
        (λ h. ground arith, λ h. ground arith),
      )
