-- ===== src/Alerting/Events/Tests.antt =====
-- The events of internal/alerting/evaluation.go at concrete steps.
use dbs_monitor.Prelude.{◌≡◌, refl, [], ◌∷◌}
use dbs_monitor.Alerting.State.{pending, firing}
use dbs_monitor.Alerting.Events.{fired, state_events}

firing_is_reported : state_events pending firing ≡ fired ∷ []
unfolding state_events
firing_is_reported = refl
