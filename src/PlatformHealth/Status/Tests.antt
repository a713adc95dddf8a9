-- ===== src/PlatformHealth/Status/Tests.antt =====
-- The aggregate of concrete statuses.
use dbs_monitor.Prelude.{◌≡◌, refl, [], ◌∷◌}
use dbs_monitor.PlatformHealth.Status.{ok, degraded, unknown, aggregate_status}

-- A status that is unknown hides one that is degraded, and none that failed.
unknown_hides : aggregate_status (degraded ∷ unknown ∷ ok ∷ []) ≡ unknown
unfolding aggregate_status
unknown_hides = refl
