-- ===== src/Notify/Maintenance/Tests.antt =====
-- The active window of internal/notify/maintenance.go among two that overlap.
use dbs_monitor.Prelude.{◌≡◌, refl, true, false, [], ◌∷◌, All}
use dbs_monitor.Notify.Maintenance.{
  MaintenanceWindowScope, contains_instance, covers, is_preferred, active_maintenance_window,
}
use dbs_monitor.Notify.Maintenance.Choice.{Member, NotSooner, active_maintenance_window-covers}

abbrev long : MaintenanceWindowScope
long = record {
  id = "w1";
  instance_ids = "a" ∷ [];
  starts_at = 0;
  ends_at = 50;
  is_deleted = false;
}

abbrev short : MaintenanceWindowScope
short = record long { id = "w2"; ends_at = 20 }

active_maintenance_window-covers_example :
    Member short (long ∷ short ∷ [])
    × (covers "a" 10 short ≡ true)
    × All (NotSooner "a" 10 short) (long ∷ short ∷ [])
unfolding active_maintenance_window is_preferred contains_instance
active_maintenance_window-covers_example =
    active_maintenance_window-covers "a" 10 (long ∷ short ∷ []) refl
