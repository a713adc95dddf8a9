-- ===== src/Notify/Maintenance.antt =====
-- internal/notify/maintenance.go: the maintenance window that covers an instance at a time. A UUID is
-- its canonical text, which is what the source compares and orders by.
mod Choice
mod Tests
use Prim.Native.String.{compare}
use Prim.Native.Nat.{Ordering}
use dbs_monitor.Prelude.{
  ℕ, String, Bool, true, false, not, ◌&&◌, ◌||◌, Option, none, some, List, [], ◌∷◌, ltb, ◌==◌,
  if◌then◌else◌, str_eq, map,
}

pub record MaintenanceWindowScope : Type 0 where
  pub id : String
  pub instance_ids : List String
  pub starts_at : ℕ
  pub ends_at : ℕ
  pub is_deleted : Bool

unfoldable pub contains_instance : List String → String → Bool
contains_instance [] instance_id = false
contains_instance (candidate ∷ rest) instance_id =
    str_eq candidate instance_id || contains_instance rest instance_id

abbrev pub text_less : String → String → Bool
text_less s t = elim (compare s t) [ Ordering.lt ↦ true | _ ↦ false ]

-- Not skipped by `continue`.
abbrev pub covers : String → ℕ → MaintenanceWindowScope → Bool
covers instance_id at_time window = not (
    window.is_deleted
    || ltb at_time window.starts_at
    || not (ltb at_time window.ends_at)
    || not (contains_instance window.instance_ids instance_id))

-- The second test, against the window found so far.
unfoldable pub is_preferred : MaintenanceWindowScope → MaintenanceWindowScope → Bool
is_preferred window active =
    ltb window.ends_at active.ends_at
    || (window.ends_at == active.ends_at && text_less window.id active.id)

choose : MaintenanceWindowScope → Option MaintenanceWindowScope → Option MaintenanceWindowScope
choose window none = some window
choose window (some active) = if is_preferred window active then some window else some active

scan :
    String
    → ℕ
    → List MaintenanceWindowScope
    → Option MaintenanceWindowScope
    → Option MaintenanceWindowScope
unfolding choose
scan instance_id at_time [] active = active
scan instance_id at_time (window ∷ windows) active =
    scan instance_id at_time windows
      (if covers instance_id at_time window then choose window active else active)

unfoldable pub active_maintenance_window :
    String → ℕ → List MaintenanceWindowScope → Option MaintenanceWindowScope
unfolding scan
active_maintenance_window instance_id at_time windows = scan instance_id at_time windows none

-- A row of the table `maintenance_window`.
pub record MaintenanceWindowRow : Type 0 where
  pub id : String
  pub starts_at : ℕ
  pub ends_at : ℕ
  pub deleted_at : Option ℕ

abbrev pub is_set : Option ℕ → Bool
is_set none = false
is_set (some t) = true

unfoldable pub maintenance_window_scopes :
    String → List MaintenanceWindowRow → List MaintenanceWindowScope
maintenance_window_scopes instance_id rows =
    map
      (λ row. record {
        id = row.id;
        instance_ids = instance_id ∷ [];
        starts_at = row.starts_at;
        ends_at = row.ends_at;
        is_deleted = is_set row.deleted_at;
      })
      rows

-- `FindActiveMaintenanceWindow`, given what `ListMaintenanceWindowsForInstance` returns: `none` is its
-- error, and the result holds the identifier of the window, if one is active.
unfoldable pub find_active_maintenance_window :
    Option (List MaintenanceWindowRow) → String → ℕ → Option (Option String)
unfolding active_maintenance_window maintenance_window_scopes
find_active_maintenance_window none instance_id at_time = none
find_active_maintenance_window (some rows) instance_id at_time =
    elim (active_maintenance_window instance_id at_time
      (maintenance_window_scopes instance_id rows)) [
        | none ↦ some none
        | some window ↦ some (some window.id)
      ]
