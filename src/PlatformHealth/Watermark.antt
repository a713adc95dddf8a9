-- ===== src/PlatformHealth/Watermark.antt =====
-- The disk levels of internal/platformhealth/health.go: the thresholds and the classification with
-- hysteresis.
mod Hysteresis
mod Tests
use dbs_monitor.Prelude.{
  String, Bool, true, false, not, ◌&&◌, ◌||◌, Option, none, some, if◌then◌else◌, Float64,
}

-- A Go `DiskLevel` is a string; the code builds these four only.
pub data DiskLevel : Type 0 where
  normal warning critical emergency : DiskLevel

abbrev pub is_emergency : DiskLevel → Bool
is_emergency emergency = true
is_emergency _ = false

abbrev pub is_critical : DiskLevel → Bool
is_critical critical = true
is_critical _ = false

abbrev pub is_normal : DiskLevel → Bool
is_normal normal = true
is_normal _ = false

pub record DiskThresholds (F : Type 0) : Type 0 where
  pub warning_at : F
  pub critical_at : F
  pub emergency_at : F
  pub hysteresis : F

module _ (f : Float64) where
  abbrev pub default_disk_thresholds : DiskThresholds f.F
  default_disk_thresholds = record {
    warning_at = f.of_ℕ 80;
    critical_at = f.of_ℕ 90;
    emergency_at = f.of_ℕ 95;
    hysteresis = f.of_ℕ 2;
  }

  abbrev pub is_finite : f.F → Bool
  is_finite value = not (f.is_nan value || f.is_inf value)

  -- The error that `Validate` returns, if any.
  unfoldable pub validate : DiskThresholds f.F → Option String
  validate t =
      if not (
        is_finite t.warning_at
        && is_finite t.critical_at
        && is_finite t.emergency_at
        && is_finite t.hysteresis)
      then some "disk thresholds must be finite"
      else if f.le t.warning_at (f.of_ℕ 0)
          || f.le t.critical_at t.warning_at
          || f.le t.emergency_at t.critical_at
          || f.lt (f.of_ℕ 100) t.emergency_at
      then some "disk thresholds must be ordered between 0 and 100"
      else if f.lt t.hysteresis (f.of_ℕ 0) || f.le t.warning_at t.hysteresis
      then some "disk hysteresis must be non-negative and below the warning threshold"
      else none

  unfoldable pub classify_watermark_level : f.F → DiskLevel → DiskThresholds f.F → DiskLevel
  classify_watermark_level usage_percent previous_level t =
      if f.le t.emergency_at usage_percent
      then emergency
      else if is_emergency previous_level && f.le (f.sub t.emergency_at t.hysteresis) usage_percent
      then emergency
      else if f.le t.critical_at usage_percent
      then critical
      else if (is_emergency previous_level || is_critical previous_level)
          && f.le (f.sub t.critical_at t.hysteresis) usage_percent
      then critical
      else if f.le t.warning_at usage_percent
      then warning
      else if not (is_normal previous_level) && f.le (f.sub t.warning_at t.hysteresis) usage_percent
      then warning
      else normal

  unfoldable pub classify_disk_level : f.F → DiskLevel → DiskThresholds f.F → DiskLevel
  unfolding classify_watermark_level
  classify_disk_level usage_percent previous_level t =
      classify_watermark_level usage_percent previous_level t
