-- ===== src/PlatformHealth/Watermark/Tests.antt =====
-- The disk levels at concrete usages, with whole numbers for floats.
use dbs_monitor.Prelude.{◌≤◌, ◌≡◌, refl, none, some, arith, whole, whole_laws}
use dbs_monitor.PlatformHealth.Watermark.{
  normal, warning, default_disk_thresholds, validate, classify_watermark_level,
}
use dbs_monitor.PlatformHealth.Watermark.Hysteresis.{height, classify_monotone}

default_is_valid : validate whole (default_disk_thresholds whole) ≡ none
unfolding validate
default_is_valid = refl

-- At 79 percent a warning stays, and none begins.
warning_stays :
    classify_watermark_level whole (some 79) warning (default_disk_thresholds whole) ≡ warning
unfolding classify_watermark_level
warning_stays = refl

classify_monotone_example :
    height (classify_watermark_level whole (some 79) normal (default_disk_thresholds whole))
    ≤ height (classify_watermark_level whole (some 91) warning (default_disk_thresholds whole))
classify_monotone_example =
    classify_monotone whole whole_laws (some 79) (some 91) normal warning
      (default_disk_thresholds whole) refl (omega arith)
