-- ===== src/PlatformHealth/Watermark/Hysteresis.antt =====
-- What the hysteresis of `ClassifyWatermarkLevel` does and does not do.
use dbs_monitor.Prelude.{ℕ, ◌≤◌, ◌≡◌, true, arith, Float64, Float64Laws}
use dbs_monitor.PlatformHealth.Watermark.{
  DiskLevel, normal, warning, critical, emergency, DiskThresholds, classify_watermark_level,
}

abbrev pub height : DiskLevel → ℕ
height normal = 0
height warning = 1
height critical = 2
height emergency = 3

module _ (f : Float64) where
  -- To classify the same usage again, from the level it was given, gives that level again.
  pub classify_stable :
      (usage : f.F) (previous : DiskLevel) (t : DiskThresholds f.F)
      → classify_watermark_level f usage (classify_watermark_level f usage previous t) t
        ≡ classify_watermark_level f usage previous t
  unfolding classify_watermark_level
  classify_stable usage previous t = ground arith

  -- More usage from a level that is as high never gives a lower level.
  pub classify_monotone :
      (laws : Float64Laws f) (usage more : f.F) (previous higher : DiskLevel)
      (t : DiskThresholds f.F)
      → f.le usage more ≡ true
      → height previous ≤ height higher
      → height (classify_watermark_level f usage previous t)
        ≤ height (classify_watermark_level f more higher t)
  unfolding classify_watermark_level
  classify_monotone laws usage more previous higher t h k = ground (
    arith,
    laws.le_trans t.emergency_at usage more,
    laws.le_trans t.critical_at usage more,
    laws.le_trans t.warning_at usage more,
    laws.le_trans (f.sub t.emergency_at t.hysteresis) usage more,
    laws.le_trans (f.sub t.critical_at t.hysteresis) usage more,
    laws.le_trans (f.sub t.warning_at t.hysteresis) usage more,
  )
