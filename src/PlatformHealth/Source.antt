-- ===== src/PlatformHealth/Source.antt =====
-- The sources of internal/platformhealth/health.go: each turns the facts of one part of the platform
-- into a status and a code. The numbers it keeps for display are the facts themselves.
-- Counts and days are natural numbers: the code only asks whether they exceed 0 or fall below 7, and
-- a negative number answers as 0 does.
use dbs_monitor.Prelude.{
  ℕ, ◌+◌, ◌-◌, ◌*◌, String, Bool, not, ◌||◌, Option, none, some, ltb, leb, if◌then◌else◌, str_eq,
  hour, Float64,
}
use dbs_monitor.PlatformHealth.Status.{Status, ok, degraded, failed, unknown}
use dbs_monitor.PlatformHealth.Watermark.{
  DiskLevel, normal, warning, critical, emergency, DiskThresholds, classify_watermark_level,
  classify_disk_level,
}

-- A Go `Source` is a string; the code builds these nine only.
pub data Source : Type 0 where
  server_process platform_database collection_scheduler : Source
  partition_maintenance tls_certificate agent_ingress : Source
  disk credential_keyring platform_database_capacity : Source

-- An int64 with its sign: `negsuc n` is -(n + 1).
pub data Int64 : Type 0 where
  pos negsuc : ℕ → Int64

pub record SourceSnapshot (F : Type 0) : Type 0 where
  pub source : Source
  pub status : Status
  pub code : String
  pub version : Option String
  pub started_at : Option ℕ
  pub expires_at : Option ℕ
  pub validity_days_remaining : Option ℕ
  pub probe_capacity : Option ℕ
  pub probe_active : Option ℕ
  pub query_capacity : Option ℕ
  pub query_active : Option ℕ
  pub pending : Option ℕ
  pub skipped_backpressure : Option ℕ
  pub backoff : Option ℕ
  pub consecutive_failures : Option ℕ
  pub prebuild_days_remaining : Option ℕ
  pub disk_level : Option DiskLevel
  pub disk_usage_percent : Option F
  pub disk_thresholds : Option (DiskThresholds F)
  pub capacity_level : Option DiskLevel
  pub capacity_used_bytes : Option ℕ
  pub capacity_budget_bytes : Option ℕ
  pub capacity_usage_percent : Option F
  pub capacity_thresholds : Option (DiskThresholds F)

pub record SchedulerFacts : Type 0 where
  pub probe_capacity : ℕ
  pub probe_active : ℕ
  pub query_capacity : ℕ
  pub query_active : ℕ
  pub pending : ℕ
  pub skipped_backpressure : ℕ
  pub backoff : ℕ
  pub refresh_failed : Bool

pub record CredentialFacts : Type 0 where
  pub available : Bool
  pub failure_code : String

pub record PartitionFacts : Type 0 where
  pub consecutive_failures : ℕ
  pub prebuild_days_remaining : ℕ
  pub write_failed : Bool

-- A composite literal with the first three fields only.
abbrev pub bare : {F : Type 0} → Source → Status → String → SourceSnapshot F
bare source status code = record {
  source = source;
  status = status;
  code = code;
  version = none;
  started_at = none;
  expires_at = none;
  validity_days_remaining = none;
  probe_capacity = none;
  probe_active = none;
  query_capacity = none;
  query_active = none;
  pending = none;
  skipped_backpressure = none;
  backoff = none;
  consecutive_failures = none;
  prebuild_days_remaining = none;
  disk_level = none;
  disk_usage_percent = none;
  disk_thresholds = none;
  capacity_level = none;
  capacity_used_bytes = none;
  capacity_budget_bytes = none;
  capacity_usage_percent = none;
  capacity_thresholds = none;
}

module _ {F : Type 0} where
  unfoldable pub scheduler_source : SchedulerFacts → SourceSnapshot F
  scheduler_source facts =
      let backed_up = ltb 0 facts.pending || ltb 0 facts.skipped_backpressure in
      let snapshot =
        bare collection_scheduler
          (if facts.refresh_failed then failed else if backed_up then degraded else ok)
          (if facts.refresh_failed
            then "SCHEDULER_REFRESH_FAILED"
            else if backed_up
            then "SCHEDULER_BACKPRESSURE"
            else "SCHEDULER_RUNNING") in
      record snapshot {
        probe_capacity = some facts.probe_capacity;
        probe_active = some facts.probe_active;
        query_capacity = some facts.query_capacity;
        query_active = some facts.query_active;
        pending = some facts.pending;
        skipped_backpressure = some facts.skipped_backpressure;
        backoff = some facts.backoff;
      }

  -- `int(math.Ceil(d.Hours() / 24))` of a positive duration is the parameter `ceil_days`; of another
  -- it is not positive, and the code raises it to 0.
  unfoldable pub certificate_source : (ℕ → ℕ) → ℕ → Option ℕ → SourceSnapshot F
  certificate_source ceil_days now none = bare tls_certificate degraded "CERTIFICATE_UNAVAILABLE"
  certificate_source ceil_days now (some expires) =
      let snapshot =
        bare tls_certificate
          (if not (ltb now expires)
            then degraded
            else if not (ltb (now + 30 * 24 * hour) expires)
            then degraded
            else ok)
          (if not (ltb now expires)
            then "CERTIFICATE_EXPIRED"
            else if not (ltb (now + 30 * 24 * hour) expires)
            then "CERTIFICATE_EXPIRING"
            else "CERTIFICATE_VALID") in
      record snapshot {
        expires_at = some expires;
        validity_days_remaining = some (if ltb now expires then ceil_days (expires - now) else 0);
      }

  -- The argument says whether the database returned an error.
  unfoldable pub database_source : Bool → SourceSnapshot F
  database_source has_error =
      if has_error
      then bare platform_database failed "PLATFORM_DATABASE_UNREACHABLE"
      else bare platform_database ok "PLATFORM_DATABASE_REACHABLE"

  unfoldable pub credential_source : CredentialFacts → SourceSnapshot F
  credential_source facts =
      if not facts.available
      then bare credential_keyring unknown "CREDENTIAL_KEYRING_UNAVAILABLE"
      else if not (str_eq facts.failure_code "")
      then bare credential_keyring failed facts.failure_code
      else bare credential_keyring ok "CREDENTIAL_KEYRING_READY"

  unfoldable pub partition_source : PartitionFacts → SourceSnapshot F
  partition_source facts =
      let behind = ltb 0 facts.consecutive_failures || ltb facts.prebuild_days_remaining 7 in
      let snapshot =
        bare partition_maintenance
          (if facts.write_failed then failed else if behind then degraded else ok)
          (if facts.write_failed
            then "PARTITION_WRITE_FAILED"
            else if behind
            then "PARTITION_MAINTENANCE_FAILED"
            else "PARTITIONS_READY") in
      record snapshot {
        consecutive_failures = some facts.consecutive_failures;
        prebuild_days_remaining = some facts.prebuild_days_remaining;
      }

  unfoldable pub disk_unavailable_source : DiskLevel → SourceSnapshot F
  disk_unavailable_source last_known_level = record (bare disk unknown "DISK_USAGE_UNAVAILABLE") {
    disk_level = some last_known_level;
  }

  abbrev pub platform_database_capacity_unconfigured_source : SourceSnapshot F
  platform_database_capacity_unconfigured_source =
      bare platform_database_capacity unknown "PLATFORM_DATABASE_CAPACITY_BUDGET_UNCONFIGURED"

  unfoldable pub platform_database_capacity_unavailable_source : DiskLevel → SourceSnapshot F
  platform_database_capacity_unavailable_source last_known_level =
      record (bare platform_database_capacity unknown
        "PLATFORM_DATABASE_CAPACITY_USAGE_UNAVAILABLE") { capacity_level = some last_known_level }

-- The status of a level, in both watermark sources.
abbrev pub level_status : DiskLevel → Status
level_status normal = ok
level_status warning = degraded
level_status critical = degraded
level_status emergency = failed

abbrev pub disk_code : DiskLevel → String
disk_code normal = "DISK_NORMAL"
disk_code warning = "DISK_WARNING_WATERMARK"
disk_code critical = "DISK_CRITICAL_WATERMARK"
disk_code emergency = "DISK_EMERGENCY_WATERMARK"

abbrev pub capacity_code : DiskLevel → String
capacity_code normal = "PLATFORM_DATABASE_CAPACITY_NORMAL"
capacity_code warning = "PLATFORM_DATABASE_CAPACITY_WARNING_WATERMARK"
capacity_code critical = "PLATFORM_DATABASE_CAPACITY_CRITICAL_WATERMARK"
capacity_code emergency = "PLATFORM_DATABASE_CAPACITY_EMERGENCY_WATERMARK"

module _ (f : Float64) where
  disk_at : f.F → DiskLevel → DiskThresholds f.F → SourceSnapshot f.F
  disk_at usage_percent level thresholds =
      record (bare disk (level_status level) (disk_code level)) {
        disk_level = some level;
        disk_usage_percent = some usage_percent;
        disk_thresholds = some thresholds;
      }

  unfoldable pub disk_source : f.F → DiskLevel → DiskThresholds f.F → SourceSnapshot f.F
  unfolding disk_at disk_unavailable_source
  disk_source usage_percent previous_level thresholds =
      if f.is_nan usage_percent
        || f.is_inf usage_percent
        || f.lt usage_percent (f.of_ℕ 0)
        || f.lt (f.of_ℕ 100) usage_percent
      then disk_unavailable_source previous_level
      else disk_at usage_percent (classify_disk_level f usage_percent previous_level thresholds)
          thresholds

  capacity_at : f.F → ℕ → ℕ → DiskLevel → DiskThresholds f.F → SourceSnapshot f.F
  capacity_at usage_percent used_bytes budget_bytes level thresholds =
      record (bare platform_database_capacity (level_status level) (capacity_code level)) {
        capacity_level = some level;
        capacity_used_bytes = some used_bytes;
        capacity_budget_bytes = some budget_bytes;
        capacity_usage_percent = some usage_percent;
        capacity_thresholds = some thresholds;
      }

  unfoldable pub platform_database_capacity_source :
      Int64 → Int64 → DiskLevel → DiskThresholds f.F → SourceSnapshot f.F
  unfolding capacity_at platform_database_capacity_unavailable_source
  platform_database_capacity_source (negsuc n) budget_bytes previous_level thresholds =
      platform_database_capacity_unavailable_source previous_level
  platform_database_capacity_source (pos used_bytes) (negsuc n) previous_level thresholds =
      platform_database_capacity_unavailable_source previous_level
  platform_database_capacity_source (pos used_bytes) (pos budget_bytes) previous_level thresholds =
      if leb budget_bytes 0
      then platform_database_capacity_unavailable_source previous_level
      else let usage_percent =
          f.mul (f.div (f.of_ℕ used_bytes) (f.of_ℕ budget_bytes)) (f.of_ℕ 100) in
        if f.is_nan usage_percent || f.is_inf usage_percent || f.lt usage_percent (f.of_ℕ 0)
        then platform_database_capacity_unavailable_source previous_level
        else capacity_at usage_percent used_bytes budget_bytes
            (classify_watermark_level f usage_percent previous_level thresholds) thresholds
