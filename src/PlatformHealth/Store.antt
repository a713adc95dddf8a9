-- ===== src/PlatformHealth/Store.antt =====
-- The `Store` of internal/platformhealth/health.go: the last snapshot of each source, and the snapshot
-- of the platform that is assembled from them. Each operation runs under the store's lock, so it is
-- one step; what it tells the observer and writes to the journal stands in its result.
mod Snapshots
mod Failures
mod Tests
use dbs_monitor.Prelude.{
  ℕ, String, Bool, true, false, not, ◌&&◌, Option, none, some, List, [], ◌∷◌, ◌==◌, if◌then◌else◌,
  str_eq, map,
}
use dbs_monitor.PlatformHealth.Status.{
  Status, ok, degraded, failed, unknown, other, aggregate_status,
}
use dbs_monitor.PlatformHealth.Watermark.{DiskLevel, normal, is_emergency}
use dbs_monitor.PlatformHealth.Source.{
  Source, server_process, platform_database, collection_scheduler, partition_maintenance,
  tls_certificate, agent_ingress, disk, credential_keyring, platform_database_capacity,
  SourceSnapshot, bare, certificate_source,
}

abbrev pub source_order : List Source
source_order =
    server_process ∷ platform_database ∷ collection_scheduler ∷ partition_maintenance
    ∷ tls_certificate ∷ agent_ingress ∷ disk ∷ credential_keyring ∷ platform_database_capacity ∷ []

abbrev pub index : Source → ℕ
index server_process = 0
index platform_database = 1
index collection_scheduler = 2
index partition_maintenance = 3
index tls_certificate = 4
index agent_ingress = 5
index disk = 6
index credential_keyring = 7
index platform_database_capacity = 8

unfoldable pub same_source : Source → Source → Bool
same_source a b = index a == index b

abbrev pub same_status : Status → Status → Bool
same_status ok ok = true
same_status degraded degraded = true
same_status failed failed = true
same_status unknown unknown = true
same_status other other = true
same_status _ _ = false

abbrev pub is_failed : Status → Bool
is_failed failed = true
is_failed _ = false

pub record FailureFact : Type 0 where
  pub source : Source
  pub code : String
  pub observed_at : ℕ

pub record SourceChange : Type 0 where
  pub source : Source
  pub previous_status : Status
  pub status : Status
  pub code : String
  pub validity_days_remaining : Option ℕ

pub record Snapshot (F : Type 0) : Type 0 where
  pub status : Status
  pub sources : List (SourceSnapshot F)
  pub assembled_at : ℕ

pub record Store (F : Type 0) : Type 0 where
  pub sources : Source → SourceSnapshot F
  pub snapshot : Snapshot F
  pub has_observer : Bool

-- The store after an operation, the changes that go to the journal, where there are any, and what the
-- observer is told.
pub record Updated (F : Type 0) : Type 0 where
  pub store : Store F
  pub changes : List SourceChange
  pub observed : List FailureFact

abbrev level_or_normal : Option DiskLevel → DiskLevel
level_or_normal none = normal
level_or_normal (some level) = level

module _ {F : Type 0} where
  abbrev pub put_source : SourceSnapshot F → (Source → SourceSnapshot F) → Source → SourceSnapshot F
  put_source s sources x = if same_source s.source x then s else sources x

  -- The map that `changedSources` and `observeNewFailures` build: a later entry replaces an earlier.
  unfoldable pub latest : Source → List (SourceSnapshot F) → Option (SourceSnapshot F)
  latest x [] = none
  latest x (s ∷ l) = elim (latest x l) [
    | none ↦ if same_source s.source x then some s else none
    | some later ↦ some later
  ]

  -- A missing key has the empty string for its status.
  abbrev pub status_of : Option (SourceSnapshot F) → Status
  status_of none = other
  status_of (some s) = s.status

  abbrev is_unchanged : Option (SourceSnapshot F) → SourceSnapshot F → Bool
  is_unchanged none s = same_status other s.status && str_eq "" s.code
  is_unchanged (some b) s = same_status b.status s.status && str_eq b.code s.code

  unfoldable pub changed_sources :
      List (SourceSnapshot F) → List (SourceSnapshot F) → List SourceChange
  changed_sources previous [] = []
  changed_sources previous (s ∷ l) =
      let rest = changed_sources previous l in
      if is_unchanged (latest s.source previous) s
      then rest
      else record {
        source = s.source;
        previous_status = status_of (latest s.source previous);
        status = s.status;
        code = s.code;
        validity_days_remaining = s.validity_days_remaining;
      }
        ∷ rest

  unfoldable pub new_failures :
      List (SourceSnapshot F) → List (SourceSnapshot F) → ℕ → List FailureFact
  new_failures previous [] at = []
  new_failures previous (s ∷ l) at =
      let rest = new_failures previous l at in
      if is_failed s.status && not (is_failed (status_of (latest s.source previous)))
      then record { source = s.source; code = s.code; observed_at = at } ∷ rest
      else rest

  unfoldable pub observe_new_failures : Bool → Snapshot F → Snapshot F → List FailureFact
  observe_new_failures has_observer previous current =
      if has_observer
      then new_failures previous.sources current.sources current.assembled_at
      else []

  abbrev pub no_facts : Source → SourceSnapshot F
  no_facts source = bare source unknown "FACT_UNAVAILABLE"

  abbrev pub server_process_source : String → ℕ → SourceSnapshot F
  server_process_source version started_at =
      record (bare server_process ok "SERVER_PROCESS_RUNNING") {
        version = some version;
        started_at = some started_at;
      }

  abbrev pub first_sources : String → ℕ → Source → SourceSnapshot F
  first_sources version started_at = put_source (server_process_source version started_at) no_facts

  module _ (ceil_days : ℕ → ℕ) where
    -- The certificate is judged anew whenever a snapshot is assembled.
    unfoldable pub refresh : ℕ → (Source → SourceSnapshot F) → Source → SourceSnapshot F
    refresh now sources = elim (sources tls_certificate).expires_at [
      | none ↦ sources
      | some expires ↦ put_source (certificate_source ceil_days now (some expires)) sources
    ]

    -- `assemble` writes to the store and returns the snapshot, which its callers keep.
    unfoldable pub assemble : ℕ → Bool → (Source → SourceSnapshot F) → Store F
    assemble now has_observer sources =
        let fresh = refresh now sources in
        record {
          sources = fresh;
          snapshot = record {
            status = aggregate_status (map (λ source. (fresh source).status) source_order);
            sources = map fresh source_order;
            assembled_at = now;
          };
          has_observer = has_observer;
        }

    unfoldable pub new_store : String → ℕ → Store F
    new_store version started_at = assemble started_at false (first_sources version started_at)

    unfoldable pub publish : ℕ → Store F → (Source → SourceSnapshot F) → Updated F
    publish now store sources =
        let current = assemble now store.has_observer sources in
        record {
          store = current;
          changes = changed_sources store.snapshot.sources current.snapshot.sources;
          observed = observe_new_failures store.has_observer store.snapshot current.snapshot;
        }

    unfoldable pub update : ℕ → SourceSnapshot F → Store F → Updated F
    unfolding publish
    update now source store = publish now store (put_source source store.sources)

    -- It also writes the whole snapshot to the journal.
    unfoldable pub publish_summary : ℕ → Store F → Updated F
    unfolding publish
    publish_summary now store = publish now store store.sources

  abbrev pub set_failure_observer : Bool → Store F → Store F
  set_failure_observer has_observer store = record store { has_observer = has_observer }

  unfoldable pub disk_level_of : Store F → DiskLevel
  disk_level_of store = level_or_normal (store.sources disk).disk_level

  unfoldable pub platform_database_capacity_level : Store F → DiskLevel
  platform_database_capacity_level store =
      level_or_normal (store.sources platform_database_capacity).capacity_level

  abbrev pub reject_sample_writes : Store F → Bool
  reject_sample_writes store = is_emergency (platform_database_capacity_level store)

  abbrev pub reject_local_large_writes : Store F → Bool
  reject_local_large_writes store = is_emergency (disk_level_of store)
