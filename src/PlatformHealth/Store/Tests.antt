-- ===== src/PlatformHealth/Store/Tests.antt =====
-- A store of internal/platformhealth/health.go over a few updates.
use dbs_monitor.Prelude.{ℕ, ◌≡◌, refl, true, not, ◌&&◌, List, [], ◌∷◌}
use dbs_monitor.PlatformHealth.Source.{platform_database, database_source}
use dbs_monitor.PlatformHealth.Store.{Store, is_failed, new_store, update, set_failure_observer}
use dbs_monitor.PlatformHealth.Store.Snapshots.{
  Assembled, Operation, updated, summarised, run, new_store-Assembled,
}
use dbs_monitor.PlatformHealth.Store.Failures.{observes, update-observes}

abbrev whole_days : ℕ → ℕ
whole_days duration = duration

abbrev history : List (Operation ℕ)
history = updated 5 (database_source true) ∷ summarised 6 ∷ []

new_store-Assembled_example : Assembled (run whole_days (new_store whole_days "1.0" 1) history)
new_store-Assembled_example = new_store-Assembled whole_days "1.0" 1 history

abbrev watched : Store ℕ
watched = set_failure_observer true (new_store whole_days "1.0" 1)

watched-Assembled : Assembled watched
unfolding run
watched-Assembled =
    let a = new_store-Assembled whole_days "1.0" 1 [] in
    record {
      keyed = a.keyed;
      named = a.named;
      once = a.once;
      shown = a.shown;
      aggregated = a.aggregated;
    }

update-observes_example :
    observes platform_database (update whole_days 5 (database_source true) watched).observed ≡ (
      is_failed
        ((update whole_days 5 (database_source true) watched).store.sources
          platform_database).status
      && not (is_failed (watched.sources platform_database).status))
update-observes_example =
    update-observes whole_days 5 (database_source true) watched platform_database watched-Assembled
      refl
