-- ===== src/PlatformHealth/Store/Failures.antt =====
-- What the observer of the store is told.
use dbs_monitor.Prelude.{
  ℕ, ◌≡◌, refl, ◌∙◌, Bool, true, false, not, ◌&&◌, ◌||◌, none, some, List, [], ◌∷◌, if◌then◌else◌,
  map, arith, Bool-cases, inl, inr,
}
use dbs_monitor.PlatformHealth.Status.{Status}
use dbs_monitor.PlatformHealth.Source.{
  Source, server_process, platform_database, collection_scheduler, partition_maintenance,
  tls_certificate, agent_ingress, disk, credential_keyring, platform_database_capacity,
  SourceSnapshot,
}
use dbs_monitor.PlatformHealth.Store.{
  Store, FailureFact, source_order, same_source, is_failed, status_of, latest, new_failures,
  observe_new_failures, put_source, refresh, assemble, publish, update,
}
use dbs_monitor.PlatformHealth.Store.Snapshots.{
  Keyed, Assembled, Assembled-listed, same_source→≡, refresh-Keyed, put_source-Keyed,
}

-- Whether the observer is told of a source.
unfoldable pub observes : Source → List FailureFact → Bool
observes x [] = false
observes x (fact ∷ facts) = same_source fact.source x || observes x facts

unfoldable pub listed : Source → List Source → Bool
listed x [] = false
listed x (y ∷ l) = same_source y x || listed x l

all_listed : (x : Source) → listed x source_order ≡ true
unfolding listed same_source
all_listed server_process = refl
all_listed platform_database = refl
all_listed collection_scheduler = refl
all_listed partition_maintenance = refl
all_listed tls_certificate = refl
all_listed agent_ingress = refl
all_listed disk = refl
all_listed credential_keyring = refl
all_listed platform_database_capacity = refl

observes-if :
    (x : Source) (told : Bool) (fact : FailureFact) (facts : List FailureFact)
    → observes x (if told then fact ∷ facts else facts)
      ≡ ((told && same_source fact.source x) || observes x facts)
unfolding observes
observes-if x true fact facts = refl
observes-if x false fact facts = refl

-- `y` or some element of the list is `x`, and it is told of.
combine :
    (same failed_y new_y in_list failed_x new_x : Bool)
    → (same ≡ true → (failed_y ≡ failed_x) × (new_y ≡ new_x))
    → (((failed_y && new_y) && same) || (in_list && failed_x && new_x))
      ≡ ((same || in_list) && failed_x && new_x)
combine true a b l c d h = ground (arith, h refl)
combine false a b l c d h = ground arith

module _ {F : Type 0} where
  latest-map :
      (sources : Source → SourceSnapshot F)
      → Keyed sources
      → (x : Source) (l : List Source)
      → latest x (map sources l) ≡ (if listed x l then some (sources x) else none)
  unfolding latest listed
  latest-map sources k x [] = refl
  latest-map sources k x (y ∷ l) = elim (Bool-cases (same_source y x)) [
    | inl same ↦ ground (k y, k x, same_source→≡ y x same, latest-map sources k x l, arith)
    | inr differs ↦ ground (k y, latest-map sources k x l, arith)
  ]

  latest-status :
      (before sources : Source → SourceSnapshot F)
      → Keyed before
      → Keyed sources
      → (y : Source)
      → status_of (latest (sources y).source (map before source_order)) ≡ (before y).status
  latest-status before sources b k y =
      rw (k y, latest-map before b y source_order, all_listed y) refl

  observes-new_failures :
      (previous : List (SourceSnapshot F)) (old : Source → Status)
      (sources : Source → SourceSnapshot F)
      → ((y : Source) → status_of (latest (sources y).source previous) ≡ old y)
      → Keyed sources
      → (at : ℕ) (x : Source) (l : List Source)
      → observes x (new_failures previous (map sources l) at)
        ≡ (listed x l && is_failed (sources x).status && not (is_failed (old x)))
  unfolding observes new_failures listed
  observes-new_failures previous old sources b k at x [] = refl
  observes-new_failures previous old sources b k at x (y ∷ l) =
      observes-if x
        (is_failed (sources y).status
          && not (is_failed (status_of (latest (sources y).source previous))))
        _ _
      ∙ rw (b y, k y, observes-new_failures previous old sources b k at x l)
          (combine (same_source y x) (is_failed (sources y).status) (not (is_failed (old y)))
            (listed x l) (is_failed (sources x).status) (not (is_failed (old x)))
            (λ same. rw (same_source→≡ y x same) (refl, refl)))

  module _ (ceil_days : ℕ → ℕ) where
    -- A store with an observer, whose snapshot is assembled from its sources, tells the observer of a
    -- source at an update exactly if the source is failed after it and was not failed before it.
    pub update-observes :
        (now : ℕ) (s : SourceSnapshot F) (store : Store F) (x : Source)
        → Assembled store
        → store.has_observer ≡ true
        → observes x (update ceil_days now s store).observed ≡ (
            is_failed ((update ceil_days now s store).store.sources x).status
            && not (is_failed (store.sources x).status))
    unfolding update publish assemble observe_new_failures
    update-observes now s store x a watched =
        let fresh = refresh ceil_days now (put_source s store.sources) in
        let fresh-Keyed =
          refresh-Keyed ceil_days now (put_source s store.sources)
            (put_source-Keyed s store.sources a.keyed) in
        let told =
          observes-new_failures (map store.sources source_order) (λ y. (store.sources y).status)
            fresh (latest-status store.sources fresh a.keyed fresh-Keyed) fresh-Keyed now x
            source_order in
        rw (watched, Assembled-listed store a, told, all_listed x) refl
