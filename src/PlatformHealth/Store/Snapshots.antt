-- ===== src/PlatformHealth/Store/Snapshots.antt =====
-- The store's snapshot against its sources.
use dbs_monitor.Prelude.{
  ℕ, ◌+◌, ◌≡◌, refl, All, sym, ap, ◌∙◌, String, Bool, true, false, some, List, [], ◌∷◌, ◌==◌,
  if◌then◌else◌, map, arith, Option-cases, Bool-cases, inl, inr,
}
use dbs_monitor.PlatformHealth.Status.Worst.{badness, worst, aggregate_status_lem}
use dbs_monitor.PlatformHealth.Source.{
  Source, server_process, platform_database, collection_scheduler, partition_maintenance,
  tls_certificate, agent_ingress, disk, credential_keyring, platform_database_capacity,
  SourceSnapshot, certificate_source,
}
use dbs_monitor.PlatformHealth.Store.{
  Store, source_order, index, same_source, put_source, refresh, assemble, no_facts,
  server_process_source, first_sources, new_store, publish, update, publish_summary,
}

of_index : ℕ → Source
of_index n =
    if n == 0
    then server_process
    else if n == 1
    then platform_database
    else if n == 2
    then collection_scheduler
    else if n == 3
    then partition_maintenance
    else if n == 4
    then tls_certificate
    else if n == 5
    then agent_ingress
    else if n == 6
    then disk
    else if n == 7
    then credential_keyring
    else platform_database_capacity

of_index-index : (x : Source) → of_index (index x) ≡ x
unfolding of_index
of_index-index server_process = refl
of_index-index platform_database = refl
of_index-index collection_scheduler = refl
of_index-index partition_maintenance = refl
of_index-index tls_certificate = refl
of_index-index agent_ingress = refl
of_index-index disk = refl
of_index-index credential_keyring = refl
of_index-index platform_database_capacity = refl

eq→≡ : (a b : ℕ) → (a == b) ≡ true → a ≡ b
eq→≡ a b h = ground arith

pub same_source→≡ : (x y : Source) → same_source x y ≡ true → x ≡ y
unfolding same_source
same_source→≡ x y h =
    sym (of_index-index x) ∙ ap of_index (eq→≡ (index x) (index y) h) ∙ of_index-index y

-- What happens to a store after it was made.
pub data Operation (F : Type 0) : Type 0 where
  updated : ℕ → SourceSnapshot F → Operation F
  summarised : ℕ → Operation F

-- How often a list of sources names one.
unfoldable pub occurrences : Source → List Source → ℕ
unfolding same_source
occurrences x [] = 0
occurrences x (y ∷ l) = let rest = occurrences x l in if same_source x y then rest + 1 else rest

names_once : (x : Source) → occurrences x source_order ≡ 1
unfolding occurrences
names_once server_process = refl
names_once platform_database = refl
names_once collection_scheduler = refl
names_once partition_maintenance = refl
names_once tls_certificate = refl
names_once agent_ingress = refl
names_once disk = refl
names_once credential_keyring = refl
names_once platform_database_capacity = refl

module _ {F : Type 0} where
  -- Each source is kept under its own name.
  abbrev pub Keyed : (Source → SourceSnapshot F) → Type 0
  Keyed sources = (x : Source) → (sources x).source ≡ x

  -- The snapshot of the store names the nine sources, each once, in this order, shows each as the
  -- store keeps it, and is as bad as the worst of them.
  pub record Assembled (store : Store F) : Type 0 where
    pub keyed : Keyed store.sources
    pub named :
        map (λ s. s.source) store.snapshot.sources
        ≡ server_process ∷ platform_database ∷ collection_scheduler ∷ partition_maintenance
          ∷ tls_certificate ∷ agent_ingress ∷ disk ∷ credential_keyring ∷ platform_database_capacity
          ∷ []
    pub once : (x : Source) → occurrences x (map (λ s. s.source) store.snapshot.sources) ≡ 1
    pub shown : All (λ s. s ≡ store.sources s.source) store.snapshot.sources
    pub aggregated :
        badness store.snapshot.status ≡ worst (map (λ s. s.status) store.snapshot.sources)

  pub put_source-Keyed :
      (s : SourceSnapshot F) (sources : Source → SourceSnapshot F)
      → Keyed sources
      → Keyed (put_source s sources)
  put_source-Keyed s sources k x = elim (Bool-cases (same_source s.source x)) [
    | inl same ↦ rw same (same_source→≡ s.source x same)
    | inr differs ↦ rw differs (k x)
  ]

  names-map :
      (sources : Source → SourceSnapshot F)
      → Keyed sources
      → (l : List Source) → map (λ s. s.source) (map sources l) ≡ l
  names-map sources k [] = refl
  names-map sources k (x ∷ l) = rw (k x, names-map sources k l) refl

  shown-map :
      (sources : Source → SourceSnapshot F)
      → Keyed sources
      → (l : List Source) → All (λ s. s ≡ sources s.source) (map sources l)
  shown-map sources k [] = tt
  shown-map sources k (x ∷ l) = (ap sources (sym (k x)), shown-map sources k l)

  relisted :
      (sources : Source → SourceSnapshot F) (l : List (SourceSnapshot F))
      → All (λ s. s ≡ sources s.source) l
      → l ≡ map sources (map (λ s. s.source) l)
  relisted sources [] h = refl
  relisted sources (s ∷ l) h = cc (h.0, relisted sources l h.1)

  -- What the snapshot lists is the sources of the store, in the order of the source.
  pub Assembled-listed :
      (store : Store F) → Assembled store → store.snapshot.sources ≡ map store.sources source_order
  Assembled-listed store a =
      relisted store.sources store.snapshot.sources a.shown ∙ ap (map store.sources) a.named

  module _ (ceil_days : ℕ → ℕ) where
    pub refresh-Keyed :
        (now : ℕ) (sources : Source → SourceSnapshot F)
        → Keyed sources
        → Keyed (refresh ceil_days now sources)
    unfolding refresh
    refresh-Keyed now sources k = elim (Option-cases (sources tls_certificate).expires_at) [
      | inl e ↦ rw (e, refresh) k
      | inr (t, e) ↦
          rw (e, refresh) (put_source-Keyed (certificate_source ceil_days now (some t)) sources k)
    ]

    pub assemble-Assembled :
        (now : ℕ) (has_observer : Bool) (sources : Source → SourceSnapshot F)
        → Keyed sources
        → Assembled (assemble ceil_days now has_observer sources)
    unfolding assemble
    assemble-Assembled now has_observer sources k =
        let fresh = refresh ceil_days now sources in
        let keyed : Keyed fresh = refresh-Keyed now sources k in
        let named = names-map fresh keyed source_order in
        record {
          keyed = keyed;
          named = named;
          once = λ x. rw named (names_once x);
          shown = shown-map fresh keyed source_order;
          aggregated = aggregate_status_lem (fresh server_process).status _;
        }

    unfoldable pub run : Store F → List (Operation F) → Store F
    run store [] = store
    run store (updated now s ∷ rest) = run (update ceil_days now s store).store rest
    run store (summarised now ∷ rest) = run (publish_summary ceil_days now store).store rest

    run-Assembled :
        (rest : List (Operation F)) (store : Store F) → Assembled store → Assembled (run store rest)
    unfolding run update publish_summary publish
    run-Assembled [] store a = a
    run-Assembled (updated now s ∷ rest) store a =
        run-Assembled rest (assemble ceil_days now store.has_observer (put_source s store.sources))
          (assemble-Assembled now store.has_observer (put_source s store.sources)
            (put_source-Keyed s store.sources a.keyed))
    run-Assembled (summarised now ∷ rest) store a =
        run-Assembled rest (assemble ceil_days now store.has_observer store.sources)
          (assemble-Assembled now store.has_observer store.sources a.keyed)

    -- After any updates and summaries, a new store keeps each source under its own name, and its
    -- snapshot lists the nine sources, each once, in the fixed order, each as the store keeps it; its
    -- status is as bad as the worst of theirs: failed before unknown, unknown before degraded,
    -- degraded before ok.
    pub new_store-Assembled :
        (version : String) (started_at : ℕ) (history : List (Operation F))
        → Assembled (run (new_store ceil_days version started_at) history)
    unfolding new_store
    new_store-Assembled version started_at history =
        run-Assembled history
          (assemble ceil_days started_at false (first_sources version started_at))
          (assemble-Assembled started_at false (first_sources version started_at)
            (put_source-Keyed (server_process_source version started_at) no_facts (λ x. refl)))
