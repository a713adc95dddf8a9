-- ===== src/Collect/Dispatcher/Tests.antt =====
-- The dispatcher of internal/collect/scheduler.go on concrete work.
use Prim.Native.Nat.{min}
use dbs_monitor.Prelude.{◌+◌, ◌≤◌, ◌≡◌, refl, String, true, false, [], ◌∷◌, if◌then◌else◌}
use dbs_monitor.Collect.Dispatcher.{
  Work, collection_query, capability_snapshot, Dispatcher, new_dispatcher, admit,
  capability_snapshot_reserved_slots,
}
use dbs_monitor.Collect.Dispatcher.Slots.{
  count, probes, queries, probes_of, queries_of, Accounts, new_dispatcher-Accounts, admit-Accounts,
}
use dbs_monitor.Collect.Dispatcher.Runs.{
  Pool, here, next, offer, running_bounded, admit_keeps_reserve,
}

abbrev query : String → Work
query id = record { instance_id = id; class = collection_query }

abbrev snapshot : Work
snapshot = record { instance_id = "b"; class = capability_snapshot }

abbrev one_running : Dispatcher
one_running = (admit (new_dispatcher 2 5) (query "a")).0

abbrev waiting : Dispatcher
waiting = record (new_dispatcher 2 5) { capability_snapshot_waiting = true }

-- A second query of the same instance is refused.
same_instance_waits : (admit one_running (query "a")).1 ≡ false
unfolding admit new_dispatcher
same_instance_waits = refl

one_running-Accounts : Accounts one_running (query "a" ∷ [])
unfolding admit new_dispatcher
one_running-Accounts =
    admit-Accounts (new_dispatcher 2 5) (query "a") [] (new_dispatcher-Accounts 2 5)

abbrev after_offer : Pool
after_offer = record {
  dispatcher = (admit (new_dispatcher 2 5) (query "a")).0;
  running = if (admit (new_dispatcher 2 5) (query "a")).1 then query "a" ∷ [] else [];
}

running_bounded_example :
    (count probes after_offer.running ≤ 2)
    × (count queries after_offer.running ≤ 5)
    × ((x : String) → count (probes_of x) after_offer.running ≤ 1)
    × ((x : String) → count (queries_of x) after_offer.running ≤ 1)
running_bounded_example = running_bounded 2 5 (next here (offer (query "a") refl))

admit_keeps_reserve_example :
    (admit waiting (query "a")).0.active_collection_queries
      + min capability_snapshot_reserved_slots waiting.query_limit
    ≤ waiting.query_limit
unfolding admit new_dispatcher
admit_keeps_reserve_example = admit_keeps_reserve waiting (query "a") refl refl refl
