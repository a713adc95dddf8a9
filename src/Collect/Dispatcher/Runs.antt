-- ===== src/Collect/Dispatcher/Runs.antt =====
-- The dispatcher over time: work is admitted, refused and finished in any order, while the flag for a
-- waiting capability snapshot comes and goes.
use Prim.Native.Nat.{min}
use dbs_monitor.Prelude.{
  ℕ, ◌+◌, ◌≤◌, ◌<◌, ◌≡◌, refl, String, Bool, true, false, not, ◌&&◌, List, [], ◌∷◌, ◌++◌, arith,
  if◌then◌else◌,
}
use dbs_monitor.Collect.Dispatcher.{
  Work, collection_query, capability_snapshot, is_probe, is_collection, Dispatcher, new_dispatcher,
  admit, finish, capability_snapshot_reserved_slots,
}
use dbs_monitor.Collect.Dispatcher.Slots.{
  count, probes, queries, collections, probes_of, queries_of, Accounts, new_dispatcher-Accounts,
  admit-Accounts, finish-Accounts, flag-Accounts,
}

-- The scheduler's view: the dispatcher, and the tasks that were started and have not completed.
pub record Pool : Type 0 where
  pub dispatcher : Dispatcher
  pub running : List Work

pub data Step (p q : Pool) : Type 0 where
  offer :
      (item : Work)
      → q ≡ record {
        dispatcher = (admit p.dispatcher item).0;
        running = if (admit p.dispatcher item).1 then item ∷ p.running else p.running;
      }
      → Step p q
  complete :
      (item : Work) (xs ys : List Work)
      → p.running ≡ xs ++ item ∷ ys
      → q ≡ record { dispatcher = finish p.dispatcher item; running = xs ++ ys }
      → Step p q
  flag :
      (waiting : Bool)
      → q ≡ record {
        dispatcher = record p.dispatcher { capability_snapshot_waiting = waiting };
        running = p.running;
      }
      → Step p q

pub data Reach (p : Pool) : Pool → Type 0 where
  here : Reach p p
  next : {q r : Pool} → Reach p q → Step q r → Reach p r

Step-Accounts :
    (p q : Pool) → Step p q → Accounts p.dispatcher p.running → Accounts q.dispatcher q.running
Step-Accounts p q (offer item e) a = rw e (admit-Accounts p.dispatcher item p.running a)
Step-Accounts p q (complete item xs ys h e) a =
    rw e (finish-Accounts p.dispatcher item xs ys (rw h at a))
Step-Accounts p q (flag waiting e) a = rw e (flag-Accounts p.dispatcher waiting p.running a)

abbrev pub idle_pool : ℕ → ℕ → Pool
idle_pool p q = record { dispatcher = new_dispatcher p q; running = [] }

Reach-Accounts :
    {p q : Pool} → Accounts p.dispatcher p.running → Reach p q → Accounts q.dispatcher q.running
Reach-Accounts a here = a
Reach-Accounts a (next {q} {r} path st) = Step-Accounts q r st (Reach-Accounts a path)

-- No operation changes the limits.
admit_limits :
    (d : Dispatcher) (item : Work)
    → ((admit d item).0.probe_limit ≡ d.probe_limit)
      × ((admit d item).0.query_limit ≡ d.query_limit)
unfolding admit
admit_limits d item = ground arith

finish_limits :
    (d : Dispatcher) (item : Work)
    → ((finish d item).probe_limit ≡ d.probe_limit) × ((finish d item).query_limit ≡ d.query_limit)
unfolding finish
finish_limits d item = ground arith

Step-limits :
    (p q : Pool)
    → Step p q
    → (q.dispatcher.probe_limit ≡ p.dispatcher.probe_limit)
      × (q.dispatcher.query_limit ≡ p.dispatcher.query_limit)
Step-limits p q (offer item e) = ground (arith, admit_limits p.dispatcher item)
Step-limits p q (complete item xs ys h e) = ground (arith, finish_limits p.dispatcher item)
Step-limits p q (flag waiting e) = ground arith

Reach-limits :
    {p q : Pool}
    → Reach p q
    → (q.dispatcher.probe_limit ≡ p.dispatcher.probe_limit)
      × (q.dispatcher.query_limit ≡ p.dispatcher.query_limit)
Reach-limits here = (refl, refl)
Reach-limits (next {q} {r} path st) = ground (arith, Reach-limits path, Step-limits q r st)

-- However tasks are offered and completed, no more probes and queries run than the two limits say,
-- and no instance has two probes or two queries at once.
pub running_bounded :
    (probe_limit query_limit : ℕ) {p : Pool}
    → Reach (idle_pool probe_limit query_limit) p
    → (count probes p.running ≤ probe_limit)
      × (count queries p.running ≤ query_limit)
      × ((x : String) → count (probes_of x) p.running ≤ 1)
      × ((x : String) → count (queries_of x) p.running ≤ 1)
unfolding new_dispatcher
running_bounded l m {p} path =
    let a = Reach-Accounts (new_dispatcher-Accounts l m) path in
    let k = Reach-limits path in
    (
      omega (arith, a.probe_count, a.probe_capped, k),
      omega (arith, a.query_count, a.query_capped, k),
      a.probe_once,
      a.query_once,
    )

-- While a capability snapshot waits, a collection query is admitted only if the queries of its kind
-- then leave the reserved slots free.
pub admit_keeps_reserve :
    (d : Dispatcher) (item : Work)
    → d.capability_snapshot_waiting ≡ true
    → item.class ≡ collection_query
    → (admit d item).1 ≡ true
    → (admit d item).0.active_collection_queries
        + min capability_snapshot_reserved_slots d.query_limit
      ≤ d.query_limit
unfolding admit
admit_keeps_reserve d item w c h = ground arith

abbrev pub snapshots : Work → Bool
snapshots w = not (is_probe w.class) && not (is_collection w.class)

count-queries : (ws : List Work) → count queries ws ≡ count collections ws + count snapshots ws
unfolding count
count-queries [] = omega arith
count-queries (w ∷ ws) = ground (arith, count-queries ws)

-- Where the collection queries leave the reserved slots free, and fewer capability snapshots run than
-- there are such slots, a snapshot of an instance with no query is admitted.
pub snapshot_admitted :
    (d : Dispatcher) (item : Work) (running : List Work)
    → Accounts d running
    → item.class ≡ capability_snapshot
    → d.instance_query item.instance_id ≡ false
    → d.active_collection_queries + min capability_snapshot_reserved_slots d.query_limit
      ≤ d.query_limit
    → count snapshots running < min capability_snapshot_reserved_slots d.query_limit
    → (admit d item).1 ≡ true
unfolding admit
snapshot_admitted d item running a c free room few =
    ground (arith, count-queries running, a.query_count, a.collection_count)
