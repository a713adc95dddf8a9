-- ===== src/Collect/Dispatcher/Slots.antt =====
-- The dispatcher against the list of the work that runs.
use dbs_monitor.Prelude.{
  ℕ, ◌+◌, ◌≤◌, ◌≡◌, refl, String, Bool, not, ◌&&◌, List, [], ◌∷◌, ◌++◌, arith, ltb, if◌then◌else◌,
  str_eq, eq_iff,
}
use dbs_monitor.Collect.Dispatcher.{
  Work, is_probe, is_collection, Dispatcher, new_dispatcher, admit, finish,
}

-- How many pieces of work satisfy a test.
unfoldable pub count : (Work → Bool) → List Work → ℕ
count p [] = 0
count p (w ∷ ws) = let rest = count p ws in if p w then rest + 1 else rest

abbrev pub probes : Work → Bool
probes w = is_probe w.class

abbrev pub queries : Work → Bool
queries w = not (is_probe w.class)

abbrev pub collections : Work → Bool
collections w = is_collection w.class

abbrev pub probes_of : String → Work → Bool
probes_of x w = is_probe w.class && str_eq w.instance_id x

abbrev pub queries_of : String → Work → Bool
queries_of x w = not (is_probe w.class) && str_eq w.instance_id x

-- The dispatcher is the account of the work in `running`, within its limits.
pub record Accounts (d : Dispatcher) (running : List Work) : Type 0 where
  pub probe_count : d.active_probes ≡ count probes running
  pub query_count : d.active_queries ≡ count queries running
  pub collection_count : d.active_collection_queries ≡ count collections running
  pub probe_capped : d.active_probes ≤ d.probe_limit
  pub query_capped : d.active_queries ≤ d.query_limit
  pub probe_map : (x : String) → d.instance_probe x ≡ ltb 0 (count (probes_of x) running)
  pub query_map : (x : String) → d.instance_query x ≡ ltb 0 (count (queries_of x) running)
  pub probe_once : (x : String) → count (probes_of x) running ≤ 1
  pub query_once : (x : String) → count (queries_of x) running ≤ 1

-- A new dispatcher accounts for no work.
pub new_dispatcher-Accounts : (p q : ℕ) → Accounts (new_dispatcher p q) []
unfolding new_dispatcher count
new_dispatcher-Accounts p q = record {
  probe_count = refl;
  query_count = refl;
  collection_count = refl;
  probe_capped = omega arith;
  query_capped = omega arith;
  probe_map = λ x. refl;
  query_map = λ x. refl;
  probe_once = λ x. omega arith;
  query_once = λ x. omega arith;
}

-- Work that is admitted is added to the account, and work that is refused changes nothing.
pub admit-Accounts :
    (d : Dispatcher) (item : Work) (running : List Work)
    → Accounts d running
    → Accounts (admit d item).0 (if (admit d item).1 then item ∷ running else running)
unfolding admit count
admit-Accounts d item running a = record {
  probe_count = ground (arith, a.probe_count);
  query_count = ground (arith, a.query_count);
  collection_count = ground arith;
  probe_capped = ground arith;
  query_capped = ground arith;
  probe_map =
      λ x. ground (arith, a.probe_map x, a.probe_map item.instance_id, eq_iff item.instance_id x);
  query_map =
      λ x. ground (arith, a.query_map x, a.query_map item.instance_id, eq_iff item.instance_id x);
  probe_once = λ x. ground (
    arith,
    a.probe_once x,
    a.probe_map x,
    a.probe_map item.instance_id,
    eq_iff item.instance_id x,
  );
  query_once = λ x. ground (
    arith,
    a.query_once x,
    a.query_map x,
    a.query_map item.instance_id,
    eq_iff item.instance_id x,
  );
}

count-append : (p : Work → Bool) (xs ys : List Work) → count p (xs ++ ys) ≡ count p xs + count p ys
unfolding count
count-append p [] ys = omega arith
count-append p (x ∷ xs) ys = ground (arith, count-append p xs ys)

-- Taking one piece of work out of the list takes it out of each count.
count-remove :
    (p : Work → Bool) (xs ys : List Work) (w : Work)
    → count p (xs ++ w ∷ ys) ≡ (if p w then count p (xs ++ ys) + 1 else count p (xs ++ ys))
unfolding count
count-remove p xs ys w = ground (arith, count-append p xs (w ∷ ys), count-append p xs ys)

-- Work that runs is taken out of the account when it finishes.
pub finish-Accounts :
    (d : Dispatcher) (item : Work) (xs ys : List Work)
    → Accounts d (xs ++ item ∷ ys)
    → Accounts (finish d item) (xs ++ ys)
unfolding finish
finish-Accounts d item xs ys a = record {
  probe_count = ground (
    arith,
    count-remove probes xs ys item,
    a.probe_map item.instance_id,
    count-remove (probes_of item.instance_id) xs ys item,
    eq_iff item.instance_id item.instance_id,
  );
  query_count = ground (
    arith,
    count-remove queries xs ys item,
    a.query_map item.instance_id,
    count-remove (queries_of item.instance_id) xs ys item,
    eq_iff item.instance_id item.instance_id,
  );
  collection_count = ground (
    arith,
    count-remove collections xs ys item,
    a.query_map item.instance_id,
    count-remove (queries_of item.instance_id) xs ys item,
    eq_iff item.instance_id item.instance_id,
  );
  probe_capped = ground arith;
  query_capped = ground arith;
  probe_map = λ x. ground (
    arith,
    a.probe_map x,
    a.probe_once x,
    a.probe_map item.instance_id,
    count-remove (probes_of x) xs ys item,
    eq_iff item.instance_id x,
  );
  query_map = λ x. ground (
    arith,
    a.query_map x,
    a.query_once x,
    a.query_map item.instance_id,
    count-remove (queries_of x) xs ys item,
    eq_iff item.instance_id x,
  );
  probe_once = λ x. ground (arith, a.probe_once x, count-remove (probes_of x) xs ys item);
  query_once = λ x. ground (arith, a.query_once x, count-remove (queries_of x) xs ys item);
}

-- The flag of a waiting capability snapshot is no part of the account.
pub flag-Accounts :
    (d : Dispatcher) (waiting : Bool) (running : List Work)
    → Accounts d running
    → Accounts (record d { capability_snapshot_waiting = waiting }) running
flag-Accounts d waiting running a = record {
  probe_count = a.probe_count;
  query_count = a.query_count;
  collection_count = a.collection_count;
  probe_capped = a.probe_capped;
  query_capped = a.query_capped;
  probe_map = a.probe_map;
  query_map = a.query_map;
  probe_once = a.probe_once;
  query_once = a.query_once;
}
