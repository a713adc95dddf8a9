-- ===== src/Collect/Dispatcher.antt =====
-- The `dispatcher` of internal/collect/scheduler.go: how many probes and queries run at once, and one
-- of each for an instance. A Go `map[string]bool` is a function, false where the key is missing.
pub mod Slots
pub mod Runs
mod Tests
use Prim.Native.Nat.{min}
use dbs_monitor.Prelude.{
  ℕ, ◌+◌, ◌-◌, String, Bool, true, false, not, ◌&&◌, ◌||◌, leb, if◌then◌else◌, str_eq,
}

pub data WorkClass : Type 0 where
  probe collection_query capability_snapshot : WorkClass

pub record Work : Type 0 where
  pub instance_id : String
  pub class : WorkClass

abbrev pub is_probe : WorkClass → Bool
is_probe probe = true
is_probe _ = false

abbrev pub is_collection : WorkClass → Bool
is_collection collection_query = true
is_collection _ = false

abbrev pub capability_snapshot_reserved_slots : ℕ
capability_snapshot_reserved_slots = 4

pub record Dispatcher : Type 0 where
  pub probe_limit : ℕ
  pub query_limit : ℕ
  pub active_probes : ℕ
  pub active_queries : ℕ
  pub active_collection_queries : ℕ
  pub capability_snapshot_waiting : Bool
  pub instance_probe : String → Bool
  pub instance_query : String → Bool

-- `m[key] = value`; a `delete` writes false.
abbrev pub put_key : String → Bool → (String → Bool) → String → Bool
put_key key value m j = if str_eq key j then value else m j

unfoldable pub new_dispatcher : ℕ → ℕ → Dispatcher
new_dispatcher probe_limit query_limit = record {
  probe_limit = probe_limit;
  query_limit = query_limit;
  active_probes = 0;
  active_queries = 0;
  active_collection_queries = 0;
  capability_snapshot_waiting = false;
  instance_probe = λ _. false;
  instance_query = λ _. false;
}

-- A collection query leaves some slots to a capability snapshot that waits.
abbrev pub is_reserved : Dispatcher → WorkClass → Bool
is_reserved d class =
    is_collection class
    && d.capability_snapshot_waiting
    && leb (d.query_limit - min capability_snapshot_reserved_slots d.query_limit)
        d.active_collection_queries

unfoldable pub admit : Dispatcher → Work → Dispatcher × Bool
admit d item =
    if is_probe item.class
    then if leb d.probe_limit d.active_probes || d.instance_probe item.instance_id
      then (d, false)
      else (
        record d {
          active_probes = d.active_probes + 1;
          instance_probe = put_key item.instance_id true d.instance_probe;
        },
        true,
      )
    else if leb d.query_limit d.active_queries || d.instance_query item.instance_id
    then (d, false)
    else if is_reserved d item.class
    then (d, false)
    else (
      record d {
        active_queries = d.active_queries + 1;
        active_collection_queries =
            if is_collection item.class
            then d.active_collection_queries + 1
            else d.active_collection_queries;
        instance_query = put_key item.instance_id true d.instance_query;
      },
      true,
    )

-- The counters are `int`s in the source; where a piece of work is finished that was admitted they do
-- not fall below zero.
unfoldable pub finish : Dispatcher → Work → Dispatcher
finish d item =
    if is_probe item.class
    then if d.instance_probe item.instance_id
      then record d {
        instance_probe = put_key item.instance_id false d.instance_probe;
        active_probes = d.active_probes - 1;
      }
      else d
    else if d.instance_query item.instance_id
    then record d {
      instance_query = put_key item.instance_id false d.instance_query;
      active_queries = d.active_queries - 1;
      active_collection_queries =
          if is_collection item.class
          then d.active_collection_queries - 1
          else d.active_collection_queries;
    }
    else d
