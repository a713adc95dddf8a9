-- ===== src/Metric/Capability/Blocking.antt =====
-- When the capabilities let a task run.
use dbs_monitor.Prelude.{
  ℕ, ◌-◌, ◌≡◌, refl, ◌↔◌, Bool, true, false, not, ◌&&◌, ◌||◌, none, some, List, [], ◌∷◌, arith, ltb,
  map, is_zero_time,
}
use dbs_monitor.Metric.Task.{
  CapabilityId, role_pg_monitor, extension_pg_stat_statements, topology_has_replication,
  topology_has_slot, Task,
}
use dbs_monitor.Metric.Capability.{
  CapabilityStatus, present, unknown, collection_failed, States, capabilities,
  capability_snapshot_ttl, state_of, complete_capability_snapshot, unknown_capability_states,
  project_capability_snapshot, block_reason, first_reason, task_capability_block_reason,
}

abbrev pub is_present : CapabilityStatus → Bool
is_present present = true
is_present _ = false

unfoldable pub all_present : List CapabilityId → States → Bool
all_present [] states = true
all_present (id ∷ ids) states = is_present (state_of id states) && all_present ids states

block_reason-none :
    (id : CapabilityId) (s : CapabilityStatus) → block_reason id s ≡ none → is_present s ≡ true
block_reason-none id s h = ground arith

block_reason-present :
    (id : CapabilityId) (s : CapabilityStatus) → is_present s ≡ true → block_reason id s ≡ none
block_reason-present id s h = ground arith

first_reason-none :
    (ids : List CapabilityId) (states : States)
    → (first_reason ids states ≡ none) ↔ (all_present ids states ≡ true)
unfolding first_reason all_present
first_reason-none [] states = (λ _. refl, λ _. refl)
first_reason-none (id ∷ ids) states =
    let (to, from) = first_reason-none ids states in
    (
      λ h. ground (arith, to, block_reason-none id (state_of id states)),
      λ h. ground (arith, from, block_reason-present id (state_of id states)),
    )

-- The capabilities do not block a task exactly if every capability that it requires is present.
pub task_capability_block_reason-none_iff :
    (task : Task) (states : States)
    → (task_capability_block_reason task states ≡ none) ↔ (all_present task.requires states ≡ true)
unfolding task_capability_block_reason
task_capability_block_reason-none_iff task states = first_reason-none task.requires states

unknown_states : (id : CapabilityId) → state_of id unknown_capability_states ≡ unknown
unfolding state_of
unknown_states role_pg_monitor = refl
unknown_states extension_pg_stat_statements = refl
unknown_states topology_has_replication = refl
unknown_states topology_has_slot = refl

-- A snapshot that is older than the time to live, or incomplete, blocks every task that requires a
-- capability.
pub stale_snapshot_blocks :
    (task : Task) (id : CapabilityId) (rest : List CapabilityId) (states : States)
    (observed_at now : ℕ)
    → task.requires ≡ id ∷ rest
    → (ltb capability_snapshot_ttl (now - observed_at) || not (complete_capability_snapshot states))
      ≡ true
    → task_capability_block_reason task (project_capability_snapshot states observed_at now)
      ≡ some collection_failed
unfolding task_capability_block_reason project_capability_snapshot first_reason
stale_snapshot_blocks task id rest states observed_at now e h = ground (arith, e, unknown_states id)

abbrev restrict : States → States
restrict states = map (λ id. (id, state_of id states)) capabilities

restrict-agrees :
    (states : States) (id : CapabilityId) → state_of id (restrict states) ≡ state_of id states
unfolding state_of
restrict-agrees states role_pg_monitor = refl
restrict-agrees states extension_pg_stat_statements = refl
restrict-agrees states topology_has_replication = refl
restrict-agrees states topology_has_slot = refl

first_reason-agree :
    (ids : List CapabilityId) (a b : States)
    → ((id : CapabilityId) → state_of id a ≡ state_of id b)
    → first_reason ids a ≡ first_reason ids b
unfolding first_reason
first_reason-agree [] a b h = refl
first_reason-agree (id ∷ ids) a b h = ground (arith, h id, first_reason-agree ids a b h)

-- A complete snapshot that is not older than the time to live blocks what its states block.
pub fresh_snapshot_agrees :
    (task : Task) (states : States) (observed_at now : ℕ)
    → is_zero_time observed_at ≡ false
    → ltb capability_snapshot_ttl (now - observed_at) ≡ false
    → complete_capability_snapshot states ≡ true
    → task_capability_block_reason task (project_capability_snapshot states observed_at now)
      ≡ task_capability_block_reason task states
unfolding task_capability_block_reason project_capability_snapshot
fresh_snapshot_agrees task states observed_at now z f c =
    rw (z, f, c)
      (first_reason-agree task.requires (restrict states) states (restrict-agrees states))
