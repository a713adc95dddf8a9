-- ===== src/Metric/Capability.antt =====
-- internal/metric/capability.go: which tasks the last capability snapshot of an instance blocks. A Go
-- map is the list of its entries, each key once.
mod Blocking
mod Tests
use dbs_monitor.Prelude.{
  ℕ, ◌-◌, ◌*◌, Bool, true, false, not, ◌&&◌, ◌||◌, Option, none, some, List, [], ◌∷◌, ltb, ◌==◌,
  if◌then◌else◌, length, map, is_zero_time, minute,
}
use dbs_monitor.Metric.Task.{
  CapabilityId, role_pg_monitor, extension_pg_stat_statements, topology_has_replication,
  topology_has_slot, Task,
}

-- A Go `CapabilityStatus` is a string; `other` is any other one, such as that of a missing key.
pub data CapabilityStatus : Type 0 where
  present missing not_applicable unknown other : CapabilityStatus

pub data CapabilityBlockReason : Type 0 where
  collection_failed permission_denied extension_missing : CapabilityBlockReason
  feature_disabled not_applicable_role : CapabilityBlockReason

abbrev pub States : Type 0
States = List (CapabilityId × CapabilityStatus)

abbrev pub capability_snapshot_ttl : ℕ
capability_snapshot_ttl = 5 * minute

-- The identifiers of `Capabilities` in internal/metric/dictionary.go.
abbrev pub capabilities : List CapabilityId
capabilities =
    role_pg_monitor ∷ extension_pg_stat_statements ∷ topology_has_replication ∷ topology_has_slot
    ∷ []

abbrev pub same_capability : CapabilityId → CapabilityId → Bool
same_capability role_pg_monitor role_pg_monitor = true
same_capability extension_pg_stat_statements extension_pg_stat_statements = true
same_capability topology_has_replication topology_has_replication = true
same_capability topology_has_slot topology_has_slot = true
same_capability _ _ = false

-- `states[id]`.
unfoldable pub state_of : CapabilityId → States → CapabilityStatus
state_of id [] = other
state_of id ((key, status) ∷ states) = if same_capability key id then status else state_of id states

abbrev pub is_known : CapabilityStatus → Bool
is_known other = false
is_known _ = true

all_known : List CapabilityId → States → Bool
all_known [] states = true
all_known (id ∷ ids) states = is_known (state_of id states) && all_known ids states

unfoldable pub complete_capability_snapshot : States → Bool
unfolding all_known
complete_capability_snapshot states =
    length states == length capabilities && all_known capabilities states

abbrev pub unknown_capability_states : States
unknown_capability_states = map (λ id. (id, unknown)) capabilities

unfoldable pub project_capability_snapshot : States → ℕ → ℕ → States
project_capability_snapshot states observed_at now =
    if is_zero_time observed_at
      || ltb capability_snapshot_ttl (now - observed_at)
      || not (complete_capability_snapshot states)
    then unknown_capability_states
    else map (λ id. (id, state_of id states)) capabilities

-- What one required capability in a state blocks the task for, if it does.
abbrev pub block_reason : CapabilityId → CapabilityStatus → Option CapabilityBlockReason
block_reason required present = none
block_reason role_pg_monitor missing = some permission_denied
block_reason extension_pg_stat_statements missing = some extension_missing
block_reason topology_has_replication not_applicable = some not_applicable_role
block_reason topology_has_slot not_applicable = some not_applicable_role
block_reason _ _ = some collection_failed

unfoldable pub first_reason : List CapabilityId → States → Option CapabilityBlockReason
first_reason [] states = none
first_reason (required ∷ rest) states =
    let later = first_reason rest states in
    elim (block_reason required (state_of required states)) as (λ _. Option CapabilityBlockReason) [
      | none ↦ later
      | some reason ↦ some reason
    ]

unfoldable pub task_capability_block_reason : Task → States → Option CapabilityBlockReason
unfolding first_reason
task_capability_block_reason task states = first_reason task.requires states

unfoldable pub requires : CapabilityId → List CapabilityId → Bool
requires id [] = false
requires id (required ∷ rest) = same_capability required id || requires id rest

unfoldable pub task_requires : Task → CapabilityId → Bool
unfolding requires
task_requires task id = requires id task.requires
