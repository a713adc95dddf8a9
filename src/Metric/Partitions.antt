-- ===== src/Metric/Partitions.antt =====
-- internal/metric/partitions.go: the partitions of the samples' table, which are made ahead of time
-- and dropped when they are old. A time of this file is a number of nanoseconds since 1970, and not
-- before. The names of the partitions, and the database, are parameters.
pub mod Names
pub mod Ranges
pub mod Retention
mod Tests
use dbs_monitor.Prelude.{
  ℕ, zero, suc, ◌+◌, ◌-◌, ◌*◌, ◌/◌, ◌<◌, String, Bool, true, false, not, Option, none, some, List,
  [], ◌∷◌, ltb, leb, if◌then◌else◌, second, hour,
}

abbrev pub default_partition_span : ℕ
default_partition_span = 24 * hour

abbrev pub partition_prebuild : ℕ
partition_prebuild = 7

abbrev pub partition_retention : ℕ
partition_retention = 30

-- What a call comes back with.
pub data Outcome : Type 0 where
  done span_too_short query_failed exec_failed : Outcome

-- For times up to the year 2262, which `UnixNano` can count in 64 bits.
unfoldable pub partition_boundary : ℕ → ℕ → ℕ
partition_boundary value span = value / span * span

-- A partition of the table, for the samples from `lower` to before `upper`.
pub record Partition : Type 0 where
  pub name : String
  pub lower : ℕ
  pub upper : ℕ

pub record Ensured : Type 0 where
  pub made : List Partition
  pub outcome : Outcome

-- A time in the layout RFC 3339 has no fraction of a second.
abbrev pub whole_seconds : ℕ → ℕ
whole_seconds time = time / second * second

add_made : Partition → Option Ensured → Option Ensured
add_made partition none = none
add_made partition (some ensured) = some (record ensured { made = partition ∷ ensured.made })

abbrev pub ensure_fuel : ℕ → ℕ → ℕ
ensure_fuel boundary end = suc (suc end - boundary)

-- `partition_name` of a boundary and a span; `executed` says whether the database took a statement.
module _ (partition_name : ℕ → ℕ → String) (executed : Partition → Bool) where
  abbrev pub partition_at : ℕ → ℕ → Partition
  partition_at boundary span = record {
    name = partition_name boundary span;
    lower = whole_seconds boundary;
    upper = whole_seconds (boundary + span);
  }

  -- The loop; `none` means that the fuel ran out.
  unfoldable pub ensure_from : ℕ → ℕ → ℕ → ℕ → Option Ensured
  unfolding add_made
  ensure_from zero boundary end span = none
  ensure_from (suc fuel) boundary end span =
      let rest = ensure_from fuel (boundary + span) end span in
      if ltb end boundary
      then some (record { made = []; outcome = done })
      else if not (executed (partition_at boundary span))
      then some (record { made = []; outcome = exec_failed })
      else add_made (partition_at boundary span) rest

  unfoldable pub ensure_partition_range : ℕ → ℕ → ℕ → Option Ensured
  unfolding ensure_from partition_boundary
  ensure_partition_range from through span =
      let start = partition_boundary from span in
      let end = partition_boundary through span + partition_prebuild * span in
      if ltb span second
      then some (record { made = []; outcome = span_too_short })
      else ensure_from (ensure_fuel start end) start end span

  unfoldable pub ensure_partitions_with_span : ℕ → ℕ → Option Ensured
  unfolding ensure_partition_range
  ensure_partitions_with_span now span = ensure_partition_range now now span

  unfoldable pub ensure_partitions : ℕ → Option Ensured
  unfolding ensure_partitions_with_span
  ensure_partitions now = ensure_partitions_with_span now default_partition_span

-- The rows of the query for the partitions that there are: `none` is a row that cannot be scanned,
-- and `is_complete` says that the rows ended without an error.
pub record Rows : Type 0 where
  pub names : List (Option String)
  pub is_complete : Bool

pub record Expired : Type 0 where
  pub dropped : List String
  pub outcome : Outcome

add_dropped : String → Expired → Expired
add_dropped name expired = record expired { dropped = name ∷ expired.dropped }

-- `partition_time` of a name is `none` if it is not recognised.
abbrev pub is_before : Option ℕ → ℕ → Bool
is_before none cutoff = false
is_before (some date) cutoff = ltb date cutoff

module _ (partition_time : String → Option ℕ) (dropped : String → Bool) where
  unfoldable pub drop_rows : ℕ → Bool → List (Option String) → Expired
  unfolding add_dropped
  drop_rows cutoff is_complete [] = record {
    dropped = [];
    outcome = if is_complete then done else query_failed;
  }
  drop_rows cutoff is_complete (none ∷ names) = record { dropped = []; outcome = query_failed }
  drop_rows cutoff is_complete (some name ∷ names) =
      let rest = drop_rows cutoff is_complete names in
      if not (is_before (partition_time name) cutoff)
      then rest
      else if dropped name
      then add_dropped name rest
      else record { dropped = []; outcome = exec_failed }

  -- `none` for the rows says that the query failed.
  unfoldable pub drop_expired_partitions_with_span : Option Rows → ℕ → ℕ → Expired
  unfolding drop_rows partition_boundary
  drop_expired_partitions_with_span rows now span = elim rows [
    | none ↦ record {
      dropped = [];
      outcome = if ltb span second then span_too_short else query_failed;
    }
    | some found ↦
        if ltb span second
        then record { dropped = []; outcome = span_too_short }
        else drop_rows (partition_boundary now span - partition_retention * span) found.is_complete
            found.names
  ]

  unfoldable pub drop_expired_partitions : Option Rows → ℕ → Expired
  unfolding drop_expired_partitions_with_span
  drop_expired_partitions rows now =
      drop_expired_partitions_with_span rows now default_partition_span
