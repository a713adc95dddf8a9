-- ===== src/PlatformHealth/Status.antt =====
-- `Status` and `AggregateStatus` of internal/platformhealth/health.go.
pub mod Worst
mod Tests
use dbs_monitor.Prelude.{List, [], ◌∷◌}

-- A Go `Status` is a string; `other` is any other one, the empty string among them.
pub data Status : Type 0 where
  ok degraded failed unknown other : Status

-- What one more status makes of the result so far, where the loop goes on.
abbrev pub worsen : Status → Status → Status
worsen result unknown = unknown
worsen ok degraded = degraded
worsen result degraded = result
worsen result ok = result
worsen result failed = failed
worsen result other = unknown

unfoldable pub aggregate : Status → List Status → Status
aggregate result [] = result
aggregate result (failed ∷ statuses) = failed
aggregate result (status ∷ statuses) = aggregate (worsen result status) statuses

unfoldable pub aggregate_status : List Status → Status
unfolding aggregate
aggregate_status [] = unknown
aggregate_status (status ∷ statuses) = aggregate ok (status ∷ statuses)
