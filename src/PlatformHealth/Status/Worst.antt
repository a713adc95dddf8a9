-- ===== src/PlatformHealth/Status/Worst.antt =====
-- The aggregate of some statuses is the worst of them.
use Prim.Native.Nat.{max}
use dbs_monitor.Prelude.{ℕ, ◌≤◌, ◌≡◌, List, [], ◌∷◌, arith}
use dbs_monitor.PlatformHealth.Status.{
  Status, ok, degraded, failed, unknown, other, worsen, aggregate, aggregate_status,
}

-- How bad a status is. One that the code does not know counts as unknown.
abbrev pub badness : Status → ℕ
badness ok = 0
badness degraded = 1
badness unknown = 2
badness other = 2
badness failed = 3

unfoldable pub worst : List Status → ℕ
worst [] = 0
worst (s ∷ l) = max (badness s) (worst l)

worst_le : (l : List Status) → worst l ≤ 3
unfolding worst
worst_le [] = omega arith
worst_le (ok ∷ l) = omega (arith, worst_le l)
worst_le (degraded ∷ l) = omega (arith, worst_le l)
worst_le (unknown ∷ l) = omega (arith, worst_le l)
worst_le (other ∷ l) = omega (arith, worst_le l)
worst_le (failed ∷ l) = omega (arith, worst_le l)

worsen-badness :
    (r s : Status)
    → badness r ≤ 2
    → badness s ≤ 2
    → badness (worsen r s) ≡ max (badness r) (badness s)
worsen-badness r s h k = ground arith

aggregate-badness :
    (l : List Status) (r : Status)
    → badness r ≤ 2
    → badness (aggregate r l) ≡ max (badness r) (worst l)
unfolding aggregate worst
aggregate-badness [] r h = omega arith
aggregate-badness (failed ∷ l) r h = omega (arith, worst_le l)
aggregate-badness (ok ∷ l) r h =
    ground (arith, aggregate-badness l (worsen r ok), worsen-badness r ok)
aggregate-badness (degraded ∷ l) r h =
    ground (arith, aggregate-badness l (worsen r degraded), worsen-badness r degraded)
aggregate-badness (unknown ∷ l) r h =
    ground (arith, aggregate-badness l (worsen r unknown), worsen-badness r unknown)
aggregate-badness (other ∷ l) r h =
    ground (arith, aggregate-badness l (worsen r other), worsen-badness r other)

-- The aggregate of some statuses, at least one, is as bad as the worst of them: failed before
-- unknown, unknown before degraded, degraded before ok.
pub aggregate_status_lem :
    (s : Status) (l : List Status) → badness (aggregate_status (s ∷ l)) ≡ worst (s ∷ l)
unfolding aggregate_status
aggregate_status_lem s l = omega (arith, aggregate-badness (s ∷ l) ok (omega arith))
