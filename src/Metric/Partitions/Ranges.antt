-- ===== src/Metric/Partitions/Ranges.antt =====
-- Which times have a partition, once internal/metric/partitions.go has made its partitions.
use native.Mathlib.Nat.{le-div_iff_mul-le, div-mul-le_self, lt-div-mul-add}
use dbs_monitor.Prelude.{
  ℕ, zero, suc, ◌+◌, ◌-◌, ◌*◌, ◌/◌, ◌<◌, ◌≤◌, ◌≡◌, refl, ap, String, Bool, true, false, ◌&&◌, ◌||◌,
  some, List, [], ◌∷◌, ltb, leb, arith, length, second,
}
use dbs_monitor.Metric.Partitions.{
  Partition, done, whole_seconds, partition_prebuild, partition_boundary, partition_at, ensure_fuel,
  ensure_from, ensure_partition_range, add_made,
}

-- Each partition begins where the one before it ends: the first at `lower`, the last ends at `upper`.
abbrev pub Chain : ℕ → ℕ → List Partition → Type 0
Chain lower upper [] = lower ≡ upper
Chain lower upper (p ∷ ps) = (p.lower ≡ lower) × Chain p.upper upper ps

-- A partition of the list takes the time.
unfoldable pub takes : ℕ → List Partition → Bool
takes t [] = false
takes t (p ∷ ps) = (leb p.lower t && ltb t p.upper) || takes t ps

Chain-takes :
    (lower upper t : ℕ) (ps : List Partition)
    → Chain lower upper ps
    → lower ≤ t
    → t < upper
    → takes t ps ≡ true
unfolding takes
Chain-takes lower upper t [] c l u = ground arith
Chain-takes lower upper t (p ∷ ps) c l u = ground (arith, Chain-takes p.upper upper t ps)

quotient_le : (a b s : ℕ) → 0 < s → a ≤ b → a / s ≤ b / s
quotient_le a b s h order =
    (le-div_iff_mul-le {k = s} {x = a / s} {y = b} h).1 (omega (arith, div-mul-le_self a s))

end_on_grid : (a b k s : ℕ) → k + a ≡ b + 8 → b * s + 7 * s + s ≡ a * s + k * s
end_on_grid a b k s h = omega (arith, ap (λ x. x * s) h)

sum-le-product : (k s : ℕ) → 0 < s → suc k + s ≤ suc k * s + 1
sum-le-product zero s h = omega arith
sum-le-product (suc k) s h = omega (arith, sum-le-product k s h)

enough_fuel :
    (a b k s : ℕ) → k + a ≡ b + 8 → 0 < s → a ≤ b → k < ensure_fuel (a * s) (b * s + 7 * s)
enough_fuel a b zero s h p o = absurd (omega arith)
enough_fuel a b (suc k) s h p o = omega (arith, sum-le-product k s p, end_on_grid a b (suc k) s h)

module _ (partition_name : ℕ → ℕ → String) (executed : Partition → Bool) where
  ensure_from-Chain :
      (k fuel boundary end span : ℕ)
      → ((p : Partition) → executed p ≡ true)
      → 0 < span
      → end + span ≡ boundary + k * span
      → k < fuel
      → (made : List Partition) × (ensure_from partition_name executed fuel boundary end span
          ≡ some (record { made = made; outcome = done }))
        × Chain (whole_seconds boundary) (whole_seconds (end + span)) made
        × (length made ≡ k)
  unfolding ensure_from add_made
  ensure_from-Chain k zero boundary end span taken h e f = absurd (ground arith)
  ensure_from-Chain zero (suc fuel) boundary end span taken h e f =
      ([], ground arith, ground arith, refl)
  ensure_from-Chain (suc k) (suc fuel) boundary end span taken h e f =
      let (made, eq, chain, count) =
        ensure_from-Chain k fuel (boundary + span) end span taken h (ground arith) (ground arith) in
      let here = partition_at partition_name executed boundary span in
      (here ∷ made, ground (arith, taken here, eq), (refl, chain), ground (arith, count))

  -- With a span of at least one second and a database that takes every statement, the partitions are
  -- made, eight more than there are spans between the two times, and every time from the first to
  -- seven spans after the last, in whole seconds, has a partition.
  pub ensure_partition_range-takes :
      (from through span t : ℕ)
      → ((p : Partition) → executed p ≡ true)
      → second ≤ span
      → from ≤ through
      → from ≤ t
      → t < whole_seconds (through + partition_prebuild * span)
      → (made : List Partition) × (ensure_partition_range partition_name executed from through span
          ≡ some (record { made = made; outcome = done }))
        × (length made + from / span ≡ through / span + 8)
        × (takes t made ≡ true)
  unfolding ensure_partition_range partition_boundary
  ensure_partition_range-takes from through span t taken h order l u =
      let positive : 0 < span = omega arith in
      let later = quotient_le from through span positive order in
      let start = partition_boundary from span in
      let end = partition_boundary through span + partition_prebuild * span in
      let k = through / span + 8 - from / span in
      let grid = end_on_grid (from / span) (through / span) k span (omega (arith, later)) in
      let (made, eq, chain, count) =
        ensure_from-Chain k (ensure_fuel start end) start end span taken positive grid (
          enough_fuel (from / span) (through / span) k span (omega (arith, later)) positive
            later) in
      (
        made,
        ground (arith, eq),
        omega (arith, count, later),
        Chain-takes (whole_seconds start) (whole_seconds (end + span)) t made chain
            (omega (arith, div-mul-le_self from span))
            (omega (arith, lt-div-mul-add {a = through} positive)),
      )
