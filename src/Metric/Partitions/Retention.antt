-- ===== src/Metric/Partitions/Retention.antt =====
-- Which partitions internal/metric/partitions.go drops.
use native.Mathlib.Nat.{mul-le-mul_right, mul-div_cancel, lt_of_mul-lt-mul_right}
use dbs_monitor.Prelude.{
  ℕ, ◌+◌, ◌-◌, ◌*◌, ◌/◌, ◌<◌, ◌≤◌, ◌≡◌, ◌↔◌, refl, String, Bool, true, false, ◌&&◌, ◌||◌, Option,
  some, List, [], ◌∷◌, ltb, arith, second, map, str_eq, eq_iff, ap, ◌∙◌, sym,
}
use dbs_monitor.Metric.Partitions.{
  whole_seconds, partition_boundary, partition_retention, is_before, drop_rows, add_dropped,
  drop_expired_partitions_with_span,
}
use dbs_monitor.Metric.Partitions.Names.{
  Layouts, Laws, partition_name, partition_time, partition_time-partition_name,
}

unfoldable pub lists : String → List String → Bool
lists name [] = false
lists name (x ∷ xs) = str_eq name x || lists name xs

step_on_grid : (a b s : ℕ) → a * s < b * s → a * s + s ≤ b * s
step_on_grid a b s h = omega (arith, mul-le-mul_right s (lt_of_mul-lt-mul_right s h))

whole_seconds_on_grid : (q s : ℕ) → whole_seconds s ≡ s → whole_seconds (q * s) ≡ q * s
whole_seconds_on_grid q s h =
    rw (sym h) (omega (arith, mul-div_cancel (q * (s / second)) {n = second}))

is_before_iff :
    (q p s : ℕ)
    → 0 < s
    → (ltb (q * s) (p * s - partition_retention * s) ≡ true)
      ↔ (q * s + s + partition_retention * s ≤ p * s)
is_before_iff q p s positive = (
  λ h. omega (arith, step_on_grid (q + partition_retention) p s (ground arith)),
  λ h. ground arith,
)

module _ (dropped : String → Bool) (partition_time : String → Option ℕ) where
  same_time :
      (cutoff : ℕ) (name x : String)
      → str_eq name x ≡ true
      → is_before (partition_time name) cutoff ≡ is_before (partition_time x) cutoff
  same_time cutoff name x same =
      ap (λ y. is_before (partition_time y) cutoff) ((eq_iff name x).0 same)

  drop_rows-lists :
      (cutoff : ℕ) (name : String) (names : List String)
      → ((x : String) → dropped x ≡ true)
      → lists name (drop_rows partition_time dropped cutoff true (map (λ x. some x) names)).dropped
        ≡ (lists name names && is_before (partition_time name) cutoff)
  unfolding lists drop_rows add_dropped
  drop_rows-lists cutoff name [] taken = refl
  drop_rows-lists cutoff name (x ∷ xs) taken =
      ground (arith, drop_rows-lists cutoff name xs taken, same_time cutoff name x, taken x)

-- Under the laws of the layouts, with a span of whole seconds and at least one, where the query gives
-- some names and the database takes every statement: a partition among them, under the name that it
-- was made with, is dropped exactly if it ends at least thirty spans before the boundary of now.
pub drop_expired_partitions_iff :
    (layouts : Layouts) (dropped : String → Bool) (names : List String) (value now span : ℕ)
    → Laws layouts
    → ((x : String) → dropped x ≡ true)
    → second ≤ span
    → whole_seconds span ≡ span
    → lists (partition_name layouts (partition_boundary value span) span) names ≡ true
    → (lists
          (partition_name layouts (partition_boundary value span) span)
          (drop_expired_partitions_with_span
            (partition_time layouts)
            dropped
            (some (record { names = map (λ x. some x) names; is_complete = true }))
            now
            span).dropped
        ≡ true)
      ↔ (partition_boundary value span + span + partition_retention * span
          ≤ partition_boundary now span)
unfolding drop_expired_partitions_with_span partition_boundary
drop_expired_partitions_iff layouts dropped names value now span laws taken h whole listed =
    let positive : 0 < span = omega (arith, h) in
    let boundary = partition_boundary value span in
    let cutoff = partition_boundary now span - partition_retention * span in
    let name = partition_name layouts boundary span in
    let expiry = is_before_iff (value / span) (now / span) span positive in
    let dates =
      partition_time-partition_name layouts value span laws h
      ∙ ap (λ x. some x) (whole_seconds_on_grid (value / span) span whole) in
    let chosen = drop_rows-lists dropped (partition_time layouts) cutoff name names taken in
    let long : ltb span second ≡ false = ground (arith, h) in
    rw (long, chosen, listed, dates) expiry
