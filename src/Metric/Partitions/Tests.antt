-- ===== src/Metric/Partitions/Tests.antt =====
-- internal/metric/partitions.go on concrete times, with layouts that write a number in unary.
use Prim.Native.String.{String, [] as empty, ◌∷◌ as cons, ◌++◌ as str_append}
use Prim.Native.String.append
use dbs_monitor.Prelude.{
  ℕ, zero, suc, ◌+◌, ◌*◌, ◌/◌, ◌%◌, ◌==◌, ◌≤◌, ◌≡◌, ◌↔◌, refl, Bool, true, none, some, List, [],
  ◌∷◌, arith, if◌then◌else◌, str_eq, eq_iff, second, length, map, ap,
}
use dbs_monitor.Metric.Partitions.{
  Partition, done, default_partition_span, whole_seconds, partition_boundary, partition_retention,
  ensure_partition_range, drop_expired_partitions_with_span,
}
use dbs_monitor.Metric.Partitions.Names.{
  Layouts, Laws, day_layout, partition_name, partition_time, partition_time-partition_name,
}
use dbs_monitor.Metric.Partitions.Ranges.{takes, ensure_partition_range-takes}
use dbs_monitor.Metric.Partitions.Retention.{lists, drop_expired_partitions_iff}

tally : ℕ → String
tally zero = empty
tally (suc n) = cons "d" (tally n)

size : String → ℕ
size empty = 0
size (cons c s) = suc (size s)

-- The text after as many characters as the first text has.
drop : String → String → String
drop empty s = s
drop (cons c p) empty = empty
drop (cons c p) (cons d s) = drop p s

size-tally : (n : ℕ) → size (tally n) ≡ n
unfolding size tally
size-tally zero = refl
size-tally (suc n) = ap suc (size-tally n)

even_size : String → Bool
even_size s = size s % 2 == 0

-- A time in days is written in an even number of characters, one in seconds in an odd number.
abbrev layouts : Layouts
layouts = record {
  format = λ layout t.
      if str_eq layout day_layout
      then tally (2 * (t / default_partition_span))
      else tally (2 * (t / second) + 1);
  parse = λ layout s.
      if str_eq layout day_layout
      then if even_size s then some (size s / 2 * default_partition_span) else none
      else some (size s / 2 * second);
  trim_prefix = drop;
}

drop-append : (p s : String) → drop p (str_append p s) ≡ s
unfolding drop
drop-append empty s = append.nil s
drop-append (cons c p) s = rw (append.cons c p s) (drop-append p s)

layouts-Laws : Laws layouts
unfolding even_size
layouts-Laws = record {
  parse-day = λ t. rw (size-tally (2 * (t / default_partition_span))) (ground arith);
  parse-second = λ t. rw (size-tally (2 * (t / second) + 1)) (ground arith);
  parse-day-second = λ t. rw (size-tally (2 * (t / second) + 1)) (ground arith);
  trim_prefix-append = drop-append;
}

abbrev now : ℕ
now = 40 * default_partition_span

-- The name of the partition of the first day after the epoch.
abbrev old : String
old =
    partition_name layouts (partition_boundary default_partition_span default_partition_span)
      default_partition_span

partition_time-partition_name_example :
    partition_time layouts old
    ≡ some (whole_seconds (partition_boundary default_partition_span default_partition_span))
partition_time-partition_name_example =
    partition_time-partition_name layouts default_partition_span default_partition_span layouts-Laws
      (omega arith)

ensure_partition_range-takes_example :
    (made : List Partition) × (ensure_partition_range
        (partition_name layouts)
        (λ p. true)
        now
        (now + second)
        default_partition_span
      ≡ some (record { made = made; outcome = done }))
    × (length made + now / default_partition_span ≡ (now + second) / default_partition_span + 8)
    × (takes (now + 5 * default_partition_span) made ≡ true)
ensure_partition_range-takes_example =
    ensure_partition_range-takes (partition_name layouts) (λ p. true) now (now + second)
      default_partition_span (now + 5 * default_partition_span) (λ p. refl) (omega arith)
      (omega arith) (omega arith) (omega arith)

own_name : (x : String) → lists x (x ∷ []) ≡ true
unfolding lists
own_name x = ground (arith, eq_iff x x)

drop_expired_partitions_iff_example :
    (lists old
        (drop_expired_partitions_with_span
          (partition_time layouts)
          (λ x. true)
          (some (record { names = map (λ x. some x) (old ∷ []); is_complete = true }))
          now
          default_partition_span).dropped
      ≡ true)
    ↔ (partition_boundary default_partition_span default_partition_span
          + default_partition_span
          + partition_retention * default_partition_span
        ≤ partition_boundary now default_partition_span)
drop_expired_partitions_iff_example =
    drop_expired_partitions_iff layouts (λ x. true) (old ∷ []) default_partition_span now
      default_partition_span layouts-Laws (λ x. refl) (omega arith) (omega arith) (own_name old)
