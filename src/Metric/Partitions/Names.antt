-- ===== src/Metric/Partitions/Names.antt =====
-- The names of the partitions in internal/metric/partitions.go. The layouts of package `time`, and
-- `strings.TrimPrefix`, are parameters.
use Prim.Native.String.{◌++◌ as str_append}
use dbs_monitor.Prelude.{
  ℕ, ◌*◌, ◌/◌, ◌≤◌, ◌≡◌, ap, arith, Bool-cases, inl, inr, refl, String, Option, none, some, ◌==◌,
  if◌then◌else◌, second,
}
use dbs_monitor.Metric.Partitions.{default_partition_span, whole_seconds, partition_boundary}

pub record Layouts : Type 0 where
  pub format : String → ℕ → String
  pub parse : String → String → Option ℕ
  pub trim_prefix : String → String → String

abbrev pub day_layout : String
day_layout = "20060102"

abbrev pub second_layout : String
second_layout = "20060102_150405"

abbrev pub table_prefix : String
table_prefix = "metric_sample_"

-- What the documentation says of the functions: a text in a layout is read back in it, without what
-- the layout leaves out; a text with more in it than the layout is refused; a prefix is taken off.
pub record Laws (layouts : Layouts) : Type 0 where
  pub parse-day :
      (t : ℕ)
      → layouts.parse day_layout (layouts.format day_layout t)
        ≡ some (t / default_partition_span * default_partition_span)
  pub parse-second :
      (t : ℕ)
      → layouts.parse second_layout (layouts.format second_layout t) ≡ some (whole_seconds t)
  pub parse-day-second : (t : ℕ) → layouts.parse day_layout (layouts.format second_layout t) ≡ none
  pub trim_prefix-append : (p s : String) → layouts.trim_prefix p (str_append p s) ≡ s

whole_day :
    (value span : ℕ)
    → span ≡ default_partition_span
    → partition_boundary value span / default_partition_span * default_partition_span
      ≡ whole_seconds (partition_boundary value span)
unfolding partition_boundary
whole_day value span e = rw e (omega arith)

module _ (layouts : Layouts) where
  unfoldable pub partition_name : ℕ → ℕ → String
  partition_name from span =
      str_append table_prefix
        (layouts.format (if span == default_partition_span then day_layout else second_layout) from)

  -- The loop over the two layouts.
  first_parsed : String → Option ℕ → Option ℕ
  first_parsed value (some parsed) = some parsed
  first_parsed value none = layouts.parse second_layout value

  unfoldable pub partition_time : String → Option ℕ
  unfolding first_parsed
  partition_time name =
      let value = layouts.trim_prefix table_prefix name in
      first_parsed value (layouts.parse day_layout value)

  -- Under the laws, and for a span of at least a second, the time that is read from the name of a
  -- partition is the one that the partition begins at, in whole seconds.
  pub partition_time-partition_name :
      (value span : ℕ)
      → Laws layouts
      → second ≤ span
      → partition_time (partition_name (partition_boundary value span) span)
        ≡ some (whole_seconds (partition_boundary value span))
  unfolding partition_time partition_name first_parsed partition_boundary
  partition_time-partition_name value span laws h =
      let from = partition_boundary value span in
      elim (Bool-cases (span == default_partition_span)) [
        | inl daily ↦
            rw (daily, laws.trim_prefix-append, laws.parse-day from)
              (ap (λ x. some x) (whole_day value span (ground (arith, daily))))
        | inr other ↦
            rw (other, laws.trim_prefix-append, laws.parse-day-second from, laws.parse-second from)
              refl
      ]
