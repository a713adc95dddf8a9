-- ===== src/Alerting/Window.antt =====
-- internal/alerting/evaluation.go, the first half: a rule's window of samples, reduced to one value,
-- and the comparison of that value with the rule's thresholds.
mod Bounds
mod Extremes
mod Tests
use dbs_monitor.Prelude.{
  ℕ, ◌+◌, String, Bool, true, false, not, ◌&&◌, ◌||◌, Option, none, some, List, [], ◌∷◌, ltb, leb,
  ◌==◌, if◌then◌else◌, str_eq, is_zero_time, Float64,
}
use dbs_monitor.Alerting.State.{Evaluation, breaching, recovering, stable}

module _ (f : Float64) where
  open f use {F, of_ℕ, add, div, lt, le, eq}

  pub record Point : Type 0 where
    pub timestamp : ℕ
    pub value : F

  -- The variables of the loop.
  pub record Reduction : Type 0 where
    pub value : F
    pub latest_timestamp : ℕ
    pub sample_count : ℕ

  -- Not skipped by `continue`. The source compares with `now.Add(-window)`; the window is moved to the
  -- other side, where the numbers need no sign.
  abbrev pub in_window : ℕ → ℕ → Point → Bool
  in_window now window p = not (leb (p.timestamp + window) now || ltb now p.timestamp)

  -- The switch over the aggregation; `none` is `return 0, false`.
  pub reduce : String → Point → Reduction → Option Reduction
  reduce aggregation p s =
      if str_eq aggregation "latest"
      then some (
          if is_zero_time s.latest_timestamp || ltb s.latest_timestamp p.timestamp
          then record s { latest_timestamp = p.timestamp; value = p.value }
          else s)
      else if str_eq aggregation "avg" || str_eq aggregation "sum"
      then some (record s { value = add s.value p.value })
      else if str_eq aggregation "max"
      then some
          (if s.sample_count == 1 || lt s.value p.value then record s { value = p.value } else s)
      else if str_eq aggregation "min"
      then some
          (if s.sample_count == 1 || lt p.value s.value then record s { value = p.value } else s)
      else if str_eq aggregation "count"
      then some (record s { value = of_ℕ s.sample_count })
      else none

  -- One round of the loop.
  visit : String → ℕ → ℕ → Point → Reduction → Option Reduction
  unfolding reduce
  visit aggregation now window p s =
      if in_window now window p
      then reduce aggregation p (record s { sample_count = s.sample_count + 1 })
      else some s

  pub scan : String → ℕ → ℕ → List Point → Reduction → Option Reduction
  scan aggregation now window [] s = some s
  scan aggregation now window (p ∷ ps) s = elim (visit aggregation now window p s) [
    | none ↦ none
    | some s' ↦ scan aggregation now window ps s'
  ]

  finish : String → Option Reduction → Option F
  finish aggregation none = none
  finish aggregation (some s) =
      if s.sample_count == 0
      then none
      else some (if str_eq aggregation "avg" then div s.value (of_ℕ s.sample_count) else s.value)

  -- `var value float64` and the other zero values.
  abbrev pub empty_reduction : Reduction
  empty_reduction = record { value = of_ℕ 0; latest_timestamp = 0; sample_count = 0 }

  unfoldable pub aggregate_window : List Point → ℕ → ℕ → String → Option F
  unfolding visit scan finish
  aggregate_window points now window aggregation =
      finish aggregation (scan aggregation now window points empty_reduction)

  unfoldable pub compare : F → String → F → Bool
  compare value operator threshold =
      if str_eq operator ">"
      then lt threshold value
      else if str_eq operator ">="
      then le threshold value
      else if str_eq operator "<"
      then lt value threshold
      else if str_eq operator "<="
      then le value threshold
      else if str_eq operator "="
      then eq value threshold
      else if str_eq operator "!="
      then not (eq value threshold)
      else false

  unfoldable pub evaluate : F → String → F → String → F → Evaluation
  unfolding compare
  evaluate value operator threshold recovery_operator recovery_threshold =
      if compare value operator threshold
      then breaching
      else if compare value recovery_operator recovery_threshold
      then recovering
      else stable
