-- ===== src/Alerting/State.antt =====
-- internal/alerting/state.go: the snapshot of one alert and the step that an evaluation takes. A Go
-- `State` is a string; `unset` is the empty one, which `StateBeforeNoData` holds outside `NO_DATA`.
pub mod Invariant
pub mod Firing
mod Gaps
mod Tests
use dbs_monitor.Prelude.{
  ℕ, ◌+◌, Bool, true, false, not, ◌&&◌, Option, none, some, List, [], ◌∷◌, leb, if◌then◌else◌,
}

pub data State : Type 0 where
  ok pending firing no_data recovered unset : State

pub data Evaluation : Type 0 where
  breaching recovering stable missing missing_ignored : Evaluation

pub record Snapshot : Type 0 where
  pub state : State
  pub state_before_no_data : State
  pub breach_count : ℕ
  pub recovery_count : ℕ
  pub no_data_count : ℕ

abbrev pub is_no_data : State → Bool
is_no_data no_data = true
is_no_data _ = false

abbrev pub is_recovered : State → Bool
is_recovered recovered = true
is_recovered _ = false

abbrev pub is_firing : State → Bool
is_firing firing = true
is_firing _ = false

abbrev pub is_pending : State → Bool
is_pending pending = true
is_pending _ = false

-- The branch `case Missing`.
step_missing : Snapshot → Snapshot
step_missing current =
    let next = record current {
      breach_count = 0;
      recovery_count = 0;
      no_data_count = no_data_count + 1;
    } in
    if is_recovered state
    then current
    else if leb 2 next.no_data_count && not (is_no_data state)
    then record next { state_before_no_data = state; state = no_data }
    else next
  where
    open current use {state, no_data_count}

-- The branch `evaluation == Stable`.
step_stable : Snapshot → Snapshot
step_stable current = record current {
  breach_count = 0;
  recovery_count = 0;
  state = if is_pending current.state then ok else current.state;
}

-- The switch over the state of a breaching evaluation.
breach : State → ℕ → Snapshot → Snapshot
breach firing trigger_count s = s
breach no_data trigger_count s = s
breach unset trigger_count s = s
breach _ trigger_count s =
    let count = s.breach_count + 1 in
    record s { breach_count = count; state = if leb trigger_count count then firing else pending }

step_breaching : ℕ → Snapshot → Snapshot
step_breaching trigger_count current =
    breach current.state trigger_count (record current { recovery_count = 0 })

-- The last switch, over the state of a recovering evaluation.
recover : State → ℕ → Snapshot → Snapshot
recover pending recovery_limit s = record s { state = ok }
recover firing recovery_limit s =
    let count = s.recovery_count + 1 in
    record s {
      recovery_count = count;
      state = if leb recovery_limit count then recovered else s.state;
    }
recover _ recovery_limit s = s

step_recovering : ℕ → Snapshot → Snapshot
step_recovering recovery_limit current =
    recover current.state recovery_limit (record current { breach_count = 0 })

-- The branch `case Breaching, Recovering, Stable`, with what follows the switch as `rest`.
observed : (Snapshot → Snapshot) → Snapshot → Snapshot
observed rest current =
    let next = record current { no_data_count = 0 } in
    if is_no_data current.state
    then record next { state = current.state_before_no_data; state_before_no_data = unset }
    else rest next

unfoldable pub step : Snapshot → Evaluation → ℕ → ℕ → Snapshot
unfolding step_missing step_stable breach step_breaching recover step_recovering observed
step current missing_ignored trigger_count recovery_limit = record current {
  breach_count = 0;
  recovery_count = 0;
  no_data_count = 0;
}
step current missing trigger_count recovery_limit = step_missing current
step current stable trigger_count recovery_limit = observed step_stable current
step current breaching trigger_count recovery_limit =
    observed (step_breaching trigger_count) current
step current recovering trigger_count recovery_limit =
    observed (step_recovering recovery_limit) current

-- `Snapshot{State: OK}`.
abbrev pub initial : Snapshot
initial = record {
  state = ok;
  state_before_no_data = unset;
  breach_count = 0;
  recovery_count = 0;
  no_data_count = 0;
}

-- A nil snapshot is `none`; the loaded `*current` of the source is the value under `some`.
unfoldable pub step_collection : Option Snapshot → Evaluation → Bool → ℕ → ℕ → Option Snapshot
unfolding step
step_collection current evaluation paused trigger_count recovery_limit =
    let next : Snapshot = elim current [ none ↦ initial | some s ↦ s ] in
    if paused then current else some (step next evaluation trigger_count recovery_limit)

-- The snapshot after a history of evaluations, newest first, of an alert that begins with none.
unfoldable pub after : ℕ → ℕ → List Evaluation → Snapshot
after trigger_count recovery_limit [] = initial
after trigger_count recovery_limit (e ∷ es) =
    step (after trigger_count recovery_limit es) e trigger_count recovery_limit
