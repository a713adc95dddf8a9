-- ===== src/Alerting/State/Gaps.antt =====
-- What missing data does to an alert.
use dbs_monitor.Prelude.{ℕ, zero, suc, ◌≡◌, ◌≢◌, ◌⊎◌, arith}
use dbs_monitor.Alerting.State.{
  State, no_data, recovered, unset, Evaluation, breaching, recovering, stable, missing, Snapshot,
  step,
}
use dbs_monitor.Alerting.State.Invariant.{IsActive, Inv}

-- The evaluations that saw data.
abbrev pub IsObserved : Evaluation → Type 0
IsObserved e = (e ≡ breaching) ⊎ (e ≡ recovering) ⊎ (e ≡ stable)

-- `n` evaluations without data.
unfoldable pub missed : ℕ → ℕ → ℕ → Snapshot → Snapshot
missed t r zero s = s
missed t r (suc n) s = step (missed t r n s) missing t r

-- From a state within its bounds that is not RECOVERED and whose last evaluation was not missing, one
-- missing evaluation leaves the state as it is and two take it to NO_DATA.
pub no_data_needs_two :
    (t r : ℕ) (s : Snapshot)
    → Inv t r s
    → s.state ≢ recovered
    → s.no_data_count ≡ 0
    → ((missed t r 1 s).state ≡ s.state) × ((missed t r 2 s).state ≡ no_data)
unfolding missed step
no_data_needs_two t r s v h e = ground arith

record Hidden (origin : State) (s : Snapshot) : Type 0 where
  asleep : s.state ≡ no_data
  remembers : s.state_before_no_data ≡ origin

missed-Hidden :
    (t r n : ℕ) (s : Snapshot)
    → Inv t r s
    → IsActive s.state
    → Hidden s.state (missed t r (suc (suc n)) s)
unfolding missed step
missed-Hidden t r zero s v h = ground arith
missed-Hidden t r (suc n) s v h = ground (arith, missed-Hidden t r n s v h)

wakes :
    (t r : ℕ) (o : State) (s : Snapshot) (e : Evaluation)
    → Hidden o s
    → IsObserved e
    → ((step s e t r).state ≡ o) × ((step s e t r).state_before_no_data ≡ unset)
unfolding step
wakes t r o s e h w = ground arith

-- A gap of two or more missing evaluations hides an alert in state OK, PENDING or FIRING, and the
-- first evaluation with data, whatever it says, brings that same state back.
pub gap_restores :
    (t r n : ℕ) (s : Snapshot) (e : Evaluation)
    → Inv t r s
    → IsActive s.state
    → IsObserved e
    → ((missed t r (suc (suc n)) s).state ≡ no_data)
      × ((step (missed t r (suc (suc n)) s) e t r).state ≡ s.state)
gap_restores t r n s e v h w =
    let hidden = missed-Hidden t r n s v h in
    (hidden.asleep, (wakes t r s.state (missed t r (suc (suc n)) s) e hidden w).0)
