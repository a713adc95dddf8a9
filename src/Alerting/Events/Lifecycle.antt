-- ===== src/Alerting/Events/Lifecycle.antt =====
-- The events of a step, against the states of the alert before and after it.
use dbs_monitor.Prelude.{
  ℕ, ◌<◌, ◌≡◌, ◌≢◌, ◌↔◌, ◌⊎◌, Bool, true, false, not, ◌&&◌, ◌||◌, List, [], ◌∷◌, arith,
}
use dbs_monitor.Alerting.State.{ok, pending, firing, is_no_data, Evaluation, Snapshot, step}
use dbs_monitor.Alerting.State.Invariant.{Inv}
use dbs_monitor.Alerting.Events.{
  EventKind, pending_started, fired, updated, recovered, no_data_entered, no_data_exited,
  state_events,
}

-- Whether a kind is among the events.
abbrev same_kind : EventKind → EventKind → Bool
same_kind fired fired = true
same_kind recovered recovered = true
same_kind no_data_entered no_data_entered = true
same_kind no_data_exited no_data_exited = true
same_kind pending_started pending_started = true
same_kind updated updated = true
same_kind _ _ = false

abbrev pub emits : EventKind → List EventKind → Bool
emits k [] = false
emits k (e ∷ es) = same_kind k e || emits k es

-- A step of a state within its bounds emits no event exactly if the state stays the same and is not
-- firing, or goes from PENDING to OK.
pub silent_iff :
    (t r : ℕ) (s : Snapshot) (e : Evaluation)
    → 0 < t
    → 0 < r
    → Inv t r s
    → (state_events s.state (step s e t r).state ≡ []) ↔ (
        ((step s e t r).state ≡ s.state) × (s.state ≢ firing)
        ⊎ (s.state ≡ pending) × ((step s e t r).state ≡ ok))
unfolding state_events step
silent_iff t r s e ht hr v = (λ h. ground arith, λ h. ground arith)

-- A step of a state within its bounds reports NO_DATA_EXITED exactly if it leaves NO_DATA, and
-- NO_DATA_ENTERED exactly if it enters it.
pub gap_reported :
    (t r : ℕ) (s : Snapshot) (e : Evaluation)
    → 0 < t
    → 0 < r
    → Inv t r s
    → (emits no_data_exited (state_events s.state (step s e t r).state)
        ≡ (is_no_data s.state && not (is_no_data (step s e t r).state)))
      × (emits no_data_entered (state_events s.state (step s e t r).state)
          ≡ (not (is_no_data s.state) && is_no_data (step s e t r).state))
unfolding state_events step
gap_reported t r s e ht hr v = ground arith
