-- ===== src/Evaluator/Firing.antt =====
-- The columns that the evaluator writes at a step against the events that the step emits.
use dbs_monitor.Prelude.{ℕ, ◌<◌, ◌≡◌, arith}
use dbs_monitor.Alerting.State.{Evaluation, Snapshot, step}
use dbs_monitor.Alerting.State.Invariant.{Inv}
use dbs_monitor.Alerting.Events.{fired, recovered, state_events}
use dbs_monitor.Alerting.Events.Lifecycle.{emits}
use dbs_monitor.Evaluator.{starts_firing_lifecycle, sets_recovered_at}

-- A step of a state within its bounds begins a firing lifecycle exactly if it emits FIRED, and sets
-- the time of recovery exactly if it emits RECOVERED.
pub emits-columns :
    (t r : ℕ) (s : Snapshot) (e : Evaluation)
    → 0 < t
    → 0 < r
    → Inv t r s
    → (emits fired (state_events s.state (step s e t r).state)
        ≡ starts_firing_lifecycle s (step s e t r))
      × (emits recovered (state_events s.state (step s e t r).state)
          ≡ sets_recovered_at s (step s e t r))
unfolding state_events starts_firing_lifecycle sets_recovered_at step
emits-columns t r s e ht hr i = ground arith
