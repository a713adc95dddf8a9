-- ===== src/Evaluator.antt =====
-- internal/evaluator/service.go: the evaluation of the alert rules. The modules are its parts, what is
-- read off a run, and what follows from it; here are the two conditions on a step of the state.
pub mod Run
pub mod Reading
pub mod Target
pub mod Columns
pub mod Rule
pub mod Effects
pub mod Observed
pub mod Views
pub mod Announced
pub mod Outcomes
pub mod Discarded
pub mod Promises
pub mod Cycle
mod Firing
mod Tests
use dbs_monitor.Prelude.{Bool, not, ◌&&◌}
use dbs_monitor.Alerting.State.{Snapshot, is_firing, is_no_data, is_recovered}

-- `startsFiringLifecycle`, of the state before and after a step.
unfoldable pub starts_firing_lifecycle : Snapshot → Snapshot → Bool
starts_firing_lifecycle current next =
    not (is_firing current.state)
    && not (is_no_data current.state && is_firing current.state_before_no_data)
    && is_firing next.state

-- Whether `recoveredAt` is set.
unfoldable pub sets_recovered_at : Snapshot → Snapshot → Bool
sets_recovered_at current next = not (is_recovered current.state) && is_recovered next.state
