-- ===== src/Alerting/State/Invariant.antt =====
-- What holds of the snapshot of an alert between two evaluations.
use dbs_monitor.Prelude.{ℕ, ◌≤◌, ◌<◌, ◌≡◌, ◌≢◌, ◌⊎◌, List, [], ◌∷◌, arith}
use dbs_monitor.Alerting.State.{
  State, ok, pending, firing, no_data, recovered, unset, Evaluation, Snapshot, step, initial, after,
}

-- The states that an interruption of the data may hide.
abbrev pub IsActive : State → Type 0
IsActive s = (s ≡ ok) ⊎ (s ≡ pending) ⊎ (s ≡ firing)

pub record Inv (trigger_count recovery_limit : ℕ) (s : Snapshot) : Type 0 where
  pub state_set : s.state ≢ unset
  pub hidden_active : s.state ≡ no_data → IsActive s.state_before_no_data
  pub hidden_unset : s.state ≢ no_data → s.state_before_no_data ≡ unset
  pub no_data_idle : s.state ≡ no_data → (s.breach_count ≡ 0) × (s.recovery_count ≡ 0)
  pub quiet_idle : (s.state ≡ ok) ⊎ (s.state ≡ recovered) → s.breach_count ≡ 0
  pub pending_below : s.state ≡ pending → s.breach_count < trigger_count
  pub firing_below : s.state ≡ firing → s.recovery_count < recovery_limit
  pub two_missing : 2 ≤ s.no_data_count → s.state ≡ no_data
  pub quiet_unrecovered : (s.state ≡ ok) ⊎ (s.state ≡ pending) → s.recovery_count ≡ 0

-- The snapshot of an alert that has never been evaluated satisfies the invariant.
pub initial-Inv : (t r : ℕ) → Inv t r initial
initial-Inv t r = ground arith

-- Every evaluation keeps the invariant, under positive counts.
pub step-Inv :
    (t r : ℕ) (s : Snapshot) (e : Evaluation) → 0 < t → 0 < r → Inv t r s → Inv t r (step s e t r)
unfolding step
step-Inv t r s e ht hr h = ground arith

pub after-Inv : (t r : ℕ) (es : List Evaluation) → 0 < t → 0 < r → Inv t r (after t r es)
unfolding after
after-Inv t r [] ht hr = initial-Inv t r
after-Inv t r (e ∷ es) ht hr = step-Inv t r (after t r es) e ht hr (after-Inv t r es ht hr)
