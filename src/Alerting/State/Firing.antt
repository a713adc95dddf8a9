-- ===== src/Alerting/State/Firing.antt =====
-- When an alert fires and when it recovers.
use dbs_monitor.Prelude.{ℕ, suc, ◌+◌, ◌≤◌, ◌<◌, ◌≡◌, ◌≢◌, ◌⊎◌, List, [], ◌∷◌, arith}
use dbs_monitor.Alerting.State.{
  firing, no_data, recovered, Evaluation, breaching, recovering, Snapshot, step, after,
}
use dbs_monitor.Alerting.State.Invariant.{Inv, after-Inv}

-- How many of the latest evaluations in a row are breaching.
abbrev pub breach_streak : List Evaluation → ℕ
breach_streak (breaching ∷ es) = suc (breach_streak es)
breach_streak _ = 0

-- How many of the latest evaluations in a row are recovering.
abbrev pub recovery_streak : List Evaluation → ℕ
recovery_streak (recovering ∷ es) = suc (recovery_streak es)
recovery_streak _ = 0

-- What the counters of a snapshot say of the history behind it, newest evaluation first.
record Tracks (es : List Evaluation) (s : Snapshot) : Type 0 where
  counted : s.state ≢ firing → s.breach_count ≤ breach_streak es
  none_lost : s.state ≢ firing → breach_streak es ≤ s.breach_count + 1
  gap : s.state ≡ no_data → (breach_streak es ≡ 0) × (recovery_streak es ≡ 0)
  recovery_counted : s.state ≡ firing → s.recovery_count ≤ recovery_streak es
  no_recovery_lost : s.state ≡ firing → recovery_streak es ≤ s.recovery_count + 1

step-Tracks :
    (t r : ℕ) (s : Snapshot) (e : Evaluation) (es : List Evaluation)
    → 0 < t
    → 0 < r
    → Inv t r s
    → Tracks es s
    → Tracks (e ∷ es) (step s e t r)
unfolding step
step-Tracks t r s breaching es ht hr v h = ground arith
step-Tracks t r s e es ht hr v h = ground arith

after-Tracks : (t r : ℕ) (es : List Evaluation) → 0 < t → 0 < r → Tracks es (after t r es)
unfolding after
after-Tracks t r [] ht hr = ground arith
after-Tracks t r (e ∷ es) ht hr =
    step-Tracks t r (after t r es) e es ht hr (after-Inv t r es ht hr) (after-Tracks t r es ht hr)

-- An alert whose firing the lack of data does not hide.
abbrev pub IsFiring : Snapshot → Type 0
IsFiring s = (s.state ≡ firing) ⊎ ((s.state ≡ no_data) × (s.state_before_no_data ≡ firing))

step_starts :
    (t r : ℕ) (s : Snapshot) (e : Evaluation) (es : List Evaluation)
    → Inv t r s
    → Tracks es s
    → ¬ IsFiring s
    → (step s e t r).state ≡ firing
    → t ≤ breach_streak (e ∷ es)
unfolding step
step_starts t r s e es v h idle fires = ground arith

-- With positive counts, and whatever the earlier evaluations, an alert that neither fires nor hides
-- its firing behind missing data comes to fire only by an evaluation that ends a run of at least
-- `trigger_count` breaching evaluations.
pub fires_only_after_streak :
    (t r : ℕ) (e : Evaluation) (es : List Evaluation)
    → 0 < t
    → 0 < r
    → ¬ IsFiring (after t r es)
    → (after t r (e ∷ es)).state ≡ firing
    → t ≤ breach_streak (e ∷ es)
unfolding after
fires_only_after_streak t r e es ht hr =
    step_starts t r (after t r es) e es (after-Inv t r es ht hr) (after-Tracks t r es ht hr)

-- With positive counts, a history that ends in more than `trigger_count` breaching evaluations
-- leaves the alert firing, whatever went before. (One evaluation may be spent on leaving `NO_DATA`.)
pub fires_after_streak :
    (t r : ℕ) (es : List Evaluation)
    → 0 < t
    → 0 < r
    → t < breach_streak es
    → (after t r es).state ≡ firing
fires_after_streak t r es ht hr h =
    settle (after t r es) (after-Inv t r es ht hr) (after-Tracks t r es ht hr)
  where
    settle : (s : Snapshot) → Inv t r s → Tracks es s → s.state ≡ firing
    settle s v k = ground arith

step_recovers :
    (t r : ℕ) (s : Snapshot) (e : Evaluation) (es : List Evaluation)
    → Inv t r s
    → Tracks es s
    → s.state ≢ recovered
    → (step s e t r).state ≡ recovered
    → (s.state ≡ firing) × (r ≤ recovery_streak (e ∷ es))
unfolding step
step_recovers t r s e es v h open_alert recovers = ground arith

-- With positive counts, an alert becomes recovered only from firing, and only by an evaluation that
-- ends a run of at least `recovery_limit` recovering evaluations.
pub recovers_only_after_streak :
    (t r : ℕ) (e : Evaluation) (es : List Evaluation)
    → 0 < t
    → 0 < r
    → (after t r es).state ≢ recovered
    → (after t r (e ∷ es)).state ≡ recovered
    → ((after t r es).state ≡ firing) × (r ≤ recovery_streak (e ∷ es))
unfolding after
recovers_only_after_streak t r e es ht hr =
    step_recovers t r (after t r es) e es (after-Inv t r es ht hr) (after-Tracks t r es ht hr)

-- With positive counts, no alert is firing after more than `recovery_limit` recovering evaluations
-- in a row.
pub recovers_after_streak :
    (t r : ℕ) (es : List Evaluation)
    → 0 < t
    → 0 < r
    → r < recovery_streak es
    → (after t r es).state ≢ firing
recovers_after_streak t r es ht hr h =
    settle (after t r es) (after-Inv t r es ht hr) (after-Tracks t r es ht hr)
  where
    settle : (s : Snapshot) → Inv t r s → Tracks es s → s.state ≢ firing
    settle s v k = ground arith
