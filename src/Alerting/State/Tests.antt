-- ===== src/Alerting/State/Tests.antt =====
-- The alert state machine of internal/alerting/state.go on concrete histories, the latest evaluation
-- first.
use dbs_monitor.Prelude.{◌≤◌, ◌≡◌, ◌≢◌, refl, List, [], ◌∷◌, arith, some, true}
use dbs_monitor.Alerting.State.{
  pending, firing, no_data, Evaluation, breaching, recovering, missing, step, step_collection,
  initial, after,
}
use dbs_monitor.Alerting.State.Invariant.{after-Inv}
use dbs_monitor.Alerting.State.Firing.{
  breach_streak, recovery_streak, fires_only_after_streak, fires_after_streak,
  recovers_only_after_streak, recovers_after_streak,
}
use dbs_monitor.Alerting.State.Gaps.{missed, gap_restores}

abbrev two_breaches : List Evaluation
two_breaches = breaching ∷ breaching ∷ []

abbrev fired_history : List Evaluation
fired_history = breaching ∷ breaching ∷ breaching ∷ []

-- Two breaches of three are not enough.
two_breaches_pend : (after 3 2 two_breaches).state ≡ pending
unfolding after step
two_breaches_pend = refl

-- An alert that is paused stays as it is.
paused_stays : step_collection (some initial) breaching true 1 1 ≡ some initial
unfolding step_collection
paused_stays = refl

fires_only_after_streak_example : 3 ≤ breach_streak fired_history
unfolding after step
fires_only_after_streak_example =
    fires_only_after_streak 3 2 breaching two_breaches (omega arith) (omega arith) (ground arith)
      refl

fires_after_streak_example :
    (after 2 2 (breaching ∷ breaching ∷ breaching ∷ missing ∷ missing ∷ [])).state ≡ firing
fires_after_streak_example =
    fires_after_streak 2 2 (breaching ∷ breaching ∷ breaching ∷ missing ∷ missing ∷ [])
      (omega arith) (omega arith) (omega arith)

recovers_only_after_streak_example :
    ((after 2 2 (recovering ∷ two_breaches)).state ≡ firing)
    × (2 ≤ recovery_streak (recovering ∷ recovering ∷ two_breaches))
unfolding after step
recovers_only_after_streak_example =
    recovers_only_after_streak 2 2 recovering (recovering ∷ two_breaches) (omega arith)
      (omega arith) (ground arith) refl

recovers_after_streak_example : (after 2 1 (recovering ∷ recovering ∷ two_breaches)).state ≢ firing
recovers_after_streak_example =
    recovers_after_streak 2 1 (recovering ∷ recovering ∷ two_breaches) (omega arith) (omega arith)
      (omega arith)

gap_restores_example :
    ((missed 2 2 4 (after 2 2 two_breaches)).state ≡ no_data)
    × ((step (missed 2 2 4 (after 2 2 two_breaches)) recovering 2 2).state
        ≡ (after 2 2 two_breaches).state)
unfolding after step
gap_restores_example =
    gap_restores 2 2 2 (after 2 2 two_breaches) recovering
      (after-Inv 2 2 two_breaches (omega arith) (omega arith)) (ground arith) (ground arith)
