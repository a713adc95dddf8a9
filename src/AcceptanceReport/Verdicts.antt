-- ===== src/AcceptanceReport/Verdicts.antt =====
-- When a release candidate is accepted.
use dbs_monitor.Prelude.{
  ◌≡◌, refl, String, Bool, true, false, not, ◌&&◌, ◌||◌, Option, none, some, List, [], ◌∷◌, arith,
  ◌==◌, if◌then◌else◌, str_eq, Bool-cases, inl, inr, ◌∙◌,
}
use dbs_monitor.AcceptanceReport.Reasons.{
  ReasonSet, rounds_invalid, manual_result_missing, manual_gate_failed, no_reasons, add_if,
  has_failure,
}
use dbs_monitor.AcceptanceReport.Reasons.Clean.{has_failure-add_if, has_failure-no_reasons}
use dbs_monitor.AcceptanceReport.Blocks.{Library, Profile, is_ci, is_final, normalize_status}
use dbs_monitor.AcceptanceReport.Blocks.Gates.{every, evidence_passes, evaluate_evidence-fails}
use dbs_monitor.AcceptanceReport.{
  go, no_go, provisional_pass, ManualReview, Round, Input, is_empty, is_complete_review,
  evaluate_manual_review, overlaps, is_timed, evaluate_final_rounds, evaluate_round,
  evaluate_rounds, gather, evaluate,
}

gather_round :
    (v c e m h : Bool)
    → (not m || (not e || ((not c && true) || ((not v && true) || h))))
      ≡ (not (v && c && e && (false || m)) || h)
gather_round v c e m h = ground arith

gather_list : (a b h : Bool) → (not b || (not a || h)) ≡ (not (a && b) || h)
gather_list a b h = ground arith

gather_input : (g e b : Bool) → ((g && false) || (not e || not b)) ≡ not (b && e)
gather_input g e b = ground arith

module _ (lib : Library) where
  -- The manual review of a round is complete and has passed.
  abbrev pub review_passes : Option ManualReview → Bool
  review_passes none = false
  review_passes (some review) =
      is_complete_review lib review && str_eq (normalize_status lib review.result) "pass"

  abbrev pub round_passes : Profile → String → Round → Bool
  round_passes profile sha round =
      round.valid
      && str_eq round.candidate_sha sha
      && evidence_passes lib profile sha round.evidence
      && (not (is_final profile) || review_passes round.manual_review)

  -- Two rounds, numbered, each with its environment and times, one after the other.
  abbrev pub final_rounds : List Round → Bool
  final_rounds (first ∷ second ∷ []) =
      (first.sequence == 1)
      && (second.sequence == 2)
      && is_timed lib first
      && is_timed lib second
      && not (overlaps lib first second)
  final_rounds [] = false
  final_rounds (first ∷ []) = false
  final_rounds (first ∷ second ∷ third ∷ rest) = false

  unfoldable pub is_acceptable : Input → Bool
  is_acceptable input =
      (if is_final input.profile then final_rounds input.rounds else not (is_empty input.rounds))
      && every (round_passes input.profile input.candidate_sha) input.rounds

  manual_review-fails :
      (r : Option ManualReview) (s : ReasonSet)
      → has_failure (evaluate_manual_review lib r s) ≡ (not (review_passes r) || has_failure s)
  unfolding evaluate_manual_review
  manual_review-fails none s = ground (arith, has_failure-add_if true manual_result_missing s)
  manual_review-fails (some r) s = ground (
    arith,
    has_failure-add_if true manual_result_missing s,
    has_failure-add_if (not (str_eq (normalize_status lib r.result) "pass")) manual_gate_failed s,
  )

  final_rounds-fails :
      (l : List Round) (s : ReasonSet)
      → has_failure (evaluate_final_rounds lib l s) ≡ (not (final_rounds l) || has_failure s)
  unfolding evaluate_final_rounds
  final_rounds-fails [] s = simp has_failure-add_if refl
  final_rounds-fails (first ∷ []) s = simp has_failure-add_if refl
  final_rounds-fails (first ∷ second ∷ []) s =
      elim (Bool-cases (not (first.sequence == 1) || not (second.sequence == 2))) [
        | inl misnumbered ↦
            rw (misnumbered, evaluate_final_rounds) (simp has_failure-add_if (ground arith))
        | inr numbered ↦
            rw (numbered, evaluate_final_rounds) (simp has_failure-add_if (ground arith))
      ]
  final_rounds-fails (first ∷ second ∷ third ∷ rest) s = simp has_failure-add_if refl

  round-fails :
      (profile : Profile) (sha : String) (r : Round) (s : ReasonSet)
      → has_failure (evaluate_round lib profile sha r s)
        ≡ (not (round_passes profile sha r) || has_failure s)
  unfolding evaluate_round
  round-fails profile sha r s = elim (Bool-cases (is_final profile)) [
    | inl last ↦
        rw (last, evaluate_round)
          (simp (manual_review-fails, evaluate_evidence-fails, has_failure-add_if)
            (gather_round r.valid (str_eq r.candidate_sha sha)
              (evidence_passes lib profile sha r.evidence) (review_passes r.manual_review)
              (has_failure s)))
    | inr other ↦
        rw (other, evaluate_round)
          (simp (evaluate_evidence-fails, has_failure-add_if)
            (gather_round r.valid (str_eq r.candidate_sha sha)
              (evidence_passes lib profile sha r.evidence) true (has_failure s)))
  ]

  rounds-fails :
      (p : Profile) (sha : String) (l : List Round) (s : ReasonSet)
      → has_failure (evaluate_rounds lib p sha l s)
        ≡ (not (every (round_passes p sha) l) || has_failure s)
  unfolding evaluate_rounds
  rounds-fails p sha [] s = refl
  rounds-fails p sha (r ∷ l) s =
      rounds-fails p sha l (evaluate_round lib p sha r s)
      ∙ rw (round-fails p sha r s)
          (gather_list (round_passes p sha r) (every (round_passes p sha) l) (has_failure s))

  begun : Input → ReasonSet
  begun input =
      if is_final input.profile
      then evaluate_final_rounds lib input.rounds no_reasons
      else add_if (is_empty input.rounds) rounds_invalid no_reasons

  begun-fails :
      (input : Input)
      → has_failure (begun input)
        ≡ not (
            if is_final input.profile
            then final_rounds input.rounds
            else not (is_empty input.rounds))
  unfolding begun
  begun-fails input = elim (Bool-cases (is_final input.profile)) [
    | inl last ↦ ground (arith, final_rounds-fails input.rounds no_reasons, has_failure-no_reasons)
    | inr other ↦ ground (
      arith,
      has_failure-add_if (is_empty input.rounds) rounds_invalid no_reasons,
      has_failure-no_reasons,
    )
  ]

  gather-fails : (input : Input) → has_failure (gather lib input) ≡ not (is_acceptable input)
  unfolding gather begun is_acceptable
  gather-fails input =
      simp (has_failure-add_if, rounds-fails, begun-fails input)
        (gather_input input.github_actions
          (every (round_passes input.profile input.candidate_sha) input.rounds)
          (if is_final input.profile
            then final_rounds input.rounds
            else not (is_empty input.rounds)))

  -- The verdict is no-go exactly if the input is not acceptable, it is go exactly if the input is
  -- acceptable, the profile is not that of CI and GitHub Actions did not run it, and it is a
  -- provisional pass otherwise.
  pub evaluate-verdict :
      (input : Input)
      → (evaluate lib input).verdict ≡ (
          if not (is_acceptable input)
          then no_go
          else if is_ci input.profile || input.github_actions
          then provisional_pass
          else go)
  unfolding evaluate
  evaluate-verdict input = rw (gather-fails input) refl
