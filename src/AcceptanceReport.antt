-- ===== src/AcceptanceReport.antt =====
-- internal/acceptancereport/evaluate.go: the verdict on a release candidate, from the evidence of its
-- acceptance rounds. A Go `Status` is a string, and raw JSON is its text.
pub mod Reasons
pub mod Blocks
pub mod Matrix
mod Verdicts
mod Tests
use dbs_monitor.Prelude.{
  ℕ, String, Bool, true, false, not, ◌&&◌, ◌||◌, Option, none, some, List, [], ◌∷◌, ltb, ◌==◌,
  if◌then◌else◌, str_eq, is_zero_time, length,
}
use dbs_monitor.AcceptanceReport.Reasons.{
  ReasonSet, ReasonCode, rounds_invalid, evidence_sha_mismatch, manual_result_missing,
  manual_gate_failed, github_actions_provisional, add_if, no_reasons, has_failure, listed,
}
use dbs_monitor.AcceptanceReport.Blocks.{
  Library, Profile, is_final, is_ci, Evidence, evaluate_evidence, has_json_data, normalize_status,
}

pub data Verdict : Type 0 where
  go no_go provisional_pass : Verdict

-- `residual_risks` is `none` for a nil slice.
pub record ManualReview : Type 0 where
  pub operator : String
  pub at_time : ℕ
  pub result : String
  pub screenshot_index : List String
  pub residual_risks : Option (List String)

pub record Round : Type 0 where
  pub sequence : ℕ
  pub candidate_sha : String
  pub valid : Bool
  pub started_at : ℕ
  pub finished_at : ℕ
  pub environment : String
  pub evidence : Evidence
  pub manual_review : Option ManualReview

pub record Input : Type 0 where
  pub candidate_sha : String
  pub profile : Profile
  pub github_actions : Bool
  pub rounds : List Round

pub record Decision : Type 0 where
  pub verdict : Verdict
  pub provisional : Bool
  pub reason_codes : List ReasonCode

abbrev pub is_empty : {A : Type 0} → List A → Bool
is_empty [] = true
is_empty (x ∷ xs) = false

abbrev is_given : {A : Type 0} → Option A → Bool
is_given none = false
is_given (some x) = true

module _ (lib : Library) where
  abbrev pub is_complete_review : ManualReview → Bool
  is_complete_review review =
      not (str_eq (lib.trim_space review.operator) "")
      && not (is_zero_time review.at_time)
      && not (str_eq review.result "")
      && not (is_empty review.screenshot_index)
      && is_given review.residual_risks

  unfoldable pub evaluate_manual_review : Option ManualReview → ReasonSet → ReasonSet
  evaluate_manual_review none reasons = add_if true manual_result_missing reasons
  evaluate_manual_review (some review) reasons =
      if not (is_complete_review review)
      then add_if true manual_result_missing reasons
      else add_if (not (str_eq (normalize_status lib review.result) "pass")) manual_gate_failed
          reasons

  abbrev pub timing_valid : Round → Bool
  timing_valid round =
      not (is_zero_time round.started_at)
      && not (is_zero_time round.finished_at)
      && ltb round.started_at round.finished_at

  abbrev pub overlaps : Round → Round → Bool
  overlaps first second =
      not (is_zero_time first.finished_at)
      && not (is_zero_time second.started_at)
      && ltb second.started_at first.finished_at

  abbrev pub is_timed : Round → Bool
  is_timed round = has_json_data lib round.environment && timing_valid round

  unfoldable pub evaluate_final_rounds : List Round → ReasonSet → ReasonSet
  evaluate_final_rounds (first ∷ second ∷ []) reasons =
      if not (first.sequence == 1) || not (second.sequence == 2)
      then add_if true rounds_invalid reasons
      else add_if (overlaps first second) rounds_invalid (
          add_if (not (is_timed second)) rounds_invalid
            (add_if (not (is_timed first)) rounds_invalid reasons))
  evaluate_final_rounds [] reasons = add_if true rounds_invalid reasons
  evaluate_final_rounds (first ∷ []) reasons = add_if true rounds_invalid reasons
  evaluate_final_rounds (first ∷ second ∷ third ∷ rest) reasons = add_if true rounds_invalid reasons

  -- The body of the loop over the rounds.
  evaluate_round : Profile → String → Round → ReasonSet → ReasonSet
  unfolding evaluate_manual_review
  evaluate_round profile sha round reasons =
      let checked = evaluate_evidence lib profile sha round.evidence (
        add_if (not (str_eq round.candidate_sha sha)) evidence_sha_mismatch
          (add_if (not round.valid) rounds_invalid reasons)) in
      if is_final profile then evaluate_manual_review round.manual_review checked else checked

  evaluate_rounds : Profile → String → List Round → ReasonSet → ReasonSet
  unfolding evaluate_round
  evaluate_rounds p sha [] reasons = reasons
  evaluate_rounds p sha (round ∷ rounds) reasons =
      evaluate_rounds p sha rounds (evaluate_round p sha round reasons)

  -- The reasons that `Evaluate` has gathered when it comes to the verdict.
  unfoldable pub gather : Input → ReasonSet
  unfolding evaluate_final_rounds evaluate_rounds
  gather input =
      let begun =
        if is_final input.profile
        then evaluate_final_rounds input.rounds no_reasons
        else add_if (is_empty input.rounds) rounds_invalid no_reasons in
      add_if input.github_actions github_actions_provisional
        (evaluate_rounds input.profile input.candidate_sha input.rounds begun)

  unfoldable pub evaluate : Input → Decision
  unfolding gather
  evaluate input =
      let provisional = is_ci input.profile || input.github_actions in
      let reasons = gather input in
      record {
        verdict =
            if has_failure reasons then no_go else if provisional then provisional_pass else go;
        provisional = provisional;
        reason_codes = listed reasons;
      }
