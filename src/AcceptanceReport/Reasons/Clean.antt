-- ===== src/AcceptanceReport/Reasons/Clean.antt =====
-- When no reason for a failure was gathered.
use dbs_monitor.Prelude.{◌≡◌, refl, Bool, false, not, ◌&&◌, ◌||◌, arith}
use dbs_monitor.AcceptanceReport.Reasons.{
  ReasonCode, evidence_missing, evidence_sha_mismatch, hard_gate_failed, unexpected_matrix_state,
  github_actions_provisional, rounds_invalid, rtc_data_missing, manual_result_missing,
  manual_gate_failed, same_reason, ReasonSet, no_reasons, add_if, has_failure,
}

abbrev pub is_github : ReasonCode → Bool
is_github reason = same_reason reason github_actions_provisional

-- Adding a reason under a condition is a failure exactly if the condition holds, unless the reason is
-- that of GitHub Actions.
pub has_failure-add_if :
    (c : Bool) (reason : ReasonCode) (reasons : ReasonSet)
    → has_failure (add_if c reason reasons) ≡ ((c && not (is_github reason)) || has_failure reasons)
unfolding has_failure add_if
has_failure-add_if c evidence_missing reasons = ground arith
has_failure-add_if c evidence_sha_mismatch reasons = ground arith
has_failure-add_if c hard_gate_failed reasons = ground arith
has_failure-add_if c unexpected_matrix_state reasons = ground arith
has_failure-add_if c github_actions_provisional reasons = ground arith
has_failure-add_if c rounds_invalid reasons = ground arith
has_failure-add_if c rtc_data_missing reasons = ground arith
has_failure-add_if c manual_result_missing reasons = ground arith
has_failure-add_if c manual_gate_failed reasons = ground arith

pub has_failure-no_reasons : has_failure no_reasons ≡ false
unfolding has_failure no_reasons
has_failure-no_reasons = refl
