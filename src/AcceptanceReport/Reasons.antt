-- ===== src/AcceptanceReport/Reasons.antt =====
-- The `reasonSet` of internal/acceptancereport/evaluate.go: the Go map as a test.
pub mod Clean
use dbs_monitor.Prelude.{Bool, true, false, not, ◌&&◌, ◌||◌, List, [], ◌∷◌, if◌then◌else◌}

pub data ReasonCode : Type 0 where
  evidence_missing evidence_sha_mismatch hard_gate_failed : ReasonCode
  unexpected_matrix_state github_actions_provisional rounds_invalid : ReasonCode
  rtc_data_missing manual_result_missing manual_gate_failed : ReasonCode

abbrev pub same_reason : ReasonCode → ReasonCode → Bool
same_reason evidence_missing evidence_missing = true
same_reason evidence_sha_mismatch evidence_sha_mismatch = true
same_reason hard_gate_failed hard_gate_failed = true
same_reason unexpected_matrix_state unexpected_matrix_state = true
same_reason github_actions_provisional github_actions_provisional = true
same_reason rounds_invalid rounds_invalid = true
same_reason rtc_data_missing rtc_data_missing = true
same_reason manual_result_missing manual_result_missing = true
same_reason manual_gate_failed manual_gate_failed = true
same_reason _ _ = false

abbrev pub ReasonSet : Type 0
ReasonSet = ReasonCode → Bool

unfoldable pub no_reasons : ReasonSet
no_reasons reason = false

-- `if c { reasons.add(reason) }`.
unfoldable pub add_if : Bool → ReasonCode → ReasonSet → ReasonSet
add_if c reason reasons other = (c && same_reason reason other) || reasons other

abbrev pub order : List ReasonCode
order =
    evidence_missing ∷ evidence_sha_mismatch ∷ hard_gate_failed ∷ unexpected_matrix_state
    ∷ rounds_invalid ∷ rtc_data_missing ∷ manual_result_missing ∷ manual_gate_failed
    ∷ github_actions_provisional ∷ []

any_failure : List ReasonCode → ReasonSet → Bool
any_failure [] reasons = false
any_failure (reason ∷ rest) reasons =
    (reasons reason && not (same_reason reason github_actions_provisional))
    || any_failure rest reasons

-- Whether the map has a key other than that of GitHub Actions; all its keys are among the nine.
unfoldable pub has_failure : ReasonSet → Bool
unfolding any_failure
has_failure reasons = any_failure order reasons

keep : List ReasonCode → ReasonSet → List ReasonCode
keep [] reasons = []
keep (reason ∷ rest) reasons =
    let later = keep rest reasons in if reasons reason then reason ∷ later else later

-- `list`.
unfoldable pub listed : ReasonSet → List ReasonCode
unfolding keep
listed reasons = keep order reasons
