-- ===== src/AcceptanceReport/Tests.antt =====
-- internal/acceptancereport/evaluate.go on concrete candidates.
use Prim.Native.String.{◌++◌ as str_append}
use dbs_monitor.Prelude.{
  ℕ, zero, suc, ◌≡◌, refl, String, Bool, true, false, ◌||◌, Option, none, some, List, [], ◌∷◌, ltb,
  if◌then◌else◌, not,
}
use dbs_monitor.AcceptanceReport.Matrix.{Entry, matrix_is_complete}
use dbs_monitor.AcceptanceReport.Reasons.{has_failure, add_if, no_reasons}
use dbs_monitor.AcceptanceReport.Blocks.{
  evaluate_evidence, has_json_data, normalize_status, Library, json_object, Profile, profile_ci,
  other_profile, is_ci, Block,
}
use dbs_monitor.AcceptanceReport.{Input, go, no_go, provisional_pass, evaluate}
use dbs_monitor.AcceptanceReport.Verdicts.{is_acceptable, evaluate-verdict}

abbrev library : Library
library = record { to_lower = λ s. s; trim_space = λ s. s; unmarshal = λ s. some (json_object 1) }

abbrev entry : Bool → String → Entry
entry baseline id = record {
  id = id;
  baseline = baseline;
  status = "pass";
  test_ref = none;
  actual_result = "";
  duration_ms = 0;
}

-- Entries with distinct identifiers, of which 101 belong to the baseline.
abbrev entries : ℕ → String → List Entry
entries zero id = []
entries (suc n) id = entry (ltb n 101) id ∷ entries n (str_append id "x")

abbrev block : List Entry → Option Block
block l = some record {
  candidate_sha = "c0ffee";
  source = "";
  artifact_sha256 = "";
  result = "passed";
  entries = l;
  exceptions = [];
  summary = "{}";
}

abbrev input : Profile → List Entry → Input
input p l = record {
  candidate_sha = "c0ffee";
  profile = p;
  github_actions = false;
  rounds =
      record {
        sequence = 1;
        candidate_sha = "c0ffee";
        valid = true;
        started_at = 1;
        finished_at = 2;
        environment = "{}";
        evidence = record {
          package_block = none;
          check_full = none;
          matrix = block l;
          pg_range = block [];
          rtc = block [];
          linux_native = none;
        };
        manual_review = none;
      }
      ∷ [];
}

ci_passes_provisionally :
    (evaluate library (input profile_ci (entries 104 "x"))).verdict ≡ provisional_pass
unfolding evaluate evaluate_evidence has_json_data normalize_status matrix_is_complete has_failure
    add_if no_reasons
ci_passes_provisionally = refl

other_goes : (evaluate library (input other_profile (entries 104 "x"))).verdict ≡ go
unfolding evaluate evaluate_evidence has_json_data normalize_status matrix_is_complete has_failure
    add_if no_reasons
other_goes = refl

short_matrix_fails : (evaluate library (input profile_ci (entries 103 "x"))).verdict ≡ no_go
unfolding evaluate evaluate_evidence has_json_data normalize_status matrix_is_complete has_failure
    add_if no_reasons
short_matrix_fails = refl

evaluate-verdict_example : (evaluate library (input profile_ci (entries 104 "x"))).verdict ≡ (
    if not (is_acceptable library (input profile_ci (entries 104 "x")))
    then no_go
    else if is_ci profile_ci || false
    then provisional_pass
    else go)
evaluate-verdict_example = evaluate-verdict library (input profile_ci (entries 104 "x"))
