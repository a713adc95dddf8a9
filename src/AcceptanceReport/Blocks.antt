-- ===== src/AcceptanceReport/Blocks.antt =====
-- The evidence of one round in internal/acceptancereport/evaluate.go. The functions of the libraries
-- that the code calls are parameters.
pub mod Gates
use dbs_monitor.Prelude.{
  ℕ, String, Bool, true, false, not, ◌&&◌, ◌||◌, Option, none, some, List, [], ◌∷◌, ltb, ◌==◌,
  if◌then◌else◌, str_eq,
}
use dbs_monitor.AcceptanceReport.Reasons.{
  ReasonSet, evidence_missing, evidence_sha_mismatch, hard_gate_failed, unexpected_matrix_state,
  rtc_data_missing, add_if,
}
use dbs_monitor.AcceptanceReport.Matrix.{
  Entry, allowed_matrix_na, allowed_matrix_pending, matrix_is_complete,
}

-- What `json.Unmarshal` decodes a text to: an object or an array counts its members.
pub data Json : Type 0 where
  json_null json_scalar : Json
  json_object json_array : ℕ → Json

-- `strings.ToLower`, `strings.TrimSpace` and `json.Unmarshal` into an `any`.
pub record Library : Type 0 where
  pub to_lower : String → String
  pub trim_space : String → String
  pub unmarshal : String → Option Json

pub data Profile : Type 0 where
  profile_ci profile_final other_profile : Profile

abbrev pub is_ci : Profile → Bool
is_ci profile_ci = true
is_ci _ = false

abbrev pub is_final : Profile → Bool
is_final profile_final = true
is_final _ = false

pub record Block : Type 0 where
  pub candidate_sha : String
  pub source : String
  pub artifact_sha256 : String
  pub result : String
  pub entries : List Entry
  pub exceptions : List String
  pub summary : String

pub record Evidence : Type 0 where
  pub package_block : Option Block
  pub check_full : Option Block
  pub matrix : Option Block
  pub pg_range : Option Block
  pub rtc : Option Block
  pub linux_native : Option Block

abbrev is_nothing : {A : Type 0} → List A → Bool
is_nothing [] = true
is_nothing (x ∷ xs) = false

module _ (lib : Library) where
  abbrev pub has_members : Option Json → Bool
  has_members none = false
  has_members (some json_null) = false
  has_members (some json_scalar) = true
  has_members (some (json_object n)) = ltb 0 n
  has_members (some (json_array n)) = ltb 0 n

  unfoldable pub has_json_data : String → Bool
  has_json_data contents =
      if str_eq contents "" then false else has_members (lib.unmarshal contents)

  unfoldable pub normalize_status : String → String
  normalize_status status =
      let normalized = lib.to_lower status in
      if str_eq normalized "pass" || str_eq normalized "passed"
      then "pass"
      else if str_eq normalized "fail" || str_eq normalized "failed"
      then "fail"
      else normalized

  abbrev pub has_status : String → Entry → Bool
  has_status status entry = str_eq (normalize_status entry.status) status

  -- The body of the loop over `requiredEvidence`.
  unfoldable pub require_block : String → Option Block → ReasonSet → ReasonSet
  require_block sha none reasons = add_if true evidence_missing reasons
  require_block sha (some block) reasons =
      add_if (not (str_eq block.candidate_sha sha)) evidence_sha_mismatch reasons

  unfoldable pub require_blocks : Profile → String → Evidence → ReasonSet → ReasonSet
  unfolding require_block
  require_blocks profile sha evidence reasons =
      if is_final profile
      then require_block sha evidence.linux_native (
          require_block sha evidence.rtc (
            require_block sha evidence.pg_range (
              require_block sha evidence.matrix (
                require_block sha evidence.check_full
                  (require_block sha evidence.package_block reasons)))))
      else require_block sha evidence.rtc
          (require_block sha evidence.pg_range (require_block sha evidence.matrix reasons))

  -- The loop over the entries of a block of `hardGateEvidence`.
  abbrev pub entry_fails : Bool → Entry → Bool
  entry_fails is_matrix entry =
      (not is_matrix || entry.baseline)
      && not (has_status "pass" entry)
      && not (is_matrix && has_status "n-a" entry && allowed_matrix_na entry.id)

  unfoldable pub gate_entries : Bool → List Entry → ReasonSet → ReasonSet
  gate_entries is_matrix [] reasons = reasons
  gate_entries is_matrix (entry ∷ entries) reasons =
      gate_entries is_matrix entries (add_if (entry_fails is_matrix entry) hard_gate_failed reasons)

  abbrev pub result_fails : Bool → Block → Bool
  result_fails is_matrix block =
      (not (str_eq block.result "") && not (str_eq (normalize_status block.result) "pass"))
      || (not is_matrix && str_eq block.result "" && is_nothing block.entries)

  -- The two tests on the result add the same reason. `block == evidence.Matrix` compares pointers,
  -- and the blocks of a decoded round are distinct objects.
  unfoldable pub gate_block : Bool → Option Block → ReasonSet → ReasonSet
  unfolding gate_entries
  gate_block is_matrix none reasons = reasons
  gate_block is_matrix (some block) reasons =
      gate_entries is_matrix block.entries
        (add_if (result_fails is_matrix block) hard_gate_failed reasons)

  -- The switch of `evaluateMatrix`.
  abbrev pub is_unexpected : Entry → Bool
  is_unexpected entry =
      if has_status "pending" entry
      then not (allowed_matrix_pending entry.id) || entry.baseline
      else if has_status "n-a" entry
      then not (allowed_matrix_na entry.id)
      else false

  unfoldable pub matrix_entries : List Entry → ReasonSet → ReasonSet
  matrix_entries [] reasons = reasons
  matrix_entries (entry ∷ entries) reasons =
      matrix_entries entries (add_if (is_unexpected entry) unexpected_matrix_state reasons)

  unfoldable pub evaluate_matrix : Option Block → ReasonSet → ReasonSet
  unfolding matrix_entries
  evaluate_matrix none reasons = reasons
  evaluate_matrix (some matrix) reasons = matrix_entries matrix.entries (
      add_if (not (is_nothing matrix.exceptions)) unexpected_matrix_state
        (add_if (not (matrix_is_complete matrix.entries)) evidence_missing reasons))

  abbrev pub lacks_rtc_data : Option Block → Bool
  lacks_rtc_data none = false
  lacks_rtc_data (some rtc) = not (has_json_data rtc.summary)

  unfoldable pub evaluate_evidence : Profile → String → Evidence → ReasonSet → ReasonSet
  unfolding require_blocks gate_block evaluate_matrix
  evaluate_evidence profile sha evidence reasons =
      let gated = gate_block false evidence.linux_native (
        gate_block false evidence.pg_range (
          gate_block true evidence.matrix (
            gate_block false evidence.check_full (
              gate_block false evidence.package_block
                (require_blocks profile sha evidence reasons))))) in
      add_if (lacks_rtc_data evidence.rtc) rtc_data_missing (evaluate_matrix evidence.matrix gated)
