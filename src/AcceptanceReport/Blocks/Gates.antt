-- ===== src/AcceptanceReport/Blocks/Gates.antt =====
-- When the evidence of a round gives no reason for a failure.
use dbs_monitor.Prelude.{
  ◌≡◌, refl, String, Bool, true, false, not, ◌&&◌, ◌||◌, Option, none, some, List, [], ◌∷◌, arith,
  str_eq, Bool-cases, inl, inr,
}
use dbs_monitor.AcceptanceReport.Reasons.{
  ReasonSet, evidence_missing, evidence_sha_mismatch, hard_gate_failed, unexpected_matrix_state,
  add_if, has_failure,
}
use dbs_monitor.AcceptanceReport.Reasons.Clean.{has_failure-add_if}
use dbs_monitor.AcceptanceReport.Matrix.{Entry, matrix_is_complete}
use dbs_monitor.AcceptanceReport.Blocks.{
  Library, Block, Evidence, Profile, is_final, is_nothing, require_block, require_blocks,
  entry_fails, gate_entries, result_fails, gate_block, is_unexpected, matrix_entries,
  evaluate_matrix, lacks_rtc_data, evaluate_evidence,
}

abbrev pub every : {A : Type 0} → (A → Bool) → List A → Bool
every p [] = true
every p (x ∷ xs) = p x && every p xs

-- A block is there, for this candidate.
abbrev pub is_present : String → Option Block → Bool
is_present sha none = false
is_present sha (some block) = str_eq block.candidate_sha sha

gather_gates :
    (r p c m g n w d h : Bool)
    → ((d && true)
        || (not w || (not n || (not g || (not m || (not c || (not p || (not r || h))))))))
      ≡ (not (r && p && c && m && g && n && w && not d) || h)
gather_gates r p c m g n w d h = ground arith

module _ (lib : Library) where
  -- No entry of a block, and not its result, fails the gate.
  abbrev pub gate_passes : Bool → Option Block → Bool
  gate_passes is_matrix none = true
  gate_passes is_matrix (some block) =
      not (result_fails lib is_matrix block)
      && every (λ entry. not (entry_fails lib is_matrix entry)) block.entries

  abbrev pub matrix_passes : Option Block → Bool
  matrix_passes none = true
  matrix_passes (some matrix) =
      matrix_is_complete matrix.entries
      && is_nothing matrix.exceptions
      && every (λ entry. not (is_unexpected lib entry)) matrix.entries

  abbrev pub required_present : Profile → String → Evidence → Bool
  required_present profile sha e =
      is_present sha e.matrix
      && is_present sha e.pg_range
      && is_present sha e.rtc
      && (not (is_final profile)
          || (is_present sha e.package_block
              && is_present sha e.check_full
              && is_present sha e.linux_native))

  unfoldable pub evidence_passes : Profile → String → Evidence → Bool
  evidence_passes profile sha e =
      required_present profile sha e
      && gate_passes false e.package_block
      && gate_passes false e.check_full
      && gate_passes true e.matrix
      && gate_passes false e.pg_range
      && gate_passes false e.linux_native
      && matrix_passes e.matrix
      && not (lacks_rtc_data lib e.rtc)

  require_block-fails :
      (sha : String) (b : Option Block) (s : ReasonSet)
      → has_failure (require_block lib sha b s) ≡ (not (is_present sha b) || has_failure s)
  unfolding require_block
  require_block-fails sha none s = ground (arith, has_failure-add_if true evidence_missing s)
  require_block-fails sha (some b) s =
      ground (arith, has_failure-add_if (not (str_eq b.candidate_sha sha)) evidence_sha_mismatch s)

  gate_entries-fails :
      (m : Bool) (l : List Entry) (s : ReasonSet)
      → has_failure (gate_entries lib m l s)
        ≡ (not (every (λ e. not (entry_fails lib m e)) l) || has_failure s)
  unfolding gate_entries
  gate_entries-fails m [] s = refl
  gate_entries-fails m (e ∷ l) s = ground (
    arith,
    gate_entries-fails m l (add_if (entry_fails lib m e) hard_gate_failed s),
    has_failure-add_if (entry_fails lib m e) hard_gate_failed s,
  )

  gate_block-fails :
      (m : Bool) (b : Option Block) (s : ReasonSet)
      → has_failure (gate_block lib m b s) ≡ (not (gate_passes m b) || has_failure s)
  unfolding gate_block
  gate_block-fails m none s = refl
  gate_block-fails m (some b) s = ground (
    arith,
    gate_entries-fails m b.entries (add_if (result_fails lib m b) hard_gate_failed s),
    has_failure-add_if (result_fails lib m b) hard_gate_failed s,
  )

  matrix_entries-fails :
      (l : List Entry) (s : ReasonSet)
      → has_failure (matrix_entries lib l s)
        ≡ (not (every (λ e. not (is_unexpected lib e)) l) || has_failure s)
  unfolding matrix_entries
  matrix_entries-fails [] s = refl
  matrix_entries-fails (e ∷ l) s = ground (
    arith,
    matrix_entries-fails l (add_if (is_unexpected lib e) unexpected_matrix_state s),
    has_failure-add_if (is_unexpected lib e) unexpected_matrix_state s,
  )

  evaluate_matrix-fails :
      (b : Option Block) (s : ReasonSet)
      → has_failure (evaluate_matrix lib b s) ≡ (not (matrix_passes b) || has_failure s)
  unfolding evaluate_matrix
  evaluate_matrix-fails none s = refl
  evaluate_matrix-fails (some b) s =
      let c = not (matrix_is_complete b.entries) in
      let x = not (is_nothing b.exceptions) in
      let first = add_if c evidence_missing s in
      ground (
        arith,
        matrix_entries-fails b.entries (add_if x unexpected_matrix_state first),
        has_failure-add_if x unexpected_matrix_state first,
        has_failure-add_if c evidence_missing s,
      )

  require_blocks-fails :
      (profile : Profile) (sha : String) (e : Evidence) (s : ReasonSet)
      → has_failure (require_blocks lib profile sha e s)
        ≡ (not (required_present profile sha e) || has_failure s)
  unfolding require_blocks
  require_blocks-fails profile sha e s = elim (Bool-cases (is_final profile)) [
    | inl final ↦ rw (final, require_blocks) (simp require_block-fails (ground arith))
    | inr other ↦ rw (other, require_blocks) (simp require_block-fails (ground arith))
  ]

  -- The evidence of a round adds a reason for a failure exactly if it does not pass.
  pub evaluate_evidence-fails :
      (profile : Profile) (sha : String) (e : Evidence) (s : ReasonSet)
      → has_failure (evaluate_evidence lib profile sha e s)
        ≡ (not (evidence_passes profile sha e) || has_failure s)
  unfolding evaluate_evidence evidence_passes
  evaluate_evidence-fails profile sha e s =
      simp (gate_block-fails, evaluate_matrix-fails, require_blocks-fails, has_failure-add_if)
        (gather_gates (required_present profile sha e) (gate_passes false e.package_block)
          (gate_passes false e.check_full) (gate_passes true e.matrix)
          (gate_passes false e.pg_range) (gate_passes false e.linux_native) (matrix_passes e.matrix)
          (lacks_rtc_data lib e.rtc) (has_failure s))
