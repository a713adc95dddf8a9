-- ===== src/AcceptanceReport/Matrix/Complete.antt =====
-- What `matrixIsComplete` of internal/acceptancereport/evaluate.go says of the entries.
use dbs_monitor.Prelude.{
  ℕ, ◌+◌, ◌≡◌, ◌↔◌, String, true, false, List, [], ◌∷◌, arith, if◌then◌else◌, str_eq, length,
}
use dbs_monitor.AcceptanceReport.Matrix.{
  Entry, among, scan, matrix_is_complete, matrix_entry_count, matrix_baseline_count,
}

-- How many entries belong to the baseline.
unfoldable pub baselines : List Entry → ℕ
baselines [] = 0
baselines (entry ∷ entries) =
    let rest = baselines entries in if entry.baseline then rest + 1 else rest

-- No identifier is empty, none is in the list, and none stands twice.
abbrev pub Fresh : List String → List Entry → Type 0
Fresh ids [] = Unit
Fresh ids (entry ∷ entries) =
    (str_eq entry.id "" ≡ false) × (among ids entry.id ≡ false) × Fresh (entry.id ∷ ids) entries

scan-Fresh :
    (ids : List String) (n : ℕ) (entries : List Entry)
    → scan ids n entries ≡ true
    → Fresh ids entries × (n + baselines entries ≡ matrix_baseline_count)
unfolding scan baselines
scan-Fresh ids n [] h = (tt, ground arith)
scan-Fresh ids n (entry ∷ entries) h =
    ground (arith, scan-Fresh (entry.id ∷ ids) (if entry.baseline then n + 1 else n) entries)

Fresh-scan :
    (ids : List String) (n : ℕ) (entries : List Entry)
    → Fresh ids entries
    → n + baselines entries ≡ matrix_baseline_count
    → scan ids n entries ≡ true
unfolding scan baselines
Fresh-scan ids n [] h e = ground arith
Fresh-scan ids n (entry ∷ entries) h e =
    ground (arith, Fresh-scan (entry.id ∷ ids) (if entry.baseline then n + 1 else n) entries)

-- The matrix is complete exactly if it has 104 entries, 101 of them in the baseline, and their
-- identifiers are distinct and not empty.
pub matrix_is_complete_iff :
    (entries : List Entry)
    → (matrix_is_complete entries ≡ true) ↔ (
        (length entries ≡ matrix_entry_count)
        × Fresh [] entries
        × (baselines entries ≡ matrix_baseline_count))
unfolding matrix_is_complete
matrix_is_complete_iff entries =
    (λ h. ground (arith, scan-Fresh [] 0 entries), λ h. ground (arith, Fresh-scan [] 0 entries))
