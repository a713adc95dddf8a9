-- ===== src/AcceptanceReport/Matrix.antt =====
-- The acceptance matrix of internal/acceptancereport/evaluate.go: its entries, and which of them need
-- not pass.
pub mod Complete
use dbs_monitor.Prelude.{
  ℕ, ◌+◌, String, Bool, true, false, not, ◌&&◌, ◌||◌, Option, List, [], ◌∷◌, ◌==◌, if◌then◌else◌,
  str_eq, length,
}

pub record Entry : Type 0 where
  pub id : String
  pub baseline : Bool
  pub status : String
  pub test_ref : Option String
  pub actual_result : String
  pub duration_ms : ℕ

abbrev pub matrix_entry_count : ℕ
matrix_entry_count = 104

abbrev pub matrix_baseline_count : ℕ
matrix_baseline_count = 101

abbrev pub among : List String → String → Bool
among [] id = false
among (x ∷ xs) id = str_eq x id || among xs id

abbrev allowed_matrix_na_ids : List String
allowed_matrix_na_ids = "AC-03-F2" ∷ "AC-04-F2" ∷ "AC-05-S4" ∷ "AC-08-F2" ∷ "AC-09-F2" ∷ []

unfoldable pub allowed_matrix_na : String → Bool
allowed_matrix_na id = among allowed_matrix_na_ids id

abbrev allowed_matrix_pending_ids : List String
allowed_matrix_pending_ids = "AC-03-F6" ∷ "AC-08-S8" ∷ []

unfoldable pub allowed_matrix_pending : String → Bool
allowed_matrix_pending id = among allowed_matrix_pending_ids id

-- The loop, from the identifiers and the baseline entries seen so far.
scan : List String → ℕ → List Entry → Bool
scan ids baseline_count [] = baseline_count == matrix_baseline_count
scan ids baseline_count (entry ∷ entries) =
    let rest =
      scan (entry.id ∷ ids) (if entry.baseline then baseline_count + 1 else baseline_count)
        entries in
    if str_eq entry.id "" then false else if among ids entry.id then false else rest

unfoldable pub matrix_is_complete : List Entry → Bool
unfolding scan
matrix_is_complete entries =
    if not (length entries == matrix_entry_count) then false else scan [] 0 entries
