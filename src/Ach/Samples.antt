-- ===== src/Ach/Samples.antt =====
-- The theorem about the matrix at a concrete input, and tests.
use agent_advisor.Prelude.{ℕ, [], ◌∷◌, map, ok, err, ◌≡◌, ◌↔◌, refl, String, In}
use agent_advisor.Prelude.Text.{text_leb}
use agent_advisor.Prelude.Sort.{sorted}
use agent_advisor.Prelude.Sort as Sort
use agent_advisor.Prelude.Dict.{mem, unique, insert}
use agent_advisor.Ach.{
  AchMatrix, AchCell, AchConsistency, AlternativeStanding, strongly_inconsistent, inconsistent,
  consistent, validate_matrix_is_complete, duplicate_cell, zero_diagnosticity_records,
  rank_by_disconfirmation, weighted_inconsistency, total_from, diagnosticity, row_from, spread,
  greatest, least,
}
use agent_advisor.Ach.Zero.{IsFlat, cells_without, zero_diagnosticity_records_lem}

abbrev cell : String → String → AchConsistency → AchCell
cell evidence alternative consistency = record {
  evidence_id = evidence;
  alternative = alternative;
  consistency = consistency;
  note = "read";
}

abbrev matrix : AchMatrix
matrix = record {
  decision_question = "which supplier";
  alternatives = "stay" ∷ "change" ∷ [];
  evidence_ids = "E-1" ∷ "E-2" ∷ [];
  cells =
      cell "E-1" "stay" strongly_inconsistent
      ∷ cell "E-1" "change" consistent
      ∷ cell "E-2" "stay" inconsistent
      ∷ cell "E-2" "change" inconsistent
      ∷ [];
  excluded_evidence_ids = [];
}

complete : validate_matrix_is_complete matrix ≡ ok tt
unfolding validate_matrix_is_complete unique mem
complete = refl

twice :
    validate_matrix_is_complete
      (record matrix { cells = cell "E-1" "stay" consistent ∷ matrix.cells })
    ≡ err (duplicate_cell "E-1" "stay")
unfolding validate_matrix_is_complete unique mem
twice = refl

ranked :
    map {B = String × ℕ}
      (λ (s : AlternativeStanding). (s.alternative, s.weighted_inconsistency))
      (rank_by_disconfirmation matrix)
    ≡ ("change", 0) ∷ ("stay", 6) ∷ []
unfolding rank_by_disconfirmation sorted Sort.insert text_leb total_from diagnosticity row_from
    insert spread greatest least
ranked = refl

flat : zero_diagnosticity_records matrix ≡ "E-2" ∷ []
unfolding zero_diagnosticity_records sorted Sort.insert text_leb row_from insert spread greatest
    least
flat = refl

zero_diagnosticity_records_lem_example :
    (In "E-2" (zero_diagnosticity_records matrix)
      ↔ (In "E-2" matrix.evidence_ids × IsFlat matrix "E-2"))
    × (In "E-2" (zero_diagnosticity_records matrix)
        → (alternative : String)
        → weighted_inconsistency matrix alternative
          ≡ total_from matrix alternative (cells_without "E-2" matrix.cells))
zero_diagnosticity_records_lem_example = zero_diagnosticity_records_lem matrix "E-2"
