-- ===== src/Ach.antt =====
-- orchestrator/artifacts/ach.py and orchestrator/ach.py: the analysis of competing hypotheses.
-- All floats here are multiples of 1/8 and small, so that Python's arithmetic on them is exact: a
-- consistency is a number of halves above -1, a spread is in halves, a diagnosticity in quarters, and
-- a weighted inconsistency in eighths.
pub mod Zero
mod Samples
use agent_advisor.Prelude.{
  ℕ, suc, ◌+◌, ◌-◌, ◌*◌, ltb, leb, Bool, true, false, not, ◌&&◌, ◌||◌, List, [], ◌∷◌, ◌++◌, map,
  filter, length, Result, ok, err, ◌>>◌, ◌>>=◌, String, if◌then◌else◌, ◌==◌ as num_eq,
}
use agent_advisor.Prelude.Text.{◌==◌, text_leb}
use agent_advisor.Prelude.Sort.{sorted}
use agent_advisor.Prelude.Dict.{Dict, insert, mem, unique}

abbrev pub max_ach_evidence : ℕ
max_ach_evidence = 20

pub data AchConsistency : Type 0 where
  strongly_inconsistent inconsistent neutral consistent strongly_consistent : AchConsistency

-- CONSISTENCY_VALUE, in halves above -1
abbrev pub consistency_value : AchConsistency → ℕ
consistency_value strongly_inconsistent = 0
consistency_value inconsistent = 1
consistency_value neutral = 2
consistency_value consistent = 3
consistency_value strongly_consistent = 4

-- INCONSISTENCY_WEIGHT, in halves
abbrev pub inconsistency_weight : AchConsistency → ℕ
inconsistency_weight strongly_inconsistent = 2
inconsistency_weight inconsistent = 1
inconsistency_weight _ = 0

pub record AchCell : Type 0 where
  pub evidence_id : String
  pub alternative : String
  pub consistency : AchConsistency
  pub note : String

pub record AchMatrix : Type 0 where
  pub decision_question : String
  pub alternatives : List String
  pub evidence_ids : List String
  pub cells : List AchCell
  pub excluded_evidence_ids : List String

pub data MatrixError : Type 0 where
  duplicate_alternatives duplicate_evidence over_cap : MatrixError
  duplicate_cell undeclared_cell : (evidence_id alternative : String) → MatrixError
  incomplete : List (String × String) → MatrixError
  excluded_too : List String → MatrixError

abbrev pub Checked : Type 0
Checked = Result MatrixError (Unit {0})

has_duplicates : List String → Bool
unfolding unique
has_duplicates xs = not (num_eq (length (unique xs)) (length xs))

has_pair : String → String → List (String × String) → Bool
has_pair e a [] = false
has_pair e a ((e', a') ∷ pairs) = (e == e' && a == a') || has_pair e a pairs

-- The loop over the cells, which gathers the pairs in `seen`.
check_cells :
    AchMatrix → List (String × String) → List AchCell → Result MatrixError (List (String × String))
unfolding has_pair mem
check_cells m seen [] = ok seen
check_cells m seen (c ∷ cells) =
    let rest = check_cells m ((c.evidence_id, c.alternative) ∷ seen) cells in
    if has_pair c.evidence_id c.alternative seen
    then err (duplicate_cell c.evidence_id c.alternative)
    else if not (mem c.evidence_id m.evidence_ids && mem c.alternative m.alternatives)
    then err (undeclared_cell c.evidence_id c.alternative)
    else rest

-- The pairs of the evidence and the alternatives that are not in `seen`.
missing_of : String → List String → List (String × String) → List (String × String)
unfolding has_pair
missing_of e [] seen = []
missing_of e (a ∷ alternatives) seen =
    let rest = missing_of e alternatives seen in if has_pair e a seen then rest else (e, a) ∷ rest

missing : List String → List String → List (String × String) → List (String × String)
unfolding missing_of
missing [] alternatives seen = []
missing (e ∷ evidence_ids) alternatives seen =
    missing_of e alternatives seen ++ missing evidence_ids alternatives seen

check_complete : List (String × String) → Checked
check_complete [] = ok tt
check_complete (pair ∷ pairs) = err (incomplete (pair ∷ pairs))

check_excluded : List String → Checked
check_excluded [] = ok tt
check_excluded (id ∷ ids) = err (excluded_too (id ∷ ids))

unfoldable pub validate_matrix_is_complete : AchMatrix → Checked
unfolding has_duplicates check_cells missing check_complete check_excluded mem
validate_matrix_is_complete m =
    if has_duplicates m.alternatives
    then err duplicate_alternatives
    else if has_duplicates m.evidence_ids
    then err duplicate_evidence
    else if ltb max_ach_evidence (length m.evidence_ids)
    then err over_cap
    else check_cells m [] m.cells >>= λ seen.
        check_complete (missing m.evidence_ids m.alternatives seen)
        >> check_excluded (filter (λ id. mem id m.evidence_ids) m.excluded_evidence_ids)

-- table[evidence_id] of _scores_by_evidence, from the row that is there
unfoldable pub row_from : (evidence_id : String) → Dict ℕ → List AchCell → Dict ℕ
unfolding insert
row_from id row [] = row
row_from id row (c ∷ cells) =
    row_from id
      (if c.evidence_id == id
        then insert c.alternative (consistency_value c.consistency) row
        else row)
      cells

abbrev pub row_of : AchMatrix → String → Dict ℕ
row_of m id = row_from id [] m.cells

-- max and min, of a list that is not empty
unfoldable pub greatest : ℕ → List ℕ → ℕ
greatest v [] = v
greatest v (w ∷ values) = let rest = greatest w values in if leb rest v then v else rest

unfoldable pub least : ℕ → List ℕ → ℕ
least v [] = v
least v (w ∷ values) = let rest = least w values in if leb v rest then v else rest

unfoldable pub spread : List ℕ → ℕ
unfolding greatest least
spread [] = 0
spread (v ∷ values) = greatest v values - least v values

-- diagnosticity(matrix)[evidence_id], in quarters
unfoldable pub diagnosticity : AchMatrix → String → ℕ
unfolding row_from spread
diagnosticity m id = spread (map (λ e. e.1) (row_of m id))

unfoldable pub zero_diagnosticity_records : AchMatrix → List String
unfolding diagnosticity
zero_diagnosticity_records m =
    sorted text_leb (filter (λ id. num_eq (diagnosticity m id) 0) m.evidence_ids)

-- The loop of weighted_inconsistency for one alternative, in eighths.
unfoldable pub total_from : AchMatrix → (alternative : String) → List AchCell → ℕ
unfolding diagnosticity
total_from m alternative [] = 0
total_from m alternative (c ∷ cells) =
    let rest = total_from m alternative cells in
    if c.alternative == alternative
    then diagnosticity m c.evidence_id * inconsistency_weight c.consistency + rest
    else rest

abbrev pub weighted_inconsistency : AchMatrix → String → ℕ
weighted_inconsistency m alternative = total_from m alternative m.cells

disconfirming : String → List AchCell → List String
disconfirming alternative [] = []
disconfirming alternative (c ∷ cells) =
    let rest = disconfirming alternative cells in
    if c.alternative == alternative && ltb 0 (inconsistency_weight c.consistency)
    then c.evidence_id ∷ rest
    else rest

pub record AlternativeStanding : Type 0 where
  pub alternative : String
  pub weighted_inconsistency : ℕ
  pub rank : ℕ
  pub disconfirming_evidence_ids : List String

-- An alternative with its total and its place in the declared order.
pub record RankEntry : Type 0 where
  pub alternative : String
  pub total : ℕ
  pub declared : ℕ

unfoldable pub entries_from : AchMatrix → ℕ → List String → List RankEntry
unfolding total_from
entries_from m index [] = []
entries_from m index (a ∷ alternatives) =
    record { alternative = a; total = weighted_inconsistency m a; declared = index }
    ∷ entries_from m (suc index) alternatives

-- key=lambda alt: (totals[alt], declared_order[alt])
abbrev pub entry_leb : RankEntry → RankEntry → Bool
entry_leb a b = ltb a.total b.total || (num_eq a.total b.total && leb a.declared b.declared)

unfoldable pub standings_from : AchMatrix → ℕ → List RankEntry → List AlternativeStanding
unfolding disconfirming
standings_from m position [] = []
standings_from m position (e ∷ entries) =
    record {
      alternative = e.alternative;
      weighted_inconsistency = e.total;
      rank = position;
      disconfirming_evidence_ids = sorted text_leb (disconfirming e.alternative m.cells);
    }
    ∷ standings_from m (suc position) entries

unfoldable pub rank_by_disconfirmation : AchMatrix → List AlternativeStanding
unfolding standings_from entries_from
rank_by_disconfirmation m = standings_from m 1 (sorted entry_leb (entries_from m 0 m.alternatives))
