-- ===== src/Ach/Zero.antt =====
-- The evidence that tells no alternatives apart.
use agent_advisor.Prelude.{
  ℕ, ◌≤◌, not, some, List, [], ◌∷◌, map, filter, ◌≡◌, ◌↔◌, inl, inr, refl, sym, ap, ◌∙◌, arith,
  String, In, In-map, In-filter, Bool-cases, ==_iff, ◌==◌ as num_eq,
}
use agent_advisor.Prelude.Text.{◌==◌, eq_iff, text_leb}
use agent_advisor.Prelude.Sort.{In-sorted}
use agent_advisor.Prelude.Dict.{
  Dict, lookup, insert, HasDistinctKeys, insert-HasDistinctKeys, In-lookup,
}
use agent_advisor.Ach.{
  AchMatrix, AchCell, row_from, row_of, greatest, least, spread, diagnosticity,
  zero_diagnosticity_records, total_from, weighted_inconsistency, consistency_value,
}

greatest-ge : (v x : ℕ) (values : List ℕ) → In x (v ∷ values) → x ≤ greatest v values
unfolding greatest
greatest-ge v x [] (inl e) = ground arith
greatest-ge v x [] (inr i) = absurd i
greatest-ge v x (w ∷ values) i = ground (arith, greatest-ge w x values)

least-le : (v x : ℕ) (values : List ℕ) → In x (v ∷ values) → least v values ≤ x
unfolding least
least-le v x [] (inl e) = ground arith
least-le v x [] (inr i) = absurd i
least-le v x (w ∷ values) i = ground (arith, least-le w x values)

greatest-In : (v : ℕ) (values : List ℕ) → In (greatest v values) (v ∷ values)
unfolding greatest
greatest-In v [] = inl refl
greatest-In v (w ∷ values) = ground (arith, greatest-In w values)

least-In : (v : ℕ) (values : List ℕ) → In (least v values) (v ∷ values)
unfolding least
least-In v [] = inl refl
least-In v (w ∷ values) = ground (arith, least-In w values)

spread-zero :
    (values : List ℕ) → (spread values ≡ 0) ↔ ((x y : ℕ) → In x values → In y values → x ≡ y)
unfolding spread
spread-zero [] = (λ e x y i j. absurd i, λ h. refl)
spread-zero (v ∷ values) = (
  λ e x y i j. omega (
    arith,
    e,
    greatest-ge v x values i,
    least-le v x values i,
    greatest-ge v y values j,
    least-le v y values j,
  ),
  λ h.
      let same =
        h (greatest v values) (least v values) (greatest-In v values) (least-In v values) in
      omega (arith, same),
)

row_from-HasDistinctKeys :
    (id : String) (row : Dict ℕ) (cells : List AchCell)
    → HasDistinctKeys row
    → HasDistinctKeys (row_from id row cells)
unfolding row_from
row_from-HasDistinctKeys id row [] h = h
row_from-HasDistinctKeys id row (c ∷ cells) h = elim (Bool-cases (c.evidence_id == id)) [
  | inl own ↦ rw own (
      row_from-HasDistinctKeys id (insert c.alternative (consistency_value c.consistency) row) cells
        (insert-HasDistinctKeys c.alternative (consistency_value c.consistency) row h))
  | inr other ↦ rw other (row_from-HasDistinctKeys id row cells h)
]

-- The record has the same score for every alternative.
abbrev pub IsFlat : AchMatrix → String → Type 0
IsFlat m id =
    (a b : String) (v w : ℕ)
    → lookup a (row_of m id) ≡ some v
    → lookup b (row_of m id) ≡ some w
    → v ≡ w

value-In :
    (row : Dict ℕ) (v : ℕ)
    → HasDistinctKeys row
    → In v (map (λ e. e.1) row) ↔ ((a : String) × (lookup a row ≡ some v))
value-In row v h =
    let values = In-map (λ (e : String × ℕ). e.1) v row in
    (
      λ i. let ((a, w), j, e) = values.0 i in (a, (In-lookup a w row h).0 j ∙ ap some (sym e)),
      λ (a, e). values.1 ((a, v), (In-lookup a v row h).1 e, refl),
    )

diagnosticity-zero : (m : AchMatrix) (id : String) → (diagnosticity m id ≡ 0) ↔ IsFlat m id
unfolding diagnosticity
diagnosticity-zero m id =
    let distinct = row_from-HasDistinctKeys id [] m.cells tt in
    let zero_iff = spread-zero (map (λ e. e.1) (row_of m id)) in
    (
      λ e a b v w found found'.
          zero_iff.0 e v w ((value-In (row_of m id) v distinct).1 (a, found))
            ((value-In (row_of m id) w distinct).1 (b, found')),
      λ flat. zero_iff.1 λ x y i j.
          let (a, found) = (value-In (row_of m id) x distinct).0 i in
          let (b, found') = (value-In (row_of m id) y distinct).0 j in flat a b x y found found',
    )

-- The cells of the other records.
abbrev pub cells_without : String → List AchCell → List AchCell
cells_without id cells = filter (λ c. not (c.evidence_id == id)) cells

total_from-without :
    (m : AchMatrix) (id alternative : String) (cells : List AchCell)
    → diagnosticity m id ≡ 0
    → total_from m alternative cells ≡ total_from m alternative (cells_without id cells)
unfolding total_from
total_from-without m id alternative [] e = refl
total_from-without m id alternative (c ∷ cells) e = elim (Bool-cases (c.evidence_id == id)) [
  | inl own ↦
      let nothing : diagnosticity m c.evidence_id ≡ 0 =
        ap (diagnosticity m) ((eq_iff c.evidence_id id).0 own) ∙ e in
      ground (arith, total_from-without m id alternative cells e)
  | inr other ↦ ground (arith, total_from-without m id alternative cells e)
]

-- An evidence record is reported as of zero diagnosticity exactly when it is in the matrix and is
-- scored alike for all alternatives; and the total of every alternative is then what it is without
-- the record's cells.
pub zero_diagnosticity_records_lem :
    (m : AchMatrix) (id : String)
    → (In id (zero_diagnosticity_records m) ↔ (In id m.evidence_ids × IsFlat m id))
      × (In id (zero_diagnosticity_records m)
          → (alternative : String)
          → weighted_inconsistency m alternative
            ≡ total_from m alternative (cells_without id m.cells))
unfolding zero_diagnosticity_records
zero_diagnosticity_records_lem m id =
    let p = λ (x : String). num_eq (diagnosticity m x) 0 in
    let listed = In-sorted text_leb id (filter p m.evidence_ids) in
    let chosen = In-filter p id m.evidence_ids in
    let is_zero = ==_iff (diagnosticity m id) 0 in
    let flat = diagnosticity-zero m id in
    (
      (
        λ i. let (there, z) = chosen.0 (listed.0 i) in (there, flat.0 (is_zero.0 z)),
        λ (there, f). listed.1 (chosen.1 (there, is_zero.1 (flat.1 f))),
      ),
      λ i alternative.
          total_from-without m id alternative m.cells (is_zero.0 (chosen.0 (listed.0 i)).1),
    )
