-- ===== src/Budget/Stop/Decision.antt =====
-- The stop decision, on all its inputs.
use agent_advisor.Prelude.{
  IsDistinct, In-subst, some_inj, ℕ, ◌≡◌, ◌≢◌, ◌↔◌, ◌⊎◌, inl, inr, refl, subst, sym, ◌∙◌, String,
  Bool, true, false, none, some, List, [], ◌∷◌, arith, In, Bool-cases, In-append,
}
use agent_advisor.Prelude.Dict.{mem_iff}
use agent_advisor.Prelude.Sort.{sorted}
use agent_advisor.Prelude.Text.{text_leb, eq_iff}
use agent_advisor.Budget.Stop.{
  StopEvaluatorInputs, DisclosureRecord, evaluate, continue, deadline_reached, spent_dimensions,
  unique_from, dimensions_of, append_if, verdict,
}

In-unique_from :
    (d : String) (seen xs : List String) → In d (unique_from seen xs) ↔ (In d xs × ¬ In d seen)
unfolding unique_from
In-unique_from d seen [] = (λ h. absurd h, λ h. h.0)
In-unique_from d seen (x ∷ xs) = ground (
  arith,
  mem_iff x seen,
  mem_iff d seen,
  eq_iff d x,
  In-unique_from d seen xs,
  In-unique_from d (x ∷ seen) xs,
  In-subst d x seen,
)

abbrev pub spent : StopEvaluatorInputs → List String
spent inputs = sorted text_leb (spent_dimensions inputs.remaining_budget)

-- The evaluator says to continue exactly when critical evidence gaps are open, the recommendation
-- is not stable, material objections are unresolved, more research is worth its cost, no dimension
-- of the budget is spent, the deadline is not reached, and the depth limit is not either.
pub evaluate_stops :
    (now : ℕ) (inputs : StopEvaluatorInputs)
    → ((evaluate now inputs).action ≡ continue) ↔ (
        (inputs.open_critical_evidence_gaps ≡ true)
        × (inputs.recommendation_stable ≡ false)
        × (inputs.unresolved_material_objections ≡ true)
        × (inputs.expected_value_of_more_research_low ≡ false)
        × (spent inputs ≡ [])
        × (deadline_reached inputs.deadline now ≡ false)
        × (inputs.depth_limit_reached ≡ false))
unfolding evaluate
evaluate_stops now inputs = ground arith

unique_from-IsDistinct : (seen xs : List String) → IsDistinct (unique_from seen xs)
unfolding unique_from
unique_from-IsDistinct seen [] = tt
unique_from-IsDistinct seen (x ∷ xs) = ground (
  arith,
  unique_from-IsDistinct seen xs,
  unique_from-IsDistinct (x ∷ seen) xs,
  In-unique_from x (x ∷ seen) xs,
)

In-nonempty : (d : String) (xs : List String) → In d xs → xs ≢ []
In-nonempty d [] i e = i
In-nonempty d (x ∷ xs) i e = cc

-- What the disclosure is to name.
abbrev pub IsExhausted : ℕ → StopEvaluatorInputs → String → Type 0
IsExhausted now inputs d =
    In d (spent inputs)
    ⊎ ((d ≡ "deadline") × (deadline_reached inputs.deadline now ≡ true))
    ⊎ ((d ≡ "depth_limit") × (inputs.depth_limit_reached ≡ true))

In-dimensions_of :
    (now : ℕ) (inputs : StopEvaluatorInputs) (d : String)
    → In d (dimensions_of inputs (deadline_reached inputs.deadline now) (spent inputs))
      ↔ IsExhausted now inputs d
In-dimensions_of now inputs d =
    let late = deadline_reached inputs.deadline now in
    let timed = append_if late "deadline" (spent inputs) in
    ground
      (arith, In-append d (spent inputs) ("deadline" ∷ []), In-append d timed ("depth_limit" ∷ []))

disclosed_as : StopEvaluatorInputs → Bool → List String → DisclosureRecord
disclosed_as inputs late l = record {
  stop_reasons = (verdict inputs late l).reasons;
  exhausted_dimensions = unique_from [] (dimensions_of inputs late l);
}

none≢some : {A : Type 0} {a : A} → none ≡ some a → ⊥
none≢some e = cc

-- Nothing is disclosed and nothing exhausted, or what is exhausted is disclosed.
verdict_cases :
    (inputs : StopEvaluatorInputs) (late : Bool) (l : List String)
    → (((verdict inputs late l).disclosure ≡ none)
        × (l ≡ [])
        × (late ≡ false)
        × (inputs.depth_limit_reached ≡ false))
      ⊎ (((verdict inputs late l).disclosure ≡ some (disclosed_as inputs late l))
          × ((d : String) × In d (dimensions_of inputs late l)))
unfolding disclosed_as
verdict_cases inputs late [] = elim (Bool-cases late) [
  | inl on ↦ inr (ground arith, ("deadline", ground arith))
  | inr early ↦ elim (Bool-cases inputs.depth_limit_reached) [
    | inl deep ↦ inr (ground arith, ("depth_limit", ground arith))
    | inr shallow ↦ inl (ground arith, refl, early, shallow)
  ]
]
verdict_cases inputs late (x ∷ l) = inr (ground arith, (x, ground arith))

-- A disclosure carries the reasons of its decision, and its list of exhausted dimensions is not
-- empty, names nothing twice, and names exactly the spent dimensions of the budget, the deadline if
-- it is reached, and the depth limit if it is.
pub evaluate_discloses :
    (now : ℕ) (inputs : StopEvaluatorInputs) (disclosed : DisclosureRecord)
    → (evaluate now inputs).disclosure ≡ some disclosed
    → (disclosed.stop_reasons ≡ (evaluate now inputs).reasons)
      × (disclosed.exhausted_dimensions ≢ [])
      × IsDistinct disclosed.exhausted_dimensions
      × ((d : String) → In d disclosed.exhausted_dimensions ↔ IsExhausted now inputs d)
unfolding evaluate disclosed_as
evaluate_discloses now inputs disclosed e =
    let late = deadline_reached inputs.deadline now in
    elim (verdict_cases inputs late (spent inputs)) [
      | inl (nothing, _, _, _) ↦ absurd (none≢some (sym nothing ∙ e))
      | inr (same, (d, here)) ↦
          let eq : disclosed_as inputs late (spent inputs) ≡ disclosed = some_inj (sym same ∙ e) in
          let dims = dimensions_of inputs late (spent inputs) in
          subst
            (λ (r : DisclosureRecord).
              (r.stop_reasons ≡ (evaluate now inputs).reasons)
              × (r.exhausted_dimensions ≢ [])
              × IsDistinct r.exhausted_dimensions
              × ((x : String) → In x r.exhausted_dimensions ↔ IsExhausted now inputs x))
            eq
            (
              refl,
              In-nonempty d _ ((In-unique_from d [] dims).1 (here, λ i. i)),
              unique_from-IsDistinct [] dims,
              λ x. ground (arith, In-unique_from x [] dims, In-dimensions_of now inputs x),
            )
    ]

-- The evaluator discloses nothing exactly when no dimension of the budget is spent, the deadline is
-- not reached and the depth limit is not reached.
pub evaluate-none :
    (now : ℕ) (inputs : StopEvaluatorInputs)
    → ((evaluate now inputs).disclosure ≡ none) ↔ ((d : String) → ¬ IsExhausted now inputs d)
unfolding evaluate disclosed_as
evaluate-none now inputs =
    let late = deadline_reached inputs.deadline now in
    elim (verdict_cases inputs late (spent inputs)) [
      | inl (nothing, empty, early, shallow) ↦ (λ h d x. ground arith, λ h. nothing)
      | inr (same, (d, here)) ↦ (
        λ h. absurd (none≢some (sym h ∙ same)),
        λ h. absurd (h d ((In-dimensions_of now inputs d).0 here)),
      )
    ]
