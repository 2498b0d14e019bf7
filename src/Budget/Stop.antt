-- ===== src/Budget/Stop.antt =====
-- orchestrator/budget.py and artifacts/disclosure.py: the evaluator of the stop decision.
pub mod Decision
use agent_advisor.Prelude.{
  ℕ, ◌≡◌, ◌≢◌, ◌↔◌, ◌⊎◌, inl, inr, refl, String, Bool, true, false, not, ◌&&◌, ◌||◌, Option, none,
  some, List, [], ◌∷◌, ◌++◌, map, leb, if◌then◌else◌, arith, filter, any, In, Bool-cases,
}
use agent_advisor.Prelude.Int.{ℤ, pos, negsuc}
use agent_advisor.Prelude.Dict.{Dict, mem, mem_iff}
use agent_advisor.Prelude.Sort.{sorted, In-sorted}
use agent_advisor.Prelude.Text.{text_leb}

pub data StopReason : Type 0 where
  no_critical_evidence_gaps_remain recommendation_stable_across_sensitivity_ranges : StopReason
  no_unresolved_objection_likely_to_change_decision : StopReason
  expected_value_of_more_research_low investigation_budget_exhausted : StopReason
  user_deadline_or_depth_limit_reached : StopReason

pub record DisclosureRecord : Type 0 where
  pub stop_reasons : List StopReason
  pub exhausted_dimensions : List String

pub record StopEvaluatorInputs : Type 0 where
  pub open_critical_evidence_gaps : Bool
  pub unresolved_material_objections : Bool
  pub recommendation_stable : Bool
  pub expected_value_of_more_research_low : Bool
  pub remaining_budget : Dict ℤ
  pub deadline : Option ℕ
  pub depth_limit_reached : Bool

pub data Action : Type 0 where
  continue stop : Action

pub record StopDecision : Type 0 where
  pub action : Action
  pub reasons : List StopReason
  pub disclosure : Option DisclosureRecord

-- remaining <= 0
abbrev pub is_spent : ℤ → Bool
is_spent (pos n) = leb n 0
is_spent (negsuc n) = true

abbrev pub spent_dimensions : Dict ℤ → List String
spent_dimensions budget = map (λ e. e.0) (filter (λ e. is_spent e.1) budget)

-- `xs.append(x)` under a test
abbrev pub append_if : {A : Type 0} → Bool → A → List A → List A
append_if b x xs = if b then xs ++ x ∷ [] else xs

-- tuple(dict.fromkeys(xs)): the first of each
unfoldable pub unique_from : List String → List String → List String
unique_from seen [] = []
unique_from seen (x ∷ xs) =
    let kept = x ∷ unique_from (x ∷ seen) xs in
    let skipped = unique_from seen xs in if mem x seen then skipped else kept

unfoldable pub deadline_reached : Option ℕ → ℕ → Bool
deadline_reached deadline now = elim deadline [ none ↦ false | some d ↦ leb d now ]

abbrev pub is_empty {ℓ} : {A : Type ℓ} → List A → Bool
is_empty [] = true
is_empty (x ∷ xs) = false

-- The reasons, in the order in which the source appends them.
abbrev pub reasons_of : StopEvaluatorInputs → (spent late : Bool) → List StopReason
reasons_of inputs spent late =
    append_if (late || inputs.depth_limit_reached) user_deadline_or_depth_limit_reached (
      append_if spent investigation_budget_exhausted (
        append_if inputs.expected_value_of_more_research_low
          StopReason.expected_value_of_more_research_low
          (append_if (not inputs.unresolved_material_objections)
            no_unresolved_objection_likely_to_change_decision
            (append_if inputs.recommendation_stable recommendation_stable_across_sensitivity_ranges
              (append_if (not inputs.open_critical_evidence_gaps) no_critical_evidence_gaps_remain
                [])))))

abbrev pub dimensions_of : StopEvaluatorInputs → (late : Bool) → List String → List String
dimensions_of inputs late exhausted =
    append_if inputs.depth_limit_reached "depth_limit" (append_if late "deadline" exhausted)

abbrev pub is_budget_exhausted : StopReason → Bool
is_budget_exhausted investigation_budget_exhausted = true
is_budget_exhausted _ = false

abbrev pub is_deadline : StopReason → Bool
is_deadline user_deadline_or_depth_limit_reached = true
is_deadline _ = false

-- What follows from the reasons and the exhausted dimensions.
abbrev pub decide_stop : List StopReason → List String → StopDecision
decide_stop reasons dimensions =
    if is_empty reasons
    then record { action = continue; reasons = []; disclosure = none }
    else record {
      action = stop;
      reasons = reasons;
      disclosure =
          if any is_budget_exhausted reasons || any is_deadline reasons
          then some
              (record { stop_reasons = reasons; exhausted_dimensions = unique_from [] dimensions })
          else none;
    }

abbrev pub verdict : StopEvaluatorInputs → (late : Bool) → (exhausted : List String) → StopDecision
verdict inputs late exhausted =
    decide_stop (reasons_of inputs (not (is_empty exhausted)) late)
      (dimensions_of inputs late exhausted)

-- `now` is what the evaluator's clock says.
unfoldable pub evaluate : ℕ → StopEvaluatorInputs → StopDecision
unfolding deadline_reached
evaluate now inputs =
    let exhausted = sorted text_leb (spent_dimensions inputs.remaining_budget) in
    let late = deadline_reached inputs.deadline now in verdict inputs late exhausted
