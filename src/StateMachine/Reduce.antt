-- ===== src/StateMachine/Reduce.antt =====
-- What `reduce` does on every stage and outcome.
use agent_advisor.Prelude.{
  ℕ, ◌+◌, ◌≤◌, ◌≡◌, refl, ap, sym, ◌∙◌, ◌↔◌, true, false, none, List, [], ◌∷◌, arith, any, ◌≢◌,
  ◌&&◌, if◌then◌else◌, ==_iff, zero, suc,
}
use agent_advisor.Prelude.{Result-total, ok, err}
use agent_advisor.StateMachine.{
  CaseStage, CaseState, StepResult, index, same_stage, allowed_transitions, is_terminal, Failure,
  next_by_stage, reduce, error, intake, framing, awaiting_framing_approval, structuring,
  provisional_thesis, planning, investigation, evidence_critique, assumption_ledger,
  competing_hypotheses, preliminary_recommendation, pre_mortem, challenge, repair, stop_decision,
  synthesis, review, awaiting_final_approval, done, failed,
}

at_index : ℕ → List CaseStage → CaseStage
at_index n [] = failed
at_index zero (s ∷ l) = s
at_index (suc n) (s ∷ l) = at_index n l

abbrev all_stages : List CaseStage
all_stages =
    intake ∷ framing ∷ awaiting_framing_approval ∷ structuring ∷ provisional_thesis ∷ planning
    ∷ investigation ∷ evidence_critique ∷ assumption_ledger ∷ competing_hypotheses
    ∷ preliminary_recommendation ∷ pre_mortem ∷ challenge ∷ repair ∷ stop_decision ∷ synthesis
    ∷ review ∷ awaiting_final_approval ∷ done ∷ failed ∷ []

at_index-index : (s : CaseStage) → at_index (index s) all_stages ≡ s
unfolding at_index
at_index-index intake = refl
at_index-index _ = refl

pub same_stage-eq : (s t : CaseStage) → same_stage s t ≡ true → s ≡ t
same_stage-eq s t h =
    sym (at_index-index s)
    ∙ ap (λ n. at_index n all_stages) ((==_iff (index s) (index t)).0 h)
    ∙ at_index-index t

module _ (max_repair_cycles max_synthesis_retries : ℕ) (state : CaseState)
    (result : StepResult) where
  reduce-ne-err :
      (e : Failure)
      → is_terminal state.stage ≡ false
      → reduce max_repair_cycles max_synthesis_retries state result ≢ err e
  unfolding reduce allowed_transitions
  reduce-ne-err e h = ground arith

  reduce_allowed :
      (next : CaseState)
      → reduce max_repair_cycles max_synthesis_retries state result ≡ ok next
      → any (same_stage next.stage) (allowed_transitions state.stage) ≡ true
  unfolding reduce
  reduce_allowed next e = ground arith

  -- On a state that is not DONE or FAILED `reduce` raises no exception, whatever the result of the
  -- step, and the stage that it moves to is one of the allowed transitions of the state's stage.
  pub reduce_total :
      is_terminal state.stage ≡ false
      → (next : CaseState) × (reduce max_repair_cycles max_synthesis_retries state result ≡ ok next)
        × (any (same_stage next.stage) (allowed_transitions state.stage) ≡ true)
  reduce_total h =
      let (next, e) =
        Result-total (reduce max_repair_cycles max_synthesis_retries state result)
          (λ x. reduce-ne-err x h) in
      (next, e, reduce_allowed next e)

  -- When `reduce` returns, the case is FAILED exactly when the step's outcome is ERROR; the failure
  -- cause is then the step's, and is cleared otherwise; and of the rest of the state only the stage
  -- and the two loop counters can change.
  pub reduce_effect :
      (next : CaseState)
      → reduce max_repair_cycles max_synthesis_retries state result ≡ ok next
      → ((next.stage ≡ failed) ↔ (result.outcome ≡ error))
        × (next.failure_cause ≡ (if same_stage next.stage failed then result.error_cause else none))
        × (record next {
          stage = state.stage;
          repair_cycle = state.repair_cycle;
          synthesis_retries = state.synthesis_retries;
          failure_cause = state.failure_cause;
        }
            ≡ state)
  unfolding reduce next_by_stage
  reduce_effect next e = ground arith

  -- A case that has used at most the allowed repair cycles and synthesis retries still has after
  -- `reduce`. A cycle is counted exactly when the case goes to REPAIR, and a retry exactly when it
  -- goes back from REVIEW to SYNTHESIS.
  pub reduce_counters :
      (next : CaseState)
      → state.repair_cycle ≤ max_repair_cycles
      → state.synthesis_retries ≤ max_synthesis_retries
      → reduce max_repair_cycles max_synthesis_retries state result ≡ ok next
      → (next.repair_cycle ≤ max_repair_cycles)
        × (next.synthesis_retries ≤ max_synthesis_retries)
        × (next.repair_cycle
            ≡ (if same_stage next.stage repair then state.repair_cycle + 1 else state.repair_cycle))
        × (next.synthesis_retries ≡ (
            if same_stage state.stage review && same_stage next.stage synthesis
            then state.synthesis_retries + 1
            else state.synthesis_retries))
  unfolding reduce next_by_stage
  reduce_counters next r s e = ground arith
