-- ===== src/StateMachine.antt =====
-- orchestrator/state_machine.py: the state of a case, and the pure functions that move it along.
-- `Stage` has the stages with their tables, and `Run` the driver loop.
-- An exception is a value of `Failure`. A `datetime` is its number of microseconds. The elapsed time
-- is a Python float: its 64 bits as a number, of which 0 is the float 0.0.
mod Stage
pub use Stage.{CaseStage, index, same_stage, StepPlan, is_terminal}
pub use Stage.{
  intake, framing, awaiting_framing_approval, structuring, provisional_thesis, planning,
  investigation, evidence_critique, assumption_ledger, competing_hypotheses,
  preliminary_recommendation, pre_mortem, challenge, repair, stop_decision, synthesis, review,
  awaiting_final_approval, done, failed,
}
unfoldable pub use Stage.{allowed_transitions, flow_plans, next_by_stage}
pub mod Run
pub mod Reduce
pub mod Revision
use agent_advisor.Prelude.{
  Result, ok, err, ◌>>=◌, ◌>>◌, ℕ, ◌+◌, String, Bool, true, false, ◌&&◌, Option, none, some, List,
  [], ◌∷◌, ltb, leb, ◌==◌, if◌then◌else◌, any, ◌≡◌, refl, ◌⊎◌, inl, inr,
}
use agent_advisor.Prelude.Dict.{Dict}
use agent_advisor.Artifacts.{TaskRole}

pub record CaseState : Type 0 where
  pub case_id : String
  pub stage : CaseStage
  pub repair_cycle : ℕ
  pub synthesis_retries : ℕ
  pub framing_revisions : ℕ
  pub final_revisions : ℕ
  pub budget_counters : Dict ℕ
  pub started_at_run : Option ℕ
  pub elapsed : ℕ
  pub framing_approved : Bool
  pub final_approved : Bool
  pub review_accepted : Option Bool
  pub failure_cause : Option String
  pub created_at : ℕ
  pub updated_at : ℕ

abbrev pub max_framing_revisions : ℕ
max_framing_revisions = 2

abbrev pub max_final_revisions : ℕ
max_final_revisions = 1

pub data StepOutcome : Type 0 where
  advance needs_repair needs_resynthesis error : StepOutcome

pub record StepResult : Type 0 where
  pub outcome : StepOutcome
  pub error_cause : Option String

-- StepResult.ok()
abbrev pub step_ok : StepResult
step_ok = record { outcome = advance; error_cause = none }

pub data Failure : Type 0 where
  illegal_transition : (from to : CaseStage) → Failure
  illegal_routed illegal_reduced illegal_unresolved : CaseStage → Failure
  framing_cap_reached final_cap_reached : Failure
  bad_revision_target : CaseStage → Failure
  missing_plan missing_handler_name : CaseStage → Failure
  missing_handler : String → Failure
  handler_raised : String → Failure

abbrev pub Attempt {ℓ} : Type ℓ → Type ℓ
Attempt = Result Failure

unfoldable pub next_or_raise : CaseStage → CaseStage → Attempt (Unit {0})
unfolding allowed_transitions
next_or_raise from to =
    if any (same_stage to) (allowed_transitions from)
    then ok tt
    else err (illegal_transition from to)

-- `revision_transition`: the step back that a user's revision request takes.
revise_framing : CaseState → Attempt CaseState
unfolding next_or_raise
revise_framing state =
    if leb max_framing_revisions state.framing_revisions then err framing_cap_reached else (do
      next_or_raise state.stage framing
      ok (record state { stage = framing; framing_revisions = state.framing_revisions + 1 }))

revise_final : CaseState → Attempt CaseState
unfolding next_or_raise
revise_final state =
    if leb max_final_revisions state.final_revisions then err final_cap_reached else (do
      next_or_raise state.stage synthesis
      ok (record state { stage = synthesis; final_revisions = state.final_revisions + 1 }))

unfoldable pub revision_transition : CaseState → CaseStage → Attempt CaseState
unfolding revise_framing revise_final
revision_transition state framing = revise_framing state
revision_transition state synthesis = revise_final state
revision_transition state target = err (bad_revision_target target)

-- `route`, of which only the stage matters. A missing entry of `_FLOW_PLANS` is a `KeyError`.
unfoldable pub route : CaseStage → Attempt StepPlan
unfolding flow_plans
route stage =
    if is_terminal stage
    then err (illegal_routed stage)
    else elim (flow_plans stage) [ none ↦ err (missing_plan stage) | some p ↦ ok p ]

pub record Transition : Type 0 where
  pub stage : CaseStage
  pub repair_cycle : ℕ
  pub synthesis_retries : ℕ

abbrev is_error : StepOutcome → Bool
is_error error = true
is_error _ = false

abbrev is_needs_repair : StepOutcome → Bool
is_needs_repair needs_repair = true
is_needs_repair _ = false

abbrev is_needs_resynthesis : StepOutcome → Bool
is_needs_resynthesis needs_resynthesis = true
is_needs_resynthesis _ = false

module _ (outcome : StepOutcome) (max_repair_cycles max_synthesis_retries : ℕ) where
  -- The tests on the stage, in the source's order, once the outcome is known not to be ERROR.
  resolve_by_stage : CaseStage → (repair_cycle synthesis_retries : ℕ) → Attempt Transition
  unfolding next_by_stage
  resolve_by_stage stop_decision r s =
      if is_needs_repair outcome && ltb r max_repair_cycles
      then ok (record { stage = repair; repair_cycle = r + 1; synthesis_retries = s })
      else ok (record { stage = synthesis; repair_cycle = r; synthesis_retries = s })
  resolve_by_stage review r s =
      if is_needs_resynthesis outcome && ltb s max_synthesis_retries
      then ok (record { stage = synthesis; repair_cycle = r; synthesis_retries = s + 1 })
      else ok (record { stage = awaiting_final_approval; repair_cycle = r; synthesis_retries = s })
  resolve_by_stage awaiting_framing_approval r s =
      ok (record { stage = structuring; repair_cycle = r; synthesis_retries = s })
  resolve_by_stage awaiting_final_approval r s =
      ok (record { stage = done; repair_cycle = r; synthesis_retries = s })
  resolve_by_stage stage r s = elim (next_by_stage stage) [
    | none ↦ err (illegal_unresolved stage)
    | some next ↦ ok (record { stage = next; repair_cycle = r; synthesis_retries = s })
  ]

  resolve_next_stage : CaseState → Attempt Transition
  unfolding resolve_by_stage
  resolve_next_stage state =
      if is_error outcome
      then ok (record {
        stage = failed;
        repair_cycle = state.repair_cycle;
        synthesis_retries = state.synthesis_retries;
      })
      else resolve_by_stage state.stage state.repair_cycle state.synthesis_retries

unfoldable pub reduce :
    (max_repair_cycles max_synthesis_retries : ℕ) → CaseState → StepResult → Attempt CaseState
unfolding resolve_next_stage next_or_raise
reduce max_repair_cycles max_synthesis_retries state result =
    if is_terminal state.stage then err (illegal_reduced state.stage) else (do
      transition ← resolve_next_stage result.outcome max_repair_cycles max_synthesis_retries state
      next_or_raise state.stage transition.stage
      ok (record state {
        stage = transition.stage;
        repair_cycle = transition.repair_cycle;
        synthesis_retries = transition.synthesis_retries;
        failure_cause = if same_stage transition.stage failed then result.error_cause else none;
      }))
