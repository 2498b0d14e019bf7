-- ===== src/StateMachine/Stage.antt =====
-- orchestrator/state_machine.py: the enum of stages, and the tables of the transitions and of the
-- plan of each stage.
use agent_advisor.Prelude.{ℕ, String, Bool, true, false, Option, none, some, List, [], ◌∷◌, ◌==◌}
use agent_advisor.Artifacts.{TaskRole}

pub data CaseStage : Type 0 where
  intake framing awaiting_framing_approval structuring provisional_thesis planning : CaseStage
  investigation evidence_critique assumption_ledger competing_hypotheses : CaseStage
  preliminary_recommendation pre_mortem challenge repair stop_decision synthesis : CaseStage
  review awaiting_final_approval done failed : CaseStage

-- The place of a stage in the enum, by which two stages are compared (`is`, `in`).
abbrev pub index : CaseStage → ℕ
index intake = 0
index framing = 1
index awaiting_framing_approval = 2
index structuring = 3
index provisional_thesis = 4
index planning = 5
index investigation = 6
index evidence_critique = 7
index assumption_ledger = 8
index competing_hypotheses = 9
index preliminary_recommendation = 10
index pre_mortem = 11
index challenge = 12
index repair = 13
index stop_decision = 14
index synthesis = 15
index review = 16
index awaiting_final_approval = 17
index done = 18
index failed = 19

abbrev pub same_stage : CaseStage → CaseStage → Bool
same_stage s t = index s == index t

pub record StepPlan : Type 0 where
  pub stage : CaseStage
  pub handler_name : Option String
  pub roles : List TaskRole
  pub approval_gate : Bool

unfoldable pub allowed_transitions : CaseStage → List CaseStage
allowed_transitions intake = framing ∷ failed ∷ []
allowed_transitions framing = awaiting_framing_approval ∷ failed ∷ []
allowed_transitions awaiting_framing_approval = structuring ∷ framing ∷ failed ∷ []
allowed_transitions structuring = provisional_thesis ∷ failed ∷ []
allowed_transitions provisional_thesis = planning ∷ failed ∷ []
allowed_transitions planning = investigation ∷ failed ∷ []
allowed_transitions investigation = evidence_critique ∷ failed ∷ []
allowed_transitions evidence_critique = assumption_ledger ∷ failed ∷ []
allowed_transitions assumption_ledger = competing_hypotheses ∷ failed ∷ []
allowed_transitions competing_hypotheses = preliminary_recommendation ∷ failed ∷ []
allowed_transitions preliminary_recommendation = pre_mortem ∷ failed ∷ []
allowed_transitions pre_mortem = challenge ∷ failed ∷ []
allowed_transitions challenge = stop_decision ∷ failed ∷ []
allowed_transitions repair = challenge ∷ failed ∷ []
allowed_transitions stop_decision = repair ∷ synthesis ∷ failed ∷ []
allowed_transitions synthesis = review ∷ failed ∷ []
allowed_transitions review = awaiting_final_approval ∷ synthesis ∷ failed ∷ []
allowed_transitions awaiting_final_approval = done ∷ synthesis ∷ failed ∷ []
allowed_transitions done = []
allowed_transitions failed = []

-- stage in (CaseStage.DONE, CaseStage.FAILED)
abbrev pub is_terminal : CaseStage → Bool
is_terminal done = true
is_terminal failed = true
is_terminal _ = false

abbrev plan : CaseStage → String → List TaskRole → StepPlan
plan stage name roles = record {
  stage = stage;
  handler_name = some name;
  roles = roles;
  approval_gate = false;
}

abbrev gate : CaseStage → StepPlan
gate stage = record { stage = stage; handler_name = none; roles = []; approval_gate = true }

-- `_FLOW_PLANS`, which has no entry for the two terminal stages.
unfoldable pub flow_plans : CaseStage → Option StepPlan
flow_plans intake = some (plan intake "intake" (TaskRole.intake ∷ []))
flow_plans framing = some (plan framing "framing" (TaskRole.director ∷ []))
flow_plans awaiting_framing_approval = some (gate awaiting_framing_approval)
flow_plans structuring = some (plan structuring "structuring" (TaskRole.structurer ∷ []))
flow_plans provisional_thesis =
    some (plan provisional_thesis "provisional_thesis" (TaskRole.director ∷ []))
flow_plans planning = some (plan planning "planning" (TaskRole.planner ∷ []))
flow_plans investigation =
    some (plan investigation "investigation" (TaskRole.researcher ∷ TaskRole.analyst ∷ []))
flow_plans evidence_critique = some (plan evidence_critique "evidence_critique" [])
flow_plans assumption_ledger =
    some (plan assumption_ledger "assumption_ledger" (TaskRole.assumption_analyst ∷ []))
flow_plans competing_hypotheses =
    some (plan competing_hypotheses "competing_hypotheses" (TaskRole.ach_analyst ∷ []))
flow_plans preliminary_recommendation =
    some (plan preliminary_recommendation "preliminary_recommendation" (TaskRole.director ∷ []))
flow_plans pre_mortem = some (plan pre_mortem "pre_mortem" (TaskRole.premortem ∷ []))
flow_plans challenge =
    some (plan challenge "challenge" (TaskRole.challenger ∷ TaskRole.auditor ∷ []))
flow_plans repair = some (plan repair "repair" (TaskRole.planner ∷ []))
flow_plans stop_decision = some (plan stop_decision "stop_decision" [])
flow_plans synthesis = some (plan synthesis "synthesis" (TaskRole.synthesizer ∷ []))
flow_plans review = some (plan review "review" (TaskRole.reviewer ∷ []))
flow_plans awaiting_final_approval = some (gate awaiting_final_approval)
flow_plans done = none
flow_plans failed = none

unfoldable pub next_by_stage : CaseStage → Option CaseStage
next_by_stage intake = some framing
next_by_stage framing = some awaiting_framing_approval
next_by_stage structuring = some provisional_thesis
next_by_stage provisional_thesis = some planning
next_by_stage planning = some investigation
next_by_stage investigation = some evidence_critique
next_by_stage evidence_critique = some assumption_ledger
next_by_stage assumption_ledger = some competing_hypotheses
next_by_stage competing_hypotheses = some preliminary_recommendation
next_by_stage preliminary_recommendation = some pre_mortem
next_by_stage pre_mortem = some challenge
next_by_stage challenge = some stop_decision
next_by_stage repair = some challenge
next_by_stage synthesis = some review
next_by_stage _ = none
