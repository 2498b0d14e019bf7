-- ===== src/StateMachine/Revision.antt =====
-- What `revision_transition` does.
use agent_advisor.Prelude.{◌+◌, ◌<◌, ◌≡◌, ◌↔◌, ◌⊎◌, arith}
use agent_advisor.Prelude.{ok}
use agent_advisor.StateMachine.{
  CaseStage, CaseState, framing, synthesis, intake, awaiting_framing_approval, stop_decision,
  review, awaiting_final_approval, revision_transition, allowed_transitions,
}

-- What a granted revision request needs, and the state that it leads to.
abbrev pub FramingRevised : CaseState → CaseState → Type 0
FramingRevised state next =
    (state.framing_revisions < 2)
    × ((state.stage ≡ intake) ⊎ (state.stage ≡ awaiting_framing_approval))
    × (next ≡ record state { stage = framing; framing_revisions = state.framing_revisions + 1 })

abbrev pub FinalRevised : CaseState → CaseState → Type 0
FinalRevised state next =
    (state.final_revisions < 1)
    × ((state.stage ≡ stop_decision)
        ⊎ (state.stage ≡ review)
        ⊎ (state.stage ≡ awaiting_final_approval))
    × (next ≡ record state { stage = synthesis; final_revisions = state.final_revisions + 1 })

revision_sound :
    (state next : CaseState) (target : CaseStage)
    → revision_transition state target ≡ ok next
    → ((target ≡ framing) × FramingRevised state next)
      ⊎ ((target ≡ synthesis) × FinalRevised state next)
unfolding revision_transition allowed_transitions
revision_sound state next target h = ground arith

revision_complete :
    (state next : CaseState) (target : CaseStage)
    → ((target ≡ framing) × FramingRevised state next)
      ⊎ ((target ≡ synthesis) × FinalRevised state next)
    → revision_transition state target ≡ ok next
unfolding revision_transition allowed_transitions
revision_complete state next target h = ground arith

-- `revision_transition` returns exactly in two cases: a request for FRAMING from INTAKE or from the
-- framing gate with fewer than two framing revisions made, and a request for SYNTHESIS from
-- STOP_DECISION, REVIEW or the final gate with no final revision made. It then counts the revision
-- and changes nothing but that count and the stage.
pub revision_transition_iff :
    (state next : CaseState) (target : CaseStage)
    → (revision_transition state target ≡ ok next) ↔ (
        ((target ≡ framing) × FramingRevised state next)
        ⊎ ((target ≡ synthesis) × FinalRevised state next))
revision_transition_iff state next target =
    (revision_sound state next target, revision_complete state next target)
