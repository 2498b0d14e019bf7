-- ===== src/Control/Effect.antt =====
-- What each request does, on every branch.
use agent_advisor.Prelude.{
  suc, ◌<◌, ◌+◌, true, false, none, some, List, [], ◌∷◌, ◌++◌, ◌≡◌, ◌≢◌, ◌⊎◌, String, In, All,
}
use agent_advisor.Prelude.Dict.{Dict}
use agent_advisor.Prelude.Text.{is_blank}
use agent_advisor.StateMachine.{
  CaseState, awaiting_framing_approval, awaiting_final_approval, framing, synthesis,
}
use agent_advisor.Control.{
  Folder, Request, Event, FramingDecision, edit, answer_clarifications, revise, approve_framing,
  approve_final, request_framing_revision, request_final_revision, framing_signed, final_signed,
  framing_revision_requested, final_revision_requested, run_started, intake_fields,
}

-- Every answer is to a field of the intake record.
abbrev pub AreFields : Dict String → Type 0
AreFields [] = Unit {0}
AreFields ((key, _) ∷ answers) = In key intake_fields × AreFields answers

-- The schema's demand on a revision: no key of the edits and no answer is empty.
abbrev pub HasNoEmpty : List String → Dict String → Type 0
HasNoEmpty edits answers = All (λ key. key ≢ "") edits × All (λ (_, answer). answer ≢ "") answers

abbrev pub Decides : List String → Dict String → FramingDecision → Type 0
Decides edits answers decision =
    ((edits ≢ []) × (decision ≡ edit))
    ⊎ ((edits ≡ []) × (answers ≢ []) × (decision ≡ answer_clarifications))

-- The folder after the writes of a request that saved `state` and logged `event`.
abbrev pub signed : Folder → CaseState → Event → Folder → Folder
signed f state event with_record = record with_record {
  state = state;
  lock = none;
  trail = (f.trail ++ event ∷ []) ++ run_started ∷ [];
  workers_started = suc f.workers_started;
}

abbrev pub framing_revised : Folder → List String → Dict String → FramingDecision → Folder
framing_revised f edits answers decision =
    signed f (record f.state { stage = framing; framing_revisions = f.state.framing_revisions + 1 })
      (framing_revision_requested decision (f.state.framing_revisions + 1))
      (record f {
        framing_approval = some (record {
          decision = decision;
          approved_by = "user";
          edits = edits;
          clarification_answers = answers;
        });
      })

-- What a request needs of the folder, and the folder that it leaves.
abbrev pub Grants : Folder → Request → Folder → Type 0
Grants f (approve_framing approval) after =
    (f.state.stage ≡ awaiting_framing_approval)
    × (after
        ≡ signed f (record f.state { framing_approved = true })
            (framing_signed approval.decision approval.approved_by)
            (record f { framing_approval = some approval }))
Grants f (approve_final approval) after =
    (f.state.stage ≡ awaiting_final_approval)
    × (after
        ≡ signed f (record f.state { final_approved = true })
            (final_signed approval.decision approval.approved_by)
            (record f { final_approval = some approval }))
Grants f (request_framing_revision edits answers) after =
    (f.state.stage ≡ awaiting_framing_approval)
    × (f.state.framing_revisions < 2)
    × AreFields answers
    × HasNoEmpty edits answers
    × ((decision : FramingDecision) × Decides edits answers decision
        × (after ≡ framing_revised f edits answers decision))
Grants f (request_final_revision note) after =
    (f.state.stage ≡ awaiting_final_approval)
    × (f.state.final_revisions < 1)
    × (is_blank note ≡ false)
    × (after
        ≡ signed f
            (record f.state { stage = synthesis; final_revisions = f.state.final_revisions + 1 })
            (final_revision_requested (f.state.final_revisions + 1))
            (record f {
              final_approval =
                  some (record { decision = revise; note = note; approved_by = "user" });
            }))
