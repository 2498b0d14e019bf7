-- ===== src/Control/Samples.antt =====
-- The theorems about requests at concrete inputs, and tests.
use agent_advisor.Prelude.{
  ℕ, suc, true, false, none, some, List, [], ◌∷◌, take, ok, err, ◌≡◌, ◌⊎◌, refl, ◌+◌, String,
}
use agent_advisor.Prelude.Int.{ℤ, pos}
use agent_advisor.Prelude.Dict.{Dict, lookup, mem}
use agent_advisor.Prelude.Text.{is_blank}
use agent_advisor.StateMachine.{
  awaiting_framing_approval, awaiting_final_approval, planning, revision_transition,
}
use agent_advisor.StateMachine.Run.{initial_state}
use agent_advisor.Supervisor.{Probe, CaseLocked, no_process, is_held, acquire}
use agent_advisor.Artifacts.{TaskRecord, is_active}
use agent_advisor.TaskGraph.Reconcile.{reset}
use agent_advisor.TaskGraph.Samples.{board, three}
use agent_advisor.Control.{
  Folder, Write, FramingApproval, approve, approve_framing, request_framing_revision,
  request_final_revision, planned_writes, handle, apply_all, under_lock, unknown_key,
  revision_decision, empty_note, is_valid_framing, unknown_field,
}
use agent_advisor.Control.Crash.{IsRecorded, no_flag_without_record}
use agent_advisor.Control.Overlap.{overlapping_revisions_count_once}
use agent_advisor.Control.Resume.{Site, resume, case_locked, resume_lem}

abbrev nobody : ℤ → Probe
nobody pid = no_process

abbrev folder : Folder
folder = record {
  state = record (initial_state "case-001-price" 0) { stage = awaiting_framing_approval };
  framing_approval = none;
  final_approval = none;
  lock = none;
  trail = [];
  workers_started = 0;
}

abbrev yes : FramingApproval
yes = record { decision = approve; approved_by = "ann"; edits = []; clarification_answers = [] }

abbrev some_answers : Dict String
some_answers = ("deadline", "in June") ∷ []

yes-valid : is_valid_framing yes ≡ true
unfolding is_valid_framing
yes-valid = refl

final_note_elsewhere :
    handle nobody
      (pos 7)
      100
      (record folder { state = record folder.state { stage = awaiting_final_approval } })
      (request_final_revision " ")
    ≡ err empty_note
unfolding handle planned_writes is_blank
final_note_elsewhere = refl

no_such_field :
    handle nobody (pos 7) 100 folder (request_framing_revision [] (("price", "1") ∷ []))
    ≡ err (unknown_field "price")
unfolding handle planned_writes unknown_key mem
no_such_field = refl

planned_approval :
    (writes : List Write) × (planned_writes nobody
        (pos 7)
        100
        folder.state
        none
        (approve_framing yes)
      ≡ ok writes)
unfolding planned_writes under_lock acquire
planned_approval = (_, refl)

no_flag_without_record_example :
    ((apply_all (take 3 planned_approval.0) folder).state ≡ folder.state)
    ⊎ IsRecorded (approve_framing yes) (apply_all (take 3 planned_approval.0) folder)
no_flag_without_record_example =
    no_flag_without_record nobody (pos 7) 100 none folder (approve_framing yes) planned_approval.0 3
      planned_approval.1

first :
    (writes : List Write) × (planned_writes nobody
        (pos 7)
        100
        folder.state
        folder.lock
        (request_framing_revision [] some_answers)
      ≡ ok writes)
unfolding planned_writes under_lock unknown_key mem revision_decision acquire revision_transition
first = (_, refl)

second :
    (writes : List Write) × (planned_writes nobody
        (pos 8)
        101
        folder.state
        (apply_all first.0 folder).lock
        (request_framing_revision ("deadline" ∷ []) [])
      ≡ ok writes)
unfolding planned_writes under_lock unknown_key mem revision_decision acquire revision_transition
    first apply_all
second = (_, refl)

overlapping_revisions_count_once_example :
    ((apply_all second.0 (apply_all first.0 folder)).state.framing_revisions
      ≡ folder.state.framing_revisions + 1)
    × ((apply_all second.0 (apply_all first.0 folder)).workers_started ≡ folder.workers_started + 2)
overlapping_revisions_count_once_example =
    overlapping_revisions_count_once nobody (pos 7) (pos 8) 100 101 folder [] ("deadline" ∷ [])
      some_answers [] first.0 second.0 first.1 second.1

-- Worker 9 died while it was planning.
abbrev site : Site ℕ ℕ
site = record {
  state = record (initial_state "case-001-price" 0) { stage = planning };
  lock = some (record { pid = some (pos 9); started_at = some 50 });
  board = board;
  trail = [];
  workers_started = 1;
}

resume_lem_example :
    ((is_held nobody site.lock ≡ true)
      × ((e : CaseLocked) × (resume nobody 100 site ≡ err (case_locked e, site))))
    ⊎ ((is_held nobody site.lock ≡ false)
        × ((after : Site ℕ ℕ) × (resume nobody 100 site ≡ ok after)
            × (after.lock ≡ none)
            × (after.state ≡ site.state)
            × (after.workers_started ≡ suc site.workers_started)
            × ((k : String) → lookup k after.board.tasks ≡ reset (lookup k site.board.tasks))
            × ((k : String) (task : TaskRecord ℕ)
                → lookup k after.board.tasks ≡ some task
                → is_active task.status ≡ false)))
resume_lem_example = resume_lem nobody 100 site refl refl three
