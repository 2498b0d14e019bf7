-- ===== src/Control.antt =====
-- orchestrator/control.py: what a person's request does to a case, as the list of its durable writes.
-- A request reads the state before it takes the lock. The run lock is the one of `Supervisor`.
pub mod Crash
pub mod Effect
pub mod Overlap
pub mod Resume
mod Samples
use agent_advisor.Prelude.{
  ℕ, Bool, true, false, not, ◌&&◌, ◌||◌, Option, none, some, List, [], ◌∷◌, ◌++◌, Result, ok, err,
  ◌>>=◌, String, suc, leb, any, all, map, find?, if◌then◌else◌, length,
}
use agent_advisor.Prelude.Int.{ℤ}
use agent_advisor.Prelude.Dict.{Dict, mem}
use agent_advisor.Prelude.Text.{◌==◌, is_blank}
use agent_advisor.StateMachine.{
  CaseStage, CaseState, Failure, same_stage, awaiting_framing_approval, awaiting_final_approval,
  framing, synthesis, max_framing_revisions, max_final_revisions, revision_transition, is_terminal,
}
use agent_advisor.Supervisor.{
  LockFile, Probe, CaseLocked, acquire, is_stale, is_held, pid_or_minus_one, age_s,
}

-- orchestrator/artifacts/intake.py
pub data FramingDecision : Type 0 where
  approve edit answer_clarifications : FramingDecision

-- The values of the edits, which can be any object, are left out: only their keys are looked at.
pub record FramingApproval : Type 0 where
  pub decision : FramingDecision
  pub approved_by : String
  pub edits : List String
  pub clarification_answers : Dict String

-- orchestrator/artifacts/approvals.py
pub data FinalDecision : Type 0 where
  accept revise : FinalDecision

pub record FinalApproval : Type 0 where
  pub decision : FinalDecision
  pub note : String
  pub approved_by : String

pub data Event : Type 0 where
  framing_signed : FramingDecision → String → Event
  final_signed : FinalDecision → String → Event
  framing_revision_requested : FramingDecision → ℕ → Event
  final_revision_requested : ℕ → Event
  run_started run_stopped : Event

-- A case's folder, as far as the requests write it. A worker that runs changes it on its own.
pub record Folder : Type 0 where
  pub state : CaseState
  pub framing_approval : Option FramingApproval
  pub final_approval : Option FinalApproval
  pub lock : Option LockFile
  pub trail : List Event
  pub workers_started : ℕ

pub data ControlError : Type 0 where
  wrong_stage : ControlError
  unknown_field : String → ControlError
  empty_revision empty_note invalid_approval : ControlError
  cap_reached : ℕ → ControlError
  locked : CaseLocked → ControlError
  refused : Failure → ControlError

-- One durable step. Each is atomic: files are replaced, created or removed as a whole.
pub data Write : Type 0 where
  create_lock : LockFile → Write
  unlink_lock : Write
  write_framing : FramingApproval → Write
  write_final : FinalApproval → Write
  save_state : CaseState → Write
  log : Event → Write
  run_worker : Write

unfoldable pub apply : Write → Folder → Folder
apply (create_lock file) f = record f { lock = some file }
apply unlink_lock f = record f { lock = none }
apply (write_framing approval) f = record f { framing_approval = some approval }
apply (write_final approval) f = record f { final_approval = some approval }
apply (save_state state) f = record f { state = state }
apply (log event) f = record f { trail = f.trail ++ event ∷ [] }
apply run_worker f = record f { workers_started = suc f.workers_started }

unfoldable pub apply_all : List Write → Folder → Folder
unfolding apply
apply_all [] f = f
apply_all (w ∷ ws) f = apply_all ws (apply w f)

-- The names of `IntakeField`.
abbrev pub intake_fields : List String
intake_fields =
    "decision_question" ∷ "deadline" ∷ "alternatives_mentioned" ∷ "objectives" ∷ "constraints"
    ∷ "risk_tolerance" ∷ "reversibility" ∷ "depth" ∷ "internal_information" ∷ []

-- The first key of the answers that names no field.
unknown_key : Dict String → Option String
unknown_key [] = none
unknown_key ((key, _) ∷ answers) =
    let rest = unknown_key answers in if mem key intake_fields then rest else some key

abbrev pub is_empty {ℓ} : {A : Type ℓ} → List A → Bool
is_empty [] = true
is_empty (_ ∷ _) = false

-- The decision of a revision with these edits and answers.
revision_decision : (edits : List String) → Dict String → Option FramingDecision
revision_decision (_ ∷ _) answers = some edit
revision_decision [] (_ ∷ _) = some answer_clarifications
revision_decision [] [] = none

-- The schema refuses empty keys of the edits and empty answers; the answers' keys name fields.
abbrev pub has_empty : List String → Dict String → Bool
has_empty edits answers = any (λ key. key == "") edits || any (λ (_, answer). answer == "") answers

-- FramingApproval.validate_decision_payload
unfoldable pub is_valid_framing : FramingApproval → Bool
is_valid_framing a = elim a.decision [
  | edit ↦ not (is_empty a.edits)
  | answer_clarifications ↦ not (is_empty a.clarification_answers)
  | approve ↦ is_empty a.edits && is_empty a.clarification_answers
]

-- FinalApproval.validate_decision_payload
unfoldable pub is_valid_final : FinalApproval → Bool
unfolding is_blank
is_valid_final a = elim a.decision [ revise ↦ not (is_blank a.note) | accept ↦ is_blank a.note ]

-- What a person asks for.
pub data Request : Type 0 where
  approve_framing : FramingApproval → Request
  approve_final : FinalApproval → Request
  request_framing_revision : (edits : List String) → Dict String → Request
  request_final_revision : (note : String) → Request

abbrev pub Planned : Type 0
Planned = Result ControlError (List Write)

module _ (kill : ℤ → Probe) where
  -- `lock.acquire()`, the writes under the lock, `lock.release()`, and the start of a worker.
  unfoldable pub under_lock : (self : ℤ) (now : ℕ) → Option LockFile → List Write → Planned
  unfolding acquire
  under_lock self now lock writes = elim (acquire kill self now lock) [
    | err e ↦ err (locked e)
    | ok file ↦ elim file [
      | none ↦ ok []
      | some created ↦
          ok (create_lock created ∷ writes ++ unlink_lock ∷ log run_started ∷ run_worker ∷ [])
    ]
  ]

  -- `loaded` is the state that was read, and `lock` the lock file when the request comes to take it.
  -- `revision_transition`, which is called under the lock, does not fail there: `Effect` shows it.
  unfoldable pub approve_framing_writes :
      (self : ℤ) (now : ℕ) (loaded : CaseState) → Option LockFile → FramingApproval → Planned
  unfolding under_lock
  approve_framing_writes self now loaded lock approval =
      if not (same_stage loaded.stage awaiting_framing_approval)
      then err wrong_stage
      else under_lock self now lock (
          write_framing approval
          ∷ save_state (record loaded { framing_approved = true })
          ∷ log (framing_signed approval.decision approval.approved_by)
          ∷ [])

  unfoldable pub approve_final_writes :
      (self : ℤ) (now : ℕ) (loaded : CaseState) → Option LockFile → FinalApproval → Planned
  unfolding under_lock
  approve_final_writes self now loaded lock approval =
      if not (same_stage loaded.stage awaiting_final_approval)
      then err wrong_stage
      else under_lock self now lock (
          write_final approval
          ∷ save_state (record loaded { final_approved = true })
          ∷ log (final_signed approval.decision approval.approved_by)
          ∷ [])

  unfoldable pub framing_revision_writes :
      (self : ℤ) (now : ℕ) (loaded : CaseState)
      → Option LockFile
      → (edits : List String) → Dict String
      → Planned
  unfolding under_lock unknown_key revision_decision revision_transition
  framing_revision_writes self now loaded lock edits answers =
      if not (same_stage loaded.stage awaiting_framing_approval)
      then err wrong_stage
      else elim (unknown_key answers) [
        | some key ↦ err (unknown_field key)
        | none ↦ elim (revision_decision edits answers) [
          | none ↦ err empty_revision
          | some decision ↦
              if has_empty edits answers
              then err invalid_approval
              else if leb max_framing_revisions loaded.framing_revisions
              then err (cap_reached max_framing_revisions)
              else elim (revision_transition loaded framing) [
                | err fault ↦ err (refused fault)
                | ok next ↦ under_lock self now lock (
                    write_framing (record {
                      decision = decision;
                      approved_by = "user";
                      edits = edits;
                      clarification_answers = answers;
                    })
                    ∷ save_state next
                    ∷ log (framing_revision_requested decision next.framing_revisions)
                    ∷ [])
              ]
        ]
      ]

  unfoldable pub final_revision_writes :
      (self : ℤ) (now : ℕ) (loaded : CaseState) → Option LockFile → (note : String) → Planned
  unfolding under_lock is_blank revision_transition
  final_revision_writes self now loaded lock note =
      if not (same_stage loaded.stage awaiting_final_approval)
      then err wrong_stage
      else if is_blank note
      then err empty_note
      else if leb max_final_revisions loaded.final_revisions
      then err (cap_reached max_final_revisions)
      else elim (revision_transition loaded synthesis) [
        | err fault ↦ err (refused fault)
        | ok next ↦ under_lock self now lock (
            write_final (record { decision = revise; note = note; approved_by = "user" })
            ∷ save_state next
            ∷ log (final_revision_requested next.final_revisions)
            ∷ [])
      ]

  unfoldable pub planned_writes :
      (self : ℤ) (now : ℕ) (loaded : CaseState) → Option LockFile → Request → Planned
  unfolding approve_framing_writes approve_final_writes framing_revision_writes
      final_revision_writes
  planned_writes self now loaded lock (approve_framing approval) =
      approve_framing_writes self now loaded lock approval
  planned_writes self now loaded lock (approve_final approval) =
      approve_final_writes self now loaded lock approval
  planned_writes self now loaded lock (request_framing_revision edits answers) =
      framing_revision_writes self now loaded lock edits answers
  planned_writes self now loaded lock (request_final_revision note) =
      final_revision_writes self now loaded lock note

  -- The request, with no other process in between.
  unfoldable pub handle : (self : ℤ) (now : ℕ) → Folder → Request → Result ControlError Folder
  unfolding planned_writes apply_all
  handle self now f request = elim (planned_writes self now f.state f.lock request) [
    | err e ↦ err e
    | ok writes ↦ ok (apply_all writes f)
  ]
