-- ===== src/Control/Resume.antt =====
-- orchestrator/control.py: resume, pause and case_status, on the lock file and the task board.
use agent_advisor.Prelude.{
  ℕ, suc, Bool, true, false, ◌||◌, Option, none, some, List, [], ◌∷◌, ◌++◌, Result, ok, err, ◌≡◌,
  ◌⊎◌, inl, inr, refl, arith, String, if◌then◌else◌, Bool-cases,
}
use agent_advisor.Prelude.Int.{ℤ}
use agent_advisor.Prelude.Dict.{lookup}
use agent_advisor.StateMachine.{
  CaseStage, CaseState, same_stage, done, failed, awaiting_framing_approval,
  awaiting_final_approval,
}
use agent_advisor.Supervisor.{
  LockFile, Probe, CaseLocked, is_stale, is_held, release, pid_or_minus_one, age_s, stop,
}
use agent_advisor.Artifacts.{is_active, TaskRecord}
use agent_advisor.TaskGraph.{Board, Fault, reconcile_orphans}
use agent_advisor.TaskGraph.Reconcile.{IsStored, reset, reconcile_orphans_lem}

pub data Event : Type 0 where
  resume_reconciled : List String → Event
  run_started run_stopped : Event

-- A case's folder with its task board.
pub record Site (F W : Type 0) : Type 0 where
  pub state : CaseState
  pub lock : Option LockFile
  pub board : Board F W
  pub trail : List Event
  pub workers_started : ℕ

pub data ResumeError : Type 0 where
  terminal_stage : CaseStage → ResumeError
  case_locked : CaseLocked → ResumeError
  task_fault : Fault → ResumeError

-- The audit line is written only if a task was reset.
abbrev pub reconciled : List String → List Event
reconciled [] = []
reconciled (id ∷ ids) = resume_reconciled (id ∷ ids) ∷ []

pub data Gate : Type 0 where
  framing_gate final_gate : Gate

-- _awaiting
unfoldable pub awaiting : CaseState → Option Gate
awaiting state =
    if same_stage state.stage awaiting_framing_approval
    then some framing_gate
    else if same_stage state.stage awaiting_final_approval
    then some final_gate
    else none

-- ControlStatus
pub record Status : Type 0 where
  pub stage : CaseStage
  pub awaiting_approval : Option Gate
  pub worker_running : Bool

reset-active :
    {F : Type 0} (entry : Option (TaskRecord F)) (task : TaskRecord F)
    → reset entry ≡ some task
    → is_active task.status ≡ false
reset-active none task e = absurd (ground arith)
reset-active (some old) task e = ground arith

module _ (kill : ℤ → Probe) {F W : Type 0} where
  unfoldable pub case_status : Site F W → Status
  unfolding awaiting
  case_status s = record {
    stage = s.state.stage;
    awaiting_approval = awaiting s.state;
    worker_running = is_held kill s.lock;
  }

  -- An error leaves behind what was done before it.
  unfoldable pub resume : (now : ℕ) → Site F W → Result (ResumeError × Site F W) (Site F W)
  resume now s =
      if same_stage s.state.stage done || same_stage s.state.stage failed
      then err (terminal_stage s.state.stage, s)
      else let reclaimed = record s {
        lock = if is_stale kill s.lock then release s.lock else s.lock;
      } in
        if is_held kill reclaimed.lock
        then err (
          case_locked (record {
            holder_pid = pid_or_minus_one reclaimed.lock;
            age = age_s now reclaimed.lock;
          }),
          reclaimed,
        )
        else elim (reconcile_orphans reclaimed.board) [
          | err (fault, board) ↦ err (task_fault fault, record reclaimed { board = board })
          | ok (board, ids) ↦ ok (record reclaimed {
            board = board;
            trail = (s.trail ++ reconciled ids) ++ run_started ∷ [];
            workers_started = suc s.workers_started;
          })
        ]

  -- `group_found` is whether the worker's process group was there to be signalled.
  unfoldable pub pause : (group_found : Bool) → Site F W → Site F W
  unfolding stop
  pause group_found s = record s {
    lock = (stop kill group_found s.lock).0;
    trail = s.trail ++ run_stopped ∷ [];
  }

  -- On a case that is not DONE or FAILED, with every task file found under its task's id, `resume`
  -- refuses with the folder untouched when a live process holds the lock; otherwise it returns with
  -- the lock gone, the state as it was, one more worker started, every ACTIVE task PLANNED again,
  -- and no task ACTIVE.
  pub resume_lem :
      (now : ℕ) (s : Site F W)
      → same_stage s.state.stage done ≡ false
      → same_stage s.state.stage failed ≡ false
      → IsStored s.board.tasks
      → ((is_held kill s.lock ≡ true)
          × ((e : CaseLocked) × (resume now s ≡ err (case_locked e, s))))
        ⊎ ((is_held kill s.lock ≡ false)
            × ((after : Site F W) × (resume now s ≡ ok after)
                × (after.lock ≡ none)
                × (after.state ≡ s.state)
                × (after.workers_started ≡ suc s.workers_started)
                × ((k : String) → lookup k after.board.tasks ≡ reset (lookup k s.board.tasks))
                × ((k : String) (task : TaskRecord F)
                    → lookup k after.board.tasks ≡ some task
                    → is_active task.status ≡ false)))
  unfolding resume is_held is_stale
  resume_lem now s not_done not_failed stored =
      let (board, ids, e, entries, _, _) = reconcile_orphans_lem s.board stored in
      elim (Bool-cases (is_held kill s.lock)) [
        | inl held ↦ inl (
          held,
          (record { holder_pid = pid_or_minus_one s.lock; age = age_s now s.lock }, ground arith),
        )
        | inr free ↦ inr (
          free,
          (
            record s {
              lock = none;
              board = board;
              trail = (s.trail ++ reconciled ids) ++ run_started ∷ [];
              workers_started = suc s.workers_started;
            },
            ground arith,
            refl,
            refl,
            refl,
            entries,
            λ k task found. reset-active (lookup k s.board.tasks) task (ground (arith, entries k)),
          ),
        )
      ]
