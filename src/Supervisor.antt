-- ===== src/Supervisor.antt =====
-- orchestrator/supervisor.py: the lock file that keeps a case to one worker.
-- What `os.kill(pid, 0)` answers is an argument. A file that is no JSON object has neither field.
pub mod Acquire
pub mod Exclusive
pub mod Race
mod Samples
use agent_advisor.Prelude.{
  ℕ, ◌-◌, Bool, true, false, ◌&&◌, not, Option, none, some, List, [], ◌∷◌, Result, ok, err, leb,
  String, if◌then◌else◌, any, map, filter,
}
use agent_advisor.Prelude.Int.{ℤ, pos, negsuc, sub_ℕ}
use agent_advisor.Prelude.Sort.{sorted}
use agent_advisor.Prelude.Text.{text_leb}
use agent_advisor.StateMachine.{
  CaseStage, CaseState, same_stage, intake, framing, awaiting_framing_approval, structuring,
  provisional_thesis, planning, investigation, evidence_critique, assumption_ledger,
  competing_hypotheses, preliminary_recommendation, pre_mortem, challenge, repair, stop_decision,
  synthesis, review, awaiting_final_approval,
}

pub record LockFile : Type 0 where
  pub pid : Option ℤ
  pub started_at : Option ℕ

-- The outcomes of `os.kill(pid, 0)`.
pub data Probe : Type 0 where
  reached no_process no_permission os_error : Probe

-- CaseLocked, with the holder's pid and the age of the lock.
pub record CaseLocked : Type 0 where
  pub holder_pid : ℤ
  pub age : ℤ

abbrev positive : ℤ → Bool
positive (pos n) = not (leb n 0)
positive (negsuc n) = false

abbrev answers : Probe → Bool
answers reached = true
answers no_process = false
answers no_permission = true
answers os_error = false

abbrev pub exists : Option LockFile → Bool
exists none = false
exists (some file) = true

unfoldable pub holder_pid : Option LockFile → Option ℤ
holder_pid none = none
holder_pid (some file) = file.pid

-- The clock is read only where the file has a start time.
unfoldable pub age_s : ℕ → Option LockFile → ℤ
age_s now none = pos 0
age_s now (some file) = elim file.started_at [ none ↦ pos 0 | some started ↦ sub_ℕ now started ]

-- `lock.holder_pid() or -1`
unfoldable pub pid_or_minus_one : Option LockFile → ℤ
unfolding holder_pid
pid_or_minus_one file = elim (holder_pid file) [
  | none ↦ negsuc 0
  | some (pos n) ↦ if leb n 0 then negsuc 0 else pos n
  | some (negsuc n) ↦ negsuc n
]

abbrev pub release : Option LockFile → Option LockFile
release file = none

-- An entry of the cases folder: a folder or not, its state file if it loads, and its lock.
pub record Entry : Type 0 where
  pub name : String
  pub is_dir : Bool
  pub state : Option CaseState
  pub lock : Option LockFile

-- ACTIVE_STAGES
abbrev pub active_stages : List CaseStage
active_stages =
    intake ∷ framing ∷ awaiting_framing_approval ∷ structuring ∷ provisional_thesis ∷ planning
    ∷ investigation ∷ evidence_critique ∷ assumption_ledger ∷ competing_hypotheses
    ∷ preliminary_recommendation ∷ pre_mortem ∷ challenge ∷ repair ∷ stop_decision ∷ synthesis
    ∷ review ∷ awaiting_final_approval ∷ []

module _ (kill : ℤ → Probe) where
  unfoldable pub pid_alive : ℤ → Bool
  pid_alive pid = if positive pid then answers (kill pid) else false

  unfoldable pub is_stale : Option LockFile → Bool
  unfolding pid_alive holder_pid
  is_stale file =
      if not (exists file)
      then false
      else elim (holder_pid file) [ none ↦ true | some pid ↦ not (pid_alive pid) ]

  unfoldable pub is_held : Option LockFile → Bool
  unfolding is_stale
  is_held file = exists file && not (is_stale file)

  -- `acquire` by the process `self`, with no other process in between. Then the file is gone when
  -- it is created, so `FileExistsError` does not come up; `Race` has the steps one by one.
  unfoldable pub acquire :
      (self : ℤ) (now : ℕ) → Option LockFile → Result CaseLocked (Option LockFile)
  unfolding is_held pid_or_minus_one age_s
  acquire self now file =
      if is_held file
      then err (record { holder_pid = pid_or_minus_one file; age = age_s now file })
      else ok (some (record { pid = some self; started_at = some now }))

  -- How the kill of the process group ends: the group is gone, or was signalled.
  -- `stop` waits for the process to die for at most five seconds, and then removes the file anyway.
  unfoldable pub stop : (group_found : Bool) → Option LockFile → Option LockFile × Bool
  unfolding holder_pid pid_alive
  stop group_found file = elim (holder_pid file) [
    | none ↦ (release file, false)
    | some pid ↦ if pid_alive pid then (release file, group_found) else (release file, false)
  ]

  -- The body of the loop of `interrupted_cases`: whether the entry's name goes to the result.
  unfoldable pub is_interrupted : Entry → Bool
  unfolding is_stale
  is_interrupted entry = entry.is_dir && elim entry.state [
    | none ↦ false
    | some state ↦ any (same_stage state.stage) active_stages && is_stale entry.lock
  ]

  unfoldable pub interrupted_cases : List Entry → List String
  unfolding is_interrupted
  interrupted_cases entries =
      map (λ e. e.name) (filter is_interrupted (sorted (λ a b. text_leb a.name b.name) entries))
