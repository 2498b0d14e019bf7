-- ===== src/StateMachine/Run.antt =====
-- orchestrator/state_machine.py: the file `state.yaml`, the checkpoint, and `run_case`.
-- What the handlers and the clock depend on and change is the type `W`: the case's artifacts, the
-- backend and the time. The file `state.yaml` is its last written content; writing a state and
-- loading it again gives the state.
pub mod Step
pub mod Finish
pub mod Halt
pub mod Rule
pub mod Gates
pub mod Clock
mod Samples
use agent_advisor.Prelude.{
  ℕ, zero, suc, String, Bool, true, false, Option, none, some, if◌then◌else◌, List, [], ◌≡◌, refl,
  ◌⊎◌, inl, inr,
}
use agent_advisor.Prelude.Int.{ℤ, sub_ℕ}
use agent_advisor.Prelude.Dict.{Dict, lookup}
use agent_advisor.Prelude.{ok, err}
use agent_advisor.StateMachine.{
  Attempt, CaseStage, CaseState, StepPlan, StepResult, step_ok, Failure, missing_handler,
  missing_handler_name, intake, awaiting_framing_approval, awaiting_final_approval, same_stage,
  is_terminal, route, reduce,
}

pub record Machine (W : Type 0) : Type 0 where
  pub saved : Option CaseState
  pub world : W

-- A handler is given the state object, which it may change in place (the ledger counts in
-- `budget_counters`, the review handler sets `review_accepted`): it returns that object with its
-- result. It may also save a state, and it may raise.
abbrev pub Handler : Type 0 → Type 0
Handler W = Machine W → CaseState → StepPlan → Machine W × CaseState × Attempt StepResult

-- The clock is read from the world and moves it.
abbrev pub Clock : Type 0 → Type 0
Clock W = W → W × ℕ

-- `case.root.name` is the name of the case's folder.
abbrev pub initial_state : String → ℕ → CaseState
initial_state name now = record {
  case_id = name;
  stage = intake;
  repair_cycle = 0;
  synthesis_retries = 0;
  framing_revisions = 0;
  final_revisions = 0;
  budget_counters = [];
  started_at_run = none;
  elapsed = 0;
  framing_approved = false;
  final_approved = false;
  review_accepted = none;
  failure_cause = none;
  created_at = now;
  updated_at = now;
}

unfoldable pub is_approval_granted : CaseState → Bool
is_approval_granted state =
    if same_stage state.stage awaiting_framing_approval
    then state.framing_approved
    else if same_stage state.stage awaiting_final_approval
    then state.final_approved
    else false

-- Python's floats, by their bits: `+`, and `total_seconds` of a difference of two datetimes, which is
-- given in microseconds.
pub record Floats : Type 0 where
  pub add : ℕ → ℕ → ℕ
  pub total_seconds : ℤ → ℕ

-- The elapsed time grows by the time since the last checkpoint of the run, if there is one.
unfoldable pub elapsed_at : Floats → CaseState → ℕ → ℕ
elapsed_at floats state now = elim state.started_at_run [
  | none ↦ state.elapsed
  | some started ↦ floats.add state.elapsed (floats.total_seconds (sub_ℕ now started))
]

module _ {W : Type 0} where
  abbrev pub save_case_state : Machine W → CaseState → Machine W
  save_case_state m state = record m { saved = some state }

  unfoldable pub load_case_state : Clock W → String → Machine W → Machine W × CaseState
  load_case_state clock name m = elim m.saved [
    | some state ↦ (m, state)
    | none ↦ let (w, now) = clock m.world in (record m { world = w }, initial_state name now)
  ]

  unfoldable pub checkpoint_state : Floats → Clock W → Machine W → CaseState → Machine W × CaseState
  unfolding elapsed_at
  checkpoint_state floats clock m state =
      let (w, now) = clock m.world in
      let checkpointed = record state {
        updated_at = now;
        elapsed = elapsed_at floats state now;
        started_at_run = some now;
      } in
      (save_case_state (record m { world = w }) checkpointed, checkpointed)

-- One round of the loop returns the state, raises, or goes on with a state.
pub data Round : Type 0 where
  returned next : CaseState → Round
  raised : Failure → Round

pub Round-cases :
    (r : Round)
    → ((s : CaseState) × (r ≡ returned s))
      ⊎ ((e : Failure) × (r ≡ raised e))
      ⊎ ((s : CaseState) × (r ≡ next s))
Round-cases (returned s) = inl (s, refl)
Round-cases (raised e) = inr (inl (e, refl))
Round-cases (next s) = inr (inr (s, refl))

pub data Outcome : Type 0 where
  finished : CaseState → Outcome
  failed_with : Failure → Outcome
  out_of_fuel : Outcome

pub record Settings (W : Type 0) : Type 0 where
  pub handlers : Dict (Handler W)
  pub until : Option CaseStage
  pub max_repair_cycles : ℕ
  pub max_synthesis_retries : ℕ
  pub clock : Clock W
  pub floats : Floats

module _ {W : Type 0} (settings : Settings W) where
  open settings use {handlers, until, max_repair_cycles, max_synthesis_retries, clock, floats}

  -- until is not None and state.stage is until
  unfoldable pub is_until : CaseStage → Bool
  is_until stage = elim until [ none ↦ false | some target ↦ same_stage stage target ]

  -- The end of a round: `reduce`, then the checkpoint.
  unfoldable pub advance_case : Machine W → CaseState → StepResult → Machine W × Round
  advance_case m state result = elim (reduce max_repair_cycles max_synthesis_retries state result) [
    | err e ↦ (m, raised e)
    | ok reduced ↦
        let (m', checkpointed) = checkpoint_state floats clock m reduced in (m', next checkpointed)
  ]

  -- The handler ran on the state, and left the machine, the state object and its result.
  unfoldable pub after_handler : Machine W × CaseState × Attempt StepResult → Machine W × Round
  unfolding advance_case
  after_handler (m, state, ok result) = advance_case m state result
  after_handler (m, state, err e) = (m, raised e)

  unfoldable pub run_plan : Machine W → CaseState → StepPlan → Machine W × Round
  unfolding is_approval_granted advance_case after_handler
  run_plan m state plan =
      if plan.approval_gate
      then (if is_approval_granted state then advance_case m state step_ok else (m, returned state))
      else elim plan.handler_name [
        | none ↦ (m, raised (missing_handler_name plan.stage))
        | some name ↦ elim (lookup name handlers) [
          | none ↦ (m, raised (missing_handler name))
          | some handler ↦ after_handler (handler m state plan)
        ]
      ]

  unfoldable pub round : Machine W → CaseState → Machine W × Round
  unfolding is_until run_plan
  round m state =
      if is_terminal state.stage
      then (m, returned state)
      else if is_until state.stage
      then (m, returned state)
      else elim (route state.stage) [ err e ↦ (m, raised e) | ok plan ↦ run_plan m state plan ]

  -- `while True`, on fuel.
  unfoldable pub rounds : ℕ → Machine W → CaseState → Machine W × Outcome
  rounds zero m state = (m, out_of_fuel)
  rounds (suc fuel) m state =
      let (m', r) = round m state in
      elim r [
        | returned s ↦ (m', finished s)
        | raised e ↦ (m', failed_with e)
        | next s ↦ rounds fuel m' s
      ]

  -- `run_case`: the state given, or the one on disk.
  unfoldable pub run_case : ℕ → String → Option CaseState → Machine W → Machine W × Outcome
  unfolding load_case_state
  run_case fuel name (some state) m = rounds fuel m state
  run_case fuel name none m = let (m', state) = load_case_state clock name m in rounds fuel m' state
