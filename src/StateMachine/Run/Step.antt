-- ===== src/StateMachine/Run/Step.antt =====
-- What one round of the loop does, for handlers that leave the control fields of the state alone.
use agent_advisor.Prelude.{
  ℕ, String, ◌≡◌, refl, inl, inr, true, false, some, arith, Bool-cases, Option-cases, ◌≢◌,
}
use agent_advisor.Prelude.Dict.{lookup}
use agent_advisor.Prelude.{ok, err, Result-cases}
use agent_advisor.StateMachine.{
  Attempt, CaseStage, CaseState, StepPlan, StepResult, route, reduce, flow_plans, step_ok,
  awaiting_framing_approval, awaiting_final_approval,
}
use agent_advisor.StateMachine.Run.{
  Machine, Handler, Settings, next, round, run_plan, after_handler, advance_case, checkpoint_state,
  is_approval_granted, elapsed_at,
}

-- The fields that only `reduce`, the checkpoint and the control layer set.
pub record SameControl (s t : CaseState) : Type 0 where
  pub stage : t.stage ≡ s.stage
  pub repair_cycle : t.repair_cycle ≡ s.repair_cycle
  pub synthesis_retries : t.synthesis_retries ≡ s.synthesis_retries
  pub framing_approved : t.framing_approved ≡ s.framing_approved
  pub final_approved : t.final_approved ≡ s.final_approved
  pub started_at_run : t.started_at_run ≡ s.started_at_run
  pub elapsed : t.elapsed ≡ s.elapsed

-- No handler changes a control field of the state object that it is given.
pub record KeepControl {W : Type 0} (settings : Settings W) : Type 0 where
  pub keeps :
      (name : String) (handler : Handler W)
      → lookup name settings.handlers ≡ some handler
      → (m : Machine W) (s : CaseState) (p : StepPlan) → SameControl s (handler m s p).1

-- A round that goes on: the state that was reduced, with the result, and the time of the checkpoint.
pub record Advanced {W : Type 0} (settings : Settings W) (s t : CaseState) : Type 0 where
  pub before : CaseState
  pub same : SameControl s before
  pub result : StepResult
  pub reduced : CaseState
  pub reduces :
      reduce settings.max_repair_cycles settings.max_synthesis_retries before result ≡ ok reduced
  pub now : ℕ
  pub checkpointed : t ≡ record reduced {
    updated_at = now;
    elapsed = elapsed_at settings.floats reduced now;
    started_at_run = some now;
  }
  pub passed :
      (s.stage ≡ awaiting_framing_approval → s.framing_approved ≡ true)
      × (s.stage ≡ awaiting_final_approval → s.final_approved ≡ true)

module _ {W : Type 0} (settings : Settings W) where
  advance_case-next :
      (m : Machine W) (s : CaseState) (result : StepResult) (m' : Machine W) (t : CaseState)
      → advance_case settings m s result ≡ (m', next t)
      → (reduced : CaseState) × (now : ℕ) × (reduce settings.max_repair_cycles
            settings.max_synthesis_retries s result
          ≡ ok reduced)
        × (t ≡ record reduced {
          updated_at = now;
          elapsed = elapsed_at settings.floats reduced now;
          started_at_run = some now;
        })
  unfolding advance_case checkpoint_state
  advance_case-next m s result m' t e =
      elim (Result-cases
        (reduce settings.max_repair_cycles settings.max_synthesis_retries s result)) [
          | inl (reduced, q) ↦ (reduced, (settings.clock m.world).1, q, ground arith)
          | inr (x, q) ↦ absurd (ground arith)
        ]

  module _ (keep : KeepControl settings) where
    after_handler-next :
        (s : CaseState) (out : Machine W × CaseState × Attempt StepResult) (m' : Machine W)
        (t : CaseState)
        → SameControl s out.1
        → (s.stage ≡ awaiting_framing_approval → s.framing_approved ≡ true)
          × (s.stage ≡ awaiting_final_approval → s.final_approved ≡ true)
        → after_handler settings out ≡ (m', next t)
        → Advanced settings s t
    unfolding after_handler
    after_handler-next s (m, before, err x) m' t same pass e = absurd (ground arith)
    after_handler-next s (m, before, ok result) m' t same pass e =
        let (reduced, now, reduces, checkpointed) = advance_case-next m before result m' t e in
        record {
          before = before;
          same = same;
          result = result;
          reduced = reduced;
          reduces = reduces;
          now = now;
          checkpointed = checkpointed;
          passed = pass;
        }

    route-gate :
        (stage : CaseStage) (p : StepPlan)
        → route stage ≡ ok p
        → p.approval_gate ≡ false
        → (stage ≢ awaiting_framing_approval) × (stage ≢ awaiting_final_approval)
    unfolding route flow_plans
    route-gate stage p e g = ground arith

    SameControl-refl : {s : CaseState} → SameControl s s
    SameControl-refl = record {
      stage = refl;
      repair_cycle = refl;
      synthesis_retries = refl;
      framing_approved = refl;
      final_approved = refl;
      started_at_run = refl;
      elapsed = refl;
    }

    granted_pass :
        (s : CaseState)
        → is_approval_granted s ≡ true
        → (s.stage ≡ awaiting_framing_approval → s.framing_approved ≡ true)
          × (s.stage ≡ awaiting_final_approval → s.final_approved ≡ true)
    unfolding is_approval_granted
    granted_pass s h = (λ e. ground arith, λ e. ground arith)

    run_plan-next :
        (m : Machine W) (s : CaseState) (p : StepPlan) (m' : Machine W) (t : CaseState)
        → route s.stage ≡ ok p
        → run_plan settings m s p ≡ (m', next t)
        → Advanced settings s t
    unfolding run_plan
    run_plan-next m s p m' t r e = elim (Bool-cases p.approval_gate) [
      | inl gated ↦ elim (Bool-cases (is_approval_granted s)) [
        | inl granted ↦
            after_handler-next s (m, s, ok step_ok) m' t SameControl-refl (granted_pass s granted)
              (rw (gated, granted, run_plan) at e)
        | inr refused ↦ absurd (ground arith)
      ]
      | inr open_stage ↦ elim (Option-cases p.handler_name) [
        | inl nameless ↦ absurd (ground arith)
        | inr (name, named) ↦ elim (Option-cases (lookup name settings.handlers)) [
          | inl missing ↦ absurd (ground arith)
          | inr (handler, found) ↦
              let (not_framing, not_final) = route-gate s.stage p r open_stage in
              after_handler-next s (handler m s p) m' t (keep.keeps name handler found m s p)
                (λ x. absurd (not_framing x), λ x. absurd (not_final x))
                (rw (open_stage, named, found, run_plan) at e)
        ]
      ]
    ]

    -- A round that goes on has reduced a state with the same control fields, and has passed an
    -- approval gate only with the approval.
    pub round-next :
        (m : Machine W) (s : CaseState) (m' : Machine W) (t : CaseState)
        → round settings m s ≡ (m', next t)
        → Advanced settings s t
    unfolding round
    round-next m s m' t e = elim (Result-cases (route s.stage)) [
      | inl (p, r) ↦ run_plan-next m s p m' t r (ground arith)
      | inr (x, r) ↦ absurd (ground arith)
    ]
