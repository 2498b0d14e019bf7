-- ===== src/StateMachine/Run/Halt.antt =====
-- A run returns, and where it can halt.
use agent_advisor.Prelude.{
  ℕ, zero, suc, String, ◌<◌, ◌≡◌, ◌⊎◌, inl, inr, true, false, some, none, arith, Bool-cases,
  Option-cases, ◌≢◌,
}
use agent_advisor.Prelude.Dict.{lookup}
use agent_advisor.Prelude.{ok, err, Result-cases}
use agent_advisor.StateMachine.{
  Attempt, CaseStage, CaseState, StepPlan, StepResult, Failure, is_terminal, route, flow_plans,
  step_ok, awaiting_framing_approval, awaiting_final_approval,
}
use agent_advisor.StateMachine.Reduce.{reduce_total}
use agent_advisor.StateMachine.Run.{
  Machine, Handler, Settings, Round-cases, returned, raised, round, rounds, run_plan, after_handler,
  advance_case, is_until, is_approval_granted, finished,
}
use agent_advisor.StateMachine.Run.Step.{KeepControl}
use agent_advisor.StateMachine.Run.Finish.{settled_work, work-round, pair_eq}

-- Every stage's handler is there, and no handler raises.
pub record AreTotal {W : Type 0} (settings : Settings W) : Type 0 where
  pub present :
      (stage : CaseStage) (p : StepPlan) (name : String)
      → route stage ≡ ok p
      → p.handler_name ≡ some name
      → (handler : Handler W) × (lookup name settings.handlers ≡ some handler)
  pub returns :
      (name : String) (handler : Handler W)
      → lookup name settings.handlers ≡ some handler
      → (m : Machine W) (s : CaseState) (p : StepPlan)
      → (result : StepResult) × ((handler m s p).2 ≡ ok result)

-- Where a run may halt: at the end, at the stage asked for, or at a gate that waits for approval.
pub data IsHalt {W : Type 0} (settings : Settings W) (s : CaseState) : Type 0 where
  terminal : is_terminal s.stage ≡ true → IsHalt settings s
  asked : is_until settings s.stage ≡ true → IsHalt settings s
  waits_framing :
      s.stage ≡ awaiting_framing_approval → s.framing_approved ≡ false → IsHalt settings s
  waits_final : s.stage ≡ awaiting_final_approval → s.final_approved ≡ false → IsHalt settings s

module _ {W : Type 0} (settings : Settings W) where
  advance-ne-returned :
      (m : Machine W) (s : CaseState) (result : StepResult) (t : CaseState)
      → (advance_case settings m s result).1 ≢ returned t
  unfolding advance_case
  advance-ne-returned m s result t e = ground arith

  after_handler-ne-returned :
      (out : Machine W × CaseState × Attempt StepResult) (t : CaseState)
      → (after_handler settings out).1 ≢ returned t
  unfolding after_handler
  after_handler-ne-returned (m, s, ok result) t = advance-ne-returned m s result t
  after_handler-ne-returned (m, s, err x) t = λ e. cc

  gate_plan :
      (stage : CaseStage) (p : StepPlan)
      → route stage ≡ ok p
      → p.approval_gate ≡ true
      → (stage ≡ awaiting_framing_approval) ⊎ (stage ≡ awaiting_final_approval)
  unfolding route flow_plans
  gate_plan stage p e g = ground arith

  gate-IsHalt :
      (s : CaseState)
      → (s.stage ≡ awaiting_framing_approval) ⊎ (s.stage ≡ awaiting_final_approval)
      → is_approval_granted s ≡ false
      → IsHalt settings s
  unfolding is_approval_granted
  gate-IsHalt s (inl e) h = waits_framing e (ground arith)
  gate-IsHalt s (inr e) h = waits_final e (ground arith)

  run_plan-returned :
      (m : Machine W) (s : CaseState) (p : StepPlan) (t : CaseState)
      → route s.stage ≡ ok p
      → (run_plan settings m s p).1 ≡ returned t
      → IsHalt settings s × (t ≡ s)
  unfolding run_plan
  run_plan-returned m s p t r e = elim (Bool-cases p.approval_gate) [
    | inl gated ↦ elim (Bool-cases (is_approval_granted s)) [
      | inl granted ↦
          absurd (advance-ne-returned m s step_ok t (rw (gated, granted, run_plan) at e))
      | inr refused ↦ (gate-IsHalt s (gate_plan s.stage p r gated) refused, ground arith)
    ]
    | inr handled ↦ elim (Option-cases p.handler_name) [
      | inl nameless ↦ absurd (ground arith)
      | inr (name, named) ↦ elim (Option-cases (lookup name settings.handlers)) [
        | inl missing ↦ absurd (ground arith)
        | inr (handler, found) ↦ absurd (
            after_handler-ne-returned (handler m s p) t (rw (handled, named, found, run_plan) at e))
      ]
    ]
  ]

  pub round-returned :
      (m : Machine W) (s : CaseState) (t : CaseState)
      → (round settings m s).1 ≡ returned t
      → IsHalt settings s × (t ≡ s)
  unfolding round
  round-returned m s t e = elim (Bool-cases (is_terminal s.stage)) [
    | inl ended ↦ (terminal ended, ground arith)
    | inr live ↦ elim (Bool-cases (is_until settings s.stage)) [
      | inl reached ↦ (asked reached, ground arith)
      | inr further ↦ elim (Result-cases (route s.stage)) [
        | inl (p, r) ↦ run_plan-returned m s p t r (rw (live, further, r, round) at e)
        | inr (x, r) ↦ absurd (ground arith)
      ]
    ]
  ]

  advance-ne-raised :
      (m : Machine W) (s : CaseState) (result : StepResult) (x : Failure)
      → is_terminal s.stage ≡ false
      → (advance_case settings m s result).1 ≢ raised x
  unfolding advance_case
  advance-ne-raised m s result x h =
      let (reduced, q, _) =
        reduce_total settings.max_repair_cycles settings.max_synthesis_retries s result h in
      rw (q, advance_case) (λ e. cc)

  -- Every stage that `route` takes has a gate or the name of a handler.
  route_named :
      (stage : CaseStage) (p : StepPlan)
      → route stage ≡ ok p
      → p.approval_gate ≡ false
      → p.handler_name ≢ none
  unfolding route flow_plans
  route_named stage p e g = ground arith

  route-ne-err : (stage : CaseStage) (x : Failure) → is_terminal stage ≡ false → route stage ≢ err x
  unfolding route flow_plans
  route-ne-err stage x h = ground arith

  run_plan-ne-raised :
      KeepControl settings
      → AreTotal settings
      → (m : Machine W) (s : CaseState) (p : StepPlan) (x : Failure) → is_terminal s.stage ≡ false
      → route s.stage ≡ ok p
      → (run_plan settings m s p).1 ≢ raised x
  unfolding run_plan after_handler
  run_plan-ne-raised keep total m s p x live r e = elim (Bool-cases p.approval_gate) [
    | inl gated ↦ elim (Bool-cases (is_approval_granted s)) [
      | inl granted ↦ advance-ne-raised m s step_ok x live (rw (gated, granted, run_plan) at e)
      | inr refused ↦ ground arith
    ]
    | inr handled ↦ elim (Option-cases p.handler_name) [
      | inl nameless ↦ route_named s.stage p r handled nameless
      | inr (name, named) ↦
          let (handler, found) = total.present s.stage p name r named in
          let (result, q) = total.returns name handler found m s p in
          let same = keep.keeps name handler found m s p in
          advance-ne-raised (handler m s p).0 (handler m s p).1 result x (rw same.stage live)
            (rw (handled, named, found, run_plan, q, after_handler) at e)
    ]
  ]

  round-ne-raised :
      KeepControl settings
      → AreTotal settings
      → (m : Machine W) (s : CaseState) (x : Failure) → (round settings m s).1 ≢ raised x
  unfolding round
  round-ne-raised keep total m s x e = elim (Bool-cases (is_terminal s.stage)) [
    | inl ended ↦ ground arith
    | inr live ↦ elim (Bool-cases (is_until settings s.stage)) [
      | inl reached ↦ ground arith
      | inr further ↦ elim (Result-cases (route s.stage)) [
        | inl (p, r) ↦
            run_plan-ne-raised keep total m s p x live r (rw (live, further, r, round) at e)
        | inr (y, r) ↦ route-ne-err s.stage y live r
      ]
    ]
  ]

  -- With handlers that leave the control fields alone, are all present and do not raise, and with
  -- more fuel than the rounds left, the loop of `run_case` returns a state, and that state is a
  -- terminal one, is at the stage asked for, or stands at an approval gate whose approval is
  -- missing.
  pub rounds_return :
      KeepControl settings
      → AreTotal settings
      → (fuel : ℕ) (m : Machine W) (s : CaseState) → settled_work settings s < fuel
      → (m' : Machine W) × (t : CaseState) × (rounds settings fuel m s ≡ (m', finished t))
        × IsHalt settings t
  unfolding rounds
  rounds_return keep total zero m s h = absurd (omega arith)
  rounds_return keep total (suc fuel) m s h = elim (Round-cases (round settings m s).1) [
    | inl (t, q) ↦
        let (halt, same) = round-returned m s t q in
        ((round settings m s).0, t, rw (q, rounds), rw same halt)
    | inr (inl (x, q)) ↦ absurd (round-ne-raised keep total m s x q)
    | inr (inr (t, q)) ↦
        let less = work-round settings keep m s (round settings m s).0 t (pair_eq q) in
        rw (q, rounds)
          (rounds_return keep total fuel (round settings m s).0 t (omega (arith, less)))
  ]
