-- ===== src/StateMachine/Run/Finish.antt =====
-- `run_case` ends: how many rounds are left, and where a run can halt.
use agent_advisor.Prelude.{ℕ, zero, suc, ◌+◌, ◌-◌, ◌*◌, ◌<◌, ◌≡◌, inl, inr, arith, ◌≢◌, subst, sym}
use agent_advisor.Prelude.{ok}
use agent_advisor.StateMachine.{
  CaseStage, CaseState, StepResult, reduce, next_by_stage, intake, framing,
  awaiting_framing_approval, structuring, provisional_thesis, planning, investigation,
  evidence_critique, assumption_ledger, competing_hypotheses, preliminary_recommendation,
  pre_mortem, challenge, repair, stop_decision, synthesis, review, awaiting_final_approval, done,
  failed,
}
use agent_advisor.StateMachine.Run.{
  Machine, Settings, Round-cases, next, round, rounds, out_of_fuel,
}
use agent_advisor.StateMachine.Run.Step.{KeepControl, round-next}

-- The most rounds that a case can still take, with `c` repair cycles and `t` synthesis retries left.
abbrev pub rounds_left : CaseStage → (c t : ℕ) → ℕ
rounds_left intake c t = 17 + 2 * t + 3 * c
rounds_left framing c t = 16 + 2 * t + 3 * c
rounds_left awaiting_framing_approval c t = 15 + 2 * t + 3 * c
rounds_left structuring c t = 14 + 2 * t + 3 * c
rounds_left provisional_thesis c t = 13 + 2 * t + 3 * c
rounds_left planning c t = 12 + 2 * t + 3 * c
rounds_left investigation c t = 11 + 2 * t + 3 * c
rounds_left evidence_critique c t = 10 + 2 * t + 3 * c
rounds_left assumption_ledger c t = 9 + 2 * t + 3 * c
rounds_left competing_hypotheses c t = 8 + 2 * t + 3 * c
rounds_left preliminary_recommendation c t = 7 + 2 * t + 3 * c
rounds_left pre_mortem c t = 6 + 2 * t + 3 * c
rounds_left repair c t = 6 + 2 * t + 3 * c
rounds_left challenge c t = 5 + 2 * t + 3 * c
rounds_left stop_decision c t = 4 + 2 * t + 3 * c
rounds_left synthesis c t = 3 + 2 * t
rounds_left review c t = 2 + 2 * t
rounds_left awaiting_final_approval c t = 1
rounds_left done c t = 0
rounds_left failed c t = 0

abbrev pub work : (max_repair_cycles max_synthesis_retries : ℕ) → CaseState → ℕ
work max_repair_cycles max_synthesis_retries s =
    rounds_left s.stage (max_repair_cycles - s.repair_cycle)
      (max_synthesis_retries - s.synthesis_retries)

work-reduce :
    (c t : ℕ) (s : CaseState) (result : StepResult) (reduced : CaseState)
    → reduce c t s result ≡ ok reduced
    → work c t reduced < work c t s
unfolding reduce next_by_stage
work-reduce c t s result reduced e = ground arith

pub pair_eq : {A B : Type 0} {p : A × B} {b : B} → p.1 ≡ b → p ≡ (p.0, b)
pair_eq {p = p} e = λ i. (p.0, e i)

module _ {W : Type 0} (settings : Settings W) where
  abbrev pub settled_work : CaseState → ℕ
  settled_work = work settings.max_repair_cycles settings.max_synthesis_retries

  pub work-round :
      KeepControl settings
      → (m : Machine W) (s : CaseState) (m' : Machine W) (t : CaseState)
      → round settings m s ≡ (m', next t)
      → settled_work t < settled_work s
  work-round keep m s m' t e =
      let a = round-next settings keep m s m' t e in
      let open_same = a.same in
      let less =
        rw (open_same.stage, open_same.repair_cycle, open_same.synthesis_retries) at
          (work-reduce settings.max_repair_cycles settings.max_synthesis_retries a.before a.result
            a.reduced a.reduces) in
      subst (λ x. settled_work x < settled_work s) (sym a.checkpointed) less

  -- With handlers that leave the control fields alone, and whatever else they do, the loop of
  -- `run_case` does not run out of fuel when the fuel is more than the rounds left: it returns a
  -- state or raises.
  pub rounds_terminate :
      KeepControl settings
      → (fuel : ℕ) (m : Machine W) (s : CaseState) → settled_work s < fuel
      → (rounds settings fuel m s).1 ≢ out_of_fuel
  unfolding rounds
  rounds_terminate keep zero m s h = absurd (omega arith)
  rounds_terminate keep (suc fuel) m s h = elim (Round-cases (round settings m s).1) [
    | inl (t, q) ↦ rw (q, rounds) (λ e. cc)
    | inr (inl (x, q)) ↦ rw (q, rounds) (λ e. cc)
    | inr (inr (t, q)) ↦
        let less = work-round keep m s (round settings m s).0 t (pair_eq q) in
        rw (q, rounds) (rounds_terminate keep fuel (round settings m s).0 t (omega (arith, less)))
  ]
