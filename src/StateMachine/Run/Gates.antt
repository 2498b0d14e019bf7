-- ===== src/StateMachine/Run/Gates.antt =====
-- The two approval gates, along whole runs.
use agent_advisor.Prelude.{
  ℕ, ◌≡◌, ◌≢◌, true, false, Bool, not, ◌&&◌, arith, ltb, subst, sym, refl, ◌∙◌,
}
use agent_advisor.Prelude.{ok}
use agent_advisor.StateMachine.{
  CaseStage, CaseState, StepResult, reduce, index, same_stage, awaiting_framing_approval,
  awaiting_final_approval, done, failed, next_by_stage,
}
use agent_advisor.StateMachine.Run.{Machine, Settings, rounds, finished}
use agent_advisor.StateMachine.Run.Step.{KeepControl, Advanced}
use agent_advisor.StateMachine.Run.Rule.{rounds_rule}

-- STRUCTURING or a later stage of the pipeline: the stages behind the framing gate.
abbrev pub past_framing : CaseStage → Bool
past_framing stage =
    ltb (index awaiting_framing_approval) (index stage) && not (same_stage stage failed)

-- A state that no run should reach: behind a gate whose approval was not given.
pub record IsHeld (s : CaseState) : Type 0 where
  pub framing : s.framing_approved ≡ false → past_framing s.stage ≡ false
  pub final : s.final_approved ≡ false → s.stage ≢ done

reduce-IsHeld :
    (c t : ℕ) (s reduced : CaseState) (result : StepResult)
    → (s.stage ≡ awaiting_framing_approval → s.framing_approved ≡ true)
      × (s.stage ≡ awaiting_final_approval → s.final_approved ≡ true)
    → IsHeld s
    → reduce c t s result ≡ ok reduced
    → IsHeld reduced
unfolding reduce next_by_stage
reduce-IsHeld c t s reduced result pass held e = ground arith

reduce-approvals :
    (c t : ℕ) (s reduced : CaseState) (result : StepResult)
    → reduce c t s result ≡ ok reduced
    → (reduced.framing_approved ≡ s.framing_approved) × (reduced.final_approved ≡ s.final_approved)
unfolding reduce
reduce-approvals c t s reduced result e = ground arith

module _ {W : Type 0} (settings : Settings W) (keep : KeepControl settings) where
  -- What a run keeps: the two flags, and the gates.
  record Guarded (s t : CaseState) : Type 0 where
    framing : t.framing_approved ≡ s.framing_approved
    final : t.final_approved ≡ s.final_approved
    held : IsHeld t

  Guarded-step : (s t u : CaseState) → Advanced settings t u → Guarded s t → Guarded s u
  Guarded-step s t u a g =
      let same = a.same in
      let (framing_flag, final_flag) =
        reduce-approvals settings.max_repair_cycles settings.max_synthesis_retries a.before
          a.reduced a.result a.reduces in
      let held : IsHeld a.before = record {
        framing = ground (arith, g.held);
        final = ground (arith, g.held);
      } in
      let kept =
        reduce-IsHeld settings.max_repair_cycles settings.max_synthesis_retries a.before a.reduced
          a.result (rw (same.stage, same.framing_approved, same.final_approved) a.passed) held
          a.reduces in
      subst (Guarded s) (sym a.checkpointed) (record {
        framing = framing_flag ∙ same.framing_approved ∙ g.framing;
        final = final_flag ∙ same.final_approved ∙ g.final;
        held = record { framing = kept.framing; final = kept.final };
      })

  -- A run never passes an approval gate by itself. From a state that is not past an unapproved
  -- gate, with handlers that leave the control fields alone, a state that the loop returns is not
  -- past one either, and both approval flags are as they were: a case whose framing is not approved
  -- stays out of STRUCTURING and all later stages, and one not finally approved is not DONE.
  pub rounds-IsHeld :
      (fuel : ℕ) (m : Machine W) (s t : CaseState)
      → IsHeld s
      → (rounds settings fuel m s).1 ≡ finished t
      → IsHeld t × (t.framing_approved ≡ s.framing_approved) × (t.final_approved ≡ s.final_approved)
  rounds-IsHeld fuel m s t h e =
      let g =
        rounds_rule settings keep (Guarded s) (Guarded-step s) fuel m s t
          (record { framing = refl; final = refl; held = h }) e in
      (g.held, g.framing, g.final)
