-- ===== src/StateMachine/Run/Rule.antt =====
-- A proof rule for the loop: what each round that goes on keeps holds of the state returned.
use agent_advisor.Prelude.{ℕ, zero, suc, ◌≡◌, inl, inr, arith, subst, sym, ◌∙◌}
use agent_advisor.StateMachine.{CaseState}
use agent_advisor.StateMachine.Run.{
  Machine, Settings, Round-cases, round, rounds, finished, failed_with,
}
use agent_advisor.StateMachine.Run.Step.{KeepControl, Advanced, round-next}
use agent_advisor.StateMachine.Run.Finish.{pair_eq}
use agent_advisor.StateMachine.Run.Halt.{round-returned}

pub finished_eq : {s t : CaseState} → finished s ≡ finished t → s ≡ t
finished_eq e = cc

module _ {W : Type 0} (settings : Settings W) (keep : KeepControl settings) (P : CaseState → Type 0)
    (step : (s t : CaseState) → Advanced settings s t → P s → P t) where
  pub rounds_rule :
      (fuel : ℕ) (m : Machine W) (s t : CaseState)
      → P s
      → (rounds settings fuel m s).1 ≡ finished t
      → P t
  unfolding rounds
  rounds_rule zero m s t p e = absurd (ground arith)
  rounds_rule (suc fuel) m s t p e = elim (Round-cases (round settings m s).1) [
    | inl (u, q) ↦
        let (_, same) = round-returned settings m s u q in
        let ends : u ≡ t = finished_eq (rw (q, rounds) at e) in subst P (sym same ∙ ends) p
    | inr (inl (x, q)) ↦ absurd (let bad : failed_with x ≡ finished t = (rw (q, rounds) at e) in cc)
    | inr (inr (u, q)) ↦
        rounds_rule fuel (round settings m s).0 u t
          (step s u (round-next settings keep m s _ u (pair_eq q)) p) (rw (q, rounds) at e)
  ]
