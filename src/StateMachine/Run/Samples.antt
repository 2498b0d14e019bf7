-- ===== src/StateMachine/Run/Samples.antt =====
-- A small set of handlers, and the theorems about the stages and the driver at concrete states.
use agent_advisor.Prelude.{
  ℕ, String, ◌+◌, ◌≤◌, ◌≡◌, ◌≢◌, ◌↔◌, ◌⊎◌, refl, true, false, some, none, arith, List, [], ◌∷◌, any,
  subst, sym, ◌∙◌,
}
use agent_advisor.Prelude.Int.{pos_part}
use agent_advisor.Prelude.Dict.{Dict, lookup}
use agent_advisor.Prelude.Text.{eq_iff, ◌==◌}
use mathlib.Core.Bool.{false≢true}
use agent_advisor.Prelude.{ok}
use agent_advisor.StateMachine.{
  CaseStage, CaseState, StepPlan, StepResult, step_ok, reduce, route, flow_plans, next_by_stage,
  allowed_transitions, revision_transition, same_stage, error, needs_repair, intake, framing,
  awaiting_framing_approval, stop_decision, synthesis, repair, awaiting_final_approval, done,
  failed,
}
use agent_advisor.StateMachine.Reduce.{reduce_total, reduce_effect, reduce_counters}
use agent_advisor.StateMachine.Revision.{FramingRevised, FinalRevised, revision_transition_iff}
use agent_advisor.StateMachine.Run.{
  Machine, Handler, Floats, Settings, rounds, round, finished, out_of_fuel, initial_state,
  checkpoint_state,
}
use agent_advisor.StateMachine.Run.Step.{SameControl, KeepControl}
use agent_advisor.StateMachine.Run.Finish.{rounds_terminate}
use agent_advisor.StateMachine.Run.Halt.{AreTotal, IsHalt, rounds_return}
use agent_advisor.StateMachine.Run.Gates.{IsHeld, rounds-IsHeld}
use agent_advisor.StateMachine.Run.Clock.{checkpoint_times}

-- The world is the time; every handler succeeds and takes a tick, and so does reading the clock.
tick_handler : Handler ℕ
tick_handler m s p = (record m { world = m.world + 1 }, s, ok step_ok)

table : List String → Dict (Handler ℕ)
table [] = []
table (name ∷ names) = (name, tick_handler) ∷ table names

abbrev names : List String
names =
    "intake" ∷ "framing" ∷ "structuring" ∷ "provisional_thesis" ∷ "planning" ∷ "investigation"
    ∷ "evidence_critique" ∷ "assumption_ledger" ∷ "competing_hypotheses"
    ∷ "preliminary_recommendation" ∷ "pre_mortem" ∷ "challenge" ∷ "repair" ∷ "stop_decision"
    ∷ "synthesis" ∷ "review" ∷ []

lookup-table :
    (name : String) (l : List String) (handler : Handler ℕ)
    → lookup name (table l) ≡ some handler
    → tick_handler ≡ handler
unfolding lookup table
lookup-table name [] handler e = cc
lookup-table name (n ∷ l) handler e = ground (arith, lookup-table name l handler)

-- Numbers of microseconds in place of floats, with a set-back clock counted as no time.
abbrev whole : Floats
whole = record { add = λ a b. a + b; total_seconds = λ d. pos_part d }

abbrev sample : Settings ℕ
sample = record {
  handlers = table names;
  until = none;
  max_repair_cycles = 2;
  max_synthesis_retries = 1;
  clock = λ w. (w + 1, w);
  floats = whole;
}

kept : (m : Machine ℕ) (s : CaseState) (p : StepPlan) → SameControl s (tick_handler m s p).1
unfolding tick_handler
kept m s p = record {
  stage = refl;
  repair_cycle = refl;
  synthesis_retries = refl;
  framing_approved = refl;
  final_approved = refl;
  started_at_run = refl;
  elapsed = refl;
}

-- The handler's name in the plan of a stage, "" where there is none.
name_of : CaseStage → String
unfolding flow_plans
name_of stage = elim (flow_plans stage) [
  | none ↦ ""
  | some p ↦ elim p.handler_name [ none ↦ "" | some name ↦ name ]
]

name_of-eq :
    (stage : CaseStage) (p : StepPlan) (name : String)
    → route stage ≡ ok p
    → p.handler_name ≡ some name
    → name_of stage ≡ name
unfolding route name_of
name_of-eq stage p name r e = ground arith

found :
    (stage : CaseStage)
    → name_of stage ≢ ""
    → lookup (name_of stage) (table names) ≡ some tick_handler
unfolding name_of lookup table
found intake h = refl
found awaiting_framing_approval h = absurd (h refl)
found awaiting_final_approval h = absurd (h refl)
found done h = absurd (h refl)
found failed h = absurd (h refl)
found _ h = refl

not_blank : (stage : CaseStage) → (name_of stage == "") ≡ false → name_of stage ≢ ""
not_blank stage h e = false≢true (sym h ∙ (eq_iff (name_of stage) "").1 e)

plan_named :
    (stage : CaseStage) (p : StepPlan) (name : String)
    → route stage ≡ ok p
    → p.handler_name ≡ some name
    → name ≢ ""
unfolding route flow_plans name_of
plan_named intake p name r e blank = not_blank intake refl (name_of-eq intake p name r e ∙ blank)
plan_named awaiting_framing_approval p name r e blank = ground arith
plan_named awaiting_final_approval p name r e blank = ground arith
plan_named done p name r e blank = ground arith
plan_named failed p name r e blank = ground arith
plan_named stage p name r e blank = not_blank stage refl (name_of-eq stage p name r e ∙ blank)

sample-KeepControl : KeepControl sample
sample-KeepControl = record {
  keeps = λ name handler e m s p.
      subst (λ h. SameControl s (h m s p).1) (lookup-table name names handler e) (kept m s p);
}

sample-AreTotal : AreTotal sample
unfolding tick_handler
sample-AreTotal = record {
  present = λ stage p name r e.
      let same = name_of-eq stage p name r e in
      (
        tick_handler,
        subst (λ n. lookup n (table names) ≡ some tick_handler) same
            (found stage (λ blank. plan_named stage p name r e (sym same ∙ blank))),
      );
  returns = λ name handler e m s p.
      subst (λ (h : Handler ℕ). (r : StepResult) × ((h m s p).2 ≡ ok r))
        (lookup-table name names handler e) (step_ok, refl);
}

abbrev fresh : CaseState
fresh = initial_state "case-001" 0

abbrev start : Machine ℕ
start = record { saved = none; world = 1 }

abbrev ran : CaseState
ran = record fresh {
  stage = awaiting_framing_approval;
  elapsed = 2;
  started_at_run = some 4;
  updated_at = 4;
}

-- The case runs through INTAKE and FRAMING and waits at the gate.
rounds-fresh : (rounds sample 27 start fresh).1 ≡ finished ran
unfolding rounds lookup table tick_handler reduce route flow_plans next_by_stage allowed_transitions
    checkpoint_state round
rounds-fresh = refl

rounds_terminate_example : (rounds sample 27 start fresh).1 ≢ out_of_fuel
rounds_terminate_example = rounds_terminate sample sample-KeepControl 27 start fresh (omega arith)

rounds_return_example :
    (m' : Machine ℕ) × (t : CaseState) × (rounds sample 27 start fresh ≡ (m', finished t))
    × IsHalt sample t
rounds_return_example =
    rounds_return sample sample-KeepControl sample-AreTotal 27 start fresh (omega arith)

fresh-IsHeld : IsHeld fresh
fresh-IsHeld = record { framing = λ h. refl; final = λ h e. cc }

rounds-IsHeld_example : IsHeld ran × (ran.framing_approved ≡ false) × (ran.final_approved ≡ false)
rounds-IsHeld_example =
    rounds-IsHeld sample sample-KeepControl 27 start fresh ran fresh-IsHeld rounds-fresh

abbrev resumed : CaseState
resumed = record fresh { started_at_run = some 0 }

abbrev ran_on : CaseState
ran_on = record ran { elapsed = 4 }

-- The run has two checkpoints, and the time up to the first counts too.
resumed_times : checkpoint_times sample 27 start resumed ≡ 2 ∷ 4 ∷ []
unfolding checkpoint_times round lookup table tick_handler reduce route flow_plans next_by_stage
    allowed_transitions checkpoint_state
resumed_times = refl

abbrev stopping : CaseState
stopping = record fresh { stage = stop_decision; repair_cycle = 1 }

abbrev wants_repair : StepResult
wants_repair = record { outcome = needs_repair; error_cause = none }

abbrev repairing : CaseState
repairing = record stopping { stage = repair; repair_cycle = 2 }

reduce-stopping : reduce 2 1 stopping wants_repair ≡ ok repairing
unfolding reduce allowed_transitions
reduce-stopping = refl

reduce_total_example :
    (next : CaseState) × (reduce 2 1 stopping wants_repair ≡ ok next)
    × (any (same_stage next.stage) (allowed_transitions stop_decision) ≡ true)
reduce_total_example = reduce_total 2 1 stopping wants_repair refl

reduce_effect_example :
    ((repairing.stage ≡ failed) ↔ (wants_repair.outcome ≡ error))
    × (repairing.failure_cause ≡ none)
    × (record repairing {
      stage = stop_decision;
      repair_cycle = 1;
      synthesis_retries = 0;
      failure_cause = none;
    }
        ≡ stopping)
reduce_effect_example = reduce_effect 2 1 stopping wants_repair repairing reduce-stopping

reduce_counters_example :
    (repairing.repair_cycle ≤ 2)
    × (repairing.synthesis_retries ≤ 1)
    × (repairing.repair_cycle ≡ 2)
    × (repairing.synthesis_retries ≡ 0)
reduce_counters_example =
    reduce_counters 2 1 stopping wants_repair repairing (omega arith) (omega arith) reduce-stopping

revision_transition_iff_example :
    (revision_transition ran framing ≡ ok (record ran { stage = framing; framing_revisions = 1 }))
    ↔ (((framing ≡ framing)
          × FramingRevised ran (record ran { stage = framing; framing_revisions = 1 }))
        ⊎ ((framing ≡ synthesis)
            × FinalRevised ran (record ran { stage = framing; framing_revisions = 1 })))
revision_transition_iff_example =
    revision_transition_iff ran (record ran { stage = framing; framing_revisions = 1 }) framing
