-- ===== src/Budget/Samples.antt =====
-- The ledger and the stop evaluator at concrete inputs.
use agent_advisor.Prelude.{
  ◌+◌, ◌<◌, ◌≡◌, ◌↔◌, refl, String, true, false, none, some, [], ◌∷◌, arith, if◌then◌else◌,
}
use agent_advisor.Prelude.Int.{pos, negsuc}
use agent_advisor.Prelude.Dict.{lookup, mem}
use agent_advisor.Prelude.Sort.{sorted}
use agent_advisor.Prelude.Text.{text_leb}
use agent_advisor.Budget.{
  BudgetConfig, BudgetKind, agent_invocations, BudgetLedger, text, cap, count, try_consume,
  parse_kind, kinds_of,
}
use agent_advisor.Budget.Ledger.{IsWithin, times, serve, serve-IsWithin, try_consume_exact}
use agent_advisor.Budget.Stop.{
  StopEvaluatorInputs, DisclosureRecord, evaluate, continue, unique_from, deadline_reached,
  investigation_budget_exhausted, user_deadline_or_depth_limit_reached,
}
use agent_advisor.Budget.Stop.Decision.{IsExhausted, spent, evaluate_stops, evaluate-none}

abbrev small : BudgetConfig
small = record {
  max_agent_invocations = 3;
  max_concurrent_workers = 1;
  max_repair_cycles = 1;
  max_research_tasks = 5;
  max_high_tier_calls = 1;
  max_wall_clock_s = 60;
}

abbrev ledger : BudgetLedger
ledger = record {
  counters = ("agent_invocations", 1) ∷ [];
  config = small;
  model_tier_map = ("frontier", text "high") ∷ [];
}

ledger-IsWithin : IsWithin small ledger.counters
unfolding count lookup
ledger-IsWithin agent_invocations = omega arith
ledger-IsWithin _ = omega arith

serve-IsWithin_example :
    IsWithin small
      (serve ledger (
        ("agent_invocations", some "frontier")
        ∷ ("agent_invocations", some "frontier")
        ∷ [])).0.counters
serve-IsWithin_example =
    serve-IsWithin ledger
      (("agent_invocations", some "frontier") ∷ ("agent_invocations", some "frontier") ∷ [])
      ledger-IsWithin

parse_invocations : parse_kind "agent_invocations" ≡ some agent_invocations
unfolding parse_kind
parse_invocations = refl

try_consume_exact_example :
    (((try_consume ledger "agent_invocations" (some "frontier")).1 ≡ true) ↔ (
      (j : BudgetKind)
      → 0 < times j (kinds_of ledger agent_invocations (some "frontier"))
      → count ledger.counters j < cap small j))
    × ((j : BudgetKind)
        → count (try_consume ledger "agent_invocations" (some "frontier")).0.counters j
          ≡ count ledger.counters j
            + (if (try_consume ledger "agent_invocations" (some "frontier")).1
                then times j (kinds_of ledger agent_invocations (some "frontier"))
                else 0))
try_consume_exact_example =
    try_consume_exact ledger "agent_invocations" (some "frontier") agent_invocations
      parse_invocations

abbrev inputs : StopEvaluatorInputs
inputs = record {
  open_critical_evidence_gaps = true;
  unresolved_material_objections = true;
  recommendation_stable = false;
  expected_value_of_more_research_low = false;
  remaining_budget =
      ("wall_clock_s", pos 0) ∷ ("research_tasks", pos 4) ∷ ("agent_invocations", negsuc 1) ∷ [];
  deadline = some 10;
  depth_limit_reached = false;
}

abbrev disclosed : DisclosureRecord
disclosed = record {
  stop_reasons = investigation_budget_exhausted ∷ user_deadline_or_depth_limit_reached ∷ [];
  exhausted_dimensions = "agent_invocations" ∷ "wall_clock_s" ∷ "deadline" ∷ [];
}

evaluate-inputs : (evaluate 12 inputs).disclosure ≡ some disclosed
unfolding evaluate unique_from sorted text_leb mem
evaluate-inputs = refl

evaluate_stops_example : ((evaluate 12 inputs).action ≡ continue) ↔ (
    (inputs.open_critical_evidence_gaps ≡ true)
    × (inputs.recommendation_stable ≡ false)
    × (inputs.unresolved_material_objections ≡ true)
    × (inputs.expected_value_of_more_research_low ≡ false)
    × (spent inputs ≡ [])
    × (deadline_reached (some 10) 12 ≡ false)
    × (inputs.depth_limit_reached ≡ false))
evaluate_stops_example = evaluate_stops 12 inputs

evaluate-none_example :
    ((evaluate 12 inputs).disclosure ≡ none) ↔ ((d : String) → ¬ IsExhausted 12 inputs d)
evaluate-none_example = evaluate-none 12 inputs
