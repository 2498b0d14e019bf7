-- ===== src/Budget.antt =====
-- orchestrator/budget.py: the ceilings of a case, the ledger that counts against them, and the
-- evaluator that decides whether the investigation stops.
pub mod Stop
pub mod Ledger
mod Samples
use agent_advisor.Prelude.{
  ℕ, ◌+◌, String, Bool, true, false, ◌&&◌, Option, none, some, List, [], ◌∷◌, ltb, if◌then◌else◌,
}
use agent_advisor.Prelude.Dict.{Dict, lookup, insert, get_or}
use agent_advisor.Prelude.Text.{◌==◌}

pub record BudgetConfig : Type 0 where
  pub max_agent_invocations : ℕ
  pub max_concurrent_workers : ℕ
  pub max_repair_cycles : ℕ
  pub max_research_tasks : ℕ
  pub max_high_tier_calls : ℕ
  pub max_wall_clock_s : ℕ

pub data BudgetKind : Type 0 where
  agent_invocations concurrent_workers repair_cycles research_tasks : BudgetKind
  high_tier_calls wall_clock_s : BudgetKind

-- kind.value
abbrev pub value : BudgetKind → String
value agent_invocations = "agent_invocations"
value concurrent_workers = "concurrent_workers"
value repair_cycles = "repair_cycles"
value research_tasks = "research_tasks"
value high_tier_calls = "high_tier_calls"
value wall_clock_s = "wall_clock_s"

-- BudgetKind(kind), `none` for the `ValueError`
unfoldable pub parse_kind : String → Option BudgetKind
parse_kind kind =
    if kind == "agent_invocations"
    then some agent_invocations
    else if kind == "concurrent_workers"
    then some concurrent_workers
    else if kind == "repair_cycles"
    then some repair_cycles
    else if kind == "research_tasks"
    then some research_tasks
    else if kind == "high_tier_calls"
    then some high_tier_calls
    else if kind == "wall_clock_s"
    then some wall_clock_s
    else none

pub data ModelTier : Type 0 where
  low medium high : ModelTier

-- A tier is given as the enum or as its text.
pub data TierName : Type 0 where
  tier : ModelTier → TierName
  text : String → TierName

unfoldable pub is_high : TierName → Bool
is_high (tier high) = true
is_high (tier _) = false
is_high (text name) = name == "high"

-- `_KIND_TO_CAP_ATTR` and `getattr`
abbrev pub cap : BudgetConfig → BudgetKind → ℕ
cap config agent_invocations = config.max_agent_invocations
cap config concurrent_workers = config.max_concurrent_workers
cap config repair_cycles = config.max_repair_cycles
cap config research_tasks = config.max_research_tasks
cap config high_tier_calls = config.max_high_tier_calls
cap config wall_clock_s = config.max_wall_clock_s

-- The counters are the dictionary of the case state itself, which the ledger changes in place.
pub record BudgetLedger : Type 0 where
  pub counters : Dict ℕ
  pub config : BudgetConfig
  pub model_tier_map : Dict TierName

-- counters.get(kind.value, 0)
unfoldable pub count : Dict ℕ → BudgetKind → ℕ
count counters kind = get_or counters (value kind) 0

unfoldable pub can_consume_all : BudgetConfig → Dict ℕ → List BudgetKind → Bool
can_consume_all config counters [] = true
can_consume_all config counters (kind ∷ kinds) =
    ltb (count counters kind) (cap config kind) && can_consume_all config counters kinds

unfoldable pub increment_all : Dict ℕ → List BudgetKind → Dict ℕ
increment_all counters [] = counters
increment_all counters (kind ∷ kinds) =
    increment_all (insert (value kind) (count counters kind + 1) counters) kinds

unfoldable pub is_high_tier_model : BudgetLedger → String → Bool
unfolding is_high
is_high_tier_model ledger model = elim (lookup model ledger.model_tier_map) [
  | none ↦ false
  | some name ↦ is_high name
]

unfoldable pub counts_against_high_tier : BudgetLedger → String → Option TierName → Bool
unfolding is_high
counts_against_high_tier ledger model role_tier =
    if is_high_tier_model ledger model
    then true
    else elim role_tier [ none ↦ false | some name ↦ is_high name ]

-- A call of a high-tier model counts as an invocation and as a high-tier call.
unfoldable pub kinds_of : BudgetLedger → BudgetKind → Option String → List BudgetKind
kinds_of ledger agent_invocations (some model) =
    if is_high_tier_model ledger model
    then agent_invocations ∷ high_tier_calls ∷ []
    else agent_invocations ∷ []
kinds_of ledger kind _ = kind ∷ []

unfoldable pub has_capacity : BudgetLedger → String → Bool
has_capacity ledger kind = elim (parse_kind kind) [
  | none ↦ false
  | some k ↦ can_consume_all ledger.config ledger.counters (k ∷ [])
]

unfoldable pub consume : BudgetLedger → List BudgetKind → BudgetLedger × Bool
consume ledger kinds =
    if can_consume_all ledger.config ledger.counters kinds
    then (record ledger { counters = increment_all ledger.counters kinds }, true)
    else (ledger, false)

unfoldable pub try_consume : BudgetLedger → String → Option String → BudgetLedger × Bool
unfolding consume
try_consume ledger kind model = elim (parse_kind kind) [
  | none ↦ (ledger, false)
  | some k ↦ consume ledger (kinds_of ledger k model)
]
