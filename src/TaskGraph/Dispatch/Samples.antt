-- ===== src/TaskGraph/Dispatch/Samples.antt =====
-- The theorems about `ready` and `dispatch` on the board of three tasks. The floats are small numbers.
use agent_advisor.Prelude.{
  ℕ, ◌+◌, ◌-◌, ◌*◌, ◌/◌, ltb, Bool, true, false, some, List, [], ◌∷◌, ◌++◌, ok, ◌≡◌, ◌↔◌, ◌⊎◌, refl,
  In, arith, ◌==◌ as eq_num,
}
use agent_advisor.Prelude.Dict.{lookup, insert, mem}
use agent_advisor.Prelude.Sort.{sorted, IsSorted}
use agent_advisor.Prelude.Sort as Sort
use agent_advisor.Prelude.Text.{text_leb}
use agent_advisor.Artifacts.{Level, high, medium, low, TaskRecord, active}
use agent_advisor.TaskGraph.{with_status}
use agent_advisor.TaskGraph.Ready.{Floats, ready, key_leb}
use agent_advisor.TaskGraph.Ready.Laws.{IsFloatOrder, CanStart, ready_lem}
use agent_advisor.TaskGraph.Dispatch.{
  DispatchSettings, Dispatch, fills, none_yet, then_move, fill_once,
}
use agent_advisor.TaskGraph.Dispatch.Account.{IsAccounted, Moves-IsAccounted}
use agent_advisor.TaskGraph.Dispatch.Starts.{IsNext, fill_once_starts}
use agent_advisor.TaskGraph.Samples.{board, board-IsFiled, all_there}

small : Floats ℕ
small = record {
  times = λ a b. a * b;
  divided_by = λ a b. a / b;
  minus = λ a. 1000 - a;
  lt = ltb;
  eq = eq_num;
}

small-IsFloatOrder : IsFloatOrder small
unfolding small
small-IsFloatOrder = record {
  compared = λ a b. ground arith;
  eq_sym = λ a b h. ground arith;
  eq_trans = λ a b c h k. ground arith;
  lt_trans = λ a b c h k. ground arith;
  lt_ne = λ a b h. ground arith;
  lt_eq = λ a b c h k. ground arith;
  eq_lt = λ a b c h k. ground arith;
}

weight : Level → ℕ
weight high = 3
weight medium = 2
weight low = 1

ready_lem_example :
    (tasks : List (TaskRecord ℕ)) × (ready small weight board ≡ ok tasks)
    × ((task : TaskRecord ℕ) → In task tasks ↔ CanStart board task)
    × IsSorted (key_leb small weight) tasks
ready_lem_example = ready_lem small weight small-IsFloatOrder board board-IsFiled all_there

-- The ledger has room for a number of calls.
abbrev take_one : ℕ → ℕ × Bool
take_one n = (n - 1, ltb 0 n)

abbrev two_at_once : DispatchSettings ℕ ℕ ℕ ℕ
two_at_once = record {
  floats = small;
  materiality_weights = weight;
  enforce_marginal_value_gate = true;
  try_consume = take_one;
  persist = λ task_id result rest. rest + result;
  max_concurrent = 2;
}

abbrev at_start : Dispatch ℕ ℕ ℕ
at_start = record {
  board = board;
  ledger = 5;
  in_flight = [];
  started = [];
  completed_ids = [];
  failed_ids = [];
  blocked_ids = [];
  marginal_value_refused = [];
  budget_refused = false;
}

first_fill : (d : Dispatch ℕ ℕ ℕ) × (fill_once two_at_once at_start ≡ ok (d, true))
unfolding fill_once sorted Sort.insert lookup insert mem text_leb small weight
first_fill = (_, refl)

fill_once_starts_example :
    (first_fill.0.started ≡ [])
    ⊎ ((task : TaskRecord ℕ) × IsNext two_at_once small-IsFloatOrder at_start task
        × (first_fill.0.started ≡ [] ++ task.task_id ∷ [])
        × (lookup task.task_id first_fill.0.board.tasks ≡ some (with_status task active)))
fill_once_starts_example =
    fill_once_starts two_at_once small-IsFloatOrder at_start first_fill.0 true board-IsFiled
      all_there first_fill.1

at_start-IsAccounted : IsAccounted two_at_once at_start
at_start-IsAccounted = record { few = omega arith; each = λ k. omega arith }

Moves-IsAccounted_example : IsAccounted two_at_once first_fill.0
Moves-IsAccounted_example =
    Moves-IsAccounted two_at_once at_start first_fill.0
      (then_move none_yet (fills true first_fill.1)) at_start-IsAccounted
