-- ===== src/TaskGraph/Samples.antt =====
-- A board of three tasks, and the theorems about the graph on it. The floats are small numbers.
use agent_advisor.Prelude.{
  ℕ, true, none, some, List, [], ◌∷◌, ok, err, ◌≡◌, ◌≢◌, ◌↔◌, inl, inr, refl, sym, subst, String,
  In, arith, if◌then◌else◌,
}
use agent_advisor.Prelude.Dict.{Dict, lookup, insert, mem, unique}
use agent_advisor.Prelude.Sort.{sorted, IsSorted}
use agent_advisor.Prelude.Sort as Sort
use agent_advisor.Prelude.Text.{text_leb, eq_iff}
use agent_advisor.Artifacts.{
  high, researcher, TaskRecord, TaskStatus, planned, active, completed, failed, blocked, cancelled,
  is_settled,
}
use agent_advisor.TaskGraph.{
  GraphState, Board, cycle_error, with_status, transitive_dependents, reconcile_orphans,
  cancel_tasks, mark_failed_and_block_dependents,
}
use agent_advisor.TaskGraph.Reach.{DependsOn, Needs, direct, through, In-transitive_dependents}
use agent_advisor.TaskGraph.Status.{IsFiled, Chosen}
use agent_advisor.TaskGraph.Reconcile.{IsActiveAt, reset, reconcile_orphans_lem}
use agent_advisor.TaskGraph.Cancel.{IsRequested, cancel_tasks_lem}
use agent_advisor.TaskGraph.Fail.{mark_failed_and_block_dependents_lem}
use agent_advisor.TaskGraph.Cycle.{exhausted, add_tasks, merge_edges, candidate_ids, find_cycle}
use agent_advisor.TaskGraph.Cycle.Search.{PathTo}
use agent_advisor.TaskGraph.Cycle.Fuel.{find_cycle_ends}
use agent_advisor.TaskGraph.Cycle.Add.{add_tasks_acyclic, add_tasks_refuses}

abbrev pub task_named : String → TaskStatus → TaskRecord ℕ
task_named id status = record {
  task_id = id;
  role = researcher;
  issue_node_id = none;
  question = "how large is the market";
  materiality = high;
  probability_of_changing_conclusion = 4;
  estimated_cost = 2;
  inputs = "decision_spec" ∷ [];
  status = status;
  priority_score = 50;
}

-- T-2 needs T-1, and T-3 needs T-2.
abbrev pub chain : Dict (List String)
chain = ("T-1", []) ∷ ("T-2", "T-1" ∷ []) ∷ ("T-3", "T-2" ∷ []) ∷ []

abbrev pub graph : GraphState
graph = record { task_ids = "T-1" ∷ "T-2" ∷ "T-3" ∷ []; edges = chain; failed_reasons = [] }

abbrev pub board : Board ℕ ℕ
board = record {
  tasks =
      ("T-1", task_named "T-1" completed)
      ∷ ("T-2", task_named "T-2" planned)
      ∷ ("T-3", task_named "T-3" active)
      ∷ [];
  graph = graph;
  saved = graph;
  trail = [];
  rest = 0;
}

filed_as :
    (k : String) (task t : TaskRecord ℕ) (j : String)
    → ◌≡◌ {A = String × TaskRecord ℕ} (k, task) (j, t)
    → (lookup j board.tasks ≡ some t) × (t.task_id ≡ j)
    → (lookup k board.tasks ≡ some task) × (task.task_id ≡ k)
filed_as k task t j e h =
    subst (λ (p : String × TaskRecord ℕ). (lookup p.0 board.tasks ≡ some p.1) × (p.1.task_id ≡ p.0))
      (sym e) h

pub three :
    (k : String) (task : TaskRecord ℕ)
    → In (k, task) board.tasks
    → (lookup k board.tasks ≡ some task) × (task.task_id ≡ k)
unfolding lookup
three k task (inl e) = filed_as k task (task_named "T-1" completed) "T-1" e (refl, refl)
three k task (inr (inl e)) = filed_as k task (task_named "T-2" planned) "T-2" e (refl, refl)
three k task (inr (inr (inl e))) = filed_as k task (task_named "T-3" active) "T-3" e (refl, refl)
three k task (inr (inr (inr i))) = absurd i

pub board-IsFiled : IsFiled board
unfolding lookup
board-IsFiled k task e = ground (arith, eq_iff "T-1" k, eq_iff "T-2" k, eq_iff "T-3" k)

pub all_there :
    (k : String)
    → In k ("T-1" ∷ "T-2" ∷ "T-3" ∷ [])
    → (task : TaskRecord ℕ) × (lookup k board.tasks ≡ some task)
unfolding lookup
all_there k (inl e) = (task_named "T-1" completed, rw e)
all_there k (inr (inl e)) = (task_named "T-2" planned, rw e)
all_there k (inr (inr (inl e))) = (task_named "T-3" active, rw e)
all_there k (inr (inr (inr i))) = absurd i

In-transitive_dependents_example :
    In "T-3" (transitive_dependents chain "T-1") ↔ Needs chain "T-1" "T-3"
In-transitive_dependents_example = In-transitive_dependents chain "T-1" "T-3"

reconcile_orphans_lem_example :
    (after : Board ℕ ℕ) × (ids : List String) × (reconcile_orphans board ≡ ok (after, ids))
    × ((k : String) → lookup k after.tasks ≡ reset (lookup k board.tasks))
    × ((k : String) → In k ids ↔ IsActiveAt board.tasks k)
    × (after ≡ record board { tasks = after.tasks; trail = after.trail })
reconcile_orphans_lem_example = reconcile_orphans_lem board three

find_cycle_ends_example : find_cycle chain ("T-1" ∷ "T-2" ∷ "T-3" ∷ []) ≢ exhausted
find_cycle_ends_example = find_cycle_ends chain ("T-1" ∷ "T-2" ∷ "T-3" ∷ [])

abbrev new_task : List (TaskRecord ℕ)
new_task = task_named "T-4" planned ∷ []

abbrev new_edge : Dict (List String)
new_edge = ("T-4", "T-3" ∷ []) ∷ []

added : (after : Board ℕ ℕ) × (add_tasks new_task new_edge board ≡ ok after)
unfolding add_tasks sorted Sort.insert unique mem lookup insert text_leb
added = (_, refl)

has_four : In "T-4" added.0.graph.task_ids
unfolding added add_tasks sorted Sort.insert unique mem lookup insert text_leb
has_four = inr (inr (inr (inl refl)))

add_tasks_acyclic_example : ¬ PathTo added.0.graph.edges "T-4" "T-4"
add_tasks_acyclic_example = add_tasks_acyclic new_task new_edge board added.0 added.1 "T-4" has_four

abbrev closing_edge : Dict (List String)
closing_edge = ("T-1", "T-3" ∷ []) ∷ []

refused :
    add_tasks [] closing_edge board ≡ err (cycle_error ("T-1" ∷ "T-3" ∷ "T-2" ∷ "T-1" ∷ []), board)
unfolding add_tasks sorted Sort.insert unique mem lookup insert text_leb
refused = refl

add_tasks_refuses_example :
    (board ≡ board)
    × ((edges : Dict (List String)) × (merge_edges board board.graph.edges closing_edge
            (candidate_ids [] board)
          ≡ ok edges)
        × ((a : String) × PathTo edges a a))
add_tasks_refuses_example =
    add_tasks_refuses [] closing_edge board ("T-1" ∷ "T-3" ∷ "T-2" ∷ "T-1" ∷ []) board refused

depends_there :
    (k c : String)
    → DependsOn chain k c
    → (task : TaskRecord ℕ) × (lookup k board.tasks ≡ some task)
depends_there k c (inl h) = all_there k (inl h.0)
depends_there k c (inr (inl h)) = all_there k (inr (inl h.0))
depends_there k c (inr (inr (inl h))) = all_there k (inr (inr (inl h.0)))
depends_there k c (inr (inr (inr h))) = absurd h

needed_there :
    (t k : String) → Needs chain t k → (task : TaskRecord ℕ) × (lookup k board.tasks ≡ some task)
needed_there t k (direct h) = depends_there k t h
needed_there t k (through {c = c} n h) = depends_there k c h

requested_there :
    (k : String)
    → IsRequested chain true ("T-1" ∷ []) k
    → (task : TaskRecord ℕ) × (lookup k board.tasks ≡ some task)
requested_there k (inl (inl e)) = all_there k (inl e)
requested_there k (inl (inr i)) = absurd i
requested_there k (inr (_, (t, i, n))) = needed_there t k n

-- Cancelling T-1 and what needs it leaves T-1, which is completed.
cancel_tasks_lem_example :
    (after : Board ℕ ℕ) × (ids : List String) × (cancel_tasks ("T-1" ∷ []) true none board
      ≡ ok (after, ids))
    × ((k : String)
        → In k ids
          ↔ (IsRequested chain true ("T-1" ∷ []) k × Chosen is_settled (lookup k board.tasks)))
    × ((k : String) (task : TaskRecord ℕ)
        → lookup k board.tasks ≡ some task
        → In k ids
        → lookup k after.tasks ≡ some (with_status task cancelled))
    × ((k : String) → ¬ In k ids → lookup k after.tasks ≡ lookup k board.tasks)
    × (after ≡ record board { tasks = after.tasks; trail = after.trail })
cancel_tasks_lem_example =
    cancel_tasks_lem board ("T-1" ∷ []) true none board-IsFiled requested_there

two_found : lookup "T-2" board.tasks ≡ some (task_named "T-2" planned)
unfolding lookup
two_found = refl

mark_failed_and_block_dependents_lem_example :
    (after : Board ℕ ℕ) × (ids : List String) × (mark_failed_and_block_dependents "T-2" "timeout"
        board
      ≡ ok (after, ids))
    × ((k : String) → In k ids ↔ Needs chain "T-2" k)
    × (¬ Needs chain "T-2" "T-2"
        → lookup "T-2" after.tasks ≡ some (with_status (task_named "T-2" planned) failed))
    × ((k : String) (other : TaskRecord ℕ)
        → k ≢ "T-2"
        → lookup k board.tasks ≡ some other
        → Needs chain "T-2" k
        → lookup k after.tasks
          ≡ (if is_settled other.status then some other else some (with_status other blocked)))
    × ((k : String)
        → k ≢ "T-2"
        → ¬ Needs chain "T-2" k
        → lookup k after.tasks ≡ lookup k board.tasks)
    × (after.saved ≡ after.graph)
mark_failed_and_block_dependents_lem_example =
    mark_failed_and_block_dependents_lem board "T-2" "timeout" (task_named "T-2" planned)
      board-IsFiled two_found (λ k n. needed_there "T-2" k n)
