-- ===== src/TaskGraph/Cycle.antt =====
-- orchestrator/task_graph.py: the search for a cycle, and `add_tasks`.
pub mod Search
pub mod Fuel
pub mod Add
use agent_advisor.Prelude.{
  ℕ, zero, suc, ◌+◌, Bool, true, false, not, Option, none, some, List, [], ◌∷◌, ◌++◌, Result, ok,
  err, ◌>>=◌, String, if◌then◌else◌, filter, map, length,
}
use mathlib.Core.List.{reverse}
use agent_advisor.Prelude.Dict.{Dict, insert, get_or, mem, sorted_set}
use agent_advisor.Prelude.Text.{◌==◌}
use agent_advisor.Artifacts.{TaskRecord}
use agent_advisor.TaskGraph.{
  Board, GraphState, Attempt, Fault, unknown_task, unknown_dependency, cycle_error, write_task,
  save_graph,
}

-- What a search comes to: a cycle, or the nodes visited so far; `exhausted` is for want of fuel.
pub data Outcome : Type 0 where
  cycle : List String → Outcome
  clean : List String → Outcome
  exhausted : Outcome

-- path[path.index(dependency):] + [dependency], where `path` is kept last node first
up_to : String → List String → List String
up_to d [] = []
up_to d (x ∷ xs) = let rest = up_to d xs in if x == d then x ∷ [] else x ∷ rest

unfoldable pub cycle_through : String → List String → List String
unfolding up_to
cycle_through d path = reverse (up_to d path) ++ d ∷ []

-- The loop over the dependencies of the last node of `path`; `search` is the call of `dfs`. The set
-- `active` holds the nodes of `path`.
unfoldable pub explore :
    (search : String → List String → Outcome) (path deps visited : List String) → Outcome
unfolding cycle_through
explore search path [] visited = clean visited
explore search path (d ∷ deps) visited =
    let on = λ (v : List String). explore search path deps v in
    if not (mem d visited)
    then elim (search d visited) [ cycle c ↦ cycle c | clean v ↦ on v | exhausted ↦ exhausted ]
    else if mem d path
    then cycle (cycle_through d path)
    else on visited

unfoldable pub dfs :
    ℕ → Dict (List String) → (path : List String) → String → (visited : List String) → Outcome
unfolding explore
dfs zero edges path node visited = exhausted
dfs (suc fuel) edges path node visited =
    explore (dfs fuel edges (node ∷ path)) (node ∷ path) (get_or edges node []) (node ∷ visited)

unfoldable pub search_all : ℕ → Dict (List String) → (nodes visited : List String) → Outcome
unfolding dfs
search_all fuel edges [] visited = clean visited
search_all fuel edges (node ∷ nodes) visited =
    let on = λ (v : List String). search_all fuel edges nodes v in
    if mem node visited then on visited else elim (dfs fuel edges [] node visited) [
      | cycle c ↦ cycle c
      | clean v ↦ on v
      | exhausted ↦ exhausted
    ]

-- A path of the search holds different nodes, each with an entry of its own or the last one.
unfoldable pub find_cycle : Dict (List String) → List String → Outcome
unfolding search_all
find_cycle edges node_ids = search_all (suc (suc (length edges))) edges (sorted_set node_ids) []

base_edges : Dict (List String) → List String → Dict (List String) → Dict (List String)
base_edges base [] merged = merged
base_edges base (task_id ∷ task_ids) merged =
    base_edges base task_ids (insert task_id (sorted_set (get_or base task_id [])) merged)

module _ {F W : Type 0} (b : Board F W) where
  add_edges :
      (known_ids : List String) (new_edges merged : Dict (List String))
      → Attempt F W (Dict (List String))
  add_edges known_ids [] merged = ok merged
  add_edges known_ids ((task_id, deps) ∷ new_edges) merged =
      let missing = sorted_set (filter (λ dep_id. not (mem dep_id known_ids)) deps) in
      let rest = add_edges known_ids new_edges (insert task_id (sorted_set deps) merged) in
      if not (mem task_id known_ids)
      then err (unknown_task task_id, b)
      else elim missing [ [] ↦ rest | d ∷ ds ↦ err (unknown_dependency task_id (d ∷ ds), b) ]

  unfoldable pub merge_edges :
      (base new_edges : Dict (List String)) (known_ids : List String)
      → Attempt F W (Dict (List String))
  unfolding base_edges add_edges
  merge_edges base new_edges known_ids =
      add_edges known_ids new_edges (base_edges base (sorted_set known_ids) [])

-- The pairs of an edge list, grouped by task.
unfoldable pub normalize_pairs : List (String × String) → Dict (List String) → Dict (List String)
normalize_pairs [] d = d
normalize_pairs ((task_id, dependency) ∷ edges) d =
    normalize_pairs edges (insert task_id (get_or d task_id [] ++ dependency ∷ []) d)

module _ {F : Type 0} where
  records_by_id : List (TaskRecord F) → Dict (TaskRecord F) → Dict (TaskRecord F)
  records_by_id [] d = d
  records_by_id (task ∷ tasks) d = records_by_id tasks (insert task.task_id task d)

module _ {F W : Type 0} where
  write_tasks : Dict (TaskRecord F) → Board F W → Board F W
  write_tasks [] b = b
  write_tasks ((_, task) ∷ tasks) b = write_tasks tasks (write_task b task)

  -- current_ids | set(new_records_by_id.keys())
  unfoldable pub candidate_ids : List (TaskRecord F) → Board F W → List String
  unfolding records_by_id
  candidate_ids records b = b.graph.task_ids ++ map (λ e. e.0) (records_by_id records [])

  unfoldable pub add_tasks :
      List (TaskRecord F) → Dict (List String) → Board F W → Attempt F W (Board F W)
  unfolding records_by_id candidate_ids write_tasks merge_edges find_cycle save_graph
  add_tasks records new_edges b =
      let ids = candidate_ids records b in
      merge_edges b b.graph.edges new_edges ids >>= λ edges. elim (find_cycle edges ids) [
        | clean _ ↦
            let written = write_tasks (records_by_id records []) b in
            ok (
              save_graph (record written {
                graph = record {
                  task_ids = sorted_set ids;
                  edges = edges;
                  failed_reasons = b.graph.failed_reasons;
                };
              }))
        | cycle c ↦ err (cycle_error c, b)
        | exhausted ↦ err (cycle_error [], b)
      ]
