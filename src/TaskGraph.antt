-- ===== src/TaskGraph.antt =====
-- orchestrator/task_graph.py: the tasks of a case, the edges between them, and what is done to them.
-- A method that holds the lock is one step. `F` is the type of floats; `W` is what a case holds beside
-- its task records and its graph, which only the artifacts of a worker's result change.
pub mod Reach
pub mod Status
pub mod Reconcile
pub mod Cancel
pub mod Fail
pub mod Ready
pub mod Cycle
pub mod Dispatch
pub mod Samples
use agent_advisor.Prelude.{
  ℕ, zero, suc, Bool, true, false, ◌&&◌, not, Option, none, some, List, [], ◌∷◌, ◌++◌, Result, ok,
  err, ◌>>=◌, String, if◌then◌else◌, all, map, filter, length, ◌+◌,
}
use agent_advisor.Prelude.Dict.{Dict, lookup, insert, erase, get_or, mem, unique, sorted_set}
use agent_advisor.Prelude.Sort.{sorted}
use agent_advisor.Prelude.Text.{text_leb, ◌==◌}
use agent_advisor.Artifacts.{
  Level, TaskRecord, TaskStatus, planned, active, completed, failed, blocked, cancelled, is_planned,
  is_active, is_completed, is_settled,
}

-- _TaskGraphState
pub record GraphState : Type 0 where
  pub task_ids : List String
  pub edges : Dict (List String)
  pub failed_reasons : Dict String

-- The events of `_audit_unlocked`, with the payloads that the graph itself puts in.
pub data AuditEvent : Type 0 where
  task_marginal_value_refused task_budget_refused task_started task_completed : String → AuditEvent
  task_failed : (task_id error : String) (blocked_dependents : List String) → AuditEvent
  task_reset_on_resume : List String → AuditEvent
  tasks_cancelled : (task_ids : List String) (reason : Option String) → AuditEvent

pub data Fault : Type 0 where
  file_not_found : String → Fault
  unknown_task : String → Fault
  unknown_dependency : (task_id : String) (missing : List String) → Fault
  cycle_error : List String → Fault

-- The task files, the graph in memory, the graph's file, the audit log, the rest of the case.
pub record Board (F : Type 0) (W : Type 0) : Type 0 where
  pub tasks : Dict (TaskRecord F)
  pub graph : GraphState
  pub saved : GraphState
  pub trail : List AuditEvent
  pub rest : W

-- An exception leaves behind what was written before it.
abbrev pub Attempt : (F W A : Type 0) → Type 0
Attempt F W A = Result (Fault × Board F W) A

-- model_copy(update={"status": status})
abbrev pub with_status : {F : Type 0} → TaskRecord F → TaskStatus → TaskRecord F
with_status task status = record task { status = status }

module _ {F W : Type 0} where
  unfoldable pub read_task : Board F W → String → Attempt F W (TaskRecord F)
  read_task b task_id = elim (lookup task_id b.tasks) [
    | none ↦ err (file_not_found task_id, b)
    | some task ↦ ok task
  ]

  unfoldable pub write_task : Board F W → TaskRecord F → Board F W
  write_task b task = record b { tasks = insert task.task_id task b.tasks }

  abbrev pub audit : Board F W → AuditEvent → Board F W
  audit b event = record b { trail = b.trail ++ event ∷ [] }

  -- The event is written only if `ids` is not empty.
  abbrev pub audit_if : List String → AuditEvent → Board F W → Board F W
  audit_if [] event b = b
  audit_if (_ ∷ _) event b = audit b event

  unfoldable pub set_task_status : Board F W → String → TaskStatus → Attempt F W (Board F W)
  unfolding read_task write_task
  set_task_status b task_id status = do
    task ← read_task b task_id
    ok (write_task b (with_status task status))

-- The entries that `_save_graph_unlocked` keeps, each with its dependencies sorted.
unfoldable pub normalized : List String → Dict (List String) → Dict (List String)
unfolding sorted_set
normalized task_ids [] = []
normalized task_ids ((task_id, deps) ∷ edges) =
    let rest = normalized task_ids edges in
    elim deps [
      | [] ↦ if mem task_id task_ids then (task_id, []) ∷ rest else rest
      | d ∷ ds ↦ (task_id, sorted_set (d ∷ ds)) ∷ rest
    ]

unfoldable pub normal_form : GraphState → GraphState
unfolding normalized sorted_set
normal_form g = record {
  task_ids = sorted_set g.task_ids;
  edges = normalized g.task_ids g.edges;
  failed_reasons = sorted (λ a b. text_leb a.0 b.0) g.failed_reasons;
}

module _ {F W : Type 0} where
  unfoldable pub save_graph : Board F W → Board F W
  unfolding normal_form
  save_graph b = record b { graph = normal_form b.graph; saved = normal_form b.graph }

-- reverse_edges[current]: the nodes with an edge to `current`
unfoldable pub dependents_of : Dict (List String) → String → List String
dependents_of [] current = []
dependents_of ((node_id, deps) ∷ edges) current =
    let rest = dependents_of edges current in if mem current deps then node_id ∷ rest else rest

-- The inner loop: the dependents that were not visited go to `visited` and to the stack.
unfoldable pub visit : (dependents visited stack : List String) → List String × List String
visit [] visited stack = (visited, stack)
visit (d ∷ ds) visited stack =
    let seen = mem d visited in
    visit ds (if seen then visited else d ∷ visited) (if seen then stack else d ∷ stack)

unfoldable pub traverse :
    ℕ → Dict (List String) → (stack visited : List String) → Option (List String)
unfolding dependents_of visit
traverse fuel edges [] visited = some visited
traverse zero edges (current ∷ stack) visited = none
traverse (suc fuel) edges (current ∷ stack) visited =
    let (visited', stack') = visit (dependents_of edges current) visited stack in
    traverse fuel edges stack' visited'

-- Each key of the edges goes to the stack at most once.
unfoldable pub transitive_dependents : Dict (List String) → String → List String
unfolding traverse
transitive_dependents edges task_id = elim (traverse (suc (length edges)) edges (task_id ∷ []) []) [
  | none ↦ []
  | some visited ↦ visited
]

transitive_dependents_of : Dict (List String) → List String → List String
transitive_dependents_of edges [] = []
transitive_dependents_of edges (x ∷ xs) =
    transitive_dependents edges x ++ transitive_dependents_of edges xs

-- The tasks that `cancel_tasks` looks at.
unfoldable pub requested :
    Dict (List String) → (include_dependents : Bool) → List String → List String
unfolding transitive_dependents_of
requested edges include_dependents task_ids =
    if include_dependents then task_ids ++ transitive_dependents_of edges task_ids else task_ids

module _ {F W : Type 0} where
  -- The loop that gives the tasks a status, one after the other. Those that `skip` holds of are left
  -- as they are; the result lists the others.
  unfoldable pub set_each :
      (TaskStatus → Bool)
      → TaskStatus
      → List String
      → Board F W
      → Attempt F W (Board F W × List String)
  unfolding read_task write_task
  set_each skip status [] b = ok (b, [])
  set_each skip status (task_id ∷ task_ids) b =
      let rest = λ (b' : Board F W). set_each skip status task_ids b' in
      read_task b task_id >>= λ task.
      if skip task.status
      then rest b
      else rest (write_task b (with_status task status)) >>= λ (last, changed).
          ok (last, task_id ∷ changed)

  unfoldable pub reconcile_orphans : Board F W → Attempt F W (Board F W × List String)
  unfolding set_each
  reconcile_orphans b =
      let active_ids = map (λ e. e.1.task_id) (filter (λ e. is_active e.1.status) b.tasks) in
      do
        (after, _) ← set_each (λ _. false) planned active_ids b
        let event = task_reset_on_resume (sorted text_leb active_ids)
        ok (audit_if active_ids event after, sorted text_leb active_ids)

  -- `ids` is the set of the tasks to cancel, in order.
  unfoldable pub cancel_all :
      Option String → List String → Board F W → Attempt F W (Board F W × List String)
  unfolding set_each
  cancel_all reason ids b = do
    (after, cancelled_ids) ← set_each is_settled cancelled ids b
    let event = tasks_cancelled (sorted text_leb cancelled_ids) reason
    ok (audit_if cancelled_ids event after, cancelled_ids)

  unfoldable pub cancel_tasks :
      (task_ids : List String) (include_dependents : Bool)
      → Option String
      → Board F W
      → Attempt F W (Board F W × List String)
  unfolding requested cancel_all
  cancel_tasks task_ids include_dependents reason b =
      cancel_all reason (sorted_set (requested b.graph.edges include_dependents task_ids)) b

  unfoldable pub mark_failed_and_block_dependents :
      (task_id error : String) → Board F W → Attempt F W (Board F W × List String)
  unfolding set_task_status transitive_dependents set_each save_graph
  mark_failed_and_block_dependents task_id error b =
      let noted = record b {
        graph = record b.graph { failed_reasons = insert task_id error b.graph.failed_reasons };
      } in
      let dependents = transitive_dependents b.graph.edges task_id in
      do
        marked ← set_task_status noted task_id failed
        (after, _) ← set_each is_settled blocked (sorted text_leb dependents) marked
        ok (
          audit (save_graph after) (task_failed task_id error (sorted text_leb dependents)),
          dependents,
        )
