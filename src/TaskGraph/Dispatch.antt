-- ===== src/TaskGraph/Dispatch.antt =====
-- orchestrator/task_graph.py: `dispatch`, as the moves of its loop. The arguments are the ledger's
-- `try_consume` at the graph's kind and model, and `persist`, which writes the artifacts and the
-- output of a worker's result.
pub mod Account
pub mod Starts
mod Samples
use agent_advisor.Prelude.{
  ℕ, ltb, Bool, true, false, ◌&&◌, not, Option, none, some, List, [], ◌∷◌, ◌++◌, Result, ok, err,
  ◌>>=◌, ◌≡◌, In, String, if◌then◌else◌, length, find?,
}
use agent_advisor.Prelude.Dict.{Dict, erase, mem}
use agent_advisor.Prelude.Text.{◌==◌}
use agent_advisor.Artifacts.{Level, TaskRecord, active, completed}
use agent_advisor.TaskGraph.{
  Board, GraphState, Attempt, Fault, AuditEvent, task_marginal_value_refused, task_budget_refused,
  task_started, task_completed, audit, set_task_status, save_graph,
  mark_failed_and_block_dependents,
}
use agent_advisor.TaskGraph.Ready.{Floats, gate_passed, ready}

-- The fields of the graph object, and the arguments of `dispatch`.
pub record DispatchSettings (F W L R : Type 0) : Type 0 where
  pub floats : Floats F
  pub materiality_weights : Level → F
  pub enforce_marginal_value_gate : Bool
  pub try_consume : L → L × Bool
  pub persist : String → R → W → W
  pub max_concurrent : ℕ

-- The local variables of `dispatch`, with the board and the ledger that it changes.
pub record Dispatch (F W L : Type 0) : Type 0 where
  pub board : Board F W
  pub ledger : L
  pub in_flight : List String
  pub started : List String
  pub completed_ids : List String
  pub failed_ids : List String
  pub blocked_ids : List String
  pub marginal_value_refused : List String
  pub budget_refused : Bool

-- in_flight.pop(future)
unfoldable pub without : String → List String → List String
without k [] = []
without k (x ∷ xs) = let rest = without k xs in if x == k then xs else x ∷ rest

module _ {F W L R : Type 0} (settings : DispatchSettings F W L R) where
  -- What the inner loop does with the task that it picks; the flag says that the loop goes on.
  unfoldable pub offer : TaskRecord F → Dispatch F W L → Attempt F W (Dispatch F W L × Bool)
  unfolding gate_passed set_task_status
  offer task d =
      if settings.enforce_marginal_value_gate
        && not (gate_passed settings.floats settings.materiality_weights task)
      then ok (
        record d {
          marginal_value_refused = task.task_id ∷ d.marginal_value_refused;
          board = audit d.board (task_marginal_value_refused task.task_id);
        },
        true,
      )
      else (let (ledger, granted) = settings.try_consume d.ledger in
          if not granted
          then ok (
            record d {
              ledger = ledger;
              budget_refused = true;
              board = audit d.board (task_budget_refused task.task_id);
            },
            false,
          )
          else set_task_status d.board task.task_id active >>= λ marked. ok (
            record d {
              ledger = ledger;
              started = d.started ++ task.task_id ∷ [];
              in_flight = d.in_flight ++ task.task_id ∷ [];
              board = audit marked (task_started task.task_id);
            },
            true,
          ))

  -- One pass of the inner loop, its test included.
  unfoldable pub fill_once : Dispatch F W L → Attempt F W (Dispatch F W L × Bool)
  unfolding ready offer
  fill_once d =
      if ltb (length d.in_flight) settings.max_concurrent && not d.budget_refused
      then (ready settings.floats settings.materiality_weights d.board >>= λ tasks.
          elim (find? (λ t. not (mem t.task_id d.marginal_value_refused)) tasks) [
            | none ↦ ok (d, false)
            | some task ↦ offer task d
          ])
      else ok (d, false)

  unfoldable pub reconcile_success : String → R → Board F W → Attempt F W (Board F W)
  unfolding set_task_status save_graph
  reconcile_success task_id result b =
      set_task_status (record b { rest = settings.persist task_id result b.rest }) task_id completed
      >>= λ marked.
          let cleared = record marked.graph {
            failed_reasons = erase task_id marked.graph.failed_reasons;
          } in
          ok (audit (save_graph (record marked { graph = cleared })) (task_completed task_id))

  -- A future of `in_flight` is done: with a result, or with the text of an exception.
  unfoldable pub finish : String → Result String R → Dispatch F W L → Attempt F W (Dispatch F W L)
  unfolding without reconcile_success mark_failed_and_block_dependents
  finish task_id (err error) d =
      mark_failed_and_block_dependents task_id error d.board >>= λ (after, ids). ok (record d {
        board = after;
        in_flight = without task_id d.in_flight;
        failed_ids = d.failed_ids ++ task_id ∷ [];
        blocked_ids = d.blocked_ids ++ ids;
      })
  finish task_id (ok result) d = reconcile_success task_id result d.board >>= λ after.
      ok (record d {
        board = after;
        in_flight = without task_id d.in_flight;
        completed_ids = d.completed_ids ++ task_id ∷ [];
      })

  -- The loops of `dispatch` alternate these in some order: which futures end when is up to the workers.
  pub data Move (d : Dispatch F W L) : Dispatch F W L → Type 0 where
    fills : {d' : Dispatch F W L} (again : Bool) → fill_once d ≡ ok (d', again) → Move d d'
    ends :
        {d' : Dispatch F W L} (task_id : String) (outcome : Result String R)
        → In task_id d.in_flight
        → finish task_id outcome d ≡ ok d'
        → Move d d'

  pub data Moves (d : Dispatch F W L) : Dispatch F W L → Type 0 where
    none_yet : Moves d d
    then_move : {e f : Dispatch F W L} → Moves d e → Move e f → Moves d f
