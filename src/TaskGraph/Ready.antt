-- ===== src/TaskGraph/Ready.antt =====
-- orchestrator/task_graph.py: which tasks can start, in which order, and the gate on their value.
-- Floats and their operations are an argument, and the weights have an entry for every level.
pub mod Laws
use agent_advisor.Prelude.{
  ℕ, Bool, true, false, ◌&&◌, not, Option, none, some, List, [], ◌∷◌, Result, ok, err, ◌>>=◌,
  String, if◌then◌else◌, all, map, filter,
}
use agent_advisor.Prelude.Dict.{Dict, lookup, insert, get_or}
use agent_advisor.Prelude.Sort.{sorted}
use agent_advisor.Prelude.Text.{text_leb}
use agent_advisor.Artifacts.{Level, TaskRecord, TaskStatus, is_planned, is_completed}
use agent_advisor.TaskGraph.{Board, Attempt, read_task}

pub record Floats (F : Type 0) : Type 0 where
  pub times : F → F → F
  pub divided_by : F → F → F
  pub minus : F → F
  pub lt : F → F → Bool
  pub eq : F → F → Bool

module _ {F W : Type 0} where
  unfoldable pub read_all : Board F W → List String → Attempt F W (List (TaskRecord F))
  unfolding read_task
  read_all b [] = ok []
  read_all b (task_id ∷ task_ids) =
      let others = read_all b task_ids in
      read_task b task_id >>= λ task. others >>= λ tasks. ok (task ∷ tasks)

-- {record.task_id: record.status for record in records}, onto `d`
unfoldable pub status_by_id : {F : Type 0} → List (TaskRecord F) → Dict TaskStatus → Dict TaskStatus
status_by_id [] d = d
status_by_id (task ∷ tasks) d = status_by_id tasks (insert task.task_id task.status d)

abbrev pub is_done : Option TaskStatus → Bool
is_done none = false
is_done (some status) = is_completed status

unfoldable pub is_ready : {F : Type 0} → Dict (List String) → Dict TaskStatus → TaskRecord F → Bool
is_ready edges statuses task =
    is_planned task.status
    && all (λ dep_id. is_done (lookup dep_id statuses)) (get_or edges task.task_id [])

module _ {F : Type 0} (floats : Floats F) (weight : Level → F) where
  unfoldable pub ordering_score : TaskRecord F → F
  ordering_score task =
      floats.divided_by
        (floats.times (weight task.materiality) task.probability_of_changing_conclusion)
        task.estimated_cost

  -- The order of the pairs of `_priority_sort_key`, which Python compares from the left.
  unfoldable pub key_leb : TaskRecord F → TaskRecord F → Bool
  unfolding ordering_score
  key_leb a b =
      let x = floats.minus (ordering_score a) in
      let y = floats.minus (ordering_score b) in
      if floats.eq x y then text_leb a.task_id b.task_id else floats.lt x y

  -- _marginal_value_gate_decision_unlocked, its first component
  unfoldable pub gate_passed : TaskRecord F → Bool
  gate_passed task =
      floats.lt task.estimated_cost
        (floats.times (weight task.materiality) task.probability_of_changing_conclusion)

  ready_among : {W : Type 0} → Board F W → List String → Attempt F W (List (TaskRecord F))
  unfolding read_all status_by_id is_ready key_leb
  ready_among b [] = ok []
  ready_among b (t ∷ ts) = read_all b (t ∷ ts) >>= λ tasks.
      ok (sorted key_leb (filter (is_ready b.graph.edges (status_by_id tasks [])) tasks))

  unfoldable pub ready : {W : Type 0} → Board F W → Attempt F W (List (TaskRecord F))
  unfolding ready_among
  ready b = ready_among b b.graph.task_ids
