-- ===== src/TaskGraph/Fail.antt =====
-- What a failed task does to those that need it.
use agent_advisor.Prelude.{
  some, List, ok, ◌≡◌, ◌≢◌, ◌↔◌, refl, ◌∙◌, arith, In, String, if◌then◌else◌,
}
use agent_advisor.Prelude.Dict.{lookup, insert, mem_iff}
use agent_advisor.Prelude.Sort.{sorted, In-sorted}
use agent_advisor.Prelude.Text.{◌==◌, eq_iff, text_leb}
use agent_advisor.Artifacts.{TaskRecord, failed, blocked, is_settled}
use agent_advisor.TaskGraph.{
  Board, task_failed, with_status, write_task, set_task_status, audit, transitive_dependents,
  mark_failed_and_block_dependents, save_graph,
}
use agent_advisor.TaskGraph.Reach.{Needs, In-transitive_dependents}
use agent_advisor.TaskGraph.Status.{
  lookup-write_task, write_task-IsFiled, HasTasks-write_task, IsFiled, set_each_lem,
  lookup_unchanged,
}

module _ {F W : Type 0} (b : Board F W) (t error : String) (task : TaskRecord F) where
  -- The board when the loop over the dependents begins.
  marked : Board F W
  marked =
      write_task
        (record b {
          graph = record b.graph { failed_reasons = insert t error b.graph.failed_reasons };
        })
        (with_status task failed)

  lookup-marked :
      (k : String)
      → task.task_id ≡ t
      → lookup k marked.tasks
        ≡ (if t == k then some (with_status task failed) else lookup k b.tasks)
  unfolding marked
  lookup-marked k own = ground (
    arith,
    eq_iff task.task_id k,
    eq_iff t k,
    lookup-write_task
        (record b {
          graph = record b.graph { failed_reasons = insert t error b.graph.failed_reasons };
        })
        (with_status task failed) k,
  )

  -- When a task fails, and it and all that need it have files, each filed under its id, the call
  -- returns: it reports exactly the tasks that need the failed one; the failed one is FAILED unless
  -- it needs itself; a task that needs it is BLOCKED unless it is COMPLETED or CANCELLED; all other
  -- tasks stay as they were; and the graph is saved.
  pub mark_failed_and_block_dependents_lem :
      IsFiled b
      → lookup t b.tasks ≡ some task
      → ((k : String)
          → Needs b.graph.edges t k
          → (other : TaskRecord F) × (lookup k b.tasks ≡ some other))
      → (after : Board F W) × (ids : List String) × (mark_failed_and_block_dependents t error b
          ≡ ok (after, ids))
        × ((k : String) → In k ids ↔ Needs b.graph.edges t k)
        × (¬ Needs b.graph.edges t t → lookup t after.tasks ≡ some (with_status task failed))
        × ((k : String) (other : TaskRecord F)
            → k ≢ t
            → lookup k b.tasks ≡ some other
            → Needs b.graph.edges t k
            → lookup k after.tasks
              ≡ (if is_settled other.status then some other else some (with_status other blocked)))
        × ((k : String)
            → k ≢ t
            → ¬ Needs b.graph.edges t k
            → lookup k after.tasks ≡ lookup k b.tasks)
        × (after.saved ≡ after.graph)
  unfolding mark_failed_and_block_dependents set_task_status marked
  mark_failed_and_block_dependents_lem filed found has =
      let noted = record b {
        graph = record b.graph { failed_reasons = insert t error b.graph.failed_reasons };
      } in
      let ds = transitive_dependents b.graph.edges t in
      let needs = λ (k : String). In-transitive_dependents b.graph.edges t k in
      let own = filed t task found in
      let listed = λ (k : String) (i : In k (sorted text_leb ds)).
        (needs k).0 ((In-sorted text_leb k ds).0 i) in
      let (set, changed, e, u) =
        set_each_lem is_settled blocked (sorted text_leb ds) marked
          (write_task-IsFiled noted (with_status task failed) filed)
          (HasTasks-write_task noted (with_status task failed) (sorted text_leb ds)
            (λ k i. has k (listed k i))) in
      let chosen = λ (k : String) (i : In k changed). listed k ((u.named k).0 i).0 in
      (
        audit (save_graph set) (task_failed t error (sorted text_leb ds)),
        ds,
        ground arith,
        needs,
        λ n.
            lookup_unchanged u t (λ i. n (chosen t i))
            ∙ (lookup-marked t own ∙ ground (arith, eq_iff t t)),
        λ k other ne f n.
            (let there : lookup k marked.tasks ≡ some other =
                lookup-marked k own ∙ ground (arith, eq_iff t k) in
              let i = (In-sorted text_leb k ds).1 ((needs k).1 n) in
              u.entries k ∙ rw there (ground (arith, mem_iff k (sorted text_leb ds)))),
        λ k ne n.
            lookup_unchanged u k (λ i. n (chosen k i))
            ∙ (lookup-marked k own ∙ ground (arith, eq_iff t k)),
        refl,
      )
