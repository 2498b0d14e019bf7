-- ===== src/TaskGraph/Cancel.antt =====
-- `cancel_tasks`, and what a failed task does to its dependents.
use agent_advisor.Prelude.{
  Bool, true, false, Option, some, List, [], ◌∷◌, ◌++◌, ok, ◌≡◌, ◌↔◌, ◌⊎◌, inl, inr, refl, ◌∙◌,
  subst, In, In-append, String, ⊎_elim,
}
use agent_advisor.Prelude.Dict.{Dict, lookup, sorted_set, In-sorted_set}
use agent_advisor.Prelude.Sort.{sorted}
use agent_advisor.Prelude.Text.{text_leb}
use agent_advisor.Artifacts.{TaskRecord, cancelled, is_settled}
use agent_advisor.TaskGraph.{
  Board, tasks_cancelled, audit_if, with_status, requested, transitive_dependents_of,
  transitive_dependents, cancel_tasks, cancel_all,
}
use agent_advisor.TaskGraph.Reach.{Needs, In-transitive_dependents}
use agent_advisor.TaskGraph.Status.{IsFiled, Chosen, set_each_lem, lookup_changed, lookup_unchanged}
use agent_advisor.TaskGraph.Reconcile.{audit_if-tasks, audit_if-same}

In-transitive_dependents_of :
    (edges : Dict (List String)) (k : String) (ids : List String)
    → In k (transitive_dependents_of edges ids) ↔ ((t : String) × In t ids × Needs edges t k)
unfolding transitive_dependents_of
In-transitive_dependents_of edges k [] = (λ h. absurd h, λ h. absurd h.1)
In-transitive_dependents_of edges k (x ∷ xs) =
    let both = In-append k (transitive_dependents edges x) (transitive_dependents_of edges xs) in
    let rest = In-transitive_dependents_of edges k xs in
    let first = In-transitive_dependents edges x k in
    (
      λ h.
          ⊎_elim (λ i. (x, inl refl, first.0 i)) (λ i. let (t, j, n) = rest.0 i in (t, inr j, n))
            (both.0 h),
      λ (t, i, n).
          ⊎_elim (λ e. both.1 (inl (first.1 (subst (λ t. Needs edges t k) e n))))
            (λ j. both.1 (inr (rest.1 (t, j, n)))) i,
    )

-- The tasks to cancel: those named, and with `include_dependents` those that need one of them.
abbrev pub IsRequested : Dict (List String) → Bool → List String → String → Type 0
IsRequested edges include_dependents task_ids k =
    In k task_ids ⊎ ((include_dependents ≡ true) × ((t : String) × In t task_ids × Needs edges t k))

In-requested :
    (edges : Dict (List String)) (include_dependents : Bool) (task_ids : List String) (k : String)
    → In k (sorted_set (requested edges include_dependents task_ids))
      ↔ IsRequested edges include_dependents task_ids k
unfolding requested
In-requested edges false task_ids k =
    (λ i. inl ((In-sorted_set k task_ids).0 i), ⊎_elim (In-sorted_set k task_ids).1 (λ h. cc))
In-requested edges true task_ids k =
    let all_ids = task_ids ++ transitive_dependents_of edges task_ids in
    let both = In-append k task_ids (transitive_dependents_of edges task_ids) in
    let more = In-transitive_dependents_of edges k task_ids in
    (
      λ i. ⊎_elim inl (λ j. inr (refl, more.0 j)) (both.0 ((In-sorted_set k all_ids).0 i)),
      λ r. (In-sorted_set k all_ids).1 (both.1 (⊎_elim inl (λ (_, h). inr (more.1 h)) r)),
    )

module _ {F W : Type 0} where
  -- When all requested tasks have files, each filed under its id, `cancel_tasks` returns: it
  -- reports exactly the requested tasks that are not COMPLETED or CANCELLED, where with
  -- `include_dependents` all that need a named task are requested too; those become CANCELLED,
  -- every other task stays as it was, and nothing but tasks and the audit log changes.
  pub cancel_tasks_lem :
      (b : Board F W) (task_ids : List String) (include_dependents : Bool) (reason : Option String)
      → IsFiled b
      → ((k : String)
          → IsRequested b.graph.edges include_dependents task_ids k
          → (task : TaskRecord F) × (lookup k b.tasks ≡ some task))
      → (after : Board F W) × (ids : List String) × (cancel_tasks task_ids include_dependents reason
            b
          ≡ ok (after, ids))
        × ((k : String)
            → In k ids ↔ (
                IsRequested b.graph.edges include_dependents task_ids k
                × Chosen is_settled (lookup k b.tasks)))
        × ((k : String) (task : TaskRecord F)
            → lookup k b.tasks ≡ some task
            → In k ids
            → lookup k after.tasks ≡ some (with_status task cancelled))
        × ((k : String) → ¬ In k ids → lookup k after.tasks ≡ lookup k b.tasks)
        × (after ≡ record b { tasks = after.tasks; trail = after.trail })
  unfolding cancel_tasks cancel_all
  cancel_tasks_lem b task_ids include_dependents reason filed has =
      let all_ids = sorted_set (requested b.graph.edges include_dependents task_ids) in
      let asked = In-requested b.graph.edges include_dependents task_ids in
      let (set, changed, e, u) =
        set_each_lem is_settled cancelled all_ids b filed (λ k i. has k ((asked k).0 i)) in
      let event = tasks_cancelled (sorted text_leb changed) reason in
      (
        audit_if changed event set,
        changed,
        rw (e, cancel_tasks),
        λ k. (
          λ i. let (j, c) = (u.named k).0 i in ((asked k).0 j, c),
          λ (r, c). (u.named k).1 ((asked k).1 r, c),
        ),
        λ k task f i. audit_if-tasks changed event set k ∙ lookup_changed u k task f i,
        λ k n. audit_if-tasks changed event set k ∙ lookup_unchanged u k n,
        audit_if-same changed event b set u.same,
      )
