-- ===== src/TaskGraph/Reconcile.antt =====
-- `reconcile_orphans`: the tasks that an interrupted run left active.
use agent_advisor.Prelude.{
  true, false, Option, none, some, List, [], ◌∷◌, ok, ◌≡◌, ◌↔◌, inl, inr, refl, sym, ◌∙◌, subst,
  arith, In, String, if◌then◌else◌, Bool-cases, Option-cases, map, filter, In-filter, In-map,
}
use agent_advisor.Prelude.Dict.{Dict, lookup, mem_iff}
use agent_advisor.Prelude.Sort.{sorted, In-sorted}
use agent_advisor.Prelude.Text.{◌==◌, eq_iff, text_leb}
use agent_advisor.Artifacts.{TaskRecord, planned, is_active}
use agent_advisor.TaskGraph.{
  Board, AuditEvent, task_reset_on_resume, audit_if, with_status, reconcile_orphans,
}
use agent_advisor.TaskGraph.Status.{IsFiled, Updated, set_each_lem}

module _ {F : Type 0} where
  lookup-In :
      (k : String) (task : TaskRecord F) (tasks : Dict (TaskRecord F))
      → lookup k tasks ≡ some task
      → In (k, task) tasks
  unfolding lookup
  lookup-In k task [] e = cc
  lookup-In k task ((j, t) ∷ tasks) e = elim (Bool-cases (j == k)) [
    | inl here ↦ inl (ground (arith, eq_iff j k))
    | inr there ↦ inr (lookup-In k task tasks (ground arith))
  ]

  ids_of_active : Dict (TaskRecord F) → List String
  ids_of_active tasks = map (λ e. e.1.task_id) (filter (λ e. is_active e.1.status) tasks)

  -- Every task file is found under its name, and that is the id of its task.
  abbrev pub IsStored : Dict (TaskRecord F) → Type 0
  IsStored tasks =
      (k : String) (task : TaskRecord F)
      → In (k, task) tasks
      → (lookup k tasks ≡ some task) × (task.task_id ≡ k)

  abbrev pub IsActiveAt : Dict (TaskRecord F) → String → Type 0
  IsActiveAt tasks k =
      (task : TaskRecord F) × (lookup k tasks ≡ some task) × (is_active task.status ≡ true)

  In-ids_of_active :
      (k : String) (tasks : Dict (TaskRecord F))
      → IsStored tasks
      → In k (ids_of_active tasks) ↔ IsActiveAt tasks k
  unfolding ids_of_active
  In-ids_of_active k tasks stored =
      let listed =
        In-map (λ (e : String × TaskRecord F). e.1.task_id) k
          (filter (λ e. is_active e.1.status) tasks) in
      let chosen = λ (e : String × TaskRecord F).
        In-filter (λ (e : String × TaskRecord F). is_active e.1.status) e tasks in
      (
        λ h.
            let ((j, task), i, e) = listed.0 h in
            let (i', on) = (chosen (j, task)).0 i in
            let (found, own) = stored j task i' in
            (task, subst (λ x. lookup x tasks ≡ some task) (sym (e ∙ own)) found, on),
        λ (task, found, on).
            let i = lookup-In k task tasks found in
            listed.1 ((k, task), (chosen (k, task)).1 (i, on), sym (stored k task i).1),
      )

-- The entry of a task after the reset: an active task is planned again.
abbrev pub reset : {F : Type 0} → Option (TaskRecord F) → Option (TaskRecord F)
reset none = none
reset (some task) = if is_active task.status then some (with_status task planned) else some task

module _ {F W : Type 0} where
  pub audit_if-tasks :
      (ids : List String) (event : AuditEvent) (b : Board F W) (k : String)
      → lookup k (audit_if ids event b).tasks ≡ lookup k b.tasks
  audit_if-tasks [] event b k = refl
  audit_if-tasks (_ ∷ _) event b k = refl

  pub audit_if-same :
      (ids : List String) (event : AuditEvent) (b set : Board F W)
      → set ≡ record b { tasks = set.tasks }
      → audit_if ids event set ≡ record b {
        tasks = (audit_if ids event set).tasks;
        trail = (audit_if ids event set).trail;
      }
  audit_if-same [] event b set same = ground arith
  audit_if-same (_ ∷ _) event b set same = ground arith

  active_ids : Board F W → List String
  active_ids b = ids_of_active b.tasks

  reset_entry :
      (b after : Board F W) (changed : List String) (k : String)
      → IsStored b.tasks
      → Updated (λ _. false) planned (active_ids b) b after changed
      → lookup k after.tasks ≡ reset (lookup k b.tasks)
  unfolding active_ids
  reset_entry b after changed k stored u = elim (Option-cases (lookup k b.tasks)) [
    | inl e ↦ ground (arith, u.entries k)
    | inr (task, e) ↦
        let active_iff = In-ids_of_active k b.tasks stored in
        elim (Bool-cases (is_active task.status)) [
          | inl on ↦
              let i = active_iff.1 (task, e, on) in
              ground (arith, u.entries k, mem_iff k (active_ids b))
          | inr off ↦
              let never : ¬ In k (active_ids b) =
                λ i. let (t, e', on) = active_iff.0 i in ground arith in
              ground (arith, u.entries k, mem_iff k (active_ids b))
        ]
  ]

  -- When every task file is found under the id of its task, `reconcile_orphans` returns: every
  -- ACTIVE task is PLANNED again, no other task changes, the ids reported are exactly those of the
  -- tasks that were ACTIVE, and nothing but tasks and the audit log changes.
  pub reconcile_orphans_lem :
      (b : Board F W)
      → IsStored b.tasks
      → (after : Board F W) × (ids : List String) × (reconcile_orphans b ≡ ok (after, ids))
        × ((k : String) → lookup k after.tasks ≡ reset (lookup k b.tasks))
        × ((k : String) → In k ids ↔ IsActiveAt b.tasks k)
        × (after ≡ record b { tasks = after.tasks; trail = after.trail })
  unfolding reconcile_orphans active_ids ids_of_active
  reconcile_orphans_lem b stored =
      let filed : IsFiled b = λ k task e. (stored k task (lookup-In k task b.tasks e)).1 in
      let (set, changed, e, u) =
        set_each_lem (λ _. false) planned (active_ids b) b filed
          (λ k i. let (t, f, _) = (In-ids_of_active k b.tasks stored).0 i in (t, f)) in
      let event = task_reset_on_resume (sorted text_leb (active_ids b)) in
      (
        audit_if (active_ids b) event set,
        sorted text_leb (active_ids b),
        rw (e, reconcile_orphans),
        λ k. audit_if-tasks (active_ids b) event set k ∙ reset_entry b set changed k stored u,
        λ k. (
          λ i. (In-ids_of_active k b.tasks stored).0 ((In-sorted text_leb k (active_ids b)).0 i),
          λ a. (In-sorted text_leb k (active_ids b)).1 ((In-ids_of_active k b.tasks stored).1 a),
        ),
        audit_if-same (active_ids b) event b set u.same,
      )
