-- ===== src/TaskGraph/Status.antt =====
-- What the loops over task ids do to the tasks: `set_each`.
use agent_advisor.Prelude.{
  ◌&&◌, not, Bool, true, false, Option, none, some, List, [], ◌∷◌, ok, ◌≡◌, ◌↔◌, inl, inr, refl,
  sym, ◌∙◌, subst, arith, In, String, if◌then◌else◌, Bool-cases, Option-cases,
}
use agent_advisor.Prelude.Dict.{lookup, lookup-insert, mem, mem_iff}
use agent_advisor.Prelude.Text.{◌==◌, eq_iff}
use agent_advisor.Artifacts.{TaskRecord, TaskStatus}
use agent_advisor.TaskGraph.{Board, with_status, write_task, set_each}

-- A task's entry after it was given `status`, if it is one of `ids` and not skipped.
abbrev pub updated :
    {F : Type 0}
    → (TaskStatus → Bool)
    → TaskStatus
    → List String
    → String
    → Option (TaskRecord F)
    → Option (TaskRecord F)
updated skip status ids k none = none
updated skip status ids k (some task) =
    if mem k ids && not (skip task.status) then some (with_status task status) else some task

abbrev pub Chosen : {F : Type 0} → (TaskStatus → Bool) → Option (TaskRecord F) → Type 0
Chosen skip none = ⊥
Chosen skip (some task) = skip task.status ≡ false

-- A fact about an id, from one about an equal id and one about the others.
by_id : (P : String → Type 0) (id k : String) → P id → ((k == id) ≡ false → P k) → P k
by_id P id k here there = elim (Bool-cases (k == id)) [
  | inl e ↦ subst P (sym ((eq_iff k id).0 e)) here
  | inr e ↦ there e
]

module _ {F W : Type 0} where
  -- Each task is filed under its own id.
  abbrev pub IsFiled : Board F W → Type 0
  IsFiled b = (k : String) (task : TaskRecord F) → lookup k b.tasks ≡ some task → task.task_id ≡ k

  abbrev pub HasTasks : List String → Board F W → Type 0
  HasTasks ids b = (k : String) → In k ids → (task : TaskRecord F) × (lookup k b.tasks ≡ some task)

  -- All tasks of `ids` that `skip` does not hold of have `status`; `changed` names them.
  pub record Updated (skip : TaskStatus → Bool) (status : TaskStatus) (ids : List String)
      (b after : Board F W) (changed : List String) : Type 0 where
    pub entries : (k : String) → lookup k after.tasks ≡ updated skip status ids k (lookup k b.tasks)
    pub same : after ≡ record b { tasks = after.tasks }
    pub filed : IsFiled after
    pub named : (k : String) → In k changed ↔ (In k ids × Chosen skip (lookup k b.tasks))

  pub lookup-write_task :
      (b : Board F W) (task : TaskRecord F) (k : String)
      → lookup k (write_task b task).tasks
        ≡ (if task.task_id == k then some task else lookup k b.tasks)
  unfolding write_task
  lookup-write_task b task k = lookup-insert task.task_id k task b.tasks

  pub write_task-IsFiled :
      (b : Board F W) (task : TaskRecord F) → IsFiled b → IsFiled (write_task b task)
  write_task-IsFiled b task filed k t e =
      ground (arith, lookup-write_task b task k, filed k t, eq_iff task.task_id k)

  pub HasTasks-write_task :
      (b : Board F W) (task : TaskRecord F) (ids : List String)
      → HasTasks ids b
      → HasTasks ids (write_task b task)
  HasTasks-write_task b task ids has k i =
      let (old, found) = has k i in
      elim (Bool-cases (task.task_id == k)) [
        | inl e ↦ (task, ground (arith, lookup-write_task b task k))
        | inr e ↦ (old, ground (arith, lookup-write_task b task k))
      ]

module _ {F W : Type 0} (skip : TaskStatus → Bool) (status : TaskStatus) where
  Updated-nil : (b : Board F W) → IsFiled b → Updated skip status [] b b []
  unfolding mem
  Updated-nil b filed = record {
    entries = λ k. ground arith;
    same = refl;
    filed = filed;
    named = λ k. (λ i. absurd i, λ h. absurd h.0);
  }

  Updated-skip :
      (id : String) (ids : List String) (b after : Board F W) (changed : List String)
      (task : TaskRecord F)
      → lookup id b.tasks ≡ some task
      → skip task.status ≡ true
      → Updated skip status ids b after changed
      → Updated skip status (id ∷ ids) b after changed
  unfolding mem
  Updated-skip id ids b after changed task found skipped u = record {
    entries = λ k.
        by_id (λ k. lookup k after.tasks ≡ updated skip status (id ∷ ids) k (lookup k b.tasks)) id k
          (rw found (ground (arith, u.entries id, found))) (λ other. ground (arith, u.entries k));
    same = u.same;
    filed = u.filed;
    named = λ k.
        by_id (λ k. In k changed ↔ (In k (id ∷ ids) × Chosen skip (lookup k b.tasks))) id k
          (rw found (ground (arith, u.named id))) (λ other. ground (arith, u.named k, eq_iff k id));
  }

  Updated-set :
      (id : String) (ids : List String) (b after : Board F W) (changed : List String)
      (task : TaskRecord F)
      → lookup id b.tasks ≡ some task
      → task.task_id ≡ id
      → skip task.status ≡ false
      → Updated skip status ids (write_task b (with_status task status)) after changed
      → Updated skip status (id ∷ ids) b after (id ∷ changed)
  unfolding mem
  Updated-set id ids b after changed task found own not_skipped u = record {
    entries = λ k.
        by_id (λ k. lookup k after.tasks ≡ updated skip status (id ∷ ids) k (lookup k b.tasks)) id k
          (ground (
            arith,
            u.entries id,
            lookup-write_task b (with_status task status) id,
            eq_iff task.task_id id,
            eq_iff id id,
          ))
          (λ other. ground (
            arith,
            u.entries k,
            lookup-write_task b (with_status task status) k,
            eq_iff task.task_id k,
            eq_iff k id,
          ));
    same =
        subst (λ (x : Board F W). x ≡ record b { tasks = x.tasks }) (sym u.same)
          (unfold write_task in refl);
    filed = u.filed;
    named = λ k.
        by_id (λ k. In k (id ∷ changed) ↔ (In k (id ∷ ids) × Chosen skip (lookup k b.tasks))) id k
          (rw found (ground arith))
          (λ other. ground (
            arith,
            u.named k,
            lookup-write_task b (with_status task status) k,
            eq_iff task.task_id k,
            eq_iff k id,
          ));
  }

  -- On ids that all have a task file the loop raises nothing.
  pub set_each_lem :
      (ids : List String) (b : Board F W)
      → IsFiled b
      → HasTasks ids b
      → (after : Board F W) × (changed : List String) × (set_each skip status ids b
          ≡ ok (after, changed))
        × Updated skip status ids b after changed
  unfolding set_each
  set_each_lem [] b filed has = (b, [], refl, Updated-nil b filed)
  set_each_lem (id ∷ ids) b filed has =
      let (task, found) = has id (inl refl) in
      let own = filed id task found in
      elim (Bool-cases (skip task.status)) [
        | inl skipped ↦
            let (after, changed, e, u) = set_each_lem ids b filed (λ k i. has k (inr i)) in
            (after, changed, ground arith, Updated-skip id ids b after changed task found skipped u)
        | inr other ↦
            let next = write_task b (with_status task status) in
            let (after, changed, e, u) =
              set_each_lem ids next (write_task-IsFiled b (with_status task status) filed)
                (HasTasks-write_task b (with_status task status) ids (λ k i. has k (inr i))) in
            (
              after,
              id ∷ changed,
              ground arith,
              Updated-set id ids b after changed task found own other u,
            )
      ]

module _ {F W : Type 0} {skip : TaskStatus → Bool} {status : TaskStatus} {ids : List String}
    {b after : Board F W} {changed : List String}
    (u : Updated skip status ids b after changed) where
  pub lookup_changed :
      (k : String) (task : TaskRecord F)
      → lookup k b.tasks ≡ some task
      → In k changed
      → lookup k after.tasks ≡ some (with_status task status)
  lookup_changed k task found i =
      let (j, c) = (u.named k).0 i in
      let c' : skip task.status ≡ false = subst (Chosen skip) found c in
      u.entries k ∙ rw found (ground (arith, mem_iff k ids))

  pub lookup_unchanged : (k : String) → ¬ In k changed → lookup k after.tasks ≡ lookup k b.tasks
  lookup_unchanged k n = elim (Option-cases (lookup k b.tasks)) [
    | inl none_there ↦ u.entries k ∙ rw none_there
    | inr (task, found) ↦ elim (Bool-cases (skip task.status)) [
      | inl skipped ↦ u.entries k ∙ rw found (ground arith)
      | inr other ↦
          let out : ¬ In k ids =
            λ j. n ((u.named k).1 (j, subst (Chosen skip) (sym found) other)) in
          u.entries k ∙ rw found (ground (arith, mem_iff k ids))
    ]
  ]
