-- ===== src/TaskGraph/Dispatch/Starts.antt =====
-- Which task `dispatch` starts.
use agent_advisor.Prelude.{
  ok_inj, Bool, true, false, not, some, List, [], ◌∷◌, ◌++◌, ok, ◌≡◌, ◌↔◌, ◌⊎◌, inl, inr, sym,
  subst, ◌∙◌, arith, In, All-iff, find?, Bool-cases, ⊎_elim,
}
use agent_advisor.Prelude.Dict.{mem, mem_iff, lookup}
use agent_advisor.Prelude.Sort.{IsSorted}
use agent_advisor.Prelude.Text.{eq_iff}
use agent_advisor.Artifacts.{TaskRecord, TaskStatus, active}
use agent_advisor.TaskGraph.{Board, with_status, write_task, set_task_status}
use agent_advisor.TaskGraph.Status.{IsFiled, HasTasks, lookup-write_task}
use agent_advisor.TaskGraph.Ready.{key_leb}
use agent_advisor.TaskGraph.Ready.Laws.{IsFloatOrder, CanStart, ready_lem}
use agent_advisor.TaskGraph.Dispatch.{DispatchSettings, Dispatch, fill_once}
use agent_advisor.TaskGraph.Dispatch.Account.{Filled, idle, launched, fill_once-Filled}

find?-sorted :
    {A : Type 0} (le : A → A → Bool) (p : A → Bool) (x : A) (xs : List A)
    → IsSorted le xs
    → find? p xs ≡ some x
    → In x xs × (p x ≡ true) × ((y : A) → In y xs → p y ≡ true → (y ≡ x) ⊎ (le x y ≡ true))
find?-sorted le p x [] s e = absurd (ground arith)
find?-sorted {A} le p x (z ∷ zs) s e = elim (Bool-cases (p z)) [
  | inl yes_z ↦
      let same : z ≡ x = ground arith in
      (
        inl (sym same),
        subst (λ w. p w ≡ true) same yes_z,
        λ y i h.
            ⊎_elim (λ q. inl (q ∙ same))
              (λ j.
                inr (subst (λ w. le w y ≡ true) same ((All-iff (λ y. le z y ≡ true) zs).0 s.0 y j)))
              i,
      )
  | inr no_z ↦
      let (i, t, least) = find?-sorted le p x zs s.1 (ground arith) in
      (
        inr i,
        t,
        λ y j h.
            ⊎_elim (λ q. absurd (false-ne-true (sym no_z ∙ subst (λ w. p w ≡ true) q h)))
              (λ k. least y k h) j,
      )
]
  where
    false-ne-true : false ≡ true → ⊥
    false-ne-true q = cc

module _ {F W : Type 0} where
  lookup-set_task_status :
      (b marked : Board F W) (task : TaskRecord F) (status : TaskStatus)
      → lookup task.task_id b.tasks ≡ some task
      → set_task_status b task.task_id status ≡ ok marked
      → lookup task.task_id marked.tasks ≡ some (with_status task status)
  unfolding set_task_status
  lookup-set_task_status b marked task status found e =
      let written : write_task b (with_status task status) ≡ marked = ground arith in
      subst (λ (m : Board F W). lookup task.task_id m.tasks ≡ some (with_status task status))
        written
        (lookup-write_task b (with_status task status) task.task_id
          ∙ ground (arith, eq_iff task.task_id task.task_id))

module _ {F W L R : Type 0} (settings : DispatchSettings F W L R)
    (order : IsFloatOrder settings.floats) where
  -- The best of the tasks that can start and that the gate has not refused.
  abbrev pub IsNext : Dispatch F W L → TaskRecord F → Type 0
  IsNext d task =
      CanStart d.board task
      × (¬ In task.task_id d.marginal_value_refused)
      × ((other : TaskRecord F)
          → CanStart d.board other
          → ¬ In other.task_id d.marginal_value_refused
          → (other ≡ task)
            ⊎ (key_leb settings.floats settings.materiality_weights task other ≡ true))

  -- One pass of the inner loop of `dispatch` starts nothing, or starts one task that is planned and
  -- has all its dependencies completed, that the value gate has not refused, and that is first in
  -- priority among all such tasks; the task is then ACTIVE. Floats are compared as IEEE numbers
  -- other than NaN, each task is filed under its id, and every task of the graph has a file.
  pub fill_once_starts :
      (d d' : Dispatch F W L) (again : Bool)
      → IsFiled d.board
      → HasTasks d.board.graph.task_ids d.board
      → fill_once settings d ≡ ok (d', again)
      → (d'.started ≡ d.started)
        ⊎ ((task : TaskRecord F) × IsNext d task
            × (d'.started ≡ d.started ++ task.task_id ∷ [])
            × (lookup task.task_id d'.board.tasks ≡ some (with_status task active)))
  fill_once_starts d d' again filed has e = go (fill_once-Filled settings d d' again e)
    where
      go :
          Filled settings d d'
          → (d'.started ≡ d.started)
            ⊎ ((task : TaskRecord F) × IsNext d task
                × (d'.started ≡ d.started ++ task.task_id ∷ [])
                × (lookup task.task_id d'.board.tasks ≡ some (with_status task active)))
      go (idle st fl c f) = inl st
      go (launched tasks task marked room r found s b st fl c f) =
          let all_ready =
            ready_lem settings.floats settings.materiality_weights order d.board filed has in
          let tasks_same = ok_inj (sym all_ready.1 ∙ r) in
          let in_iff =
            subst (λ l. (t : TaskRecord F) → In t l ↔ CanStart d.board t) tasks_same all_ready.2 in
          let in_order =
            subst (IsSorted (key_leb settings.floats settings.materiality_weights)) tasks_same
              all_ready.3 in
          let offered = λ (t : TaskRecord F). not (mem t.task_id d.marginal_value_refused) in
          let (i, passed, least) =
            find?-sorted (key_leb settings.floats settings.materiality_weights) offered task tasks
              in_order found in
          let can = (in_iff task).0 i in
          inr (
            task,
            (
              can,
              λ k. ground (arith, mem_iff task.task_id d.marginal_value_refused),
              λ other c n.
                  least other ((in_iff other).1 c)
                    (ground (arith, mem_iff other.task_id d.marginal_value_refused)),
            ),
            st,
            subst (λ (m : Board F W). lookup task.task_id m.tasks ≡ some (with_status task active))
                (sym b) (lookup-set_task_status d.board marked task active can.1 s),
          )
