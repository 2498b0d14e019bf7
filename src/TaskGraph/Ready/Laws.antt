-- ===== src/TaskGraph/Ready/Laws.antt =====
-- `ready` lists the planned tasks whose dependencies are all completed, best first.
use agent_advisor.Prelude.{
  some_inj, true, false, &&_iff, none, some, List, [], ◌∷◌, ok, ◌≡◌, ◌↔◌, ◌⊎◌, inl, inr, refl, sym,
  ◌∙◌, subst, arith, In, In-filter, String, if◌then◌else◌, ⊎_elim, Bool-cases, Option-cases, all,
  all_iff, filter,
}
use agent_advisor.Prelude.Dict.{Dict, lookup, insert, lookup-insert, mem, mem_iff, get_or}
use agent_advisor.Prelude.Sort.{sorted, In-sorted, IsOrder, IsSorted, sorted-IsSorted}
use agent_advisor.Prelude.Text.{◌==◌, eq_iff, text_leb_total, text_leb_trans}
use agent_advisor.Artifacts.{Level, TaskRecord, TaskStatus, is_planned, is_completed}
use agent_advisor.TaskGraph.{Board}
use agent_advisor.TaskGraph.Status.{IsFiled, HasTasks}
use agent_advisor.TaskGraph.Ready.{
  Floats, read_all, status_by_id, is_done, is_ready, ordering_score, key_leb, ready, ready_among,
}

-- IEEE comparison, on floats that are not NaN.
pub record IsFloatOrder {F : Type 0} (floats : Floats F) : Type 0 where
  pub compared :
      (a b : F) → (floats.eq a b ≡ true) ⊎ (floats.lt a b ≡ true) ⊎ (floats.lt b a ≡ true)
  pub eq_sym : (a b : F) → floats.eq a b ≡ true → floats.eq b a ≡ true
  pub eq_trans : (a b c : F) → floats.eq a b ≡ true → floats.eq b c ≡ true → floats.eq a c ≡ true
  pub lt_trans : (a b c : F) → floats.lt a b ≡ true → floats.lt b c ≡ true → floats.lt a c ≡ true
  pub lt_ne : (a b : F) → floats.lt a b ≡ true → floats.eq a b ≡ false
  pub lt_eq : (a b c : F) → floats.lt a b ≡ true → floats.eq b c ≡ true → floats.lt a c ≡ true
  pub eq_lt : (a b c : F) → floats.eq a b ≡ true → floats.lt b c ≡ true → floats.lt a c ≡ true

module _ {F : Type 0} (floats : Floats F) (weight : Level → F) (order : IsFloatOrder floats) where
  key_total :
      (a b : TaskRecord F) → (key_leb floats weight a b ≡ true) ⊎ (key_leb floats weight b a ≡ true)
  unfolding key_leb
  key_total a b =
      let x = floats.minus (ordering_score floats weight a) in
      let y = floats.minus (ordering_score floats weight b) in
      ground (
        arith,
        order.compared x y,
        order.eq_sym x y,
        order.eq_sym y x,
        order.lt_ne x y,
        order.lt_ne y x,
        text_leb_total a.task_id b.task_id,
      )

  key_trans :
      (a b c : TaskRecord F)
      → key_leb floats weight a b ≡ true
      → key_leb floats weight b c ≡ true
      → key_leb floats weight a c ≡ true
  unfolding key_leb
  key_trans a b c h k =
      let x = floats.minus (ordering_score floats weight a) in
      let y = floats.minus (ordering_score floats weight b) in
      let z = floats.minus (ordering_score floats weight c) in
      ground (
        arith,
        order.eq_trans x y z,
        order.lt_trans x y z,
        order.lt_eq x y z,
        order.eq_lt x y z,
        order.lt_ne x z,
        text_leb_trans a.task_id b.task_id c.task_id,
      )

  key_leb-IsOrder : IsOrder (key_leb floats weight)
  key_leb-IsOrder = record { total = key_total; trans = key_trans }

module _ {F W : Type 0} (b : Board F W) where
  -- The task can start: it is planned, and all that it depends on are tasks of the graph and completed.
  abbrev pub CanStart : TaskRecord F → Type 0
  CanStart task =
      In task.task_id b.graph.task_ids
      × (lookup task.task_id b.tasks ≡ some task)
      × (is_planned task.status ≡ true)
      × ((dep : String)
          → In dep (get_or b.graph.edges task.task_id [])
          → In dep b.graph.task_ids
            × ((t : TaskRecord F) × (lookup dep b.tasks ≡ some t) × (is_completed t.status ≡ true)))

module _ {F W : Type 0} (b : Board F W) (filed : IsFiled b) where
  -- The records that were read for the ids.
  AreRead : List String → List (TaskRecord F) → Type 0
  AreRead [] [] = Unit {0}
  AreRead [] (t ∷ ts) = ⊥
  AreRead (k ∷ ks) [] = ⊥
  AreRead (k ∷ ks) (t ∷ ts) = (lookup k b.tasks ≡ some t) × AreRead ks ts

  read_all_lem :
      (ids : List String)
      → HasTasks ids b
      → (tasks : List (TaskRecord F)) × (read_all b ids ≡ ok tasks) × AreRead ids tasks
  unfolding read_all AreRead
  read_all_lem [] has = ([], refl, tt)
  read_all_lem (k ∷ ks) has =
      let (task, found) = has k (inl refl) in
      let (tasks, e, r) = read_all_lem ks (λ j i. has j (inr i)) in
      (task ∷ tasks, ground arith, (found, r))

  In-tasks :
      (ids : List String) (tasks : List (TaskRecord F)) (task : TaskRecord F)
      → AreRead ids tasks
      → In task tasks ↔ (In task.task_id ids × (lookup task.task_id b.tasks ≡ some task))
  unfolding AreRead
  In-tasks [] [] task r = (λ i. absurd i, λ h. absurd h.0)
  In-tasks [] (t ∷ ts) task r = absurd r
  In-tasks (k ∷ ks) [] task r = absurd r
  In-tasks (k ∷ ks) (t ∷ ts) task r =
      let own : t.task_id ≡ k = filed k t r.0 in
      let more = In-tasks ks ts task r.1 in
      (
        ⊎_elim
            (λ e.
              subst (λ x. (x.task_id ≡ k ⊎ In x.task_id ks) × (lookup x.task_id b.tasks ≡ some x))
                (sym e) (inl own, subst (λ j. lookup j b.tasks ≡ some t) (sym own) r.0))
            (λ i. (inr (more.0 i).0, (more.0 i).1)),
        λ (i, f).
            ⊎_elim
              (λ e. inl (some_inj (sym f ∙ subst (λ j. lookup j b.tasks ≡ some t) (sym e) r.0)))
              (λ j. inr (more.1 (j, f))) i,
      )

  lookup-status_by_id :
      (ids : List String) (tasks : List (TaskRecord F)) (d : Dict TaskStatus) (k : String)
      → AreRead ids tasks
      → lookup k (status_by_id tasks d) ≡ (
          if mem k ids
          then elim (lookup k b.tasks) [ none ↦ none | some t ↦ some t.status ]
          else lookup k d)
  unfolding AreRead status_by_id mem
  lookup-status_by_id [] [] d k r = refl
  lookup-status_by_id [] (t ∷ ts) d k r = absurd r
  lookup-status_by_id (j ∷ js) [] d k r = absurd r
  lookup-status_by_id (j ∷ js) (t ∷ ts) d k r =
      let own : t.task_id ≡ j = filed j t r.0 in
      let more = lookup-status_by_id js ts (insert t.task_id t.status d) k r.1 in
      elim (Bool-cases (k == j)) [
        | inl same ↦
            let found : lookup k b.tasks ≡ some t =
              subst (λ x. lookup x b.tasks ≡ some t) (sym ((eq_iff k j).0 same)) r.0 in
            ground
              (arith, more, eq_iff k j, eq_iff t.task_id k, lookup-insert t.task_id k t.status d)
        | inr other ↦
            ground
              (arith, more, eq_iff k j, eq_iff t.task_id k, lookup-insert t.task_id k t.status d)
      ]

  done_iff :
      (ids : List String) (tasks : List (TaskRecord F)) (dep : String)
      → AreRead ids tasks
      → (is_done (lookup dep (status_by_id tasks [])) ≡ true) ↔ (
          In dep ids
          × ((t : TaskRecord F) × (lookup dep b.tasks ≡ some t) × (is_completed t.status ≡ true)))
  unfolding lookup
  done_iff ids tasks dep r =
      let found = lookup-status_by_id ids tasks [] dep r in
      elim (Bool-cases (mem dep ids)) [
        | inl here ↦ elim (Option-cases (lookup dep b.tasks)) [
          | inl e ↦ (λ h. absurd (ground arith), λ h. let (t, f, c) = h.1 in cc)
          | inr (t, e) ↦ (
            λ h. ((mem_iff dep ids).0 here, (t, e, ground arith)),
            λ h. let (t', f, c) = h.1 in ground arith,
          )
        ]
        | inr away ↦
            (λ h. absurd (ground arith), λ h. let i = h.0 in ground (arith, mem_iff dep ids))
      ]

  is_ready_iff :
      (ids : List String) (tasks : List (TaskRecord F)) (task : TaskRecord F)
      → AreRead ids tasks
      → (is_ready b.graph.edges (status_by_id tasks []) task ≡ true) ↔ (
          (is_planned task.status ≡ true)
          × ((dep : String)
              → In dep (get_or b.graph.edges task.task_id [])
              → In dep ids
                × ((t : TaskRecord F) × (lookup dep b.tasks ≡ some t)
                    × (is_completed t.status ≡ true))))
  unfolding is_ready
  is_ready_iff ids tasks task r =
      let deps = get_or b.graph.edges task.task_id [] in
      let test = λ (dep : String). is_done (lookup dep (status_by_id tasks [])) in
      let each = all_iff test deps in
      let dep_iff = λ (dep : String). done_iff ids tasks dep r in
      (
        λ h.
            let (p, a) = (&&_iff (is_planned task.status) (all test deps)).0 h in
            (p, λ dep i. (dep_iff dep).0 (each.0 a dep i)),
        λ (p, c).
            (&&_iff (is_planned task.status) (all test deps)).1
              (p, each.1 (λ dep i. (dep_iff dep).1 (c dep i))),
      )

module _ {F W : Type 0} (floats : Floats F) (weight : Level → F) (order : IsFloatOrder floats)
    (b : Board F W) (filed : IsFiled b) where
  ready_among-sorted :
      (ids : List String) (tasks : List (TaskRecord F))
      → read_all b ids ≡ ok tasks
      → ready_among floats weight b ids
        ≡ ok (
            sorted
              (key_leb floats weight)
              (filter (is_ready b.graph.edges (status_by_id tasks [])) tasks))
  unfolding ready_among read_all sorted status_by_id
  ready_among-sorted [] [] e = refl
  ready_among-sorted [] (t ∷ ts) e = cc
  ready_among-sorted (k ∷ ks) tasks e = rw e

  -- When every task of the graph has a file and each task is filed under its id, `ready` lists
  -- exactly the tasks of the graph that are planned and whose dependencies are all completed tasks
  -- of the graph, in the order of priority, floats being compared as IEEE numbers other than NaN.
  pub ready_lem :
      HasTasks b.graph.task_ids b
      → (tasks : List (TaskRecord F)) × (ready floats weight b ≡ ok tasks)
        × ((task : TaskRecord F) → In task tasks ↔ CanStart b task)
        × IsSorted (key_leb floats weight) tasks
  unfolding ready
  ready_lem has =
      let ids = b.graph.task_ids in
      let (tasks, e, r) = read_all_lem b filed ids has in
      let test = is_ready b.graph.edges (status_by_id tasks []) in
      let in_order =
        λ (task : TaskRecord F). In-sorted (key_leb floats weight) task (filter test tasks) in
      let chosen = λ (task : TaskRecord F). In-filter test task tasks in
      let listed = λ (task : TaskRecord F). In-tasks b filed ids tasks task r in
      let test_iff = λ (task : TaskRecord F). is_ready_iff b filed ids tasks task r in
      (
        sorted (key_leb floats weight) (filter test tasks),
        ready_among-sorted ids tasks e,
        λ task. (
          λ i.
              let (j, ok_test) = (chosen task).0 ((in_order task).0 i) in
              let (k, f) = (listed task).0 j in
              let (p, c) = (test_iff task).0 ok_test in (k, f, p, c),
          λ (k, f, p, c).
              (in_order task).1
                ((chosen task).1 ((listed task).1 (k, f), (test_iff task).1 (p, c))),
        ),
        sorted-IsSorted (key_leb floats weight) (key_leb-IsOrder floats weight order)
            (filter test tasks),
      )
