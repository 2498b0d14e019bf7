-- ===== src/TaskGraph/Cycle/Add.antt =====
-- `add_tasks` keeps the graph free of cycles, and refuses only edges that would bring one.
use agent_advisor.Prelude.{
  ok_inj, List, [], ◌∷◌, ok, err, Result-cases, ◌≡◌, ◌≢◌, ◌↔◌, inl, inr, refl, ap, ◌∙◌, subst,
  arith, In, In-subst, String, Bool-cases,
}
use agent_advisor.Prelude.Dict.{
  Dict, lookup, insert, get_or, mem, mem_iff, sorted_set, In-sorted_set,
}
use agent_advisor.Artifacts.{TaskRecord}
use agent_advisor.TaskGraph.{Board, GraphState, cycle_error, normalized, normal_form}
use agent_advisor.TaskGraph.Reach.{keys}
use agent_advisor.TaskGraph.Cycle.{
  find_cycle, base_edges, add_edges, merge_edges, add_tasks, candidate_ids,
}
use agent_advisor.TaskGraph.Cycle.Search.{PathTo, last, first, Outcome-cases, find_cycle_complete}
use agent_advisor.TaskGraph.Cycle.Fuel.{find_cycle_ends, find_cycle_sound}

abbrev KeysIn : List String → Dict (List String) → Type 0
KeysIn ids edges = (k : String) → In k (keys edges) → In k ids

insert-KeysIn :
    (ids : List String) (k : String) (deps : List String) (edges : Dict (List String))
    → In k ids
    → KeysIn ids edges
    → KeysIn ids (insert k deps edges)
unfolding insert keys
insert-KeysIn ids k deps [] i s j h = ground (arith, In-subst j k ids)
insert-KeysIn ids k deps ((x, w) ∷ edges) i s j h =
    ground (arith, s j, insert-KeysIn ids k deps edges i (λ y h. s y (inr h)) j)

base_edges-KeysIn :
    (ids : List String) (base : Dict (List String)) (task_ids : List String)
    (merged : Dict (List String))
    → ((x : String) → In x task_ids → In x ids)
    → KeysIn ids merged
    → KeysIn ids (base_edges base task_ids merged)
unfolding base_edges
base_edges-KeysIn ids base [] merged s k = k
base_edges-KeysIn ids base (t ∷ ts) merged s k =
    base_edges-KeysIn ids base ts _ (λ x i. s x (inr i))
      (insert-KeysIn ids t _ merged (s t (inl refl)) k)

module _ {F W : Type 0} (b : Board F W) where
  add_edges-KeysIn :
      (ids : List String) (new_edges merged edges : Dict (List String))
      → KeysIn ids merged
      → add_edges b ids new_edges merged ≡ ok edges
      → KeysIn ids edges
  unfolding add_edges
  add_edges-KeysIn ids [] merged edges k e = subst (KeysIn ids) (ok_inj e) k
  add_edges-KeysIn ids ((t, deps) ∷ new_edges) merged edges k e = elim (Bool-cases (mem t ids)) [
    | inl known ↦
        let i = (mem_iff t ids).0 known in
        add_edges-KeysIn ids new_edges (insert t (sorted_set deps) merged) edges
          (insert-KeysIn ids t (sorted_set deps) merged i k) (ground arith)
    | inr unknown ↦ absurd (ground arith)
  ]

module _ {F W : Type 0} (b : Board F W) (c : List String) (left : Board F W) where
  add_edges-ne-cycle :
      (ids : List String) (new_edges merged : Dict (List String))
      → add_edges b ids new_edges merged ≢ err (cycle_error c, left)
  unfolding add_edges
  add_edges-ne-cycle ids [] merged e = cc
  add_edges-ne-cycle ids ((t, deps) ∷ new_edges) merged e =
      ground (arith, add_edges-ne-cycle ids new_edges (insert t (sorted_set deps) merged))

normalized-deps :
    (ids : List String) (edges : Dict (List String)) (k d : String)
    → KeysIn ids edges
    → In d (get_or (normalized ids edges) k []) ↔ In d (get_or edges k [])
unfolding normalized lookup keys
normalized-deps ids [] k d s = (λ i. i, λ i. i)
normalized-deps ids ((j, []) ∷ edges) k d s =
    ground
      (arith, normalized-deps ids edges k d (λ x i. s x (inr i)), mem_iff j ids, s j (inl refl))
normalized-deps ids ((j, x ∷ xs) ∷ edges) k d s =
    ground (arith, normalized-deps ids edges k d (λ x i. s x (inr i)), In-sorted_set d (x ∷ xs))

path_transfer :
    (e f : Dict (List String))
    → ((k d : String) → In d (get_or e k []) → In d (get_or f k []))
    → (a b : String) → PathTo e a b
    → PathTo f a b
path_transfer e f s a b (last h) = last (s a b h)
path_transfer e f s a b (first {b = c} h p) = first (s a c h) (path_transfer e f s c b p)

module _ {F W : Type 0} (records : List (TaskRecord F)) (new_edges : Dict (List String))
    (b : Board F W) where
  merge_edges-ne-cycle :
      (c : List String) (left : Board F W)
      → merge_edges b b.graph.edges new_edges (candidate_ids records b) ≢ err (cycle_error c, left)
  unfolding merge_edges
  merge_edges-ne-cycle c left = add_edges-ne-cycle b c left (candidate_ids records b) new_edges _

  -- The graph after a call that returns.
  record Added (after : Board F W) : Type 0 where
    edges : Dict (List String)
    merged : merge_edges b b.graph.edges new_edges (candidate_ids records b) ≡ ok edges
    free : (a : String) → In a (candidate_ids records b) → ¬ PathTo edges a a
    graph :
        after.graph
        ≡ normal_form (record {
          task_ids = sorted_set (candidate_ids records b);
          edges = edges;
          failed_reasons = b.graph.failed_reasons;
        })

  add_tasks-Added : (after : Board F W) → add_tasks records new_edges b ≡ ok after → Added after
  unfolding add_tasks
  add_tasks-Added after e =
      elim (Result-cases (merge_edges b b.graph.edges new_edges (candidate_ids records b))) [
        | inl (edges, m) ↦ elim (Outcome-cases (find_cycle edges (candidate_ids records b))) [
          | inl (v, q) ↦ record {
            edges = edges;
            merged = m;
            free = find_cycle_complete edges (candidate_ids records b) v q;
            graph = ground arith;
          }
          | inr (inl (c, q)) ↦ absurd (ground arith)
          | inr (inr q) ↦ absurd (ground arith)
        ]
        | inr (f, m) ↦ absurd (ground arith)
      ]

  -- When `add_tasks` returns, no task of the graph depends on itself, directly or through others,
  -- in the edges that are saved, whatever the graph was before.
  pub add_tasks_acyclic :
      (after : Board F W)
      → add_tasks records new_edges b ≡ ok after
      → (a : String) → In a after.graph.task_ids
      → ¬ PathTo after.graph.edges a a
  unfolding normal_form keys add_edges merge_edges
  add_tasks_acyclic after e a i p =
      let added = add_tasks-Added after e in
      let ids = candidate_ids records b in
      let known = λ (k : String) (h : In k (keys added.edges)). (In-sorted_set k ids).1 (
        add_edges-KeysIn b ids new_edges _ added.edges
          (base_edges-KeysIn ids b.graph.edges (sorted_set ids) [] (λ x. (In-sorted_set x ids).0)
            (λ k h. absurd h))
          added.merged k h) in
      let here : In a (sorted_set (sorted_set ids)) =
        subst (λ (g : GraphState). In a g.task_ids) added.graph i in
      let path : PathTo (normalized (sorted_set ids) added.edges) a a =
        subst (λ (g : GraphState). PathTo g.edges a a) added.graph p in
      added.free a ((In-sorted_set a ids).0 ((In-sorted_set a (sorted_set ids)).0 here)) (
        path_transfer (normalized (sorted_set ids) added.edges) added.edges
          (λ k d. (normalized-deps (sorted_set ids) added.edges k d known).0) a a path)

  -- When `add_tasks` raises the cycle error, some task does depend on itself in the merged edges,
  -- directly or through others, and the board is as it was.
  pub add_tasks_refuses :
      (c : List String) (left : Board F W)
      → add_tasks records new_edges b ≡ err (cycle_error c, left)
      → (left ≡ b)
        × ((edges : Dict (List String)) × (merge_edges b b.graph.edges new_edges
                (candidate_ids records b)
              ≡ ok edges)
            × ((a : String) × PathTo edges a a))
  unfolding add_tasks
  add_tasks_refuses c left e =
      let ids = candidate_ids records b in
      elim (Result-cases (merge_edges b b.graph.edges new_edges ids)) [
        | inl (edges, m) ↦ elim (Outcome-cases (find_cycle edges ids)) [
          | inl (v, q) ↦ absurd (ground arith)
          | inr (inl (c', q)) ↦ (ground arith, (edges, m, find_cycle_sound edges ids c' q))
          | inr (inr q) ↦ absurd (find_cycle_ends edges ids q)
        ]
        | inr (f, m) ↦
            let same : f ≡ (cycle_error c, left) = ground arith in
            absurd (merge_edges-ne-cycle c left (m ∙ ap err same))
      ]
