-- ===== src/IssueTree/Coverage.antt =====
-- The coverage of an accepted tree: which leaves the completed tasks leave open.
use agent_advisor.Prelude.{
  suc, ◌+◌, Bool, true, false, not, some, List, [], filter, length, ok, ◌≡◌, ◌↔◌, inl, inr, sym, ap,
  ◌∙◌, subst, arith, String, In, In-map, In-filter, filter-same, filter-split, Bool-cases,
}
use agent_advisor.Prelude.Dict.{mem, mem-filter}
use agent_advisor.Artifacts.{TaskRecord}
use agent_advisor.IssueTree.{
  IssueNode, IssueCoverage, ids, validate_tree_shape, covers, completed_nodes, compute_coverage,
  leaf_node_ids, unattached,
}
use agent_advisor.IssueTree.Shape.Accepts.{Under, validate-IsTree, validate_walks}
use agent_advisor.IssueTree.Covers.{
  IsDone, completed_nodes_iff, covers_lem, is_covered, covered_leaves_lem,
}

-- A task that is done hangs off the node, or off one above it.
abbrev pub IsCovered : {F : Type 0} → List IssueNode → List (TaskRecord F) → String → Type 0
IsCovered nodes tasks id =
    (n a : IssueNode) × In n nodes × (n.node_id ≡ id) × Under nodes a n × IsDone tasks a.node_id

leaf-node :
    (nodes : List IssueNode) (id : String)
    → In id (leaf_node_ids nodes)
    → (n : IssueNode) × In n nodes × (id ≡ n.node_id)
unfolding leaf_node_ids
leaf-node nodes id i =
    (In-map (λ (x : IssueNode). x.node_id) id nodes).0 ((In-filter _ id (ids nodes)).0 i).0

module _ {F : Type 0} (nodes : List IssueNode) (tasks : List (TaskRecord F)) where
  covers-leaf :
      (id : String)
      → validate_tree_shape nodes ≡ ok tt
      → In id (leaf_node_ids nodes)
      → (b : Bool) × (covers nodes (completed_nodes tasks) (suc (length nodes)) (some id) ≡ some b)
        × ((b ≡ true) ↔ IsCovered nodes tasks id)
  covers-leaf id valid i =
      let (n, there, e) = leaf-node nodes id i in
      let (_, _, _, _, _, same) = validate-IsTree nodes valid in
      let (b, result, means) =
        covers_lem nodes (completed_nodes tasks) (suc (length nodes)) [] n same there
          (validate_walks nodes n valid there) in
      (
        b,
        subst (λ x. covers nodes (completed_nodes tasks) (suc (length nodes)) (some x) ≡ some b)
            (sym e) result,
        (
          λ t.
              let (a, up, done) = means.0 t in
              (n, a, there, sym e, up, (completed_nodes_iff tasks a.node_id).0 done),
          λ (m, a, m_in, m_id, up, done). means.1 (
            a,
            subst (Under nodes a) (same m n m_in there (m_id ∙ e)) up,
            (completed_nodes_iff tasks a.node_id).1 done,
          ),
        ),
      )

  -- On an issue tree that its validator accepts, `compute_coverage` ends, and counts as uncovered
  -- exactly the leaves for which no completed task hangs off the leaf or off a node above it;
  -- covered and uncovered leaves add up to the number of leaves.
  pub compute_coverage_lem :
      validate_tree_shape nodes ≡ ok tt
      → (c : IssueCoverage) × (compute_coverage nodes tasks ≡ some c)
        × (c.covered_leaf_count + length c.uncovered_node_ids ≡ c.leaf_count)
        × ((id : String)
            → In id c.uncovered_node_ids
              ↔ (In id (leaf_node_ids nodes) × ¬ IsCovered nodes tasks id))
  unfolding compute_coverage is_covered
  compute_coverage_lem valid =
      let leaves = leaf_node_ids nodes in
      let fuel = suc (length nodes) in
      let completed = completed_nodes tasks in
      let p = is_covered nodes completed fuel in
      let found =
        covered_leaves_lem nodes completed fuel leaves
          (λ id i. let (b, e, _) = covers-leaf id valid i in (b, e)) in
      let left =
        filter-same (λ leaf. not (mem leaf (filter p leaves))) (λ leaf. not (p leaf)) leaves
          (λ x i. ap not (mem-filter p leaves x i)) in
      (
        record {
          leaf_count = length leaves;
          covered_leaf_count = length (filter p leaves);
          uncovered_node_ids = filter (λ leaf. not (mem leaf (filter p leaves))) leaves;
          unattached_task_ids = unattached tasks;
        },
        ground arith,
        rw left (filter-split p leaves),
        λ id. (
          λ i.
              let (leaf, undone) =
                (In-filter (λ x. not (p x)) id leaves).0 (subst (In id) left i) in
              let (b, e, means) = covers-leaf id valid leaf in
              (leaf, λ c. let done = means.1 c in ground arith),
          λ (leaf, never).
              let (b, e, means) = covers-leaf id valid leaf in
              let undone : b ≡ false = elim (Bool-cases b) [
                | inl done ↦ absurd (never (means.0 done))
                | inr undone ↦ undone
              ] in
              subst (In id) (sym left)
                ((In-filter (λ x. not (p x)) id leaves).1 (leaf, ground arith)),
        ),
      )
