-- ===== src/IssueTree/Shape/Ends.antt =====
-- The validator of the issue tree ends, and looks up no parent that is missing.
use agent_advisor.Prelude.{
  ℕ, suc, ◌+◌, ◌≤◌, not, List, [], ◌∷◌, filter, length, err, ◌≢◌, inl, inr, refl, arith, String, In,
  Bool-cases, Option-cases, Result-cases, List-cases,
}
use agent_advisor.Prelude.Dict.{Dict, lookup}
use agent_advisor.Prelude.Fresh.{fresh-le-length}
use agent_advisor.IssueTree.{
  IssueNode, key_error, exhausted, ids, nodes_by_id, has_parent, check_root, check_parents,
  check_walks, walk, validate_tree_shape, duplicate_ids, is_root_type,
}
use agent_advisor.IssueTree.Shape.{HasParents, check_parents-HasParents, walk_ends, length-ids}

abbrev pub roots : List IssueNode → List IssueNode
roots nodes = filter (λ n. not (has_parent n)) nodes

check_walks_ends :
    (nodes some_nodes : List IssueNode) (fuel : ℕ)
    → HasParents (nodes_by_id nodes) nodes
    → length nodes + 1 ≤ fuel
    → ((n : IssueNode) → In n some_nodes → In n nodes)
    → (check_walks (nodes_by_id nodes) fuel some_nodes ≢ err exhausted)
      × ((p : String) → check_walks (nodes_by_id nodes) fuel some_nodes ≢ err (key_error p))
unfolding check_walks
check_walks_ends nodes [] fuel parents enough sub = (λ e. ground arith, λ p e. ground arith)
check_walks_ends nodes (n ∷ rest) fuel parents enough sub =
    let few = fresh-le-length (ids nodes) in
    let (ends, no_key) =
      walk_ends nodes parents fuel [] n (sub n (inl refl)) (omega (arith, few, length-ids nodes)) in
    let (rest_ends, rest_no_key) =
      check_walks_ends nodes rest fuel parents enough (λ m i. sub m (inr i)) in
    elim (Result-cases (walk (nodes_by_id nodes) fuel [] n)) [
      | inl (u, e) ↦ (λ x. rest_ends (ground arith), λ p x. rest_no_key p (ground arith))
      | inr (fault, e) ↦ (λ x. ends (ground arith), λ p x. no_key p (ground arith))
    ]

check_parents_lawful :
    (d : Dict IssueNode) (nodes : List IssueNode)
    → (check_parents d nodes ≢ err exhausted)
      × ((p : String) → check_parents d nodes ≢ err (key_error p))
unfolding check_parents
check_parents_lawful d [] = (λ e. ground arith, λ p e. ground arith)
check_parents_lawful d (n ∷ nodes) =
    let (a, b) = check_parents_lawful d nodes in
    elim (Option-cases n.parent_id) [
      | inl top ↦ (λ e. a (ground arith), λ p e. b p (ground arith))
      | inr (q, has) ↦ elim (Option-cases (lookup q d)) [
        | inl missing ↦ (λ e. ground arith, λ p e. ground arith)
        | inr (m, found) ↦ elim (Bool-cases (is_root_type n.node_type)) [
          | inl typed ↦ (λ e. ground arith, λ p e. ground arith)
          | inr plain ↦ (λ e. a (ground arith), λ p e. b p (ground arith))
        ]
      ]
    ]

check_root_lawful :
    (roots : List IssueNode)
    → (check_root roots ≢ err exhausted) × ((p : String) → check_root roots ≢ err (key_error p))
unfolding check_root
check_root_lawful [] = (λ e. ground arith, λ p e. ground arith)
check_root_lawful (r ∷ []) = (λ e. ground arith, λ p e. ground arith)
check_root_lawful (r ∷ s ∷ rest) = (λ e. ground arith, λ p e. ground arith)

-- On any list of nodes each of the validator's walks ends, within as many steps as there are nodes
-- and one more, and it never looks up a parent that is not there.
pub validate_ends :
    (nodes : List IssueNode)
    → (validate_tree_shape nodes ≢ err exhausted)
      × ((p : String) → validate_tree_shape nodes ≢ err (key_error p))
unfolding validate_tree_shape
validate_ends nodes = elim (List-cases (duplicate_ids (ids nodes))) [
  | inr (id, rest, e) ↦ (λ x. ground arith, λ p x. ground arith)
  | inl e ↦
      let (root_a, root_b) = check_root_lawful (roots nodes) in
      let (parents_a, parents_b) = check_parents_lawful (nodes_by_id nodes) nodes in
      elim (Result-cases (check_root (roots nodes))) [
        | inr (fault, r) ↦ (λ x. root_a (ground arith), λ p x. root_b p (ground arith))
        | inl (u, r) ↦ elim (Result-cases (check_parents (nodes_by_id nodes) nodes)) [
          | inr (fault, q) ↦ (λ x. parents_a (ground arith), λ p x. parents_b p (ground arith))
          | inl (v, q) ↦
              let (a, b) =
                check_walks_ends nodes nodes (suc (length nodes))
                  (check_parents-HasParents (nodes_by_id nodes) nodes (ground arith)) (omega arith)
                  (λ n i. i) in
              (λ x. a (ground arith), λ p x. b p (ground arith))
        ]
      ]
]
