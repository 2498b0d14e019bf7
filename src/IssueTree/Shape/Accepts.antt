-- ===== src/IssueTree/Shape/Accepts.antt =====
-- What the validator of the issue tree accepts.
use agent_advisor.Prelude.{
  ℕ, zero, suc, not, none, some, List, [], ◌∷◌, length, ok, ◌≡◌, inl, inr, ⊎_elim, refl, sym, ap,
  ◌∙◌, subst, arith, String, In, In-filter, Bool-cases, Option-cases, Result-cases, List-cases,
}
use agent_advisor.Prelude.Dict.{Dict, lookup, mem}
use agent_advisor.IssueTree.{
  IssueNode, ids, nodes_by_id, has_parent, check_root, check_parents, check_walks, walk,
  validate_tree_shape, duplicate_ids,
}
use agent_advisor.IssueTree.Shape.{nodes_by_id-HasEntries}
use agent_advisor.IssueTree.Shape.Ends.{roots}
use agent_advisor.IssueTree.Shape.Distinct.{same_node, count_le_one}

-- `a` is the node, or is above it.
pub data Under (nodes : List IssueNode) (a : IssueNode) : IssueNode → Type 0 where
  itself : Under nodes a a
  child :
      {n p : IssueNode}
      → In p nodes
      → n.parent_id ≡ some p.node_id
      → Under nodes a p
      → Under nodes a n

validate-passes :
    (nodes : List IssueNode)
    → validate_tree_shape nodes ≡ ok tt
    → (duplicate_ids (ids nodes) ≡ [])
      × (check_root (roots nodes) ≡ ok tt)
      × (check_parents (nodes_by_id nodes) nodes ≡ ok tt)
      × (check_walks (nodes_by_id nodes) (suc (length nodes)) nodes ≡ ok tt)
unfolding validate_tree_shape
validate-passes nodes h = elim (List-cases (duplicate_ids (ids nodes))) [
  | inr (id, rest, e) ↦ absurd (ground arith)
  | inl e ↦ elim (Result-cases (check_root (roots nodes))) [
    | inr (fault, r) ↦ absurd (ground arith)
    | inl (u, r) ↦ elim (Result-cases (check_parents (nodes_by_id nodes) nodes)) [
      | inr (fault, q) ↦ absurd (ground arith)
      | inl (v, q) ↦ (e, r, q, ground arith)
    ]
  ]
]

check_walks-each :
    (d : Dict IssueNode) (fuel : ℕ) (nodes : List IssueNode) (n : IssueNode)
    → check_walks d fuel nodes ≡ ok tt
    → In n nodes
    → walk d fuel [] n ≡ ok tt
unfolding check_walks
check_walks-each d fuel [] n h i = absurd i
check_walks-each d fuel (k ∷ nodes) n h i = elim (Result-cases (walk d fuel [] k)) [
  | inr (fault, e) ↦ absurd (ground arith)
  | inl (u, e) ↦
      ⊎_elim (λ same. subst (λ x. walk d fuel [] x ≡ ok tt) (sym same) e)
        (check_walks-each d fuel nodes n (ground arith)) i
]

walk-Under :
    (nodes : List IssueNode) (r : IssueNode) (fuel : ℕ) (seen : List String) (n : IssueNode)
    → ((m : IssueNode) → In m nodes → m.parent_id ≡ none → m ≡ r)
    → In n nodes
    → walk (nodes_by_id nodes) fuel seen n ≡ ok tt
    → Under nodes r n
unfolding walk
walk-Under nodes r zero seen n only i h = absurd (ground arith)
walk-Under nodes r (suc fuel) seen n only i h = elim (Option-cases n.parent_id) [
  | inl top ↦ subst (Under nodes r) (sym (only n i top)) itself
  | inr (p, e) ↦ elim (Bool-cases (mem n.node_id seen)) [
    | inl again ↦ absurd (ground arith)
    | inr new ↦ elim (Option-cases (lookup p (nodes_by_id nodes))) [
      | inl missing ↦ absurd (ground arith)
      | inr (next, found) ↦
          let (there, own) = nodes_by_id-HasEntries nodes p next found in
          child there (e ∙ ap some (sym own))
            (walk-Under nodes r fuel (n.node_id ∷ seen) next only there (ground arith))
    ]
  ]
]

-- One root, and all nodes under it, each id once.
abbrev pub IsTree : List IssueNode → Type 0
IsTree nodes =
    (r : IssueNode) × In r nodes
    × (r.parent_id ≡ none)
    × ((n : IssueNode) → In n nodes → n.parent_id ≡ none → n ≡ r)
    × ((n : IssueNode) → In n nodes → Under nodes r n)
    × ((n m : IssueNode) → In n nodes → In m nodes → n.node_id ≡ m.node_id → n ≡ m)

check_root-one : (rs : List IssueNode) → check_root rs ≡ ok tt → (r : IssueNode) × (rs ≡ r ∷ [])
unfolding check_root
check_root-one [] h = absurd (ground arith)
check_root-one (r ∷ []) h = (r, refl)
check_root-one (r ∷ s ∷ rest) h = absurd (ground arith)

-- What the validator accepts is a tree: one node is without a parent, every node is under it, and
-- no two nodes have the same id.
pub validate-IsTree : (nodes : List IssueNode) → validate_tree_shape nodes ≡ ok tt → IsTree nodes
validate-IsTree nodes h =
    let (none_twice, root_ok, parents_ok, walks_ok) = validate-passes nodes h in
    let (r, alone) = check_root-one (roots nodes) root_ok in
    let chosen = λ (n : IssueNode). In-filter (λ (x : IssueNode). not (has_parent x)) n nodes in
    let top = (chosen r).0 (subst (In r) (sym alone) (inl refl)) in
    let only : (n : IssueNode) → In n nodes → n.parent_id ≡ none → n ≡ r = λ n i e.
      ⊎_elim (λ same. same) (λ none_left. absurd none_left)
        (subst (In n) alone ((chosen n).1 (i, ground arith))) in
    (
      r,
      top.0,
      ground arith,
      only,
      λ n i.
          walk-Under nodes r (suc (length nodes)) [] n only i
            (check_walks-each (nodes_by_id nodes) (suc (length nodes)) nodes n walks_ok i),
      λ n m i j e. same_node nodes n m (λ id. count_le_one (ids nodes) id none_twice) i j e,
    )

-- Every walk of an accepted tree ended.
pub validate_walks :
    (nodes : List IssueNode) (n : IssueNode)
    → validate_tree_shape nodes ≡ ok tt
    → In n nodes
    → walk (nodes_by_id nodes) (suc (length nodes)) [] n ≡ ok tt
validate_walks nodes n h i =
    check_walks-each (nodes_by_id nodes) (suc (length nodes)) nodes n (validate-passes nodes h).3 i
