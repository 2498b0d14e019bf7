-- ===== src/IssueTree/Shape.antt =====
-- The validator ends, and what it accepts is a tree: every node's parents lead to the one root.
pub mod Ends
pub mod Distinct
pub mod Accepts
use agent_advisor.Prelude.{
  ℕ, zero, suc, ◌+◌, ◌≤◌, Bool, true, false, not, Option, none, some, List, [], ◌∷◌, map, filter,
  length, Result, ok, err, ◌>>◌, ◌≡◌, ◌≢◌, ◌⊎◌, inl, inr, refl, sym, ap, ◌∙◌, subst, arith, String,
  if◌then◌else◌, In, In-map, In-filter, Bool-cases, Option-cases, Result-cases, some_inj,
}
use agent_advisor.Prelude.Text.{◌==◌, eq_iff}
use agent_advisor.Prelude.Dict.{Dict, lookup, insert, lookup-insert, mem, mem_iff}
use agent_advisor.Prelude.Fresh.{fresh, fresh_less, fresh-le-length}
use agent_advisor.IssueTree.{
  IssueNode, Invalid, key_error, exhausted, root_count, ids, add_each, nodes_by_id, has_parent,
  check_root, check_parents, check_walks, walk, validate_tree_shape, parent_of, duplicate_ids,
  is_root_type,
}

-- Each entry of the dictionary is a node under its id.
abbrev HasEntries : List IssueNode → Dict IssueNode → Type 0
HasEntries nodes d =
    (id : String) (n : IssueNode) → lookup id d ≡ some n → In n nodes × (n.node_id ≡ id)

add_each-HasEntries :
    (all_nodes nodes : List IssueNode) (d : Dict IssueNode)
    → ((n : IssueNode) → In n nodes → In n all_nodes)
    → HasEntries all_nodes d
    → HasEntries all_nodes (add_each d nodes)
unfolding add_each
add_each-HasEntries all_nodes [] d sub h = h
add_each-HasEntries all_nodes (n ∷ nodes) d sub h =
    add_each-HasEntries all_nodes nodes (insert n.node_id n d) (λ m i. sub m (inr i))
      λ id m e. elim (Bool-cases (n.node_id == id)) [
        | inl here ↦
            let own : n ≡ m = some_inj (ground (arith, lookup-insert n.node_id id n d)) in
            (
              subst (λ x. In x all_nodes) own (sub n (inl refl)),
              ap (λ (x : IssueNode). x.node_id) (sym own) ∙ (eq_iff n.node_id id).0 here,
            )
        | inr there ↦ h id m (ground (arith, lookup-insert n.node_id id n d))
      ]

pub nodes_by_id-HasEntries :
    (nodes : List IssueNode) (id : String) (n : IssueNode)
    → lookup id (nodes_by_id nodes) ≡ some n
    → In n nodes × (n.node_id ≡ id)
unfolding lookup
nodes_by_id-HasEntries nodes =
    add_each-HasEntries nodes nodes [] (λ n i. i) (λ id n e. absurd (ground arith))

-- A key stays, and each node's id becomes one.
add_each-keeps :
    (nodes : List IssueNode) (d : Dict IssueNode) (id : String) (n : IssueNode)
    → lookup id d ≡ some n
    → (m : IssueNode) × (lookup id (add_each d nodes) ≡ some m)
unfolding add_each
add_each-keeps [] d id n e = (n, e)
add_each-keeps (k ∷ nodes) d id n e = elim (Bool-cases (k.node_id == id)) [
  | inl here ↦
      add_each-keeps nodes (insert k.node_id k d) id k
        (ground (arith, lookup-insert k.node_id id k d))
  | inr there ↦
      add_each-keeps nodes (insert k.node_id k d) id n
        (ground (arith, lookup-insert k.node_id id k d))
]

add_each-lookup :
    (nodes : List IssueNode) (d : Dict IssueNode) (n : IssueNode)
    → In n nodes
    → (m : IssueNode) × (lookup n.node_id (add_each d nodes) ≡ some m)
unfolding add_each
add_each-lookup [] d n i = absurd i
add_each-lookup (k ∷ nodes) d n (inl e) =
    subst
      (λ (x : IssueNode).
        (m : IssueNode) × (lookup x.node_id (add_each (insert k.node_id k d) nodes) ≡ some m))
      (sym e)
      (add_each-keeps nodes (insert k.node_id k d) k.node_id k
        (ground (arith, lookup-insert k.node_id k.node_id k d, eq_iff k.node_id k.node_id)))
add_each-lookup (k ∷ nodes) d n (inr i) = add_each-lookup nodes (insert k.node_id k d) n i

pub nodes_by_id-lookup :
    (nodes : List IssueNode) (n : IssueNode)
    → In n nodes
    → (m : IssueNode) × (lookup n.node_id (nodes_by_id nodes) ≡ some m)
nodes_by_id-lookup nodes n i = add_each-lookup nodes [] n i

-- Every parent is a node.
abbrev pub HasParents : Dict IssueNode → List IssueNode → Type 0
HasParents d nodes =
    (n : IssueNode) (p : String)
    → In n nodes
    → n.parent_id ≡ some p
    → (m : IssueNode) × (lookup p d ≡ some m)

check_parents-tail :
    (d : Dict IssueNode) (k : IssueNode) (nodes : List IssueNode)
    → check_parents d (k ∷ nodes) ≡ ok tt
    → check_parents d nodes ≡ ok tt
unfolding check_parents
check_parents-tail d k nodes h = elim (Option-cases k.parent_id) [
  | inl top ↦ ground arith
  | inr (p, e) ↦ elim (Option-cases (lookup p d)) [
    | inl missing ↦ absurd (ground arith)
    | inr (m, found) ↦ elim (Bool-cases (is_root_type k.node_type)) [
      | inl typed ↦ absurd (ground arith)
      | inr plain ↦ ground arith
    ]
  ]
]

pub check_parents-HasParents :
    (d : Dict IssueNode) (nodes : List IssueNode)
    → check_parents d nodes ≡ ok tt
    → HasParents d nodes
unfolding check_parents
check_parents-HasParents d [] h n p i e = absurd i
check_parents-HasParents d (k ∷ nodes) h n p (inl here) e = elim (Option-cases (lookup p d)) [
  | inr found ↦ found
  | inl missing ↦
      let own : k.parent_id ≡ some p = subst (λ (x : IssueNode). x.parent_id ≡ some p) here e in
      absurd (ground arith)
]
check_parents-HasParents d (k ∷ nodes) h n p (inr i) e =
    check_parents-HasParents d nodes (check_parents-tail d k nodes h) n p i e

pub length-ids : (nodes : List IssueNode) → length (ids nodes) ≡ length nodes
length-ids [] = refl
length-ids (n ∷ nodes) = omega (arith, length-ids nodes)

module _ (nodes : List IssueNode) (parents_known : HasParents (nodes_by_id nodes) nodes) where
  In-ids : (n : IssueNode) → In n nodes → In n.node_id (ids nodes)
  In-ids n i = (In-map (λ (x : IssueNode). x.node_id) n.node_id nodes).1 (n, i, refl)

  pub walk_ends :
      (fuel : ℕ) (seen : List String) (n : IssueNode)
      → In n nodes
      → fresh (ids nodes) seen + 1 ≤ fuel
      → (walk (nodes_by_id nodes) fuel seen n ≢ err exhausted)
        × ((p : String) → walk (nodes_by_id nodes) fuel seen n ≢ err (key_error p))
  unfolding walk
  walk_ends zero seen n i enough = absurd (omega arith)
  walk_ends (suc fuel) seen n i enough = elim (Option-cases n.parent_id) [
    | inl top ↦ (λ e. ground arith, λ p e. ground arith)
    | inr (p, e) ↦
        let (next, found) = parents_known n p i e in
        elim (Bool-cases (mem n.node_id seen)) [
          | inl again ↦ (λ x. ground arith, λ q x. ground arith)
          | inr new ↦
              let less = fresh_less (ids nodes) n.node_id seen (In-ids n i) new in
              let (enough_fuel, no_key) =
                walk_ends fuel (n.node_id ∷ seen) next (nodes_by_id-HasEntries nodes p next found).0
                  (omega (arith, less, enough)) in
              (λ x. enough_fuel (ground arith), λ q x. no_key q (ground arith))
        ]
  ]
