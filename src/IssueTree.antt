-- ===== src/IssueTree.antt =====
-- orchestrator/artifacts/issue_tree.py and issue_tree.py: the tree of questions that a decision is
-- split into, its validator, and how much of it completed tasks cover.
pub mod Shape
pub mod Covers
pub mod Coverage
mod Samples
use agent_advisor.Prelude.{
  ℕ, zero, suc, Bool, true, false, not, ltb, Option, none, some, List, [], ◌∷◌, map, filter, length,
  Result, ok, err, ◌>>◌, String, if◌then◌else◌,
}
use agent_advisor.Prelude.Text.{◌==◌, text_leb}
use agent_advisor.Prelude.Sort.{sorted}
use agent_advisor.Prelude.Dict.{Dict, lookup, insert, mem, unique}
use agent_advisor.Artifacts.{Level, TaskRecord, is_completed}

pub data IssueNodeType : Type 0 where
  root driver sub_question : IssueNodeType

pub record IssueNode : Type 0 where
  pub node_id : String
  pub parent_id : Option String
  pub question : String
  pub node_type : IssueNodeType
  pub materiality : Level
  pub resolution_criteria : String

-- The ways in which the validator fails. `key_error` is Python's; `exhausted` is not, and stands for
-- a walk that the fuel does not suffice for.
pub data Invalid : Type 0 where
  duplicate_node_ids : List String → Invalid
  root_count : ℕ → Invalid
  root_type : Invalid
  unknown_parent : (node parent : String) → Invalid
  typed_root : (node : String) → Invalid
  cycle_at : String → Invalid
  key_error : String → Invalid
  exhausted : Invalid

abbrev pub Checked : Type 0
Checked = Result Invalid (Unit {0})

abbrev pub is_root_type : IssueNodeType → Bool
is_root_type root = true
is_root_type _ = false

abbrev pub ids : List IssueNode → List String
ids nodes = map (λ n. n.node_id) nodes

-- Counter(…)[id]
unfoldable pub count_of : String → List String → ℕ
count_of id [] = 0
count_of id (x ∷ xs) = let rest = count_of id xs in if x == id then suc rest else rest

unfoldable pub duplicate_ids : List String → List String
unfolding count_of
duplicate_ids all_ids =
    sorted text_leb (filter (λ id. ltb 1 (count_of id all_ids)) (unique all_ids))

-- {node.node_id: node for node in nodes}, from a dictionary that is there
unfoldable pub add_each : Dict IssueNode → List IssueNode → Dict IssueNode
unfolding insert
add_each d [] = d
add_each d (n ∷ nodes) = add_each (insert n.node_id n d) nodes

abbrev pub nodes_by_id : List IssueNode → Dict IssueNode
nodes_by_id nodes = add_each [] nodes

abbrev pub has_parent : IssueNode → Bool
has_parent n = elim n.parent_id [ none ↦ false | some _ ↦ true ]

unfoldable pub check_root : List IssueNode → Checked
check_root [] = err (root_count 0)
check_root (r ∷ []) = if not (is_root_type r.node_type) then err root_type else ok tt
check_root (_ ∷ _ ∷ rest) = err (root_count (suc (suc (length rest))))

unfoldable pub check_parents : Dict IssueNode → List IssueNode → Checked
unfolding lookup
check_parents d [] = ok tt
check_parents d (n ∷ nodes) =
    let rest = check_parents d nodes in
    elim n.parent_id [
      | none ↦ rest
      | some p ↦ elim (lookup p d) [
        | none ↦ err (unknown_parent n.node_id p)
        | some _ ↦ if is_root_type n.node_type then err (typed_root n.node_id) else rest
      ]
    ]

-- The walk from a node to the root.
unfoldable pub walk : Dict IssueNode → ℕ → (seen : List String) → IssueNode → Checked
unfolding mem lookup
walk d zero seen cursor = err exhausted
walk d (suc fuel) seen cursor =
    let on = λ (next : IssueNode). walk d fuel (cursor.node_id ∷ seen) next in
    elim cursor.parent_id [
      | none ↦ ok tt
      | some p ↦
          if mem cursor.node_id seen
          then err (cycle_at cursor.node_id)
          else elim (lookup p d) [ none ↦ err (key_error p) | some next ↦ on next ]
    ]

unfoldable pub check_walks : Dict IssueNode → ℕ → List IssueNode → Checked
unfolding walk
check_walks d fuel [] = ok tt
check_walks d fuel (n ∷ nodes) = let rest = check_walks d fuel nodes in walk d fuel [] n >> rest

-- A walk that goes on puts a new id in `seen` each time.
unfoldable pub validate_tree_shape : List IssueNode → Checked
unfolding add_each check_root check_parents check_walks
validate_tree_shape nodes = elim (duplicate_ids (ids nodes)) [
  | id ∷ rest ↦ err (duplicate_node_ids (id ∷ rest))
  | [] ↦
      check_root (filter (λ n. not (has_parent n)) nodes)
      >> check_parents (nodes_by_id nodes) nodes
      >> check_walks (nodes_by_id nodes) (suc (length nodes)) nodes
]

-- [node.parent_id for node in nodes if node.parent_id is not None]
abbrev parents : List IssueNode → List String
parents [] = []
parents (n ∷ nodes) =
    let rest = parents nodes in elim n.parent_id [ none ↦ rest | some p ↦ p ∷ rest ]

unfoldable pub leaf_node_ids : List IssueNode → List String
unfolding mem
leaf_node_ids nodes = filter (λ id. not (mem id (parents nodes))) (ids nodes)

module _ {F : Type 0} where
  -- The nodes of the completed tasks.
  unfoldable pub completed_nodes : List (TaskRecord F) → List String
  completed_nodes [] = []
  completed_nodes (t ∷ tasks) =
      let rest = completed_nodes tasks in
      elim t.issue_node_id [
        | none ↦ rest
        | some id ↦ if is_completed t.status then id ∷ rest else rest
      ]

  unfoldable pub unattached : List (TaskRecord F) → List String
  unattached [] = []
  unattached (t ∷ tasks) =
      let rest = unattached tasks in
      elim t.issue_node_id [ none ↦ t.task_id ∷ rest | some _ ↦ rest ]

-- parent_by_id.get(id)
unfoldable pub parent_of : Dict IssueNode → String → Option String
unfolding lookup
parent_of d id = elim (lookup id d) [ none ↦ none | some n ↦ n.parent_id ]

-- `covers`: `none` when the fuel does not suffice.
unfoldable pub covers :
    List IssueNode → (completed : List String) → ℕ → (cursor : Option String) → Option Bool
unfolding mem parent_of add_each
covers nodes completed fuel none = some false
covers nodes completed zero (some id) = none
covers nodes completed (suc fuel) (some id) =
    let on = λ (next : Option String). covers nodes completed fuel next in
    if not (mem id (ids nodes))
    then some false
    else if mem id completed
    then some true
    else on (parent_of (nodes_by_id nodes) id)

unfoldable pub covered_leaves :
    List IssueNode → (completed : List String) → ℕ → List String → Option (List String)
unfolding covers
covered_leaves nodes completed fuel [] = some []
covered_leaves nodes completed fuel (leaf ∷ leaves) =
    let rest = covered_leaves nodes completed fuel leaves in
    elim (covers nodes completed fuel (some leaf)) [
      | none ↦ none
      | some covered ↦ elim rest [
        | none ↦ none
        | some others ↦ some (if covered then leaf ∷ others else others)
      ]
    ]

-- IssueCoverage. The share is a float, the quotient of the two counts.
pub record IssueCoverage : Type 0 where
  pub leaf_count : ℕ
  pub covered_leaf_count : ℕ
  pub uncovered_node_ids : List String
  pub unattached_task_ids : List String

module _ {F : Type 0} where
  unfoldable pub compute_coverage : List IssueNode → List (TaskRecord F) → Option IssueCoverage
  unfolding leaf_node_ids completed_nodes unattached covered_leaves mem
  compute_coverage nodes tasks =
      let leaves = leaf_node_ids nodes in
      elim (covered_leaves nodes (completed_nodes tasks) (suc (length nodes)) leaves) [
        | none ↦ none
        | some covered ↦ some (record {
          leaf_count = length leaves;
          covered_leaf_count = length covered;
          uncovered_node_ids = filter (λ leaf. not (mem leaf covered)) leaves;
          unattached_task_ids = unattached tasks;
        })
      ]
