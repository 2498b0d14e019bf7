-- ===== src/IssueTree/Samples.antt =====
-- The theorems about the issue tree at concrete inputs, and tests.
use agent_advisor.Prelude.{
  ℕ, ◌+◌, Option, none, some, List, [], ◌∷◌, length, ok, err, ◌≡◌, ◌≢◌, ◌↔◌, refl, String, In,
}
use agent_advisor.Prelude.Text.{text_leb}
use agent_advisor.Prelude.Sort.{sorted}
use agent_advisor.Prelude.Sort as Sort
use agent_advisor.Prelude.Dict.{lookup, insert, mem, unique}
use agent_advisor.Artifacts.{high, TaskRecord, completed}
use agent_advisor.TaskGraph.Samples.{task_named}
use agent_advisor.IssueTree.{
  IssueNode, IssueNodeType, IssueCoverage, root, driver, validate_tree_shape, compute_coverage,
  leaf_node_ids, cycle_at, exhausted, key_error, duplicate_ids, count_of, parent_of,
}
use agent_advisor.IssueTree.Shape.Accepts.{IsTree, validate-IsTree}
use agent_advisor.IssueTree.Shape.Ends.{validate_ends}
use agent_advisor.IssueTree.Coverage.{IsCovered, compute_coverage_lem}

abbrev node : String → Option String → IssueNodeType → IssueNode
node id parent kind = record {
  node_id = id;
  parent_id = parent;
  question = "what drives the cost";
  node_type = kind;
  materiality = high;
  resolution_criteria = "a number";
}

abbrev tree : List IssueNode
tree =
    node "I-1" none root
    ∷ node "I-2" (some "I-1") driver
    ∷ node "I-3" (some "I-1") driver
    ∷ node "I-4" (some "I-2") driver
    ∷ []

valid : validate_tree_shape tree ≡ ok tt
unfolding validate_tree_shape duplicate_ids count_of sorted Sort.insert unique mem lookup insert
    text_leb
valid = refl

abbrev ring : List IssueNode
ring = node "I-1" none root ∷ node "I-2" (some "I-3") driver ∷ node "I-3" (some "I-2") driver ∷ []

ring-refused : validate_tree_shape ring ≡ err (cycle_at "I-2")
unfolding validate_tree_shape duplicate_ids count_of sorted Sort.insert unique mem lookup insert
    text_leb
ring-refused = refl

abbrev tasks : List (TaskRecord ℕ)
tasks = record (task_named "T-1" completed) { issue_node_id = some "I-2" } ∷ []

half :
    (c : IssueCoverage) × (compute_coverage tree tasks ≡ some c)
    × (c.uncovered_node_ids ≡ "I-3" ∷ [])
unfolding compute_coverage mem lookup insert parent_of
half = (_, refl, refl)

validate-IsTree_example : IsTree tree
validate-IsTree_example = validate-IsTree tree valid

compute_coverage_lem_example :
    (c : IssueCoverage) × (compute_coverage tree tasks ≡ some c)
    × (c.covered_leaf_count + length c.uncovered_node_ids ≡ c.leaf_count)
    × ((id : String)
        → In id c.uncovered_node_ids ↔ (In id (leaf_node_ids tree) × ¬ IsCovered tree tasks id))
compute_coverage_lem_example = compute_coverage_lem tree tasks valid

validate_ends_example :
    (validate_tree_shape ring ≢ err exhausted)
    × ((p : String) → validate_tree_shape ring ≢ err (key_error p))
validate_ends_example = validate_ends ring
