-- ===== src/Planning.antt =====
-- orchestrator/planning.py, and the tasks that handle_planning and handle_repair of
-- orchestrator/stages.py make of the proposals. `nfkc_lower` is Python's NFKC normalisation and
-- `lower`; `F` is the type of floats. A role of the schema is a known one.
pub mod Filter
mod Samples
use agent_advisor.Prelude.{
  ℕ, zero, suc, ltb, leb, Bool, true, false, not, ◌&&◌, ◌||◌, Option, none, some, List, [], ◌∷◌,
  ◌++◌, map, length, Result, ok, err, ◌>>=◌, String, if◌then◌else◌,
}
use agent_advisor.Prelude.Text.{strip_left, strip_right, replaced, is_nil, is_space}
use agent_advisor.Prelude.Dict.{Dict, lookup, insert}
use agent_advisor.Artifacts.{Level, TaskRole, TaskRecord, planned}
use agent_advisor.CaseStore.{StoreError}
use agent_advisor.CaseStore.Counters.{next_id}

pub data PlanningMode : Type 0 where
  initial repair : PlanningMode

-- TaskProposalRecord: the texts that only a worker reads are left out.
pub record TaskProposalRecord (F : Type 0) : Type 0 where
  pub role : TaskRole
  pub issue_node_id : Option String
  pub question : String
  pub materiality : Level
  pub probability_of_changing_conclusion : F
  pub estimated_cost : F
  pub inputs : List String
  pub priority_score : ℕ

pub record TaskProposal (F : Type 0) : Type 0 where
  pub task : TaskProposalRecord F
  pub depends_on_indices : List ℕ
  pub resolves_objections : List String

pub data Reason : Type 0 where
  missing_priority_fields : List String → Reason
  missing_question : Reason
  near_duplicate_question : (duplicate_of_index : ℕ) → Reason

-- ProposalRejection
pub record Rejection : Type 0 where
  pub proposal_index : ℕ
  pub reason : Reason
  pub question : String
  pub normalized_question : String

-- The comparisons of floats that the filter makes.
pub record Limits (F : Type 0) : Type 0 where
  pub below_zero : F → Bool
  pub above_one : F → Bool
  pub at_most_zero : F → Bool

-- [a-z0-9]
abbrev pub is_alnum : ℕ → Bool
is_alnum c = (leb b'a' c && leb c b'z') || (leb b'0' c && leb c b'9')

unfoldable pub normalize_question_for_dedupe : (nfkc_lower : String → String) → String → String
unfolding strip_left strip_right replaced
normalize_question_for_dedupe nfkc_lower question =
    let spaced = replaced is_alnum " " false (nfkc_lower question) in
    strip_right is_space (strip_left is_space (replaced (λ c. not (is_space c)) " " false spaced))

module _ {F : Type 0} (limits : Limits F) where
  -- _missing_priority_fields; a materiality of the schema is a text that is not empty.
  unfoldable pub missing_fields : TaskProposalRecord F → List String
  missing_fields task =
      (if limits.below_zero task.probability_of_changing_conclusion
          || limits.above_one task.probability_of_changing_conclusion
        then "probability_of_changing_conclusion" ∷ []
        else [])
      ++ (if limits.at_most_zero task.estimated_cost then "estimated_cost" ∷ [] else [])

module _ (nfkc_lower : String → String) {F : Type 0} (limits : Limits F) where
  abbrev pub question_key : TaskProposal F → String
  question_key p = normalize_question_for_dedupe nfkc_lower p.task.question

  -- The reason against a proposal, after those whose questions are in `seen`.
  unfoldable pub rejected_for : (seen : Dict ℕ) → TaskProposal F → Option Reason
  unfolding missing_fields lookup
  rejected_for seen p = elim (missing_fields limits p.task) [
    | field ∷ fields ↦ some (missing_priority_fields (field ∷ fields))
    | [] ↦
        if is_nil (question_key p)
        then some missing_question
        else elim (lookup (question_key p) seen) [
          | some index ↦ some (near_duplicate_question index)
          | none ↦ none
        ]
  ]

  -- The loop, from a proposal's index on: the accepted proposals, and the rejections.
  unfoldable pub filter_from :
      (proposal_index : ℕ) (seen : Dict ℕ)
      → List (TaskProposal F)
      → List (TaskProposal F) × List Rejection
  unfolding rejected_for insert
  filter_from index seen [] = ([], [])
  filter_from index seen (p ∷ proposals) =
      let rest = λ (seen' : Dict ℕ). filter_from (suc index) seen' proposals in
      elim (rejected_for seen p) [
        | some reason ↦
            let rejection : Rejection = record {
              proposal_index = index;
              reason = reason;
              question = p.task.question;
              normalized_question = question_key p;
            } in
            ((rest seen).0, rejection ∷ (rest seen).1)
        | none ↦ let others = rest (insert (question_key p) index seen) in (p ∷ others.0, others.1)
      ]

  unfoldable pub filter_task_proposals :
      List (TaskProposal F) → List (TaskProposal F) × List Rejection
  unfolding filter_from
  filter_task_proposals proposals = filter_from 0 [] proposals

-- task_records[idx].task_id, where there is one
unfoldable pub id_at : {F : Type 0} → List (TaskRecord F) → ℕ → Option String
id_at [] n = none
id_at (t ∷ tasks) zero = some t.task_id
id_at (t ∷ tasks) (suc n) = id_at tasks n

-- [task_records[idx].task_id for idx in indices if idx < len(task_records)]
unfoldable pub ids_at : {F : Type 0} → List (TaskRecord F) → List ℕ → List String
unfolding id_at
ids_at tasks [] = []
ids_at tasks (index ∷ indices) =
    let rest = ids_at tasks indices in
    elim (id_at tasks index) [ none ↦ rest | some id ↦ id ∷ rest ]

abbrev pub record_of : {F : Type 0} → String → TaskProposalRecord F → TaskRecord F
record_of id task = record {
  task_id = id;
  role = task.role;
  issue_node_id = task.issue_node_id;
  question = task.question;
  materiality = task.materiality;
  probability_of_changing_conclusion = task.probability_of_changing_conclusion;
  estimated_cost = task.estimated_cost;
  inputs = task.inputs;
  status = planned;
  priority_score = task.priority_score;
}

abbrev with_edge : String → List String → Dict (List String) → Dict (List String)
with_edge id [] edges = edges
with_edge id (dep ∷ deps) edges = insert id (dep ∷ deps) edges

-- The loop over the accepted proposals: the records so far, the edges, and the counters.
module _ {F : Type 0} where
  unfoldable pub tasks_of :
      List (TaskProposal F)
      → List (TaskRecord F)
      → Dict (List String)
      → Dict ℕ
      → Result StoreError (List (TaskRecord F) × Dict (List String) × Dict ℕ)
  unfolding next_id ids_at insert
  tasks_of [] task_records edges counters = ok (task_records, edges, counters)
  tasks_of (p ∷ proposals) task_records edges counters =
      let rest = λ (records : List (TaskRecord F)) (more : Dict (List String)) (later : Dict ℕ).
        tasks_of proposals records more later in
      next_id "T-" counters >>= λ (id, later).
      let records = task_records ++ record_of id p.task ∷ [] in
      rest records (with_edge id (ids_at records p.depends_on_indices) edges) later
