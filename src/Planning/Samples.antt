-- ===== src/Planning/Samples.antt =====
-- The theorem about the filter at a concrete input, and tests.
use agent_advisor.Prelude.{
  IsDistinct, ℕ, ◌+◌, ltb, leb, false, none, List, [], ◌∷◌, length, map, err, ok, ◌≡◌, refl, String,
  In,
}
use agent_advisor.Prelude.Text.{is_nil, text_leb}
use agent_advisor.Prelude.Sort.{sorted}
use agent_advisor.Prelude.Sort as Sort
use agent_advisor.Prelude.Dict.{lookup, insert, mem, unique}
use agent_advisor.Prelude.Decimal.{padded, numeral}
use agent_advisor.Artifacts.{high, researcher}
use agent_advisor.CaseStore.Counters.{next_id, loaded_counters}
use agent_advisor.TaskGraph.{Board, cycle_error}
use agent_advisor.TaskGraph.Cycle.{add_tasks}
use agent_advisor.Planning.{
  TaskProposal, Limits, Rejection, near_duplicate_question, normalize_question_for_dedupe,
  filter_task_proposals, filter_from, rejected_for, missing_fields, question_key, tasks_of, ids_at,
  id_at, record_of,
}
use agent_advisor.Planning.Filter.{HasFields, filter_task_proposals_lem}

abbrev as_is : String → String
as_is s = s

-- Floats in hundredths.
abbrev limits : Limits ℕ
limits = record { below_zero = λ n. false; above_one = λ n. ltb 100 n; at_most_zero = λ n. leb n 0 }

abbrev proposal : String → List ℕ → TaskProposal ℕ
proposal question indices = record {
  task = record {
    role = researcher;
    issue_node_id = none;
    question = question;
    materiality = high;
    probability_of_changing_conclusion = 50;
    estimated_cost = 100;
    inputs = "decision_spec" ∷ [];
    priority_score = 50;
  };
  depends_on_indices = indices;
  resolves_objections = [];
}

spaces : normalize_question_for_dedupe as_is " what is--the cost? " ≡ "what is the cost"
unfolding normalize_question_for_dedupe
spaces = refl

abbrev three : List (TaskProposal ℕ)
three =
    proposal "how large is it" []
    ∷ proposal "how large is it?" []
    ∷ proposal "what does it cost" []
    ∷ []

duplicate :
    map (λ (r : Rejection). r.reason) (filter_task_proposals as_is limits three).1
    ≡ near_duplicate_question 0 ∷ []
unfolding filter_task_proposals filter_from rejected_for missing_fields lookup insert
    normalize_question_for_dedupe
duplicate = refl

-- The second proposal depends on the first, which is rejected; the index then names its own task.
abbrev dependent : List (TaskProposal ℕ)
dependent = proposal "??" [] ∷ proposal "what does it cost" (0 ∷ []) ∷ []

own_edge :
    tasks_of (filter_task_proposals as_is limits dependent).0 [] [] []
    ≡ ok (
      record_of "T-001" (proposal "what does it cost" []).task ∷ [],
      ("T-001", "T-001" ∷ []) ∷ [],
      ("T-", 1) ∷ [],
    )
unfolding filter_task_proposals filter_from rejected_for missing_fields lookup insert
    normalize_question_for_dedupe tasks_of next_id loaded_counters padded numeral mem ids_at id_at
own_edge = refl

abbrev no_tasks : Board ℕ ℕ
no_tasks = record {
  tasks = [];
  graph = record { task_ids = []; edges = []; failed_reasons = [] };
  saved = record { task_ids = []; edges = []; failed_reasons = [] };
  trail = [];
  rest = 0;
}

own_edge-refused :
    add_tasks
      (record_of "T-001" (proposal "what does it cost" []).task ∷ [])
      (("T-001", "T-001" ∷ []) ∷ [])
      no_tasks
    ≡ err (cycle_error ("T-001" ∷ "T-001" ∷ []), no_tasks)
unfolding add_tasks sorted Sort.insert unique mem lookup insert text_leb
own_edge-refused = refl

filter_task_proposals_lem_example :
    (length (filter_task_proposals as_is limits three).0
        + length (filter_task_proposals as_is limits three).1
      ≡ length three)
    × ((p : TaskProposal ℕ)
        → In p (filter_task_proposals as_is limits three).0
        → In p three × HasFields as_is limits p × (is_nil (question_key as_is limits p) ≡ false))
    × IsDistinct (map (question_key as_is limits) (filter_task_proposals as_is limits three).0)
    × ((p : TaskProposal ℕ)
        → In p three
        → HasFields as_is limits p
        → is_nil (question_key as_is limits p) ≡ false
        → In
            (question_key as_is limits p)
            (map (question_key as_is limits) (filter_task_proposals as_is limits three).0))
filter_task_proposals_lem_example = filter_task_proposals_lem as_is limits three
