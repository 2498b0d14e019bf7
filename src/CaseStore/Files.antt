-- ===== src/CaseStore/Files.antt =====
-- The files of a case: write_artifact, read_artifact and list_artifacts.
use agent_advisor.Prelude.{
  Option, none, some, List, [], ◌∷◌, map, filter, Result, ok, err, ◌>>=◌, String,
}
use agent_advisor.Prelude.Text.{text_leb}
use agent_advisor.Prelude.Sort.{sorted}
use agent_advisor.CaseStore.Disk.{
  Case, Platform, fetch, read_text, write_text, ends_with, load_model_from_yaml_text,
  dump_model_to_yaml_text,
}
use agent_advisor.CaseStore.{
  Kind, Folder, FilePath, StoreError, Model, at, path_for_write, path_for_read, not_storable,
  not_found, intake_record, framing_approval, issue_tree, evidence_critique, track_divergence,
  premortem_report, verification_worksheet, case_memory_digest, prior_evidence_digest,
  decision_spec, preliminary_recommendation, final_recommendation, final_approval,
  task_proposal_batch, audit_finding, ach_matrix, monitoring_plan, review_report,
  independent_review, disclosure_record, gate_report, thesis_revision, analysis_result,
  evidence_record, assumption_record, objection_record, task_record, evidence_batch,
  objection_batch, assumption_batch, other, shared, outputs, gates, thesis, analysis, evidence,
  assumptions, objections, tasks,
}

-- _artifact_dir_for_list
unfoldable pub folder_for_list : Kind → Result StoreError Folder
folder_for_list gate_report = ok gates
folder_for_list thesis_revision = ok thesis
folder_for_list intake_record = ok shared
folder_for_list framing_approval = ok shared
folder_for_list issue_tree = err not_storable
folder_for_list evidence_critique = err not_storable
folder_for_list track_divergence = err not_storable
folder_for_list premortem_report = err not_storable
folder_for_list verification_worksheet = err not_storable
folder_for_list case_memory_digest = err not_storable
folder_for_list prior_evidence_digest = err not_storable
folder_for_list decision_spec = ok shared
folder_for_list preliminary_recommendation = ok shared
folder_for_list final_recommendation = ok outputs
folder_for_list final_approval = ok outputs
folder_for_list task_proposal_batch = ok shared
folder_for_list audit_finding = ok shared
folder_for_list ach_matrix = ok shared
folder_for_list monitoring_plan = ok outputs
folder_for_list review_report = ok outputs
folder_for_list independent_review = ok outputs
folder_for_list disclosure_record = ok shared
folder_for_list analysis_result = ok analysis
folder_for_list evidence_record = ok evidence
folder_for_list assumption_record = ok assumptions
folder_for_list objection_record = ok objections
folder_for_list task_record = ok tasks
folder_for_list evidence_batch = err not_storable
folder_for_list objection_batch = err not_storable
folder_for_list assumption_batch = err not_storable
folder_for_list other = err not_storable

-- The file at one fixed path, whose name is plain.
abbrev pub list_one : FilePath → Case → List String
list_one path c = elim (fetch path c) [ none ↦ [] | some text ↦ text ∷ [] ]

-- sorted(folder.glob("*" + suffix))
unfoldable pub list_glob : Folder → (suffix : String) → Case → List String
unfolding ends_with
list_glob folder suffix c =
    map (λ e. e.1)
      (sorted (λ a b. text_leb a.0 b.0) (filter (λ e. ends_with suffix e.0) (c.files folder)))

-- The files that `list_artifacts` loads.
unfoldable pub texts_for_list : Kind → Case → Result StoreError (List String)
unfolding list_glob folder_for_list
texts_for_list intake_record c = ok (list_one (at shared "intake_record.yaml") c)
texts_for_list framing_approval c = ok (list_one (at shared "framing_approval.yaml") c)
texts_for_list issue_tree c = ok (list_one (at shared "issue_tree.yaml") c)
texts_for_list evidence_critique c = ok (list_one (at shared "evidence_critique.yaml") c)
texts_for_list track_divergence c = ok (list_one (at shared "track_divergence.yaml") c)
texts_for_list premortem_report c = ok (list_one (at shared "premortem_report.yaml") c)
texts_for_list verification_worksheet c = ok (list_one (at shared "verification_worksheet.yaml") c)
texts_for_list case_memory_digest c = ok (list_one (at shared "case_memory_digest.yaml") c)
texts_for_list prior_evidence_digest c = ok (list_one (at shared "prior_evidence_digest.yaml") c)
texts_for_list decision_spec c = ok (list_one (at shared "decision_spec.yaml") c)
texts_for_list preliminary_recommendation c =
    ok (list_one (at shared "preliminary_recommendation.yaml") c)
texts_for_list final_recommendation c = ok (list_one (at outputs "final_recommendation.yaml") c)
texts_for_list final_approval c = ok (list_one (at outputs "final_approval.yaml") c)
texts_for_list task_proposal_batch c = ok (list_one (at shared "task_proposal_batch.yaml") c)
texts_for_list audit_finding c = ok (list_one (at shared "audit_finding.yaml") c)
texts_for_list ach_matrix c = ok (list_one (at shared "ach_matrix.yaml") c)
texts_for_list monitoring_plan c = ok (list_one (at outputs "monitoring_plan.yaml") c)
texts_for_list review_report c = ok (list_one (at outputs "review_report.yaml") c)
texts_for_list independent_review c = ok (list_one (at outputs "independent_review.yaml") c)
texts_for_list disclosure_record c = ok (list_one (at shared "disclosure_record.yaml") c)
texts_for_list analysis_result c = ok (list_glob analysis ".analysis_result.yaml" c)
texts_for_list gate_report c =
    folder_for_list gate_report >>= λ folder. ok (list_glob folder ".yaml" c)
texts_for_list thesis_revision c =
    folder_for_list thesis_revision >>= λ folder. ok (list_glob folder ".yaml" c)
texts_for_list evidence_record c =
    folder_for_list evidence_record >>= λ folder. ok (list_glob folder ".yaml" c)
texts_for_list assumption_record c =
    folder_for_list assumption_record >>= λ folder. ok (list_glob folder ".yaml" c)
texts_for_list objection_record c =
    folder_for_list objection_record >>= λ folder. ok (list_glob folder ".yaml" c)
texts_for_list task_record c =
    folder_for_list task_record >>= λ folder. ok (list_glob folder ".yaml" c)
texts_for_list evidence_batch c =
    folder_for_list evidence_batch >>= λ folder. ok (list_glob folder ".yaml" c)
texts_for_list objection_batch c =
    folder_for_list objection_batch >>= λ folder. ok (list_glob folder ".yaml" c)
texts_for_list assumption_batch c =
    folder_for_list assumption_batch >>= λ folder. ok (list_glob folder ".yaml" c)
texts_for_list other c = folder_for_list other >>= λ folder. ok (list_glob folder ".yaml" c)

module _ {C : Type 0} (platform : Platform C) where
  unfoldable pub load_each : Kind → List String → Result StoreError (List (Model C))
  unfolding load_model_from_yaml_text
  load_each kind [] = ok []
  load_each kind (text ∷ texts) =
      let rest = load_each kind texts in
      load_model_from_yaml_text platform kind text >>= λ m. rest >>= λ ms. ok (m ∷ ms)

  unfoldable pub list_artifacts : Kind → Case → Result StoreError (List (Model C))
  unfolding texts_for_list load_each
  list_artifacts kind c = texts_for_list kind c >>= λ texts. load_each kind texts

module _ (lower : String → String) {C : Type 0} (platform : Platform C) where
  unfoldable pub write_artifact : Model C → Case → Result StoreError (FilePath × Case)
  unfolding write_text dump_model_to_yaml_text
  write_artifact m c = path_for_write lower m.kind m.label m.revision >>= λ path.
      write_text platform path (dump_model_to_yaml_text platform m) c >>= λ after. ok (path, after)

  unfoldable pub read_artifact : Kind → Option String → Case → Result StoreError (Model C)
  unfolding read_text load_model_from_yaml_text
  read_artifact kind id c = path_for_read lower kind id >>= λ path.
      elim (read_text platform path c) [
        | none ↦ err (not_found path)
        | some text ↦ load_model_from_yaml_text platform kind text
      ]
