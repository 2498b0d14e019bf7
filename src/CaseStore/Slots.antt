-- ===== src/CaseStore/Slots.antt =====
-- The type of the artifacts that a path is for, and reading back what was written.
use Prim.Native.String.{◌++◌}
use agent_advisor.Prelude.{
  ℕ, Option, none, some, ok, ◌≡◌, refl, subst, arith, String, if◌then◌else◌, ok_inj, Result-cases,
  inl, inr,
}
use agent_advisor.Prelude.Text.{◌==◌}
use agent_advisor.Prelude.Decimal.{padded}
use agent_advisor.CaseStore.{
  Kind, FilePath, Located, at, path_for_write, path_for_read, safe_stem, intake_record,
  framing_approval, issue_tree, evidence_critique, track_divergence, premortem_report,
  verification_worksheet, case_memory_digest, prior_evidence_digest, decision_spec,
  preliminary_recommendation, final_recommendation, final_approval, task_proposal_batch,
  audit_finding, ach_matrix, monitoring_plan, review_report, independent_review, disclosure_record,
  gate_report, thesis_revision, analysis_result, evidence_record, assumption_record,
  objection_record, task_record, evidence_batch, objection_batch, assumption_batch, other, shared,
  outputs, gates, thesis, analysis, evidence, assumptions, objections, tasks,
}

-- The id by which an artifact is read back.
abbrev pub id_of : Kind → (label : String) (revision : ℕ) → Option String
id_of intake_record label revision = none
id_of framing_approval label revision = none
id_of issue_tree label revision = none
id_of evidence_critique label revision = none
id_of track_divergence label revision = none
id_of premortem_report label revision = none
id_of verification_worksheet label revision = none
id_of case_memory_digest label revision = none
id_of prior_evidence_digest label revision = none
id_of decision_spec label revision = none
id_of preliminary_recommendation label revision = none
id_of final_recommendation label revision = none
id_of final_approval label revision = none
id_of task_proposal_batch label revision = none
id_of audit_finding label revision = none
id_of ach_matrix label revision = none
id_of monitoring_plan label revision = none
id_of review_report label revision = none
id_of independent_review label revision = none
id_of disclosure_record label revision = none
id_of gate_report label revision = some label
id_of thesis_revision label revision = some ("thesis-" ++ padded revision)
id_of analysis_result label revision = some label
id_of evidence_record label revision = some label
id_of assumption_record label revision = some label
id_of objection_record label revision = some label
id_of task_record label revision = some label
id_of evidence_batch label revision = none
id_of objection_batch label revision = none
id_of assumption_batch label revision = none
id_of other label revision = none

abbrev pub shared_kind : String → Option Kind
shared_kind name =
    if name == "intake_record.yaml"
    then some intake_record
    else if name == "framing_approval.yaml"
    then some framing_approval
    else if name == "issue_tree.yaml"
    then some issue_tree
    else if name == "evidence_critique.yaml"
    then some evidence_critique
    else if name == "track_divergence.yaml"
    then some track_divergence
    else if name == "premortem_report.yaml"
    then some premortem_report
    else if name == "verification_worksheet.yaml"
    then some verification_worksheet
    else if name == "case_memory_digest.yaml"
    then some case_memory_digest
    else if name == "prior_evidence_digest.yaml"
    then some prior_evidence_digest
    else if name == "decision_spec.yaml"
    then some decision_spec
    else if name == "preliminary_recommendation.yaml"
    then some preliminary_recommendation
    else if name == "task_proposal_batch.yaml"
    then some task_proposal_batch
    else if name == "audit_finding.yaml"
    then some audit_finding
    else if name == "ach_matrix.yaml"
    then some ach_matrix
    else if name == "disclosure_record.yaml"
    then some disclosure_record
    else none

abbrev pub outputs_kind : String → Option Kind
outputs_kind name =
    if name == "final_recommendation.yaml"
    then some final_recommendation
    else if name == "final_approval.yaml"
    then some final_approval
    else if name == "monitoring_plan.yaml"
    then some monitoring_plan
    else if name == "review_report.yaml"
    then some review_report
    else if name == "independent_review.yaml"
    then some independent_review
    else none

-- The type of the artifacts that a path is for.
abbrev pub kind_at : FilePath → Option Kind
kind_at path = elim path.folder [
  | shared ↦ shared_kind path.name
  | outputs ↦ outputs_kind path.name
  | gates ↦ some gate_report
  | thesis ↦ some thesis_revision
  | analysis ↦ some analysis_result
  | evidence ↦ some evidence_record
  | assumptions ↦ some assumption_record
  | objections ↦ some objection_record
  | tasks ↦ some task_record
  | _ ↦ none
]

located :
    {k : Kind} (q p : FilePath)
    → kind_at q ≡ some k
    → ◌≡◌ {A = Located} (ok q) (ok p)
    → kind_at p ≡ some k
located {k} q p e h = subst (λ x. kind_at x ≡ some k) (ok_inj h) e

module _ (lower : String → String) where
  pub path_for_read-kind :
      (k : Kind) (id : Option String) (p : FilePath)
      → path_for_read lower k id ≡ ok p
      → kind_at p ≡ some k
  unfolding path_for_read
  path_for_read-kind intake_record id p h = located (at shared "intake_record.yaml") p refl h
  path_for_read-kind framing_approval id p h = located (at shared "framing_approval.yaml") p refl h
  path_for_read-kind issue_tree id p h = located (at shared "issue_tree.yaml") p refl h
  path_for_read-kind evidence_critique id p h =
      located (at shared "evidence_critique.yaml") p refl h
  path_for_read-kind track_divergence id p h = located (at shared "track_divergence.yaml") p refl h
  path_for_read-kind premortem_report id p h = located (at shared "premortem_report.yaml") p refl h
  path_for_read-kind verification_worksheet id p h =
      located (at shared "verification_worksheet.yaml") p refl h
  path_for_read-kind case_memory_digest id p h =
      located (at shared "case_memory_digest.yaml") p refl h
  path_for_read-kind prior_evidence_digest id p h =
      located (at shared "prior_evidence_digest.yaml") p refl h
  path_for_read-kind decision_spec id p h = located (at shared "decision_spec.yaml") p refl h
  path_for_read-kind preliminary_recommendation id p h =
      located (at shared "preliminary_recommendation.yaml") p refl h
  path_for_read-kind final_recommendation id p h =
      located (at outputs "final_recommendation.yaml") p refl h
  path_for_read-kind final_approval id p h = located (at outputs "final_approval.yaml") p refl h
  path_for_read-kind task_proposal_batch id p h =
      located (at shared "task_proposal_batch.yaml") p refl h
  path_for_read-kind audit_finding id p h = located (at shared "audit_finding.yaml") p refl h
  path_for_read-kind ach_matrix id p h = located (at shared "ach_matrix.yaml") p refl h
  path_for_read-kind monitoring_plan id p h = located (at outputs "monitoring_plan.yaml") p refl h
  path_for_read-kind review_report id p h = located (at outputs "review_report.yaml") p refl h
  path_for_read-kind independent_review id p h =
      located (at outputs "independent_review.yaml") p refl h
  path_for_read-kind disclosure_record id p h =
      located (at shared "disclosure_record.yaml") p refl h
  path_for_read-kind gate_report none p h = absurd (ground arith)
  path_for_read-kind gate_report (some id) p h = elim (Result-cases (safe_stem lower id)) [
    | inl (stem, e) ↦ located (at gates (stem ++ ".yaml")) p refl (ground arith)
    | inr (fault, e) ↦ absurd (ground arith)
  ]
  path_for_read-kind thesis_revision none p h = absurd (ground arith)
  path_for_read-kind thesis_revision (some id) p h = located (at thesis (id ++ ".yaml")) p refl h
  path_for_read-kind analysis_result none p h = absurd (ground arith)
  path_for_read-kind analysis_result (some id) p h =
      located (at analysis (id ++ ".analysis_result.yaml")) p refl h
  path_for_read-kind evidence_record none p h = absurd (ground arith)
  path_for_read-kind evidence_record (some id) p h = located (at evidence (id ++ ".yaml")) p refl h
  path_for_read-kind assumption_record none p h = absurd (ground arith)
  path_for_read-kind assumption_record (some id) p h =
      located (at assumptions (id ++ ".yaml")) p refl h
  path_for_read-kind objection_record none p h = absurd (ground arith)
  path_for_read-kind objection_record (some id) p h =
      located (at objections (id ++ ".yaml")) p refl h
  path_for_read-kind task_record none p h = absurd (ground arith)
  path_for_read-kind task_record (some id) p h = located (at tasks (id ++ ".yaml")) p refl h
  path_for_read-kind evidence_batch none p h = absurd (ground arith)
  path_for_read-kind evidence_batch (some id) p h = absurd (ground arith)
  path_for_read-kind objection_batch none p h = absurd (ground arith)
  path_for_read-kind objection_batch (some id) p h = absurd (ground arith)
  path_for_read-kind assumption_batch none p h = absurd (ground arith)
  path_for_read-kind assumption_batch (some id) p h = absurd (ground arith)
  path_for_read-kind other none p h = absurd (ground arith)
  path_for_read-kind other (some id) p h = absurd (ground arith)

  pub path_for_write-read :
      (k : Kind) (label : String) (revision : ℕ) (p : FilePath)
      → path_for_write lower k label revision ≡ ok p
      → path_for_read lower k (id_of k label revision) ≡ ok p
  unfolding path_for_write path_for_read
  path_for_write-read intake_record label revision p h = h
  path_for_write-read framing_approval label revision p h = h
  path_for_write-read issue_tree label revision p h = h
  path_for_write-read evidence_critique label revision p h = h
  path_for_write-read track_divergence label revision p h = h
  path_for_write-read premortem_report label revision p h = h
  path_for_write-read verification_worksheet label revision p h = h
  path_for_write-read case_memory_digest label revision p h = h
  path_for_write-read prior_evidence_digest label revision p h = h
  path_for_write-read decision_spec label revision p h = h
  path_for_write-read preliminary_recommendation label revision p h = h
  path_for_write-read final_recommendation label revision p h = h
  path_for_write-read final_approval label revision p h = h
  path_for_write-read task_proposal_batch label revision p h = h
  path_for_write-read audit_finding label revision p h = h
  path_for_write-read ach_matrix label revision p h = h
  path_for_write-read monitoring_plan label revision p h = h
  path_for_write-read review_report label revision p h = h
  path_for_write-read independent_review label revision p h = h
  path_for_write-read disclosure_record label revision p h = h
  path_for_write-read gate_report label revision p h = h
  path_for_write-read thesis_revision label revision p h = h
  path_for_write-read analysis_result label revision p h = h
  path_for_write-read evidence_record label revision p h = h
  path_for_write-read assumption_record label revision p h = h
  path_for_write-read objection_record label revision p h = h
  path_for_write-read task_record label revision p h = h
  path_for_write-read evidence_batch label revision p h = absurd (ground arith)
  path_for_write-read objection_batch label revision p h = absurd (ground arith)
  path_for_write-read assumption_batch label revision p h = absurd (ground arith)
  path_for_write-read other label revision p h = absurd (ground arith)
