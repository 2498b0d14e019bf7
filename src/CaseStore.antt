-- ===== src/CaseStore.antt =====
-- orchestrator/case_store.py: which file of a case's folder an artifact goes to, and comes from.
-- A path is one of the folders that `create_case` makes and a name, into which an id is spliced: the
-- name may have a '/' (Disk says what it then reaches). `lower` is Python's `str.lower`.
pub mod Slots
pub mod Sharing
pub mod Disk
pub mod Fetch
pub mod Loading
pub mod Files
pub mod RoundTrip
pub mod Listing
pub mod Counters
mod Samples
use agent_advisor.Prelude.{
  ℕ, zero, suc, ◌+◌, Bool, true, false, not, ◌&&◌, ◌||◌, leb, Option, none, some, List, [], ◌∷◌,
  map, filter, Result, ok, err, ◌>>=◌, String, if◌then◌else◌, ◌==◌ as num_eq,
}
use Prim.Native.Char.{code}
use Prim.Native.String.{◌++◌}
use agent_advisor.Prelude.Text.{strip_left, strip_right, replaced, is_nil, is_space, text_leb, ◌==◌}
use agent_advisor.Prelude.Sort.{sorted}
use agent_advisor.Prelude.Dict.{Dict, lookup, insert, get_or, mem}
use agent_advisor.Prelude.Decimal.{padded}

-- The types of artifacts. A batch is a transport envelope, and `other` any type not known here.
pub data Kind : Type 0 where
  intake_record framing_approval issue_tree evidence_critique track_divergence premortem_report :
      Kind
  verification_worksheet case_memory_digest prior_evidence_digest decision_spec : Kind
  preliminary_recommendation final_recommendation final_approval task_proposal_batch : Kind
  audit_finding ach_matrix monitoring_plan review_report independent_review disclosure_record : Kind
  gate_report thesis_revision analysis_result evidence_record assumption_record : Kind
  objection_record task_record evidence_batch objection_batch assumption_batch other : Kind

-- The folders of `create_case`.
pub data Folder : Type 0 where
  shared evidence assumptions objections tasks gates thesis agents analysis outputs : Folder

abbrev pub index : Folder → ℕ
index shared = 0
index evidence = 1
index assumptions = 2
index objections = 3
index tasks = 4
index gates = 5
index thesis = 6
index agents = 7
index analysis = 8
index outputs = 9

abbrev pub same_folder : Folder → Folder → Bool
same_folder a b = num_eq (index a) (index b)

pub record FilePath : Type 0 where
  pub folder : Folder
  pub name : String

abbrev pub at : Folder → String → FilePath
at folder name = record { folder = folder; name = name }

pub data StoreError : Type 0 where
  not_storable no_stem id_required : StoreError
  not_found not_writable : FilePath → StoreError
  not_valid : Kind → StoreError
  bad_prefix : String → StoreError

abbrev pub Located : Type 0
Located = Result StoreError FilePath

-- [a-z0-9._-]
abbrev pub is_safe : ℕ → Bool
is_safe c =
    (leb b'a' c && leb c b'z')
    || (leb b'0' c && leb c b'9')
    || num_eq c b'.'
    || num_eq c b'_'
    || num_eq c b'-'

-- An artifact: `label` is its evidence_id, assumption_id, objection_id or task_id, or the stage of a
-- gate report, and `revision` that of a thesis.
pub record Model (C : Type 0) : Type 0 where
  pub kind : Kind
  pub label : String
  pub revision : ℕ
  pub content : C

module _ (lower : String → String) where
  -- _safe_stem
  unfoldable pub safe_stem : String → Result StoreError String
  unfolding strip_left strip_right replaced
  safe_stem value =
      let trimmed = strip_right is_space (strip_left is_space value) in
      let is_dash = λ (c : ℕ). num_eq c b'-' in
      let stem =
        strip_right is_dash (strip_left is_dash (replaced is_safe "-" false (lower trimmed))) in
      if is_nil stem then err no_stem else ok stem

  -- _artifact_path_for_write
  unfoldable pub path_for_write : Kind → (label : String) (revision : ℕ) → Located
  unfolding safe_stem padded
  path_for_write evidence_batch label revision = err not_storable
  path_for_write objection_batch label revision = err not_storable
  path_for_write assumption_batch label revision = err not_storable
  path_for_write intake_record label revision = ok (at shared "intake_record.yaml")
  path_for_write framing_approval label revision = ok (at shared "framing_approval.yaml")
  path_for_write issue_tree label revision = ok (at shared "issue_tree.yaml")
  path_for_write evidence_critique label revision = ok (at shared "evidence_critique.yaml")
  path_for_write track_divergence label revision = ok (at shared "track_divergence.yaml")
  path_for_write premortem_report label revision = ok (at shared "premortem_report.yaml")
  path_for_write verification_worksheet label revision =
      ok (at shared "verification_worksheet.yaml")
  path_for_write case_memory_digest label revision = ok (at shared "case_memory_digest.yaml")
  path_for_write prior_evidence_digest label revision = ok (at shared "prior_evidence_digest.yaml")
  path_for_write decision_spec label revision = ok (at shared "decision_spec.yaml")
  path_for_write preliminary_recommendation label revision =
      ok (at shared "preliminary_recommendation.yaml")
  path_for_write final_recommendation label revision = ok (at outputs "final_recommendation.yaml")
  path_for_write final_approval label revision = ok (at outputs "final_approval.yaml")
  path_for_write task_proposal_batch label revision = ok (at shared "task_proposal_batch.yaml")
  path_for_write audit_finding label revision = ok (at shared "audit_finding.yaml")
  path_for_write ach_matrix label revision = ok (at shared "ach_matrix.yaml")
  path_for_write monitoring_plan label revision = ok (at outputs "monitoring_plan.yaml")
  path_for_write review_report label revision = ok (at outputs "review_report.yaml")
  path_for_write independent_review label revision = ok (at outputs "independent_review.yaml")
  path_for_write disclosure_record label revision = ok (at shared "disclosure_record.yaml")
  path_for_write gate_report label revision =
      safe_stem label >>= λ stem. ok (at gates (stem ++ ".yaml"))
  path_for_write thesis_revision label revision =
      ok (at thesis (("thesis-" ++ padded revision) ++ ".yaml"))
  path_for_write analysis_result label revision =
      ok (at analysis (label ++ ".analysis_result.yaml"))
  path_for_write evidence_record label revision = ok (at evidence (label ++ ".yaml"))
  path_for_write assumption_record label revision = ok (at assumptions (label ++ ".yaml"))
  path_for_write objection_record label revision = ok (at objections (label ++ ".yaml"))
  path_for_write task_record label revision = ok (at tasks (label ++ ".yaml"))
  path_for_write other label revision = err not_storable

  -- _artifact_path_for_read
  unfoldable pub path_for_read : Kind → Option String → Located
  unfolding safe_stem
  path_for_read intake_record id = ok (at shared "intake_record.yaml")
  path_for_read framing_approval id = ok (at shared "framing_approval.yaml")
  path_for_read issue_tree id = ok (at shared "issue_tree.yaml")
  path_for_read evidence_critique id = ok (at shared "evidence_critique.yaml")
  path_for_read track_divergence id = ok (at shared "track_divergence.yaml")
  path_for_read premortem_report id = ok (at shared "premortem_report.yaml")
  path_for_read verification_worksheet id = ok (at shared "verification_worksheet.yaml")
  path_for_read case_memory_digest id = ok (at shared "case_memory_digest.yaml")
  path_for_read prior_evidence_digest id = ok (at shared "prior_evidence_digest.yaml")
  path_for_read decision_spec id = ok (at shared "decision_spec.yaml")
  path_for_read preliminary_recommendation id = ok (at shared "preliminary_recommendation.yaml")
  path_for_read final_recommendation id = ok (at outputs "final_recommendation.yaml")
  path_for_read final_approval id = ok (at outputs "final_approval.yaml")
  path_for_read task_proposal_batch id = ok (at shared "task_proposal_batch.yaml")
  path_for_read audit_finding id = ok (at shared "audit_finding.yaml")
  path_for_read ach_matrix id = ok (at shared "ach_matrix.yaml")
  path_for_read monitoring_plan id = ok (at outputs "monitoring_plan.yaml")
  path_for_read review_report id = ok (at outputs "review_report.yaml")
  path_for_read independent_review id = ok (at outputs "independent_review.yaml")
  path_for_read disclosure_record id = ok (at shared "disclosure_record.yaml")
  path_for_read gate_report none = err id_required
  path_for_read gate_report (some id) = safe_stem id >>= λ stem. ok (at gates (stem ++ ".yaml"))
  path_for_read thesis_revision none = err id_required
  path_for_read thesis_revision (some id) = ok (at thesis (id ++ ".yaml"))
  path_for_read analysis_result none = err id_required
  path_for_read analysis_result (some id) = ok (at analysis (id ++ ".analysis_result.yaml"))
  path_for_read evidence_record none = err id_required
  path_for_read evidence_record (some id) = ok (at evidence (id ++ ".yaml"))
  path_for_read assumption_record none = err id_required
  path_for_read assumption_record (some id) = ok (at assumptions (id ++ ".yaml"))
  path_for_read objection_record none = err id_required
  path_for_read objection_record (some id) = ok (at objections (id ++ ".yaml"))
  path_for_read task_record none = err id_required
  path_for_read task_record (some id) = ok (at tasks (id ++ ".yaml"))
  path_for_read evidence_batch none = err id_required
  path_for_read evidence_batch (some id) = err not_storable
  path_for_read objection_batch none = err id_required
  path_for_read objection_batch (some id) = err not_storable
  path_for_read assumption_batch none = err id_required
  path_for_read assumption_batch (some id) = err not_storable
  path_for_read other none = err id_required
  path_for_read other (some id) = err not_storable
