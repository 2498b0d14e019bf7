-- ===== src/CaseStore/Sharing.antt =====
-- Which artifacts share a file.
use Prim.Native.String.{◌++◌}
use text.Mathlib.TextLemmas.{append_cancel_right}
use agent_advisor.Prelude.{
  ℕ, some, ok, ◌≡◌, ◌≢◌, refl, sym, ap, ◌∙◌, subst, String, ok_inj, some_inj,
}
use agent_advisor.Prelude.Decimal.{padded}
use agent_advisor.CaseStore.Slots.{id_of, path_for_read-kind, path_for_write-read}
use agent_advisor.CaseStore.{
  Kind, Folder, FilePath, Located, at, path_for_write, intake_record, framing_approval, issue_tree,
  evidence_critique, track_divergence, premortem_report, verification_worksheet, case_memory_digest,
  prior_evidence_digest, decision_spec, preliminary_recommendation, final_recommendation,
  final_approval, task_proposal_batch, audit_finding, ach_matrix, monitoring_plan, review_report,
  independent_review, disclosure_record, gate_report, thesis_revision, analysis_result,
  evidence_record, assumption_record, objection_record, task_record, evidence_batch,
  objection_batch, assumption_batch, other, thesis, analysis, evidence, assumptions, objections,
  tasks,
}

named_inj :
    (f : Folder) (i j x : String) (p : FilePath)
    → ◌≡◌ {A = Located} (ok (at f (i ++ x))) (ok p)
    → ◌≡◌ {A = Located} (ok (at f (j ++ x))) (ok p)
    → some i ≡ some j
named_inj f i j x p h h' =
    ap some (append_cancel_right i j x (ap (λ (q : FilePath). q.name) (ok_inj h ∙ sym (ok_inj h'))))

module _ (lower : String → String) (label label' : String) (revision revision' : ℕ)
    (p : FilePath) where
  id_of_inj :
      (k : Kind)
      → k ≢ gate_report
      → path_for_write lower k label revision ≡ ok p
      → path_for_write lower k label' revision' ≡ ok p
      → id_of k label revision ≡ id_of k label' revision'
  unfolding path_for_write
  id_of_inj intake_record other_kind h h' = refl
  id_of_inj framing_approval other_kind h h' = refl
  id_of_inj issue_tree other_kind h h' = refl
  id_of_inj evidence_critique other_kind h h' = refl
  id_of_inj track_divergence other_kind h h' = refl
  id_of_inj premortem_report other_kind h h' = refl
  id_of_inj verification_worksheet other_kind h h' = refl
  id_of_inj case_memory_digest other_kind h h' = refl
  id_of_inj prior_evidence_digest other_kind h h' = refl
  id_of_inj decision_spec other_kind h h' = refl
  id_of_inj preliminary_recommendation other_kind h h' = refl
  id_of_inj final_recommendation other_kind h h' = refl
  id_of_inj final_approval other_kind h h' = refl
  id_of_inj task_proposal_batch other_kind h h' = refl
  id_of_inj audit_finding other_kind h h' = refl
  id_of_inj ach_matrix other_kind h h' = refl
  id_of_inj monitoring_plan other_kind h h' = refl
  id_of_inj review_report other_kind h h' = refl
  id_of_inj independent_review other_kind h h' = refl
  id_of_inj disclosure_record other_kind h h' = refl
  id_of_inj gate_report other_kind h h' = absurd (other_kind refl)
  id_of_inj thesis_revision other_kind h h' =
      named_inj thesis ("thesis-" ++ padded revision) ("thesis-" ++ padded revision') ".yaml" p h h'
  id_of_inj analysis_result other_kind h h' =
      named_inj analysis label label' ".analysis_result.yaml" p h h'
  id_of_inj evidence_record other_kind h h' = named_inj evidence label label' ".yaml" p h h'
  id_of_inj assumption_record other_kind h h' = named_inj assumptions label label' ".yaml" p h h'
  id_of_inj objection_record other_kind h h' = named_inj objections label label' ".yaml" p h h'
  id_of_inj task_record other_kind h h' = named_inj tasks label label' ".yaml" p h h'
  id_of_inj evidence_batch other_kind h h' = refl
  id_of_inj objection_batch other_kind h h' = refl
  id_of_inj assumption_batch other_kind h h' = refl
  id_of_inj other other_kind h h' = refl

  -- Artifacts that go to one file are of one type, and have one id unless they are gate reports.
  pub path_for_write_inj :
      (k k' : Kind)
      → path_for_write lower k label revision ≡ ok p
      → path_for_write lower k' label' revision' ≡ ok p
      → (k ≡ k') × (k ≢ gate_report → id_of k label revision ≡ id_of k' label' revision')
  path_for_write_inj k k' h h' =
      let kind_of =
        path_for_read-kind lower k (id_of k label revision) p
          (path_for_write-read lower k label revision p h) in
      let kind_of' =
        path_for_read-kind lower k' (id_of k' label' revision') p
          (path_for_write-read lower k' label' revision' p h') in
      let same : k ≡ k' = some_inj (sym kind_of ∙ kind_of') in
      (
        same,
        λ other_kind.
            id_of_inj k other_kind h
              (subst (λ x. path_for_write lower x label' revision' ≡ ok p) (sym same) h')
            ∙ ap (λ x. id_of x label' revision') same,
      )
