-- ===== src/Control/Overlap.antt =====
-- Two requests that overlap: both read the state before either takes the lock.
use agent_advisor.Prelude.{ℕ, suc, ◌+◌, List, ok, ◌≡◌, arith, String}
use agent_advisor.Prelude.Int.{ℤ}
use agent_advisor.Prelude.Dict.{Dict}
use agent_advisor.StateMachine.{CaseState, framing, revision_transition}
use agent_advisor.Supervisor.{Probe, acquire}
use agent_advisor.Control.{
  Folder, Write, request_framing_revision, apply, apply_all, planned_writes, under_lock,
}

module _ (kill : ℤ → Probe) (self : ℤ) (now : ℕ) (loaded : CaseState) (g : Folder) where
  framing_revision-state :
      (edits : List String) (answers : Dict String) (writes : List Write)
      → planned_writes kill self now loaded g.lock (request_framing_revision edits answers)
        ≡ ok writes
      → (((apply_all writes g).state.stage ≡ framing)
          × ((apply_all writes g).state.framing_revisions ≡ loaded.framing_revisions + 1)
          × ((apply_all writes g).workers_started ≡ suc g.workers_started))
  unfolding planned_writes apply_all apply under_lock acquire revision_transition
  framing_revision-state edits answers writes h = ground arith

-- When two framing revisions both read the state before either takes the lock, and one is carried
-- out after the other, the saved count of framing revisions goes up by one only, and two workers
-- are started.
pub overlapping_revisions_count_once :
    (kill : ℤ → Probe) (self other : ℤ) (now later : ℕ) (f : Folder) (edits edits' : List String)
    (answers answers' : Dict String) (writes writes' : List Write)
    → planned_writes kill self now f.state f.lock (request_framing_revision edits answers)
      ≡ ok writes
    → planned_writes kill other later f.state
        (apply_all writes f).lock
        (request_framing_revision edits' answers')
      ≡ ok writes'
    → ((apply_all writes' (apply_all writes f)).state.framing_revisions
        ≡ f.state.framing_revisions + 1)
      × ((apply_all writes' (apply_all writes f)).workers_started ≡ f.workers_started + 2)
overlapping_revisions_count_once kill self other now later f edits edits' answers answers' writes
      writes' h h' =
    let first = framing_revision-state kill self now f.state f edits answers writes h in
    let second =
      framing_revision-state kill other later f.state (apply_all writes f) edits' answers' writes'
        h' in
    ground arith
