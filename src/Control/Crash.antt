-- ===== src/Control/Crash.antt =====
-- A crash between any two of the writes of a request.
use agent_advisor.Prelude.{
  ℕ, true, zero, suc, Option, some, List, [], ◌∷◌, ◌++◌, take, ok, ◌≡◌, ◌⊎◌, inl, inr, refl, arith,
  Option-cases, Result-cases,
}
use agent_advisor.Prelude.Int.{ℤ}
use agent_advisor.StateMachine.{CaseState, framing, synthesis, revision_transition}
use agent_advisor.Supervisor.{LockFile, Probe, acquire}
use agent_advisor.Control.{
  Folder, Write, Request, Event, FramingApproval, FinalApproval, revise, approve_framing,
  approve_final, request_framing_revision, request_final_revision, run_started, framing_signed,
  final_signed, framing_revision_requested, final_revision_requested, create_lock, unlink_lock,
  save_state, log, run_worker, write_framing, write_final, apply, apply_all, planned_writes,
  under_lock, revision_decision,
}

-- A predicate holds before the writes, between any two of them, and after them.
abbrev Throughout : (Folder → Type 0) → List Write → Folder → Type 0
Throughout P [] f = P f
Throughout P (w ∷ ws) f = P f × Throughout P ws (apply w f)

Throughout-take :
    (P : Folder → Type 0) (ws : List Write) (f : Folder)
    → Throughout P ws f
    → (n : ℕ) → P (apply_all (take n ws) f)
unfolding apply_all
Throughout-take P [] f h zero = h
Throughout-take P [] f h (suc n) = h
Throughout-take P (w ∷ ws) f h zero = h.0
Throughout-take P (w ∷ ws) f h (suc n) = Throughout-take P ws (apply w f) h.1 n

-- The person's decision is in the case's folder.
abbrev pub IsRecorded : Request → Folder → Type 0
IsRecorded (approve_framing approval) f = f.framing_approval ≡ some approval
IsRecorded (approve_final approval) f = f.final_approval ≡ some approval
IsRecorded (request_framing_revision edits answers) f =
    (a : FramingApproval) × (f.framing_approval ≡ some a)
    × (a.edits ≡ edits)
    × (a.clarification_answers ≡ answers)
IsRecorded (request_final_revision note) f =
    (a : FinalApproval) × (f.final_approval ≡ some a) × (a.decision ≡ revise) × (a.note ≡ note)

abbrev Kept : Folder → Request → Folder → Type 0
Kept f request g = (g.state ≡ f.state) ⊎ IsRecorded request g

-- The write of a record is followed by that of the state.
IsSafe : Folder → Request → List Write → Type 0
IsSafe f request writes = Throughout (Kept f request) writes f

module _ (kill : ℤ → Probe) (self : ℤ) (now : ℕ) (lock : Option LockFile) where
  under_lock-writes :
      (inner all : List Write)
      → under_lock kill self now lock inner ≡ ok all
      → (all ≡ [])
        ⊎ ((created : LockFile) × (all
              ≡ create_lock created ∷ inner ++ unlink_lock ∷ log run_started ∷ run_worker ∷ []))
  unfolding under_lock
  under_lock-writes inner all h = elim (Result-cases (acquire kill self now lock)) [
    | inr (e, failed) ↦ absurd (ground arith)
    | inl (file, taken) ↦ elim (Option-cases file) [
      | inl nothing ↦ inl (ground arith)
      | inr (created, given) ↦ inr (created, ground arith)
    ]
  ]

  -- For a write that puts the request on record, and no later write of these undoes that.
  recorded-IsSafe :
      (f : Folder) (request : Request) (w : Write) (state : CaseState) (event : Event)
      (all : List Write)
      → ((g : Folder) → (apply w g).state ≡ g.state)
      → ((created : LockFile) (g : Folder)
          → g.framing_approval ≡ (apply w (record f { lock = some created })).framing_approval
          → g.final_approval ≡ (apply w (record f { lock = some created })).final_approval
          → IsRecorded request g)
      → under_lock kill self now lock (w ∷ save_state state ∷ log event ∷ []) ≡ ok all
      → IsSafe f request all
  unfolding IsSafe apply
  recorded-IsSafe f request w state event all keeps recorded h = elim (under_lock-writes _ all h) [
    | inl e ↦ rw e (inl refl)
    | inr (created, e) ↦ rw e (
      inl refl,
      (
        inl refl,
        (
          inl (keeps _),
          (
            inr (recorded created _ refl refl),
            (
              inr (recorded created _ refl refl),
              (
                inr (recorded created _ refl refl),
                (inr (recorded created _ refl refl), inr (recorded created _ refl refl)),
              ),
            ),
          ),
        ),
      ),
    )
  ]

  planned_writes-IsSafe :
      (f : Folder) (request : Request) (writes : List Write)
      → planned_writes kill self now f.state lock request ≡ ok writes
      → IsSafe f request writes
  unfolding planned_writes apply
  planned_writes-IsSafe f (approve_framing approval) writes h =
      recorded-IsSafe f (approve_framing approval) (write_framing approval)
        (record f.state { framing_approved = true })
        (framing_signed approval.decision approval.approved_by) writes (λ g. refl) (λ c g e k. e)
        (ground arith)
  planned_writes-IsSafe f (approve_final approval) writes h =
      recorded-IsSafe f (approve_final approval) (write_final approval)
        (record f.state { final_approved = true })
        (final_signed approval.decision approval.approved_by) writes (λ g. refl) (λ c g e k. k)
        (ground arith)
  planned_writes-IsSafe f (request_framing_revision edits answers) writes h =
      elim (Option-cases (revision_decision edits answers)) [
        | inl undecided ↦ absurd (ground arith)
        | inr (decision, decided) ↦ elim (Result-cases (revision_transition f.state framing)) [
          | inr (fault, refused) ↦ absurd (ground arith)
          | inl (next, moved) ↦
              let approval : FramingApproval = record {
                decision = decision;
                approved_by = "user";
                edits = edits;
                clarification_answers = answers;
              } in
              recorded-IsSafe f (request_framing_revision edits answers) (write_framing approval)
                next (framing_revision_requested decision next.framing_revisions) writes (λ g. refl)
                (λ c g e k. (approval, e, refl, refl)) (ground arith)
        ]
      ]
  planned_writes-IsSafe f (request_final_revision note) writes h =
      elim (Result-cases (revision_transition f.state synthesis)) [
        | inr (fault, refused) ↦ absurd (ground arith)
        | inl (next, moved) ↦
            let approval : FinalApproval = record {
              decision = revise;
              note = note;
              approved_by = "user";
            } in
            recorded-IsSafe f (request_final_revision note) (write_final approval) next
              (final_revision_requested next.final_revisions) writes (λ g. refl)
              (λ c g e k. (approval, k, refl, refl)) (ground arith)
      ]

  -- If a request is cut short after any number of its durable writes, the saved state is the one
  -- before the request, or the person's decision is on record in the folder.
  pub no_flag_without_record :
      (f : Folder) (request : Request) (writes : List Write) (n : ℕ)
      → planned_writes kill self now f.state lock request ≡ ok writes
      → Kept f request (apply_all (take n writes) f)
  unfolding IsSafe
  no_flag_without_record f request writes n h =
      Throughout-take (Kept f request) writes f (planned_writes-IsSafe f request writes h) n
