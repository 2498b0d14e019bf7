-- ===== src/Supervisor/Acquire.antt =====
-- What `acquire` does when no other process comes in between, and what `interrupted_cases` lists.
use agent_advisor.Prelude.{
  some_inj, ℕ, Bool, true, false, Option, none, some, ok, err, ◌≡◌, ◌↔◌, inl, inr, refl, arith,
  List, String, In, filter, In-filter, In-map, any, Option-cases, subst, sym, ◌∙◌, ap,
}
use agent_advisor.Prelude.Int.{ℤ, sub_ℕ}
use agent_advisor.Prelude.Sort.{sorted, In-sorted}
use agent_advisor.Prelude.Text.{text_leb}
use agent_advisor.StateMachine.{CaseStage, CaseState, same_stage, is_terminal}
use agent_advisor.Supervisor.{
  LockFile, Probe, CaseLocked, Entry, pid_alive, exists, holder_pid, is_stale, is_held, acquire,
  is_interrupted, interrupted_cases, active_stages,
}

terminal_active :
    (stage : CaseStage)
    → (any (same_stage stage) active_stages ≡ true) ↔ (is_terminal stage ≡ false)
terminal_active stage = ground arith

module _ (kill : ℤ → Probe) where
  abbrev pub locked_by : ℤ → ℕ → Option LockFile
  locked_by self now = some (record { pid = some self; started_at = some now })

  held_by :
      (self : ℤ) (now : ℕ) → pid_alive kill self ≡ true → is_held kill (locked_by self now) ≡ true
  unfolding is_held
  held_by self now alive = ground arith

  pub held_iff :
      (file : Option LockFile)
      → (is_held kill file ≡ true)
        ↔ ((p : ℤ) × (holder_pid file ≡ some p) × (pid_alive kill p ≡ true))
  unfolding is_held
  held_iff none = (λ h. cc, λ (p, e, l). cc)
  held_iff (some file) = elim (Option-cases file.pid) [
    | inl e ↦ rw (e, is_held, is_stale, holder_pid) (λ h. cc, λ (p, q, l). cc)
    | inr (p, e) ↦ (λ h. (p, e, ground arith), λ (q, f, l). ground arith)
  ]

  refused :
      (self other : ℤ) (now later : ℕ)
      → pid_alive kill self ≡ true
      → (holder_pid (locked_by self now) ≡ some self)
        × ((e : CaseLocked) × (acquire kill other later (locked_by self now) ≡ err e)
            × (e.holder_pid ≡ self))
  unfolding acquire
  refused self other now later alive =
      (refl, (record { holder_pid = self; age = sub_ℕ later now }, ground arith, refl))

  -- When `acquire` by a live process returns, the lock file names that process, and a later
  -- `acquire` by any process, with no change in between, raises CaseLocked with the pid of the
  -- first.
  pub acquire_excludes :
      (self other : ℤ) (now later : ℕ) (file after : Option LockFile)
      → pid_alive kill self ≡ true
      → acquire kill self now file ≡ ok after
      → (holder_pid after ≡ some self)
        × ((e : CaseLocked) × (acquire kill other later after ≡ err e) × (e.holder_pid ≡ self))
  unfolding acquire
  acquire_excludes self other now later file after alive e =
      let held : is_held kill file ≡ false = ground arith in
      let taken : locked_by self now ≡ after = ground arith in
      subst
        (λ x.
          (holder_pid x ≡ some self)
          × ((e : CaseLocked) × (acquire kill other later x ≡ err e) × (e.holder_pid ≡ self)))
        taken (refused self other now later alive)

  is_interrupted_iff :
      (entry : Entry)
      → (is_interrupted kill entry ≡ true) ↔ (
          (entry.is_dir ≡ true)
          × ((state : CaseState) × (entry.state ≡ some state) × (is_terminal state.stage ≡ false))
          × (exists entry.lock ≡ true)
          × (is_held kill entry.lock ≡ false))
  unfolding is_interrupted is_held
  is_interrupted_iff entry = elim (Option-cases entry.state) [
    | inl e ↦ (λ h. absurd (ground arith), λ (d, (state, same, live), x, l). cc)
    | inr (state, e) ↦ (
      λ h. (
        ground arith,
        (state, e, ground (arith, terminal_active state.stage)),
        ground arith,
        ground arith,
      ),
      λ (d, (other, same, live), x, l). ground (
        arith,
        terminal_active state.stage,
        ap is_terminal (ap (λ s. s.stage) (some_inj (sym e ∙ same))),
      ),
    )
  ]

  -- `interrupted_cases` lists a name exactly when a folder of that name has a state that loads, is
  -- at a stage that is not terminal, and has a lock file that is not held.
  pub In-interrupted_cases :
      (name : String) (entries : List Entry)
      → In name (interrupted_cases kill entries) ↔ (
          (entry : Entry) × In entry entries
          × (name ≡ entry.name)
          × (entry.is_dir ≡ true)
          × ((state : CaseState) × (entry.state ≡ some state) × (is_terminal state.stage ≡ false))
          × (exists entry.lock ≡ true)
          × (is_held kill entry.lock ≡ false))
  unfolding interrupted_cases
  In-interrupted_cases name entries =
      let by_name : Entry → Entry → Bool = λ a b. text_leb a.name b.name in
      let found =
        In-map (λ e. e.name) name (filter (is_interrupted kill) (sorted by_name entries)) in
      (
        λ h.
            let (x, i, e) = found.0 h in
            let (j, t) = (In-filter (is_interrupted kill) x (sorted by_name entries)).0 i in
            let (d, s, l, n) = (is_interrupted_iff x).0 t in
            (x, (In-sorted by_name x entries).0 j, e, d, s, l, n),
        λ (x, i, e, d, s, l, n). found.1 (
          x,
          (In-filter (is_interrupted kill) x (sorted by_name entries)).1
              ((In-sorted by_name x entries).1 i, (is_interrupted_iff x).1 (d, s, l, n)),
          e,
        ),
      )
