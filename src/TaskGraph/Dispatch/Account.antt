-- ===== src/TaskGraph/Dispatch/Account.antt =====
-- What every order of the moves of `dispatch` keeps.
use agent_advisor.Prelude.{
  ℕ, ◌+◌, ◌≤◌, ltb, not, ◌&&◌, Bool, true, some, List, [], ◌∷◌, ◌++◌, Result, ok, err, Result-cases,
  Option-cases, ◌≡◌, ◌⊎◌, inl, inr, ap, arith, In, String, if◌then◌else◌, length, length-append,
  Bool-cases, find?,
}
use agent_advisor.Prelude.Text.{◌==◌, eq_iff}
use agent_advisor.Artifacts.{TaskRecord, active}
use agent_advisor.Prelude.Dict.{mem}
use agent_advisor.TaskGraph.{
  Board, audit, task_started, set_task_status, mark_failed_and_block_dependents,
}
use agent_advisor.TaskGraph.Ready.{ready, gate_passed}
use agent_advisor.TaskGraph.Dispatch.{
  DispatchSettings, Dispatch, reconcile_success, without, offer, fill_once, finish, fills, ends,
  Moves, none_yet, then_move,
}

-- How often an id is listed.
abbrev pub occurrences : String → List String → ℕ
occurrences k [] = 0
occurrences k (x ∷ xs) = (if x == k then 1 else 0) + occurrences k xs

occurrences-append :
    (k : String) (xs ys : List String)
    → occurrences k (xs ++ ys) ≡ occurrences k xs + occurrences k ys
occurrences-append k [] ys = omega arith
occurrences-append k (x ∷ xs) ys = ground (arith, occurrences-append k xs ys)

occurrences-without :
    (k j : String) (xs : List String)
    → In j xs
    → occurrences k xs ≡ occurrences k (without j xs) + occurrences k (j ∷ [])
unfolding without
occurrences-without k j [] i = absurd i
occurrences-without k j (x ∷ xs) i =
    ground (arith, occurrences-without k j xs, eq_iff x j, eq_iff j k, eq_iff x k)

length-without : (j : String) (xs : List String) → length (without j xs) ≤ length xs
unfolding without
length-without j [] = omega arith
length-without j (x ∷ xs) = ground (arith, length-without j xs)

module _ {F W L R : Type 0} (settings : DispatchSettings F W L R) where
  -- At most `max_concurrent` tasks are in flight, and each start is in flight, completed or failed.
  pub record IsAccounted (d : Dispatch F W L) : Type 0 where
    pub few : length d.in_flight ≤ settings.max_concurrent
    pub each :
        (k : String)
        → occurrences k d.started
          ≡ occurrences k d.in_flight + occurrences k d.completed_ids + occurrences k d.failed_ids

  -- Nothing is started, or one ready task is.
  pub data Filled (d d' : Dispatch F W L) : Type 0 where
    idle :
        d'.started ≡ d.started
        → d'.in_flight ≡ d.in_flight
        → d'.completed_ids ≡ d.completed_ids
        → d'.failed_ids ≡ d.failed_ids
        → Filled d d'
    launched :
        (tasks : List (TaskRecord F)) (task : TaskRecord F) (marked : Board F W)
        → ltb (length d.in_flight) settings.max_concurrent ≡ true
        → ready settings.floats settings.materiality_weights d.board ≡ ok tasks
        → find? (λ t. not (mem t.task_id d.marginal_value_refused)) tasks ≡ some task
        → set_task_status d.board task.task_id active ≡ ok marked
        → d'.board ≡ audit marked (task_started task.task_id)
        → d'.started ≡ d.started ++ task.task_id ∷ []
        → d'.in_flight ≡ d.in_flight ++ task.task_id ∷ []
        → d'.completed_ids ≡ d.completed_ids
        → d'.failed_ids ≡ d.failed_ids
        → Filled d d'

  abbrev Same : (d d' : Dispatch F W L) → Type 0
  Same d d' =
      (d'.started ≡ d.started)
      × (d'.in_flight ≡ d.in_flight)
      × (d'.completed_ids ≡ d.completed_ids)
      × (d'.failed_ids ≡ d.failed_ids)

  abbrev Launches : TaskRecord F → (d d' : Dispatch F W L) → Board F W → Type 0
  Launches task d d' marked =
      (set_task_status d.board task.task_id active ≡ ok marked)
      × (d'.board ≡ audit marked (task_started task.task_id))
      × (d'.started ≡ d.started ++ task.task_id ∷ [])
      × (d'.in_flight ≡ d.in_flight ++ task.task_id ∷ [])
      × (d'.completed_ids ≡ d.completed_ids)
      × (d'.failed_ids ≡ d.failed_ids)

  offer_cases :
      (task : TaskRecord F) (d d' : Dispatch F W L) (again : Bool)
      → offer settings task d ≡ ok (d', again)
      → Same d d' ⊎ ((marked : Board F W) × Launches task d d' marked)
  unfolding offer
  offer_cases task d d' again e =
      elim (Bool-cases (
        settings.enforce_marginal_value_gate
        && not (gate_passed settings.floats settings.materiality_weights task))) [
          | inl refused ↦ inl (ground arith, ground arith, ground arith, ground arith)
          | inr passed ↦ elim (Bool-cases (settings.try_consume d.ledger).1) [
            | inr spent ↦ inl (ground arith, ground arith, ground arith, ground arith)
            | inl granted ↦ elim (Result-cases (set_task_status d.board task.task_id active)) [
              | inr (f, s) ↦ absurd (ground arith)
              | inl (marked, s) ↦ inr (
                marked,
                (s, ground arith, ground arith, ground arith, ground arith, ground arith),
              )
            ]
          ]
        ]

  pub fill_once-Filled :
      (d d' : Dispatch F W L) (again : Bool) → fill_once settings d ≡ ok (d', again) → Filled d d'
  unfolding fill_once
  fill_once-Filled d d' again e =
      elim (Bool-cases (ltb (length d.in_flight) settings.max_concurrent && not d.budget_refused)) [
        | inr full ↦ idle (ground arith) (ground arith) (ground arith) (ground arith)
        | inl room ↦
            elim (Result-cases (ready settings.floats settings.materiality_weights d.board)) [
              | inr (f, r) ↦ absurd (ground arith)
              | inl (tasks, r) ↦
                  elim (Option-cases
                    (find? (λ t. not (mem t.task_id d.marginal_value_refused)) tasks)) [
                      | inl nothing ↦
                          idle (ground arith) (ground arith) (ground arith) (ground arith)
                      | inr (task, found) ↦ elim (offer_cases task d d' again (ground arith)) [
                        | inl (a, b, c, f) ↦ idle a b c f
                        | inr (marked, (s, b, st, fl, c, f)) ↦
                            launched tasks task marked (ground arith) r found s b st fl c f
                      ]
                    ]
            ]
      ]

  counted : (d d' : Dispatch F W L) → IsAccounted d → Filled d d' → IsAccounted d'
  counted d d' a (idle st fl c f) = record {
    few = ground (arith, a.few);
    each = λ k. ground (arith, a.each k);
  }
  counted d d' a (launched tasks task marked room r found s b st fl c f) = record {
    few = ground (arith, length-append d.in_flight (task.task_id ∷ []), ap length fl);
    each = λ k. ground (
      arith,
      a.each k,
      occurrences-append k d.started (task.task_id ∷ []),
      occurrences-append k d.in_flight (task.task_id ∷ []),
    );
  }

  fill_once-IsAccounted :
      (d d' : Dispatch F W L) (again : Bool)
      → IsAccounted d
      → fill_once settings d ≡ ok (d', again)
      → IsAccounted d'
  fill_once-IsAccounted d d' again a e = counted d d' a (fill_once-Filled d d' again e)

  finish-IsAccounted :
      (task_id : String) (outcome : Result String R) (d d' : Dispatch F W L)
      → In task_id d.in_flight
      → IsAccounted d
      → finish settings task_id outcome d ≡ ok d'
      → IsAccounted d'
  unfolding finish
  finish-IsAccounted task_id (err error) d d' i a e =
      elim (Result-cases (mark_failed_and_block_dependents task_id error d.board)) [
        | inl ((after, ids), m) ↦ record {
          few = ground (arith, a.few, length-without task_id d.in_flight);
          each = λ k. ground (
            arith,
            a.each k,
            occurrences-without k task_id d.in_flight i,
            occurrences-append k d.failed_ids (task_id ∷ []),
          );
        }
        | inr (f, m) ↦ absurd (ground arith)
      ]
  finish-IsAccounted task_id (ok result) d d' i a e =
      elim (Result-cases (reconcile_success settings task_id result d.board)) [
        | inl (after, m) ↦ record {
          few = ground (arith, a.few, length-without task_id d.in_flight);
          each = λ k. ground (
            arith,
            a.each k,
            occurrences-without k task_id d.in_flight i,
            occurrences-append k d.completed_ids (task_id ∷ []),
          );
        }
        | inr (f, m) ↦ absurd (ground arith)
      ]

  -- In whatever order workers end, at most `max_concurrent` tasks are in flight, and each start of
  -- a task is in flight, completed or failed, exactly one of these, if that holds at first.
  pub Moves-IsAccounted :
      (d d' : Dispatch F W L) → Moves settings d d' → IsAccounted d → IsAccounted d'
  Moves-IsAccounted d d' none_yet a = a
  Moves-IsAccounted d d' (then_move {e = e} before (fills again q)) a =
      fill_once-IsAccounted e d' again (Moves-IsAccounted d e before a) q
  Moves-IsAccounted d d' (then_move {e = e} before (ends task_id outcome i q)) a =
      finish-IsAccounted task_id outcome e d' i (Moves-IsAccounted d e before a) q
