-- ===== src/StateMachine/Run/Clock.antt =====
-- The elapsed time, along whole runs.
use agent_advisor.Prelude.{ℕ, zero, suc, List, [], ◌∷◌}
use agent_advisor.Prelude.Int.{sub_ℕ}
use agent_advisor.StateMachine.{CaseState}
use agent_advisor.StateMachine.Run.{Machine, Floats, Settings, round, returned, next, raised}

-- The last of the times, after `start`.
unfoldable pub last_of : (start : ℕ) → List ℕ → ℕ
last_of start [] = start
last_of start (now ∷ times) = last_of now times

-- A float sum from left to right: to `e` is added the time from `start` to the first of the times,
-- then the time from each to the next.
unfoldable pub elapsed_over : Floats → (e start : ℕ) → List ℕ → ℕ
elapsed_over floats e start [] = e
elapsed_over floats e start (now ∷ times) =
    elapsed_over floats (floats.add e (floats.total_seconds (sub_ℕ now start))) now times

-- The times that the checkpoints of a run put into the state's `updated_at`.
unfoldable pub checkpoint_times : {W : Type 0} → Settings W → ℕ → Machine W → CaseState → List ℕ
checkpoint_times settings zero m s = []
checkpoint_times settings (suc fuel) m s =
    let (m', r) = round settings m s in
    elim r [
      | returned t ↦ []
      | raised e ↦ []
      | next t ↦ t.updated_at ∷ checkpoint_times settings fuel m' t
    ]
