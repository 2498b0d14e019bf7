-- ===== src/Supervisor/Samples.antt =====
-- The theorems about the lock at concrete inputs, and tests.
use agent_advisor.Prelude.{
  true, false, Option, none, some, List, [], ◌∷◌, ok, err, ◌≡◌, ◌↔◌, refl, In, if◌then◌else◌,
  ◌==◌ as eq_num,
}
use agent_advisor.Prelude.Int.{ℤ, pos}
use agent_advisor.StateMachine.{CaseState, is_terminal, planning}
use agent_advisor.StateMachine.Run.{initial_state}
use agent_advisor.Prelude.Sort.{sorted, insert}
use agent_advisor.Prelude.Text.{text_leb}
use agent_advisor.Supervisor.{
  LockFile, Probe, CaseLocked, Entry, reached, no_process, pid_alive, exists, holder_pid, is_stale,
  is_held, acquire, interrupted_cases,
}
use agent_advisor.Supervisor.Acquire.{acquire_excludes, In-interrupted_cases}
use agent_advisor.Supervisor.Exclusive as Exclusive
use agent_advisor.Supervisor.Exclusive.{
  Event, attempt, leave, die, works, steps, step, steps_exclusive,
}
use agent_advisor.Supervisor.Race.{
  Side, left, right, turns, started, acquired, both_acquire, content,
}

-- Only process 7 runs.
abbrev seven : ℤ → Probe
seven (pos n) = if eq_num n 7 then reached else no_process
seven n = no_process

abbrev by_seven : Option LockFile
by_seven = some (record { pid = some (pos 7); started_at = some 100 })

abbrev by_nine : Option LockFile
by_nine = some (record { pid = some (pos 9); started_at = some 50 })

seven_alive : pid_alive seven (pos 7) ≡ true
unfolding pid_alive
seven_alive = refl

acquire-stale : acquire seven (pos 7) 100 by_nine ≡ ok by_seven
unfolding acquire
acquire-stale = refl

acquire_excludes_example :
    (holder_pid by_seven ≡ some (pos 7))
    × ((e : CaseLocked) × (acquire seven (pos 8) 130 by_seven ≡ err e) × (e.holder_pid ≡ pos 7))
acquire_excludes_example =
    acquire_excludes seven (pos 7) (pos 8) 100 130 by_nine by_seven seven_alive acquire-stale

abbrev abandoned : Entry
abandoned = record {
  name = "case-002";
  is_dir = true;
  state = some (record (initial_state "case-002" 0) { stage = planning });
  lock = by_nine;
}

abbrev running : Entry
running = record abandoned { name = "case-001"; lock = by_seven }

listed : interrupted_cases seven (abandoned ∷ running ∷ []) ≡ "case-002" ∷ []
unfolding interrupted_cases sorted text_leb is_stale insert
listed = refl

In-interrupted_cases_example :
    In "case-002" (interrupted_cases seven (abandoned ∷ running ∷ [])) ↔ (
      (entry : Entry) × In entry (abandoned ∷ running ∷ [])
      × ("case-002" ≡ entry.name)
      × (entry.is_dir ≡ true)
      × ((state : CaseState) × (entry.state ≡ some state) × (is_terminal state.stage ≡ false))
      × (exists entry.lock ≡ true)
      × (is_held seven entry.lock ≡ false))
In-interrupted_cases_example = In-interrupted_cases seven "case-002" (abandoned ∷ running ∷ [])

abbrev deserted : Exclusive.Site
deserted = record { lock = none; inside = λ p. false; runs = λ p. true }

-- Worker 7 takes the lock and dies, worker 9 reclaims it, and worker 8 is refused.
abbrev comings : List Event
comings = attempt (pos 7) 100 ∷ die (pos 7) ∷ attempt (pos 9) 120 ∷ attempt (pos 8) 130 ∷ []

nine_works : works (steps comings deserted) (pos 9) ≡ true
unfolding steps step acquire pid_alive
nine_works = refl

steps_exclusive_example : pos 9 ≡ pos 9
steps_exclusive_example =
    steps_exclusive comings deserted (pos 9) (pos 9) (λ r. refl) nine_works nine_works

abbrev pid_of : Side → ℤ
pid_of left = pos 7
pid_of right = pos 8

abbrev stale_file : Option (Side × LockFile)
stale_file = some (left, record { pid = some (pos 9); started_at = some 50 })

stale_free : is_held seven (content stale_file) ≡ false
unfolding is_held
stale_free = refl

both_acquire_example :
    (sides : List Side) × ((turns seven pid_of 100 sides
        (started seven pid_of 100 stale_file)).left_phase
      ≡ acquired)
    × ((turns seven pid_of 100 sides (started seven pid_of 100 stale_file)).right_phase ≡ acquired)
both_acquire_example = both_acquire seven pid_of 100 stale_file stale_free

abbrev held_file : Option (Side × LockFile)
held_file = some (left, record { pid = some (pos 7); started_at = some 50 })

held_file_held : is_held seven (content held_file) ≡ true
unfolding is_held
held_file_held = refl
