-- ===== src/Supervisor/Race.antt =====
-- `acquire` one system call at a time, with two processes in it at once.
use agent_advisor.Prelude.{
  ℕ, Bool, true, false, Option, none, some, List, [], ◌∷◌, ◌≡◌, ◌≢◌, ap, refl, arith, if◌then◌else◌,
}
use agent_advisor.Prelude.Int.{ℤ}
use agent_advisor.Supervisor.{LockFile, Probe, exists, is_held}

-- Where a process stands in `acquire`: before `is_held`, before `exists`, before `unlink`, before
-- the exclusive `open`, before `write`, and after it has returned or raised.
pub data Phase : Type 0 where
  checking probing clearing creating writing acquired refused : Phase

-- The two processes.
pub data Side : Type 0 where
  left right : Side

abbrev same_side : Side → Side → Bool
same_side left left = true
same_side right right = true
same_side left right = false
same_side right left = false

-- The file at the path, with the process that created it: a write goes to the file that the process
-- created, which may be unlinked by then.
pub record Site : Type 0 where
  pub file : Option (Side × LockFile)
  pub left_phase : Phase
  pub right_phase : Phase

abbrev pub content : Option (Side × LockFile) → Option LockFile
content none = none
content (some (side, file)) = some file

abbrev empty_file : LockFile
empty_file = record { pid = none; started_at = none }

module _ (kill : ℤ → Probe) (pid_of : Side → ℤ) (now : ℕ) where
  written : Side → Option (Side × LockFile) → Option (Side × LockFile)
  written self none = none
  written self (some (maker, file)) =
      if same_side maker self
      then some (self, record { pid = some (pid_of self); started_at = some now })
      else some (maker, file)

  -- One system call of `acquire` by `self`.
  unfoldable pub call : Side → Phase → Option (Side × LockFile) → Phase × Option (Side × LockFile)
  unfolding written
  call self checking file = (if is_held kill (content file) then refused else probing, file)
  call self probing file = (if exists (content file) then clearing else creating, file)
  call self clearing file = (creating, none)
  call self creating file =
      if exists (content file) then (refused, file) else (writing, some (self, empty_file))
  call self writing file = (acquired, written self file)
  call self acquired file = (acquired, file)
  call self refused file = (refused, file)

  turn : Side → Site → Site
  unfolding call
  turn left s =
      let (phase, file) = call left s.left_phase s.file in
      record s { file = file; left_phase = phase }
  turn right s =
      let (phase, file) = call right s.right_phase s.file in
      record s { file = file; right_phase = phase }

  pub turns : List Side → Site → Site
  unfolding turn
  turns [] s = s
  turns (side ∷ sides) s = turns sides (turn side s)

  abbrev pub started : Option (Side × LockFile) → Site
  started file = record { file = file; left_phase = checking; right_phase = checking }

  -- Both look first; then the left one takes the lock; then the right one goes on.
  abbrev late_unlink : List Side
  late_unlink = left ∷ left ∷ left ∷ left ∷ right ∷ right ∷ right ∷ right ∷ []

  looked : Option (Side × LockFile) → Site
  looked file = record { file = file; left_phase = probing; right_phase = probing }

  both_look :
      (file : Option (Side × LockFile)) (sides : List Side)
      → is_held kill (content file) ≡ false
      → turns (left ∷ right ∷ sides) (started file) ≡ turns sides (looked file)
  unfolding turns call looked
  both_look file sides h = rw h

  looked_acquire :
      (file : Option (Side × LockFile))
      → ((turns late_unlink (looked file)).left_phase ≡ acquired)
        × ((turns late_unlink (looked file)).right_phase ≡ acquired)
  unfolding turns call looked
  looked_acquire none = (refl, refl)
  looked_acquire (some (maker, file)) = (refl, refl)

  -- Two calls of `acquire` that overlap can both return. Whenever the lock is not held, that is
  -- with no lock file or with a stale one, there is an order of the system calls of two processes
  -- after which both have acquired it.
  pub both_acquire :
      (file : Option (Side × LockFile))
      → is_held kill (content file) ≡ false
      → (sides : List Side) × ((turns sides (started file)).left_phase ≡ acquired)
        × ((turns sides (started file)).right_phase ≡ acquired)
  both_acquire file h =
      let both = both_look file late_unlink h in
      let done = looked_acquire file in (left ∷ right ∷ late_unlink, rw both done.0, rw both done.1)

  -- A process that is refused, or has not yet looked.
  abbrev is_kept_out : Phase → Bool
  is_kept_out checking = true
  is_kept_out refused = true
  is_kept_out _ = false

  kept_out :
      (sides : List Side) (s : Site)
      → is_held kill (content s.file) ≡ true
      → is_kept_out s.left_phase ≡ true
      → is_kept_out s.right_phase ≡ true
      → ((turns sides s).file ≡ s.file)
        × (is_kept_out (turns sides s).left_phase ≡ true)
        × (is_kept_out (turns sides s).right_phase ≡ true)
  unfolding turns call
  kept_out [] s h l r = (refl, l, r)
  kept_out (left ∷ sides) s h l r = ground (arith, kept_out sides (turn left s))
  kept_out (right ∷ sides) s h l r = ground (arith, kept_out sides (turn right s))

  -- While the lock is held, neither of two processes that call `acquire` gets it, in whatever order
  -- their system calls come, and the lock file stays as it is.
  pub held_refuses :
      (sides : List Side) (file : Option (Side × LockFile))
      → is_held kill (content file) ≡ true
      → ((turns sides (started file)).file ≡ file)
        × ((turns sides (started file)).left_phase ≢ acquired)
        × ((turns sides (started file)).right_phase ≢ acquired)
  held_refuses sides file h =
      let out = kept_out sides (started file) h refl refl in
      (out.0, λ e. cc (out.1, ap is_kept_out e), λ e. cc (out.2, ap is_kept_out e))
