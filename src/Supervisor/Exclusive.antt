-- ===== src/Supervisor/Exclusive.antt =====
-- Workers of one case that come and go, each `acquire` undisturbed: the lock keeps them apart.
use agent_advisor.Prelude.{
  some_inj, ℕ, Bool, true, false, ◌&&◌, Option, some, List, [], ◌∷◌, Result, ok, err, ◌≡◌, sym, ◌∙◌,
  arith, if◌then◌else◌, ◌==◌ as eq_num, ◌↔◌,
}
use agent_advisor.Prelude.Int.{ℤ, pos, negsuc}
use agent_advisor.Supervisor.{
  LockFile, Probe, CaseLocked, reached, no_process, pid_alive, holder_pid, acquire, release,
}
use agent_advisor.Supervisor.Acquire.{held_iff}

abbrev same_pid : ℤ → ℤ → Bool
same_pid (pos a) (pos b) = eq_num a b
same_pid (negsuc a) (negsuc b) = eq_num a b
same_pid (pos a) (negsuc b) = false
same_pid (negsuc a) (pos b) = false

same_pid_iff : (a b : ℤ) → (same_pid a b ≡ true) ↔ (a ≡ b)
same_pid_iff a b = ground arith

-- A worker calls `acquire`, leaves by `release`, or dies and leaves its lock file behind.
pub data Event : Type 0 where
  attempt : (self : ℤ) (now : ℕ) → Event
  leave : ℤ → Event
  die : ℤ → Event

-- The lock file, the workers whose `acquire` returned and that did not leave, and the processes.
pub record Site : Type 0 where
  pub lock : Option LockFile
  pub inside : ℤ → Bool
  pub runs : ℤ → Bool

abbrev pub probe : Site → ℤ → Probe
probe s p = if s.runs p then reached else no_process

abbrev pub works : Site → ℤ → Bool
works s p = s.inside p && pid_alive (probe s) p

after_acquire : Site → ℤ → Result CaseLocked (Option LockFile) → Site
after_acquire s self (err locked) = s
after_acquire s self (ok lock) = record s {
  lock = lock;
  inside = λ p. if same_pid self p then true else s.inside p;
}

unfoldable pub step : Event → Site → Site
unfolding after_acquire
step (attempt self now) s =
    if pid_alive (probe s) self then after_acquire s self (acquire (probe s) self now s.lock) else s
step (leave self) s =
    if works s self
    then record s {
      lock = release s.lock;
      inside = λ p. if same_pid self p then false else s.inside p;
    }
    else s
step (die self) s = record s { runs = λ p. if same_pid self p then false else s.runs p }

unfoldable pub steps : List Event → Site → Site
steps [] s = s
steps (e ∷ es) s = steps es (step e s)

-- Every worker at work is the one that the lock file names.
abbrev pub IsLocked : Site → Type 0
IsLocked s = (p : ℤ) → works s p ≡ true → holder_pid s.lock ≡ some p

step-IsLocked : (e : Event) (s : Site) → IsLocked s → IsLocked (step e s)
unfolding step pid_alive acquire
step-IsLocked (attempt self now) s h p w =
    ground (arith, h p, (held_iff (probe s) s.lock).1, same_pid_iff self p)
step-IsLocked (leave self) s h p w = ground (arith, h p, h self, same_pid_iff self p)
step-IsLocked (die self) s h p w = ground (arith, h p, same_pid_iff self p)

steps-IsLocked : (es : List Event) (s : Site) → IsLocked s → IsLocked (steps es s)
unfolding steps
steps-IsLocked [] s h = h
steps-IsLocked (e ∷ es) s h = steps-IsLocked es (step e s) (step-IsLocked e s h)

-- From a site with no worker inside, and however workers then acquire, leave and die, any two
-- workers that are alive and inside are the same one, if no two calls of `acquire` overlap and only
-- a worker that is inside removes the lock file.
pub steps_exclusive :
    (es : List Event) (s : Site) (p q : ℤ)
    → ((r : ℤ) → s.inside r ≡ false)
    → works (steps es s) p ≡ true
    → works (steps es s) q ≡ true
    → p ≡ q
steps_exclusive es s p q empty v w =
    let locked = steps-IsLocked es s (λ r h. ground (arith, empty r)) in
    some_inj (sym (locked p v) ∙ locked q w)
