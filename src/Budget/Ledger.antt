-- ===== src/Budget/Ledger.antt =====
-- The ledger never lets a counter pass its ceiling, and counts what it grants.
pub mod Requests
use agent_advisor.Prelude.{
  ℕ, zero, suc, ◌+◌, ◌-◌, ◌≤◌, ◌<◌, ◌≡◌, ◌↔◌, inl, inr, refl, sym, subst, ap, String, Bool, true,
  Option, none, some, List, [], ◌∷◌, ltb, if◌then◌else◌, arith, min, Option-cases, ◌==◌ as eq_num,
}
use agent_advisor.Prelude.Dict.{Dict, insert, lookup-insert}
use agent_advisor.Prelude.Text.{◌==◌}
use agent_advisor.Budget.{
  BudgetConfig, BudgetKind, agent_invocations, concurrent_workers, repair_cycles, research_tasks,
  high_tier_calls, wall_clock_s, value, cap, BudgetLedger, count, can_consume_all, increment_all,
  kinds_of, parse_kind, consume, try_consume,
}

abbrev rank : BudgetKind → ℕ
rank agent_invocations = 0
rank concurrent_workers = 1
rank repair_cycles = 2
rank research_tasks = 3
rank high_tier_calls = 4
rank wall_clock_s = 5

abbrev pub same_kind : BudgetKind → BudgetKind → Bool
same_kind k j = eq_num (rank k) (rank j)

value-eq : (k j : BudgetKind) → (value k == value j) ≡ same_kind k j
value-eq agent_invocations agent_invocations = refl
value-eq agent_invocations _ = refl
value-eq concurrent_workers agent_invocations = refl
value-eq concurrent_workers _ = refl
value-eq repair_cycles agent_invocations = refl
value-eq repair_cycles _ = refl
value-eq research_tasks agent_invocations = refl
value-eq research_tasks _ = refl
value-eq high_tier_calls agent_invocations = refl
value-eq high_tier_calls _ = refl
value-eq wall_clock_s agent_invocations = refl
value-eq wall_clock_s _ = refl

count-insert :
    (k j : BudgetKind) (n : ℕ) (counters : Dict ℕ)
    → count (insert (value k) n counters) j ≡ (if same_kind k j then n else count counters j)
unfolding count
count-insert k j n counters =
    ground (arith, lookup-insert (value k) (value j) n counters, value-eq k j)

-- How often a kind stands in the list of counters to increment.
abbrev pub times : BudgetKind → List BudgetKind → ℕ
times k [] = 0
times k (j ∷ kinds) = (if same_kind j k then 1 else 0) + times k kinds

same_kind-eq : (k j : BudgetKind) → same_kind k j ≡ true → k ≡ j
same_kind-eq k j h = ground arith

count-increment_all :
    (counters : Dict ℕ) (kinds : List BudgetKind) (k : BudgetKind)
    → count (increment_all counters kinds) k ≡ count counters k + times k kinds
unfolding increment_all
count-increment_all counters [] k = omega arith
count-increment_all counters (j ∷ kinds) k =
    let next = insert (value j) (count counters j + 1) counters in
    ground (
      arith,
      count-increment_all next kinds k,
      count-insert j k (count counters j + 1) counters,
      same_kind-eq j k,
    )

-- The kinds of one request are different, so that one test for each is enough.
abbrev Single : List BudgetKind → Type 0
Single kinds = (k : BudgetKind) → times k kinds ≤ 1

kinds_of-Single :
    (ledger : BudgetLedger) (kind : BudgetKind) (model : Option String)
    → Single (kinds_of ledger kind model)
unfolding kinds_of
kinds_of-Single ledger kind model k = ground arith

can_consume-room :
    (config : BudgetConfig) (counters : Dict ℕ) (kinds : List BudgetKind) (k : BudgetKind)
    → can_consume_all config counters kinds ≡ true
    → 0 < times k kinds
    → count counters k < cap config k
unfolding can_consume_all
can_consume-room config counters [] k h t = absurd (omega arith)
can_consume-room config counters (j ∷ kinds) k h t =
    ground (arith, can_consume-room config counters kinds k, same_kind-eq j k)

-- No counter is over its ceiling.
abbrev pub IsWithin : BudgetConfig → Dict ℕ → Type 0
IsWithin config counters = (k : BudgetKind) → count counters k ≤ cap config k

consume-IsWithin :
    (ledger : BudgetLedger) (kinds : List BudgetKind)
    → Single kinds
    → IsWithin ledger.config ledger.counters
    → IsWithin ledger.config (consume ledger kinds).0.counters
unfolding consume
consume-IsWithin ledger kinds single within k = ground (
  arith,
  count-increment_all ledger.counters kinds k,
  can_consume-room ledger.config ledger.counters kinds k,
  single k,
  within k,
)

-- The requests of a run, in the order in which the lock serves them, with how many were granted.
pub serve : BudgetLedger → List (String × Option String) → BudgetLedger × ℕ
serve ledger [] = (ledger, 0)
serve ledger ((kind, model) ∷ requests) =
    let (after, granted) = try_consume ledger kind model in
    let (last, n) = serve after requests in (last, (if granted then 1 else 0) + n)

config-try_consume :
    (ledger : BudgetLedger) (kind : String) (model : Option String)
    → (try_consume ledger kind model).0.config ≡ ledger.config
unfolding try_consume
config-try_consume ledger kind model = ground arith

try_consume-IsWithin :
    (ledger : BudgetLedger) (kind : String) (model : Option String)
    → IsWithin ledger.config ledger.counters
    → IsWithin ledger.config (try_consume ledger kind model).0.counters
unfolding try_consume
try_consume-IsWithin ledger kind model within = elim (Option-cases (parse_kind kind)) [
  | inl unknown ↦ rw (unknown, try_consume) within
  | inr (k, known) ↦
      rw (known, try_consume)
        (consume-IsWithin ledger (kinds_of ledger k model) (kinds_of-Single ledger k model) within)
]

-- No sequence of requests, of any kinds and models and in any order, takes a counter of the ledger
-- over its ceiling, if none was over its ceiling before.
pub serve-IsWithin :
    (ledger : BudgetLedger) (requests : List (String × Option String))
    → IsWithin ledger.config ledger.counters
    → IsWithin ledger.config (serve ledger requests).0.counters
unfolding serve
serve-IsWithin ledger [] within = within
serve-IsWithin ledger ((kind, model) ∷ requests) within =
    let (after, granted) = try_consume ledger kind model in
    let same = config-try_consume ledger kind model in
    let served = serve-IsWithin after requests (
      subst (λ c. IsWithin c after.counters) (sym same)
        (try_consume-IsWithin ledger kind model within)) in
    subst (λ c. IsWithin c (serve after requests).0.counters) same served

room-can_consume :
    (config : BudgetConfig) (counters : Dict ℕ) (kinds : List BudgetKind)
    → ((j : BudgetKind) → 0 < times j kinds → count counters j < cap config j)
    → can_consume_all config counters kinds ≡ true
unfolding can_consume_all
room-can_consume config counters [] h = refl
room-can_consume config counters (k ∷ kinds) h =
    let first : count counters k < cap config k = h k (ground arith) in
    let rest = room-can_consume config counters kinds (λ j t. h j (omega arith)) in ground arith

count-consume :
    (ledger : BudgetLedger) (kinds : List BudgetKind) (j : BudgetKind)
    → count (consume ledger kinds).0.counters j
      ≡ count ledger.counters j + (if (consume ledger kinds).1 then times j kinds else 0)
unfolding consume
count-consume ledger kinds j = ground (arith, count-increment_all ledger.counters kinds j)

consume_granted :
    (ledger : BudgetLedger) (kinds : List BudgetKind)
    → ((consume ledger kinds).1 ≡ true)
      ↔ ((j : BudgetKind) → 0 < times j kinds → count ledger.counters j < cap ledger.config j)
unfolding consume
consume_granted ledger kinds = (
  λ h j t. can_consume-room ledger.config ledger.counters kinds j (ground arith) t,
  λ h. rw (room-can_consume ledger.config ledger.counters kinds h),
)

-- A request of a known kind is granted exactly when every counter that it is to increment is below
-- its ceiling, and then each of those counters grows by one; no other counter changes, and when it
-- is refused none does.
pub try_consume_exact :
    (ledger : BudgetLedger) (kind : String) (model : Option String) (k : BudgetKind)
    → parse_kind kind ≡ some k
    → (((try_consume ledger kind model).1 ≡ true) ↔ (
        (j : BudgetKind)
        → 0 < times j (kinds_of ledger k model)
        → count ledger.counters j < cap ledger.config j))
      × ((j : BudgetKind)
          → count (try_consume ledger kind model).0.counters j
            ≡ count ledger.counters j
              + (if (try_consume ledger kind model).1
                  then times j (kinds_of ledger k model)
                  else 0))
unfolding try_consume
try_consume_exact ledger kind model k known =
    rw (known, try_consume)
      (
        consume_granted ledger (kinds_of ledger k model),
        count-consume ledger (kinds_of ledger k model),
      )
