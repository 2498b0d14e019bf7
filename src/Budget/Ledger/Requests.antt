-- ===== src/Budget/Ledger/Requests.antt =====
-- How many of a row of equal requests the ledger grants.
use agent_advisor.Prelude.{
  ℕ, zero, suc, ◌-◌, ◌≡◌, ap, String, Option, none, some, List, [], ◌∷◌, ltb, if◌then◌else◌, arith,
  min,
}
use agent_advisor.Budget.{
  BudgetKind, cap, BudgetLedger, count, can_consume_all, kinds_of, parse_kind, consume, try_consume,
}
use agent_advisor.Budget.Ledger.{same_kind, times, serve, try_consume_exact, config-try_consume}

-- Asking again and again for one kind, with no model.
abbrev pub ask : String → ℕ → List (String × Option String)
ask kind zero = []
ask kind (suc n) = (kind, none) ∷ ask kind n

times-kinds_of :
    (ledger : BudgetLedger) (k j : BudgetKind)
    → times j (kinds_of ledger k none) ≡ (if same_kind k j then 1 else 0)
unfolding kinds_of
times-kinds_of ledger k j = ground arith

ask-granted :
    (ledger : BudgetLedger) (kind : String) (k : BudgetKind)
    → parse_kind kind ≡ some k
    → (try_consume ledger kind none).1 ≡ ltb (count ledger.counters k) (cap ledger.config k)
unfolding try_consume kinds_of consume can_consume_all
ask-granted ledger kind k known = rw (known, try_consume) (ground arith)

-- Of n requests in a row for one known kind, with no model, exactly as many are granted as the
-- ceiling has room for, and at most n.
pub serve-ask :
    (ledger : BudgetLedger) (kind : String) (k : BudgetKind) (n : ℕ)
    → parse_kind kind ≡ some k
    → (serve ledger (ask kind n)).1 ≡ min n (cap ledger.config k - count ledger.counters k)
unfolding serve
serve-ask ledger kind k zero known = omega arith
serve-ask ledger kind k (suc n) known =
    let after = (try_consume ledger kind none).0 in
    let counted = (try_consume_exact ledger kind none k known).1 k in
    ground (
      arith,
      serve-ask after kind k n known,
      ask-granted ledger kind k known,
      counted,
      times-kinds_of ledger k k,
      config-try_consume ledger kind none,
      ap (λ c. cap c k) (config-try_consume ledger kind none),
    )
