-- ===== src/CaseStore/Counters.antt =====
-- `Case.next_id`: the ids of evidence, assumptions, tasks and objections.
-- The counters file is its dictionary, with values from zero up, as `next_id` alone writes it.
pub mod Fresh
use Prim.Native.String.{◌++◌}
use agent_advisor.Prelude.{
  ℕ, suc, Bool, not, List, [], ◌∷◌, Result, ok, err, ◌>>=◌, String, filter, if◌then◌else◌,
}
use agent_advisor.Prelude.Dict.{Dict, lookup, insert, get_or, mem}
use agent_advisor.Prelude.Decimal.{padded}
use agent_advisor.CaseStore.{StoreError, bad_prefix}

-- _COUNTER_PREFIXES
abbrev pub counter_prefixes : List String
counter_prefixes = "E-" ∷ "A-" ∷ "T-" ∷ "O-" ∷ []

-- The entries of the counters file that are loaded_counters when it is read.
unfoldable pub loaded_counters : Dict ℕ → Dict ℕ
unfolding mem
loaded_counters counters = filter (λ e. mem e.0 counter_prefixes) counters

unfoldable pub next_id : (prefix : String) → Dict ℕ → Result StoreError (String × Dict ℕ)
unfolding loaded_counters lookup insert padded mem
next_id prefix counters =
    if not (mem prefix counter_prefixes)
    then err (bad_prefix prefix)
    else let next_value = suc (get_or (loaded_counters counters) prefix 0) in
      ok (prefix ++ padded next_value, insert prefix next_value (loaded_counters counters))

-- One call for each prefix, in turn.
unfoldable pub issue : List String → Dict ℕ → Result StoreError (List String × Dict ℕ)
unfolding next_id
issue [] counters = ok ([], counters)
issue (prefix ∷ prefixes) counters =
    let rest = λ (later : Dict ℕ). issue prefixes later in
    next_id prefix counters >>= λ (id, later). rest later >>= λ (ids, last). ok (id ∷ ids, last)
