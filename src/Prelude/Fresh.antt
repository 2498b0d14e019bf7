-- ===== src/Prelude/Fresh.antt =====
-- How far a search that marks what it has visited is from its end.
use Prim.Native.Nat.{ℕ, ◌+◌, ◌≤◌}
use Prim.Native.String.{String}
use mathlib.Core.Path.{◌≡◌}
use mathlib.Core.Bool.{false}
use mathlib.Core.List.{List, [], ◌∷◌}
use native.Mathlib.Omega.{arith}
use agent_advisor.Prelude.Tests.{if◌then◌else◌}
use agent_advisor.Prelude.Lists.{In, length}
use agent_advisor.Prelude.Text.{eq_iff}
use agent_advisor.Prelude.Dict.{mem}

-- How many of `all_ids` were not visited.
unfoldable pub fresh : (all_ids visited : List String) → ℕ
fresh [] visited = 0
fresh (u ∷ us) visited = (if mem u visited then 0 else 1) + fresh us visited

pub fresh-le-length : (us : List String) → fresh us [] ≤ length us
unfolding fresh mem
fresh-le-length [] = omega arith
fresh-le-length (u ∷ us) = omega (arith, fresh-le-length us)

pub fresh-cons :
    (us : List String) (d : String) (visited : List String)
    → fresh us (d ∷ visited) ≤ fresh us visited
unfolding fresh mem
fresh-cons [] d visited = omega arith
fresh-cons (u ∷ us) d visited = ground (arith, fresh-cons us d visited)

pub fresh_less :
    (us : List String) (d : String) (visited : List String)
    → In d us
    → mem d visited ≡ false
    → fresh us (d ∷ visited) + 1 ≤ fresh us visited
unfolding fresh mem
fresh_less [] d visited i e = absurd i
fresh_less (u ∷ us) d visited i e =
    ground (arith, fresh_less us d visited, fresh-cons us d visited, eq_iff u d)
