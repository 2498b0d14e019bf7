-- ===== src/TaskGraph/Cycle/Fuel.antt =====
-- The search ends with the fuel that `find_cycle` gives it, and a cycle that it reports is one.
use agent_advisor.Prelude.{
  ℕ, zero, suc, ◌+◌, ◌≤◌, false, List, [], ◌∷◌, ◌≡◌, ◌≢◌, ◌⊎◌, inl, inr, refl, sym, subst, arith,
  length, In, In-subst, String, ⊎_elim, Bool-cases,
}
use agent_advisor.Prelude.Dict.{Dict, lookup, get_or, mem, mem_iff, sorted_set}
use agent_advisor.Prelude.Text.{eq_iff}
use agent_advisor.Prelude.Fresh.{fresh, fresh_less, fresh-le-length}
use agent_advisor.TaskGraph.Reach.{keys, length-keys}
use agent_advisor.TaskGraph.Cycle.{
  Outcome, cycle, clean, exhausted, explore, dfs, search_all, find_cycle,
}
use agent_advisor.TaskGraph.Cycle.Search.{PathTo, last, first, Outcome-cases, clean_inj}

abbrev Subset : List String → List String → Type 0
Subset v w = (x : String) → In x v → In x w

fresh-subset : (us v w : List String) → Subset v w → fresh us w ≤ fresh us v
unfolding fresh
fresh-subset [] v w s = omega arith
fresh-subset (u ∷ us) v w s = ground (arith, fresh-subset us v w s, mem_iff u v, mem_iff u w, s u)

get_or-keys :
    (edges : Dict (List String)) (node d : String)
    → In d (get_or edges node [])
    → In node (keys edges)
unfolding lookup keys
get_or-keys [] node d i = i
get_or-keys ((k, deps) ∷ edges) node d i = ground (arith, eq_iff k node, get_or-keys edges node d)

explore-grows :
    (find : String → List String → Outcome) (path deps : List String)
    → ((d : String) (v after : List String) → find d v ≡ clean after → Subset v after)
    → (visited after : List String) → explore find path deps visited ≡ clean after
    → Subset visited after
unfolding explore
explore-grows find path [] grows visited after e = subst (Subset visited) (clean_inj e) (λ x i. i)
explore-grows find path (d ∷ deps) grows visited after e = elim (Outcome-cases (find d visited)) [
  | inl (v, found) ↦ elim (Bool-cases (mem d visited)) [
    | inl seen ↦ explore-grows find path deps grows visited after (ground arith)
    | inr new ↦ λ x i.
        explore-grows find path deps grows v after (ground arith) x (grows d visited v found x i)
  ]
  | inr never ↦ explore-grows find path deps grows visited after (ground arith)
]

explore_ends :
    (find : String → List String → Outcome) (path deps : List String)
    → ((d : String) (v after : List String) → find d v ≡ clean after → Subset v after)
    → (start : List String)
    → ((d : String) (v : List String)
        → In d deps
        → Subset start v
        → mem d v ≡ false
        → find d v ≢ exhausted)
    → (visited : List String) → Subset start visited
    → explore find path deps visited ≢ exhausted
unfolding explore
explore_ends find path [] grows start ends visited s e = cc
explore_ends find path (d ∷ deps) grows start ends visited s e =
    let on = λ (v : List String) (sv : Subset start v).
      explore_ends find path deps grows start (λ x w i. ends x w (inr i)) v sv in
    elim (Bool-cases (mem d visited)) [
      | inl seen ↦ elim (Bool-cases (mem d path)) [
        | inl here ↦ absurd (ground arith)
        | inr away ↦ on visited s (ground arith)
      ]
      | inr new ↦ elim (Outcome-cases (find d visited)) [
        | inl (v, found) ↦ on v (λ x i. grows d visited v found x (s x i)) (ground arith)
        | inr (inl (c, found)) ↦ absurd (ground arith)
        | inr (inr found) ↦ ends d visited (inl refl) s new found
      ]
    ]

module _ (edges : Dict (List String)) where
  dfs-grows :
      (fuel : ℕ) (path : List String) (node : String) (visited after : List String)
      → dfs fuel edges path node visited ≡ clean after
      → Subset visited after
  unfolding dfs
  dfs-grows zero path node visited after e = absurd (ground arith)
  dfs-grows (suc fuel) path node visited after e = λ x i.
      explore-grows (dfs fuel edges (node ∷ path)) (node ∷ path) (get_or edges node [])
        (dfs-grows fuel (node ∷ path)) (node ∷ visited) after e x (inr i)

  dfs_ends :
      (fuel : ℕ) (path : List String) (node : String) (visited : List String)
      → mem node visited ≡ false
      → fresh (keys edges) visited + 1 ≤ fuel
      → dfs fuel edges path node visited ≢ exhausted
  unfolding dfs
  dfs_ends zero path node visited new m e = absurd (omega arith)
  dfs_ends (suc fuel) path node visited new m e =
      explore_ends (dfs fuel edges (node ∷ path)) (node ∷ path) (get_or edges node [])
        (dfs-grows fuel (node ∷ path)) (node ∷ visited)
        (λ d v i s new_d.
          let fewer = fresh-subset (keys edges) (node ∷ visited) v s in
          let less = fresh_less (keys edges) node visited (get_or-keys edges node d i) new in
          dfs_ends fuel (node ∷ path) d v new_d (omega (arith, fewer, less)))
        (node ∷ visited) (λ x i. i) e

  search_all_ends :
      (fuel : ℕ) (nodes visited : List String)
      → fresh (keys edges) visited + 1 ≤ fuel
      → search_all fuel edges nodes visited ≢ exhausted
  unfolding search_all
  search_all_ends fuel [] visited m e = cc
  search_all_ends fuel (node ∷ nodes) visited m e = elim (Bool-cases (mem node visited)) [
    | inl seen ↦ search_all_ends fuel nodes visited m (ground arith)
    | inr new ↦ elim (Outcome-cases (dfs fuel edges [] node visited)) [
      | inl (v, found) ↦
          let fewer =
            fresh-subset (keys edges) visited v (dfs-grows fuel [] node visited v found) in
          search_all_ends fuel nodes v (omega (arith, fewer)) (ground arith)
      | inr (inl (c, found)) ↦ absurd (ground arith)
      | inr (inr found) ↦ dfs_ends fuel [] node visited new m found
    ]
  ]

  -- The search for a cycle ends within the fuel that `find_cycle` gives it, on all edges and ids.
  pub find_cycle_ends : (node_ids : List String) → find_cycle edges node_ids ≢ exhausted
  unfolding find_cycle
  find_cycle_ends node_ids =
      search_all_ends (suc (suc (length edges))) (sorted_set node_ids) []
        (omega (arith, fresh-le-length (keys edges), length-keys edges))

  -- Each node of the path, last one first, is a dependency of the node before it.
  IsChain : List String → Type 0
  IsChain [] = Unit {0}
  IsChain (x ∷ []) = Unit {0}
  IsChain (x ∷ y ∷ path) = In x (get_or edges y []) × IsChain (y ∷ path)

  onward : (a b c : String) → PathTo edges a b → In c (get_or edges b []) → PathTo edges a c
  onward a b c (last h) i = first h (last i)
  onward a b c (first {b = d} h p) i = first h (onward d b c p i)

  chain_to :
      (top : String) (path : List String) (d : String)
      → IsChain (top ∷ path)
      → In d (top ∷ path)
      → (d ≡ top) ⊎ PathTo edges d top
  unfolding IsChain
  chain_to top [] d c i = ⊎_elim inl (λ j. absurd j) i
  chain_to top (y ∷ path) d (h, c) (inl e) = inl e
  chain_to top (y ∷ path) d (h, c) (inr i) = inr (
      ⊎_elim (λ e. last (subst (λ z. In top (get_or edges z [])) (sym e) h))
        (λ p. onward d y top p h) (chain_to y path d c i))

  abbrev HasCycle : Type 0
  HasCycle = (a : String) × PathTo edges a a

  explore_cycle :
      (find : String → List String → Outcome) (top : String) (path deps : List String)
      → IsChain (top ∷ path)
      → ((d : String) → In d deps → In d (get_or edges top []))
      → ((d : String) (v c : List String) → In d deps → find d v ≡ cycle c → HasCycle)
      → (visited c : List String) → explore find (top ∷ path) deps visited ≡ cycle c
      → HasCycle
  unfolding explore
  explore_cycle find top path [] chain sub found visited c e = absurd (ground arith)
  explore_cycle find top path (d ∷ deps) chain sub found visited c e =
      let on = λ (v : List String).
        explore_cycle find top path deps chain (λ x i. sub x (inr i))
          (λ x v c i. found x v c (inr i)) v c in
      elim (Bool-cases (mem d visited)) [
        | inl seen ↦ elim (Bool-cases (mem d (top ∷ path))) [
          | inl here ↦
              let h = sub d (inl refl) in
              ⊎_elim (λ e. (top, last (In-subst top d (get_or edges top []) (sym e) h)))
                (λ p. (d, onward d top d p h))
                (chain_to top path d chain ((mem_iff d (top ∷ path)).0 here))
          | inr away ↦ on visited (ground arith)
        ]
        | inr new ↦ elim (Outcome-cases (find d visited)) [
          | inl (v, q) ↦ on v (ground arith)
          | inr (inl (c', q)) ↦ found d visited c' (inl refl) q
          | inr (inr q) ↦ absurd (ground arith)
        ]
      ]

  dfs_cycle :
      (fuel : ℕ) (path : List String) (node : String) (visited c : List String)
      → IsChain (node ∷ path)
      → dfs fuel edges path node visited ≡ cycle c
      → HasCycle
  unfolding dfs IsChain
  dfs_cycle zero path node visited c chain e = absurd (ground arith)
  dfs_cycle (suc fuel) path node visited c chain e =
      explore_cycle (dfs fuel edges (node ∷ path)) node path (get_or edges node []) chain (λ d i. i)
        (λ d v c' i q. dfs_cycle fuel (node ∷ path) d v c' (i, chain) q) (node ∷ visited) c e

  search_all_cycle :
      (fuel : ℕ) (nodes visited c : List String)
      → search_all fuel edges nodes visited ≡ cycle c
      → HasCycle
  unfolding search_all IsChain
  search_all_cycle fuel [] visited c e = absurd (ground arith)
  search_all_cycle fuel (node ∷ nodes) visited c e = elim (Bool-cases (mem node visited)) [
    | inl seen ↦ search_all_cycle fuel nodes visited c (ground arith)
    | inr new ↦ elim (Outcome-cases (dfs fuel edges [] node visited)) [
      | inl (v, found) ↦ search_all_cycle fuel nodes v c (ground arith)
      | inr (inl (c', found)) ↦ dfs_cycle fuel [] node visited c' tt found
      | inr (inr found) ↦ absurd (ground arith)
    ]
  ]

  -- A cycle that is reported starts at a task that depends on itself.
  pub find_cycle_sound :
      (node_ids c : List String)
      → find_cycle edges node_ids ≡ cycle c
      → (a : String) × PathTo edges a a
  unfolding find_cycle
  find_cycle_sound node_ids c e =
      search_all_cycle (suc (suc (length edges))) (sorted_set node_ids) [] c e
