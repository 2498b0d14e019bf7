-- ===== src/TaskGraph/Cycle/Search.antt =====
-- The search is complete: where it finds nothing there is no cycle.
use agent_advisor.Prelude.{
  ℕ, zero, suc, false, List, [], ◌∷◌, ◌≡◌, ◌↔◌, ◌⊎◌, inl, inr, refl, sym, subst, arith, length, In,
  In-subst, String, ⊎_elim, Bool-cases,
}
use agent_advisor.Prelude.Dict.{Dict, get_or, mem, mem_iff, sorted_set, In-sorted_set}
use agent_advisor.Prelude.Text.{eq_iff}
use agent_advisor.TaskGraph.Cycle.{
  Outcome, cycle, clean, exhausted, explore, dfs, search_all, find_cycle,
}

-- One or more steps from a task to one that it depends on.
pub data PathTo (edges : Dict (List String)) : String → String → Type 0 where
  last : {a b : String} → In b (get_or edges a []) → PathTo edges a b
  first : {a b c : String} → In b (get_or edges a []) → PathTo edges b c → PathTo edges a c

pub clean_inj : {v w : List String} → clean v ≡ clean w → v ≡ w
clean_inj e = cc

pub Outcome-cases :
    (o : Outcome)
    → ((v : List String) × (o ≡ clean v)) ⊎ ((c : List String) × (o ≡ cycle c)) ⊎ (o ≡ exhausted)
Outcome-cases (clean v) = inl (v, refl)
Outcome-cases (cycle c) = inr (inl (c, refl))
Outcome-cases exhausted = inr (inr refl)

module _ (edges : Dict (List String)) where
  -- Each task stands before those that it depends on.
  IsTopological : List String → Type 0
  IsTopological [] = Unit {0}
  IsTopological (x ∷ l) = ((d : String) → In d (get_or edges x []) → In d l) × IsTopological l

  deps-In :
      (l : List String) (a b : String)
      → IsTopological l
      → In a l
      → In b (get_or edges a [])
      → In b l
  unfolding IsTopological
  deps-In [] a b t i h = i
  deps-In (x ∷ l) a b t (inl e) h = inr (t.0 b (subst (λ y. In b (get_or edges y [])) e h))
  deps-In (x ∷ l) a b t (inr i) h = inr (deps-In l a b t.1 i h)

  path-In : (l : List String) (a b : String) → IsTopological l → In a l → PathTo edges a b → In b l
  path-In l a b t i (last h) = deps-In l a b t i h
  path-In l a b t i (first {b = c} h p) = path-In l c b t (deps-In l a c t i h) p

  no_cycle : (l : List String) (a : String) → IsTopological l → In a l → ¬ PathTo edges a a
  unfolding IsTopological
  no_cycle [] a t i p = i
  no_cycle (x ∷ l) a t (inr i) p = no_cycle l a t.1 i p
  no_cycle (x ∷ l) a t (inl e) p = no_cycle l a t.1 (after e p) p
    where
      after : a ≡ x → PathTo edges a a → In a l
      after e (last h) = t.0 a (subst (λ y. In a (get_or edges y [])) e h)
      after e (first {b = c} h q) =
          path-In l c a t.1 (t.0 c (subst (λ y. In c (get_or edges y [])) e h)) q

  -- The visited nodes that are not on the path, in such an order.
  record Finished (path visited : List String) : Type 0 where
    order : List String
    topological : IsTopological order
    exact : (x : String) → In x order ↔ (In x visited × ¬ In x path)
    below : (x : String) → In x path → In x visited

  explore-Finished :
      (find : String → List String → Outcome) (path deps : List String)
      → ((d : String) (visited after : List String)
          → Finished path visited
          → mem d visited ≡ false
          → find d visited ≡ clean after
          → Finished path after × ((x : String) → In x visited → In x after) × In d after)
      → (visited after : List String) → Finished path visited
      → explore find path deps visited ≡ clean after
      → Finished path after
        × ((x : String) → In x visited → In x after)
        × ((d : String) → In d deps → In d after × ¬ In d path)
  unfolding explore
  explore-Finished find path [] keeps visited after f e = (
    subst (Finished path) (clean_inj e) f,
    subst (λ v. (x : String) → In x visited → In x v) (clean_inj e) (λ x i. i),
    λ d i. absurd i,
  )
  explore-Finished find path (d ∷ deps) keeps visited after f e =
      elim (Bool-cases (mem d visited)) [
        | inl seen ↦ elim (Bool-cases (mem d path)) [
          | inl on ↦ absurd (ground arith)
          | inr off ↦
              let (f', grown, all_in) =
                explore-Finished find path deps keeps visited after f (ground arith) in
              (
                f',
                grown,
                λ x i.
                    ⊎_elim
                      (λ same.
                        subst (λ y. In y after × ¬ In y path) (sym same)
                          (
                            grown d ((mem_iff d visited).0 seen),
                            λ k. ground (arith, mem_iff d path),
                          ))
                      (all_in x) i,
              )
        ]
        | inr new ↦ elim (Outcome-cases (find d visited)) [
          | inl (v, found) ↦
              let (f1, grown1, here) = keeps d visited v f new found in
              let (f', grown, all_in) =
                explore-Finished find path deps keeps v after f1 (ground arith) in
              (
                f',
                λ x i. grown x (grown1 x i),
                λ x i.
                    ⊎_elim
                      (λ same.
                        subst (λ y. In y after × ¬ In y path) (sym same)
                          (grown d here, λ k. ground (arith, mem_iff d visited, f.below d k)))
                      (all_in x) i,
              )
          | inr (inl (c, found)) ↦ absurd (ground arith)
          | inr (inr found) ↦ absurd (ground arith)
        ]
      ]

  dfs-Finished :
      (fuel : ℕ) (path : List String) (node : String) (visited after : List String)
      → Finished path visited
      → mem node visited ≡ false
      → dfs fuel edges path node visited ≡ clean after
      → Finished path after × ((x : String) → In x visited → In x after) × In node after
  unfolding dfs IsTopological
  dfs-Finished zero path node visited after f new e = cc
  dfs-Finished (suc fuel) path node visited after f new e =
      let begun : Finished (node ∷ path) (node ∷ visited) = record {
        order = f.order;
        topological = f.topological;
        exact = λ x. ground (
          arith,
          f.exact x,
          mem_iff node visited,
          In-subst node x visited,
          In-subst x node visited,
        );
        below = λ x. ⊎_elim inl (λ i. inr (f.below x i));
      } in
      let (f', grown, all_in) =
        explore-Finished (dfs fuel edges (node ∷ path)) (node ∷ path) (get_or edges node [])
          (dfs-Finished fuel (node ∷ path)) (node ∷ visited) after begun e in
      (
        record {
          order = node ∷ f'.order;
          topological = (λ d i. (f'.exact d).1 (all_in d i), f'.topological);
          exact = λ x. ground (
            arith,
            f'.exact x,
            eq_iff x node,
            grown node (inl refl),
            In-subst x node after,
            In-subst node x path,
            f.below node,
            mem_iff node visited,
          );
          below = λ x i. f'.below x (inr i);
        },
        λ x i. grown x (inr i),
        grown node (inl refl),
      )

  search_all-Finished :
      (fuel : ℕ) (nodes visited after : List String)
      → Finished [] visited
      → search_all fuel edges nodes visited ≡ clean after
      → Finished [] after
        × ((x : String) → In x visited → In x after)
        × ((x : String) → In x nodes → In x after)
  unfolding search_all
  search_all-Finished fuel [] visited after f e = (
    subst (Finished []) (clean_inj e) f,
    subst (λ v. (x : String) → In x visited → In x v) (clean_inj e) (λ x i. i),
    λ x i. absurd i,
  )
  search_all-Finished fuel (node ∷ nodes) visited after f e = elim (Bool-cases (mem node visited)) [
    | inl seen ↦
        let (f', grown, all_in) = search_all-Finished fuel nodes visited after f (ground arith) in
        (
          f',
          grown,
          λ x i.
              ⊎_elim
                (λ same. In-subst x node after same (grown node ((mem_iff node visited).0 seen)))
                (all_in x) i,
        )
    | inr new ↦ elim (Outcome-cases (dfs fuel edges [] node visited)) [
      | inl (v, found) ↦
          let (f1, grown1, here) = dfs-Finished fuel [] node visited v f new found in
          let (f', grown, all_in) = search_all-Finished fuel nodes v after f1 (ground arith) in
          (
            f',
            λ x i. grown x (grown1 x i),
            λ x i. ⊎_elim (λ same. In-subst x node after same (grown node here)) (all_in x) i,
          )
      | inr (inl (c, found)) ↦ absurd (ground arith)
      | inr (inr found) ↦ absurd (ground arith)
    ]
  ]

  -- When no cycle is reported, no task depends on itself.
  pub find_cycle_complete :
      (node_ids after : List String)
      → find_cycle edges node_ids ≡ clean after
      → (a : String) → In a node_ids
      → ¬ PathTo edges a a
  unfolding find_cycle IsTopological
  find_cycle_complete node_ids after e a i =
      let nothing : Finished [] [] = record {
        order = [];
        topological = tt;
        exact = λ x. (λ i. absurd i, λ h. absurd h.0);
        below = λ x i. i;
      } in
      let (f, _, all_in) =
        search_all-Finished (suc (suc (length edges))) (sorted_set node_ids) [] after nothing e in
      no_cycle f.order a f.topological
        ((f.exact a).1 (all_in a ((In-sorted_set a node_ids).1 i), λ h. h))
