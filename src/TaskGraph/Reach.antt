-- ===== src/TaskGraph/Reach.antt =====
-- `transitive_dependents` finds the tasks that depend on a task, directly or through others.
use agent_advisor.Prelude.{
  ℕ, zero, suc, ◌+◌, ◌≤◌, some, List, [], ◌∷◌, ◌≡◌, ◌↔◌, ◌⊎◌, inl, inr, refl, subst, arith, length,
  In, In-subst, String, ⊎_elim, Bool-cases,
}
use agent_advisor.Prelude.Dict.{Dict, mem, mem_iff}
use agent_advisor.Prelude.Text.{eq_iff}
use agent_advisor.Prelude.Fresh.{fresh, fresh_less, fresh-le-length}
use agent_advisor.TaskGraph.{dependents_of, visit, traverse, transitive_dependents}

-- `d` lists `c` among its dependencies.
abbrev pub DependsOn : Dict (List String) → String → String → Type 0
DependsOn [] d c = ⊥
DependsOn ((k, deps) ∷ edges) d c = ((d ≡ k) × In c deps) ⊎ DependsOn edges d c

-- One or more steps of dependency, from a task to those that need it.
pub data Needs (edges : Dict (List String)) (t : String) : String → Type 0 where
  direct : {d : String} → DependsOn edges d t → Needs edges t d
  through : {c d : String} → Needs edges t c → DependsOn edges d c → Needs edges t d

In-dependents_of :
    (edges : Dict (List String)) (d c : String) → In d (dependents_of edges c) ↔ DependsOn edges d c
unfolding dependents_of
In-dependents_of [] d c = (λ h. h, λ h. h)
In-dependents_of ((k, deps) ∷ edges) d c =
    ground (arith, mem_iff c deps, In-dependents_of edges d c)

unfoldable pub keys : Dict (List String) → List String
keys [] = []
keys ((k, _) ∷ edges) = k ∷ keys edges

dependents_of-keys :
    (edges : Dict (List String)) (c d : String) → In d (dependents_of edges c) → In d (keys edges)
unfolding dependents_of keys
dependents_of-keys [] c d h = h
dependents_of-keys ((k, deps) ∷ edges) c d h = ground (arith, dependents_of-keys edges c d)

pub length-keys : (edges : Dict (List String)) → length (keys edges) ≡ length edges
unfolding keys
length-keys [] = refl
length-keys (e ∷ edges) = omega (arith, length-keys edges)

In-visit :
    (x : String) (ds visited stack : List String)
    → (In x (visit ds visited stack).0 ↔ (In x visited ⊎ In x ds))
      × (In x (visit ds visited stack).1 ↔ (In x stack ⊎ (In x ds × ¬ In x visited)))
unfolding visit
In-visit x [] visited stack = ground arith
In-visit x (d ∷ ds) visited stack = elim (Bool-cases (mem d visited)) [
  | inl seen ↦
      rw (seen, visit)
        (ground (arith, In-visit x ds visited stack, mem_iff d visited, In-subst x d visited))
  | inr new ↦
      rw (new, visit)
        (ground (
          arith,
          In-visit x ds (d ∷ visited) (d ∷ stack),
          mem_iff d visited,
          In-subst d x visited,
          In-subst x d visited,
          eq_iff x d,
          eq_iff d x,
        ))
]

visit-measure :
    (us ds visited stack : List String)
    → ((d : String) → In d ds → In d us)
    → length (visit ds visited stack).1 + fresh us (visit ds visited stack).0
      ≤ length stack + fresh us visited
unfolding visit
visit-measure us [] visited stack sub = omega arith
visit-measure us (d ∷ ds) visited stack sub = elim (Bool-cases (mem d visited)) [
  | inl seen ↦ rw (seen, visit) (visit-measure us ds visited stack (λ x i. sub x (inr i)))
  | inr new ↦
      let rest = visit-measure us ds (d ∷ visited) (d ∷ stack) (λ x i. sub x (inr i)) in
      rw (new, visit) (omega (arith, rest, fresh_less us d visited (sub d (inl refl)) new))
]

-- What the loop keeps: all that it found is needed by nobody but `t`'s dependents, and all that it has
-- taken from the stack has its dependents found.
record Found (edges : Dict (List String)) (t : String) (stack visited : List String) : Type 0 where
  sound : (x : String) → In x visited → Needs edges t x
  stacked : (x : String) → In x stack → (x ≡ t) ⊎ In x visited
  closed :
      (c : String)
      → (c ≡ t) ⊎ In c visited
      → In c stack ⊎ ((d : String) → DependsOn edges d c → In d visited)

module _ (edges : Dict (List String)) (t : String) where
  Needs-step :
      (c d : String) (visited : List String)
      → ((x : String) → In x visited → Needs edges t x)
      → (c ≡ t) ⊎ In c visited
      → DependsOn edges d c
      → Needs edges t d
  Needs-step c d visited sound (inl same) h = direct (subst (DependsOn edges d) same h)
  Needs-step c d visited sound (inr i) h = through (sound c i) h

  visit-Found :
      (c : String) (stack visited : List String)
      → Found edges t (c ∷ stack) visited
      → Found edges t
          (visit (dependents_of edges c) visited stack).1
          (visit (dependents_of edges c) visited stack).0
  visit-Found c stack visited f =
      let ds = dependents_of edges c in
      let seen = λ (x : String). (In-visit x ds visited stack).0 in
      let left = λ (x : String). (In-visit x ds visited stack).1 in
      let old : (x : String)
          → (x ≡ t) ⊎ In x visited
          → In x (visit ds visited stack).1
            ⊎ ((d : String) → DependsOn edges d x → In d (visit ds visited stack).0) =
        λ x i.
          ⊎_elim
            (⊎_elim
              (λ e. inr (λ d h.
                (seen d).1 (inr ((In-dependents_of edges d c).1 (subst (DependsOn edges d) e h)))))
              (λ j. inl ((left x).1 (inl j))))
            (λ g. inr (λ d h. (seen d).1 (inl (g d h)))) (f.closed x i) in
      record {
        sound = λ x i.
            ⊎_elim (f.sound x)
              (λ j.
                Needs-step c x visited f.sound (f.stacked c (inl refl))
                  ((In-dependents_of edges x c).0 j))
              ((seen x).0 i);
        stacked = λ x i.
            ⊎_elim (λ j. ⊎_elim inl (λ k. inr ((seen x).1 (inl k))) (f.stacked x (inr j)))
              (λ j. inr ((seen x).1 (inr j.0))) ((left x).0 i);
        closed = λ x i. elim (Bool-cases (mem x visited)) [
          | inl e ↦ old x (inr ((mem_iff x visited).0 e))
          | inr e ↦
              ⊎_elim (λ s. old x (inl s))
                (λ j.
                  ⊎_elim (λ k. old x (inr k))
                    (λ k. inl ((left x).1 (inr (k, λ v. ground (arith, mem_iff x visited)))))
                    ((seen x).0 j))
                i
        ];
      }

  traverse-Found :
      (fuel : ℕ) (stack visited : List String)
      → length stack + fresh (keys edges) visited ≤ fuel
      → Found edges t stack visited
      → (r : List String) × (traverse fuel edges stack visited ≡ some r) × Found edges t [] r
  unfolding traverse
  traverse-Found zero [] visited m f = (visited, refl, f)
  traverse-Found (suc fuel) [] visited m f = (visited, refl, f)
  traverse-Found zero (c ∷ stack) visited m f = absurd (omega arith)
  traverse-Found (suc fuel) (c ∷ stack) visited m f =
      let less =
        visit-measure (keys edges) (dependents_of edges c) visited stack
          (dependents_of-keys edges c) in
      traverse-Found fuel (visit (dependents_of edges c) visited stack).1
        (visit (dependents_of edges c) visited stack).0 (omega (arith, less))
        (visit-Found c stack visited f)

  needed : (r : List String) → Found edges t [] r → (x : String) → Needs edges t x → In x r
  needed r f x (direct h) = ⊎_elim (λ e. absurd e) (λ g. g x h) (f.closed t (inl refl))
  needed r f x (through {c = c} n h) =
      ⊎_elim (λ e. absurd e) (λ g. g x h) (f.closed c (inr (needed r f c n)))

  -- `_transitive_dependents_unlocked` finds exactly the tasks that need the given one, directly or
  -- through others; its loop does not run out of fuel.
  pub In-transitive_dependents :
      (x : String) → In x (transitive_dependents edges t) ↔ Needs edges t x
  unfolding transitive_dependents
  In-transitive_dependents x =
      let start : Found edges t (t ∷ []) [] = record {
        sound = λ x i. absurd i;
        stacked = λ x i. ⊎_elim inl (λ j. absurd j) i;
        closed = λ c i. ⊎_elim (λ e. inl (inl e)) (λ j. absurd j) i;
      } in
      let (r, e, f) =
        traverse-Found (suc (length edges)) (t ∷ []) []
          (omega (arith, fresh-le-length (keys edges), length-keys edges)) start in
      rw (e, transitive_dependents) (f.sound x, needed r f x)
