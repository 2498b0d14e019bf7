-- ===== src/IssueTree/Covers.antt =====
-- What the walk from a leaf finds.
use agent_advisor.Prelude.{
  ℕ, zero, suc, Bool, true, false, none, some, List, [], ◌∷◌, filter, ok, ◌≡◌, ◌↔◌, ◌⊎◌, inl, inr,
  ⊎_elim, refl, sym, ap, ◌∙◌, subst, arith, String, In, In-map, Bool-cases, Option-cases, some_inj,
}
use agent_advisor.Prelude.Dict.{lookup, mem, mem_iff}
use agent_advisor.Artifacts.{TaskRecord, is_completed}
use agent_advisor.IssueTree.{
  IssueNode, ids, nodes_by_id, walk, parent_of, covers, covered_leaves, completed_nodes,
}
use agent_advisor.IssueTree.Shape.{nodes_by_id-HasEntries, nodes_by_id-lookup}
use agent_advisor.IssueTree.Shape.Accepts.{Under, itself, child}

-- A task that is done hangs off this node.
abbrev pub IsDone : {F : Type 0} → List (TaskRecord F) → String → Type 0
IsDone {F} tasks id =
    (t : TaskRecord F) × In t tasks × (t.issue_node_id ≡ some id) × (is_completed t.status ≡ true)

pub completed_nodes_iff :
    {F : Type 0} (tasks : List (TaskRecord F)) (id : String)
    → In id (completed_nodes tasks) ↔ IsDone tasks id
unfolding completed_nodes
completed_nodes_iff [] id = (λ i. absurd i, λ (t, i, _, _). absurd i)
completed_nodes_iff (t ∷ tasks) id =
    let (to, from) = completed_nodes_iff tasks id in
    (
      λ i. elim (Option-cases t.issue_node_id) [
        | inl loose ↦ let (u, j, e, d) = to (ground arith) in (u, inr j, e, d)
        | inr (k, has) ↦ elim (Bool-cases (is_completed t.status)) [
          | inr undone ↦ let (u, j, e, d) = to (ground arith) in (u, inr j, e, d)
          | inl done ↦
              let split : (id ≡ k) ⊎ In id (completed_nodes tasks) = ground arith in
              ⊎_elim (λ own. (t, inl refl, has ∙ ap some (sym own), done))
                (λ j. let (u, j', e, d) = to j in (u, inr j', e, d)) split
        ]
      ],
      λ (u, i, has, done).
          ⊎_elim
            (λ (own : u ≡ t).
              let has' : t.issue_node_id ≡ some id =
                subst (λ (x : TaskRecord _). x.issue_node_id ≡ some id) own has in
              let done' : is_completed t.status ≡ true =
                subst (λ (x : TaskRecord _). is_completed x.status ≡ true) own done in
              ground arith)
            (λ j. let rest = from (u, j, has, done) in ground arith) i,
    )

module _ (nodes : List IssueNode) (completed : List String) where
  -- The node or one above it is in the list.
  abbrev pub Touches : IssueNode → Type 0
  Touches n = (a : IssueNode) × Under nodes a n × In a.node_id completed

  Touches-cases :
      (n p : IssueNode)
      → ((x y : IssueNode) → In x nodes → In y nodes → x.node_id ≡ y.node_id → x ≡ y)
      → In p nodes
      → n.parent_id ≡ some p.node_id
      → Touches n
      → In n.node_id completed ⊎ Touches p
  Touches-cases n p same i e (a, itself, done) = inl done
  Touches-cases n p same i e (a, child {p = q} j e' up, done) =
      inr (a, subst (Under nodes a) (same q p j i (some_inj (sym e' ∙ e))) up, done)

  not_listed : (n : IssueNode) → mem n.node_id completed ≡ false → ¬ In n.node_id completed
  not_listed n undone done = ground (arith, mem_iff n.node_id completed)

  at_top : (n : IssueNode) → n.parent_id ≡ none → mem n.node_id completed ≡ false → ¬ Touches n
  at_top n top undone (a, itself, done) = not_listed n undone done
  at_top n top undone (a, child j e up, done) = absurd (ground arith)

  pub covers_lem :
      (fuel : ℕ) (seen : List String) (n : IssueNode)
      → ((x y : IssueNode) → In x nodes → In y nodes → x.node_id ≡ y.node_id → x ≡ y)
      → In n nodes
      → walk (nodes_by_id nodes) fuel seen n ≡ ok tt
      → (b : Bool) × (covers nodes completed fuel (some n.node_id) ≡ some b)
        × ((b ≡ true) ↔ Touches n)
  unfolding walk covers parent_of
  covers_lem zero seen n same i h = absurd (ground arith)
  covers_lem (suc fuel) seen n same i h =
      let listed =
        (mem_iff n.node_id (ids nodes)).1
          ((In-map (λ (x : IssueNode). x.node_id) n.node_id nodes).1 (n, i, refl)) in
      let (m, found) = nodes_by_id-lookup nodes n i in
      let (m_in, m_id) = nodes_by_id-HasEntries nodes n.node_id m found in
      let own : lookup n.node_id (nodes_by_id nodes) ≡ some n =
        found ∙ ap some (same m n m_in i m_id) in
      elim (Bool-cases (mem n.node_id completed)) [
        | inl done ↦ (
          true,
          ground arith,
          (λ e. (n, itself, (mem_iff n.node_id completed).0 done), λ t. refl),
        )
        | inr undone ↦ elim (Option-cases n.parent_id) [
          | inl top ↦ (
            false,
            ground arith,
            (λ e. absurd (ground arith), λ t. absurd (at_top n top undone t)),
          )
          | inr (p, e) ↦ elim (Bool-cases (mem n.node_id seen)) [
            | inl again ↦ absurd (ground arith)
            | inr new ↦ elim (Option-cases (lookup p (nodes_by_id nodes))) [
              | inl missing ↦ absurd (ground arith)
              | inr (q, q_found) ↦
                  let (q_in, q_id) = nodes_by_id-HasEntries nodes p q q_found in
                  let e' : n.parent_id ≡ some q.node_id = e ∙ ap some (sym q_id) in
                  let (b, result, means) =
                    covers_lem fuel (n.node_id ∷ seen) q same q_in (ground arith) in
                  (
                    b,
                    ground arith,
                    (
                      λ t. let (a, up, done) = means.0 t in (a, child q_in e' up, done),
                      λ t.
                          ⊎_elim (λ done. absurd (not_listed n undone done)) means.1
                            (Touches-cases n q same q_in e' t),
                    ),
                  )
            ]
          ]
        ]
      ]

  -- What `covers` says of a leaf.
  unfoldable pub is_covered : ℕ → String → Bool
  is_covered fuel leaf = elim (covers nodes completed fuel (some leaf)) [
    | none ↦ false
    | some b ↦ b
  ]

  pub covered_leaves_lem :
      (fuel : ℕ) (leaves : List String)
      → ((id : String)
          → In id leaves
          → (b : Bool) × (covers nodes completed fuel (some id) ≡ some b))
      → covered_leaves nodes completed fuel leaves ≡ some (filter (is_covered fuel) leaves)
  unfolding covered_leaves is_covered
  covered_leaves_lem fuel [] ends = refl
  covered_leaves_lem fuel (leaf ∷ leaves) ends =
      let (b, e) = ends leaf (inl refl) in
      let rest = covered_leaves_lem fuel leaves (λ id i. ends id (inr i)) in ground arith
