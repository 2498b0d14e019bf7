-- ===== src/IssueTree/Shape/Distinct.antt =====
-- Without duplicate ids, a node is known by its id.
use agent_advisor.Prelude.{
  ◌≤◌, ltb, List, [], ◌∷◌, filter, ◌≡◌, inl, inr, refl, sym, ap, ◌∙◌, subst, arith, String, In,
  In-map, In-filter, Bool-cases,
}
use agent_advisor.Prelude.Text.{eq_iff, text_leb}
use agent_advisor.Prelude.Sort.{In-sorted}
use agent_advisor.Prelude.Dict.{unique, In-unique}
use agent_advisor.IssueTree.{IssueNode, ids, duplicate_ids, count_of}

-- No id comes up twice.
count-In : (id : String) (xs : List String) → In id xs → 1 ≤ count_of id xs
unfolding count_of
count-In id [] i = absurd i
count-In id (x ∷ xs) i = ground (arith, eq_iff x id, count-In id xs)

In-count : (id : String) (xs : List String) → 1 ≤ count_of id xs → In id xs
unfolding count_of
In-count id [] h = omega arith
In-count id (x ∷ xs) h = ground (arith, eq_iff x id, In-count id xs)

pub count_le_one :
    (all_ids : List String) (id : String) → duplicate_ids all_ids ≡ [] → count_of id all_ids ≤ 1
unfolding duplicate_ids
count_le_one all_ids id none_twice = elim (Bool-cases (ltb 1 (count_of id all_ids))) [
  | inr few ↦ ground arith
  | inl many ↦
      let p = λ (x : String). ltb 1 (count_of x all_ids) in
      let there : In id all_ids = In-count id all_ids (ground arith) in
      let listed = (In-filter p id (unique all_ids)).1 ((In-unique id all_ids).1 there, many) in
      absurd
        (subst (In id) none_twice ((In-sorted text_leb id (filter p (unique all_ids))).1 listed))
]

not_again :
    (k m : IssueNode) (nodes : List IssueNode)
    → In m nodes
    → m.node_id ≡ k.node_id
    → ((id : String) → count_of id (ids (k ∷ nodes)) ≤ 1)
    → ⊥
unfolding count_of
not_again k m nodes i e few =
    let there = (In-map (λ (x : IssueNode). x.node_id) m.node_id nodes).1 (m, i, refl) in
    let more = count-In k.node_id (ids nodes) (subst (λ x. In x (ids nodes)) e there) in
    ground (arith, few k.node_id, eq_iff k.node_id k.node_id)

pub same_node :
    (nodes : List IssueNode) (n m : IssueNode)
    → ((id : String) → count_of id (ids nodes) ≤ 1)
    → In n nodes
    → In m nodes
    → n.node_id ≡ m.node_id
    → n ≡ m
unfolding count_of
same_node [] n m few i j e = absurd i
same_node (k ∷ nodes) n m few (inl a) (inl b) e = a ∙ sym b
same_node (k ∷ nodes) n m few (inl a) (inr j) e =
    absurd (not_again k m nodes j (sym e ∙ ap (λ (x : IssueNode). x.node_id) a) few)
same_node (k ∷ nodes) n m few (inr i) (inl b) e =
    absurd (not_again k n nodes i (e ∙ ap (λ (x : IssueNode). x.node_id) b) few)
same_node (k ∷ nodes) n m few (inr i) (inr j) e =
    same_node nodes n m (λ id. ground (arith, few id)) i j e
