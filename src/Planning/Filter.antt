-- ===== src/Planning/Filter.antt =====
-- Which proposals the filter accepts.
use agent_advisor.Prelude.{
  IsDistinct, ℕ, suc, ◌+◌, true, false, none, some, List, [], ◌∷◌, map, length, ◌≡◌, ◌⊎◌, inl, inr,
  ⊎_elim, refl, sym, ap, subst, arith, String, In, In-map, Option-cases, List-cases, Bool-cases,
}
use agent_advisor.Prelude.Text.{◌==◌, eq_iff, is_nil}
use agent_advisor.Prelude.Dict.{Dict, lookup, insert, lookup-insert}
use agent_advisor.Planning.{
  TaskProposal, Limits, Reason, Rejection, missing_fields, rejected_for, filter_from,
  filter_task_proposals, question_key,
}

is_nil-empty : (s : String) → is_nil s ≡ true → s ≡ ""
is_nil-empty String.[] e = refl
is_nil-empty (String.◌∷◌ c s) e = absurd (ground arith)

module _ (nfkc_lower : String → String) {F : Type 0} (limits : Limits F) where
  abbrev keys : List (TaskProposal F) → List String
  keys ps = map (question_key nfkc_lower limits) ps

  -- The priority fields are in range.
  abbrev pub HasFields : TaskProposal F → Type 0
  HasFields p = missing_fields limits p.task ≡ []

  rejected_for-none :
      (seen : Dict ℕ) (p : TaskProposal F)
      → rejected_for nfkc_lower limits seen p ≡ none
      → HasFields p
        × (is_nil (question_key nfkc_lower limits p) ≡ false)
        × (lookup (question_key nfkc_lower limits p) seen ≡ none)
  unfolding rejected_for
  rejected_for-none seen p e = elim (List-cases (missing_fields limits p.task)) [
    | inr (field, fields, m) ↦ absurd (ground arith)
    | inl m ↦ elim (Bool-cases (is_nil (question_key nfkc_lower limits p))) [
      | inl blank ↦ absurd (ground arith)
      | inr full ↦ (m, full, ground arith)
    ]
  ]

  rejected_for-some :
      (seen : Dict ℕ) (p : TaskProposal F) (reason : Reason)
      → rejected_for nfkc_lower limits seen p ≡ some reason
      → HasFields p
      → is_nil (question_key nfkc_lower limits p) ≡ false
      → (index : ℕ) × (lookup (question_key nfkc_lower limits p) seen ≡ some index)
  unfolding rejected_for
  rejected_for-some seen p reason e fields full =
      elim (Option-cases (lookup (question_key nfkc_lower limits p) seen)) [
        | inr found ↦ found
        | inl new ↦ absurd (ground arith)
      ]

  -- What the loop does from `seen` on.
  record IsFiltered (seen : Dict ℕ) (ps accepted : List (TaskProposal F))
      (rejected : List Rejection) : Type 0 where
    counted : length accepted + length rejected ≡ length ps
    sound :
        (p : TaskProposal F)
        → In p accepted
        → In p ps
          × HasFields p
          × (is_nil (question_key nfkc_lower limits p) ≡ false)
          × (lookup (question_key nfkc_lower limits p) seen ≡ none)
    distinct : IsDistinct (keys accepted)
    complete :
        (p : TaskProposal F)
        → In p ps
        → HasFields p
        → is_nil (question_key nfkc_lower limits p) ≡ false
        → In (question_key nfkc_lower limits p) (keys accepted)
          ⊎ ((index : ℕ) × (lookup (question_key nfkc_lower limits p) seen ≡ some index))

  filter_from-rejects :
      (index : ℕ) (seen : Dict ℕ) (p : TaskProposal F) (ps : List (TaskProposal F))
      (reason : Reason)
      → rejected_for nfkc_lower limits seen p ≡ some reason
      → (rejection : Rejection) × (filter_from nfkc_lower limits index seen (p ∷ ps) ≡ (
        (filter_from nfkc_lower limits (suc index) seen ps).0,
        rejection ∷ (filter_from nfkc_lower limits (suc index) seen ps).1,
      ))
  unfolding filter_from
  filter_from-rejects index seen p ps reason e = (
    record {
      proposal_index = index;
      reason = reason;
      question = p.task.question;
      normalized_question = question_key nfkc_lower limits p;
    },
    rw (e, filter_from) refl,
  )

  filter_from-accepts :
      (index : ℕ) (seen : Dict ℕ) (p : TaskProposal F) (ps : List (TaskProposal F))
      → rejected_for nfkc_lower limits seen p ≡ none
      → filter_from nfkc_lower limits index seen (p ∷ ps) ≡ (
        p
            ∷ (filter_from nfkc_lower limits
                (suc index)
                (insert (question_key nfkc_lower limits p) index seen)
                ps).0,
        (filter_from nfkc_lower limits
            (suc index)
            (insert (question_key nfkc_lower limits p) index seen)
            ps).1,
      )
  unfolding filter_from
  filter_from-accepts index seen p ps e = rw (e, filter_from) refl

  after_rejected :
      (seen : Dict ℕ) (p : TaskProposal F) (ps accepted : List (TaskProposal F))
      (rejected : List Rejection) (rejection : Rejection) (reason : Reason)
      → rejected_for nfkc_lower limits seen p ≡ some reason
      → IsFiltered seen ps accepted rejected
      → IsFiltered seen (p ∷ ps) accepted (rejection ∷ rejected)
  after_rejected seen p ps accepted rejected rejection reason e h =
      let counted = h.counted in
      record {
        counted = omega (arith, counted);
        sound = λ q i. let (a, b, c, d) = h.sound q i in (inr a, b, c, d);
        distinct = h.distinct;
        complete = λ q i fields full.
            ⊎_elim
              (λ same. inr (
                subst
                  (λ (x : TaskProposal F).
                    HasFields x
                    → is_nil (question_key nfkc_lower limits x) ≡ false
                    → (index : ℕ) × (lookup (question_key nfkc_lower limits x) seen ≡ some index))
                  (sym same) (rejected_for-some seen p reason e) fields full))
              (λ j. h.complete q j fields full) i;
      }

  after_accepted :
      (index : ℕ) (seen : Dict ℕ) (p : TaskProposal F) (ps accepted : List (TaskProposal F))
      (rejected : List Rejection)
      → HasFields p
        × (is_nil (question_key nfkc_lower limits p) ≡ false)
        × (lookup (question_key nfkc_lower limits p) seen ≡ none)
      → IsFiltered (insert (question_key nfkc_lower limits p) index seen) ps accepted rejected
      → IsFiltered seen (p ∷ ps) (p ∷ accepted) rejected
  after_accepted index seen p ps accepted rejected own h =
      let counted = h.counted in
      let k = question_key nfkc_lower limits p in
      record {
        counted = omega (arith, counted);
        sound = λ q i.
            ⊎_elim
              (λ same.
                subst
                  (λ (x : TaskProposal F).
                    In x (p ∷ ps)
                    × HasFields x
                    × (is_nil (question_key nfkc_lower limits x) ≡ false)
                    × (lookup (question_key nfkc_lower limits x) seen ≡ none))
                  (sym same) (inl refl, own.0, own.1, own.2))
              (λ j.
                let (a, b, c, d) = h.sound q j in
                (
                  inr a,
                  b,
                  c,
                  ground (arith, lookup-insert k (question_key nfkc_lower limits q) index seen),
                ))
              i;
        distinct = (
          λ i.
              let (q, j, e) = (In-map (question_key nfkc_lower limits) k accepted).0 i in
              let (_, _, _, d) = h.sound q j in
              ground (
                arith,
                lookup-insert k (question_key nfkc_lower limits q) index seen,
                eq_iff k (question_key nfkc_lower limits q),
              ),
          h.distinct,
        );
        complete = λ q i fields full.
            ⊎_elim (λ same. inl (inl (ap (question_key nfkc_lower limits) same)))
              (λ j.
                ⊎_elim (λ there. inl (inr there))
                  (λ (at, found). elim (Bool-cases (k == question_key nfkc_lower limits q)) [
                    | inl equal ↦
                        inl (inl (sym ((eq_iff k (question_key nfkc_lower limits q)).0 equal)))
                    | inr other ↦ inr (
                      at,
                      ground (arith, lookup-insert k (question_key nfkc_lower limits q) index seen),
                    )
                  ])
                  (h.complete q j fields full))
              i;
      }

  filter_from_lem :
      (index : ℕ) (seen : Dict ℕ) (ps : List (TaskProposal F))
      → IsFiltered seen ps
          (filter_from nfkc_lower limits index seen ps).0
          (filter_from nfkc_lower limits index seen ps).1
  unfolding filter_from
  filter_from_lem index seen [] = record {
    counted = refl;
    sound = λ p i. absurd i;
    distinct = tt;
    complete = λ p i. absurd i;
  }
  filter_from_lem index seen (p ∷ ps) =
      elim (Option-cases (rejected_for nfkc_lower limits seen p)) [
        | inr (reason, e) ↦
            let (rejection, out) = filter_from-rejects index seen p ps reason e in
            let h = filter_from_lem (suc index) seen ps in
            subst (λ (x : List (TaskProposal F) × List Rejection). IsFiltered seen (p ∷ ps) x.0 x.1)
              (sym out)
              (after_rejected seen p ps (filter_from nfkc_lower limits (suc index) seen ps).0
                (filter_from nfkc_lower limits (suc index) seen ps).1 rejection reason e h)
        | inl e ↦
            let seen' = insert (question_key nfkc_lower limits p) index seen in
            let h = filter_from_lem (suc index) seen' ps in
            subst (λ (x : List (TaskProposal F) × List Rejection). IsFiltered seen (p ∷ ps) x.0 x.1)
              (sym (filter_from-accepts index seen p ps e))
              (after_accepted index seen p ps (filter_from nfkc_lower limits (suc index) seen' ps).0
                (filter_from nfkc_lower limits (suc index) seen' ps).1 (rejected_for-none seen p e)
                h)
      ]

  -- The filter accepts or rejects each proposal once. An accepted proposal is one of the batch, has
  -- priority fields in range and a question that is not empty when normalised; no two accepted ones
  -- have the same normalised question; and every proposal of the batch with fields in range and
  -- such a question has its normalised question among the accepted ones.
  pub filter_task_proposals_lem :
      (ps : List (TaskProposal F))
      → (length (filter_task_proposals nfkc_lower limits ps).0
            + length (filter_task_proposals nfkc_lower limits ps).1
          ≡ length ps)
        × ((p : TaskProposal F)
            → In p (filter_task_proposals nfkc_lower limits ps).0
            → In p ps × HasFields p × (is_nil (question_key nfkc_lower limits p) ≡ false))
        × IsDistinct (keys (filter_task_proposals nfkc_lower limits ps).0)
        × ((p : TaskProposal F)
            → In p ps
            → HasFields p
            → is_nil (question_key nfkc_lower limits p) ≡ false
            → In
                (question_key nfkc_lower limits p)
                (keys (filter_task_proposals nfkc_lower limits ps).0))
  unfolding filter_task_proposals lookup
  filter_task_proposals_lem ps =
      let h = filter_from_lem 0 [] ps in
      (
        h.counted,
        λ p i. let (a, b, c, _) = h.sound p i in (a, b, c),
        h.distinct,
        λ p i fields full.
            ⊎_elim (λ j. j) (λ (index, found). absurd (ground arith)) (h.complete p i fields full),
      )
