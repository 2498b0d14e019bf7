-- ===== src/CaseStore/Counters/Fresh.antt =====
-- No id is given twice.
use Prim.Native.String.{◌++◌, count}
use text.Mathlib.TextLemmas.{append_inj}
use agent_advisor.Prelude.{
  IsDistinct, ℕ, suc, ◌<◌, ◌≤◌, true, List, [], ◌∷◌, ok, ◌≡◌, inl, inr, refl, sym, ap, ◌∙◌, subst,
  arith, String, In, Result-cases, Bool-cases, ok_inj,
}
use agent_advisor.Prelude.Text.{◌==◌, eq_iff}
use agent_advisor.Prelude.Dict.{Dict, lookup, insert, get_or, mem, mem_iff, lookup-insert}
use agent_advisor.Prelude.Decimal.{padded, padded_inj}
use agent_advisor.CaseStore.Counters.{counter_prefixes, loaded_counters, next_id, issue}

lookup-loaded_counters :
    (k : String) (d : Dict ℕ)
    → mem k counter_prefixes ≡ true
    → lookup k (loaded_counters d) ≡ lookup k d
unfolding loaded_counters lookup
lookup-loaded_counters k [] h = refl
lookup-loaded_counters k ((j, n) ∷ d) h = elim (Bool-cases (j == k)) [
  | inl here ↦
      let same : j ≡ k = (eq_iff j k).0 here in
      let in_use : mem j counter_prefixes ≡ true =
        subst (λ x. mem x counter_prefixes ≡ true) (sym same) h in
      ground arith
  | inr there ↦ ground (arith, lookup-loaded_counters k d h)
]

-- A number that the prefix has not come to.
IsAhead : Dict ℕ → String → Type 0
IsAhead d id =
    (p : String) × (n : ℕ) × (mem p counter_prefixes ≡ true)
    × (get_or d p 0 < n)
    × (id ≡ p ++ padded n)

two_letters : (p : String) → mem p counter_prefixes ≡ true → count p ≡ 2
two_letters p h = elim ((mem_iff p counter_prefixes).0 h) [
  | inl e ↦ ap count e
  | inr (inl e) ↦ ap count e
  | inr (inr (inl e)) ↦ ap count e
  | inr (inr (inr (inl e))) ↦ ap count e
  | inr (inr (inr (inr none_left))) ↦ absurd none_left
]

pub id_parts :
    (p q : String) (m n : ℕ)
    → mem p counter_prefixes ≡ true
    → mem q counter_prefixes ≡ true
    → p ++ padded m ≡ q ++ padded n
    → (p ≡ q) × (m ≡ n)
id_parts p q m n h k e =
    let parts = append_inj e (two_letters p h ∙ sym (two_letters q k)) in
    (parts.0, padded_inj m n parts.1)

get_or-loaded_counters :
    (k : String) (d : Dict ℕ)
    → mem k counter_prefixes ≡ true
    → get_or (loaded_counters d) k 0 ≡ get_or d k 0
get_or-loaded_counters k d h = rw (get_or, lookup-loaded_counters k d h) refl

get_or-insert :
    (p : String) (d : Dict ℕ)
    → mem p counter_prefixes ≡ true
    → get_or (insert p (suc (get_or (loaded_counters d) p 0)) (loaded_counters d)) p 0
      ≡ suc (get_or d p 0)
get_or-insert p d h =
    let n = suc (get_or (loaded_counters d) p 0) in
    ground
      (arith, lookup-insert p p n (loaded_counters d), eq_iff p p, get_or-loaded_counters p d h)

get_or-insert_le :
    (p q : String) (d : Dict ℕ)
    → mem p counter_prefixes ≡ true
    → mem q counter_prefixes ≡ true
    → get_or d q 0
      ≤ get_or (insert p (suc (get_or (loaded_counters d) p 0)) (loaded_counters d)) q 0
get_or-insert_le p q d h k = elim (Bool-cases (p == q)) [
  | inl same ↦ rw (sym ((eq_iff p q).0 same)) (omega (arith, get_or-insert p d h))
  | inr other ↦
      let n = suc (get_or (loaded_counters d) p 0) in
      ground (arith, lookup-insert p q n (loaded_counters d), get_or-loaded_counters q d k)
]

pub next_id-ahead :
    (p id : String) (d later : Dict ℕ)
    → next_id p d ≡ ok (id, later)
    → (mem p counter_prefixes ≡ true)
      × (id ≡ p ++ padded (suc (get_or d p 0)))
      × (get_or later p 0 ≡ suc (get_or d p 0))
      × ((q : String) → mem q counter_prefixes ≡ true → get_or d q 0 ≤ get_or later q 0)
unfolding next_id
next_id-ahead p id d later h = elim (Bool-cases (mem p counter_prefixes)) [
  | inr unknown ↦ absurd (ground arith)
  | inl known ↦
      let n = suc (get_or (loaded_counters d) p 0) in
      let both : ◌≡◌ {A = String × Dict ℕ} (p ++ padded n, insert p n (loaded_counters d))
          (id, later) =
        ground arith in
      let id_is : p ++ padded n ≡ id = ap (λ (x : String × Dict ℕ). x.0) both in
      let later_is : insert p n (loaded_counters d) ≡ later =
        ap (λ (x : String × Dict ℕ). x.1) both in
      (
        known,
        sym id_is ∙ ap (λ x. p ++ padded (suc x)) (get_or-loaded_counters p d known),
        subst (λ x. get_or x p 0 ≡ suc (get_or d p 0)) later_is (get_or-insert p d known),
        λ q in_use.
            subst (λ x. get_or d q 0 ≤ get_or x q 0) later_is (get_or-insert_le p q d known in_use),
      )
]

-- The ids of later calls are ahead of the counters.
AreAhead : Dict ℕ → List String → Type 0
AreAhead d [] = Unit
AreAhead d (id ∷ ids) = IsAhead d id × AreAhead d ids

AreAhead-mono :
    (d later : Dict ℕ) (ids : List String)
    → ((q : String) → mem q counter_prefixes ≡ true → get_or d q 0 ≤ get_or later q 0)
    → AreAhead later ids
    → AreAhead d ids
unfolding AreAhead IsAhead
AreAhead-mono d later [] le h = tt
AreAhead-mono d later (id ∷ ids) le ((p, n, known, above, e), rest) =
    ((p, n, known, omega (arith, le p known), e), AreAhead-mono d later ids le rest)

issue-cons :
    (p : String) (ps ids : List String) (d last : Dict ℕ)
    → issue (p ∷ ps) d ≡ ok (ids, last)
    → (id : String) × (later : Dict ℕ) × (rest : List String) × (next_id p d ≡ ok (id, later))
      × (issue ps later ≡ ok (rest, last))
      × (ids ≡ id ∷ rest)
unfolding issue
issue-cons p ps ids d last h = elim (Result-cases (next_id p d)) [
  | inr (fault, failed) ↦ absurd (ground arith)
  | inl ((id, later), first) ↦ elim (Result-cases (issue ps later)) [
    | inr (fault, failed) ↦ absurd (ground arith)
    | inl ((rest, end), others) ↦
        let both : ◌≡◌ {A = List String × Dict ℕ} (id ∷ rest, end) (ids, last) = ground arith in
        (
          id,
          later,
          rest,
          first,
          others ∙ ap (λ (x : Dict ℕ). ok (rest, x)) (ap (λ (x : List String × Dict ℕ). x.1) both),
          sym (ap (λ (x : List String × Dict ℕ). x.0) both),
        )
  ]
]

issue-AreAhead :
    (ps ids : List String) (d last : Dict ℕ) → issue ps d ≡ ok (ids, last) → AreAhead d ids
unfolding issue AreAhead IsAhead
issue-AreAhead [] ids d last h =
    subst (AreAhead d) (ap (λ (x : List String × Dict ℕ). x.0) (ok_inj h)) tt
issue-AreAhead (p ∷ ps) ids d last h =
    let (id, later, rest, first, others, e) = issue-cons p ps ids d last h in
    let (known, id_is, _, le) = next_id-ahead p id d later first in
    subst (AreAhead d) (sym e) (
      (p, suc (get_or d p 0), known, omega arith, id_is),
      AreAhead-mono d later rest le (issue-AreAhead ps rest later last others),
    )

not_ahead :
    (d : Dict ℕ) (p : String) (ids : List String)
    → mem p counter_prefixes ≡ true
    → AreAhead d ids
    → ¬ In (p ++ padded (get_or d p 0)) ids
unfolding AreAhead IsAhead
not_ahead d p [] known ahead i = i
not_ahead d p (id ∷ ids) known ((q, n, in_use, above, e), rest) (inl here) =
    let (same, number) = id_parts p q (get_or d p 0) n known in_use (here ∙ e) in
    let above' : get_or d p 0 < n = subst (λ x. get_or d x 0 < n) (sym same) above in
    absurd (omega arith)
not_ahead d p (id ∷ ids) known (first, rest) (inr there) = not_ahead d p ids known rest there

pub next_id-ok :
    (p : String) (d : Dict ℕ)
    → mem p counter_prefixes ≡ true
    → (id : String) × (later : Dict ℕ) × (next_id p d ≡ ok (id, later))
unfolding next_id
next_id-ok p d known =
    let n = suc (get_or (loaded_counters d) p 0) in
    (p ++ padded n, insert p n (loaded_counters d), ground arith)

-- The ids that `next_id` gives in calls one after the other, for prefixes in any order and from any
-- counters, are all different.
pub issue-IsDistinct :
    (ps ids : List String) (d last : Dict ℕ) → issue ps d ≡ ok (ids, last) → IsDistinct ids
unfolding issue
issue-IsDistinct [] ids d last h =
    subst IsDistinct (ap (λ (x : List String × Dict ℕ). x.0) (ok_inj h)) tt
issue-IsDistinct (p ∷ ps) ids d last h =
    let (id, later, rest, first, others, e) = issue-cons p ps ids d last h in
    let (known, id_is, number, _) = next_id-ahead p id d later first in
    let own : id ≡ p ++ padded (get_or later p 0) = id_is ∙ ap (λ x. p ++ padded x) (sym number) in
    subst IsDistinct (sym e) (
      subst (λ x. ¬ In x rest) (sym own)
          (not_ahead later p rest known (issue-AreAhead ps rest later last others)),
      issue-IsDistinct ps rest later last others,
    )
