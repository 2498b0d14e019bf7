-- ===== src/Prelude/Lists.antt =====
-- Lists measured by native numbers, and predicates on lists by recursion.
use Prim.Native.Nat.{ℕ, zero, suc, ◌+◌, min}
use mathlib.Core.Path.{◌≡◌, refl, sym, subst}
use mathlib.Core.Logic.{◌⊎◌, inl, inr, ◌↔◌, ⊎_elim}
use mathlib.Core.Bool.{Bool, true, false, not, ◌&&◌, ◌||◌}
use mathlib.Core.List.{List, [], ◌∷◌, ◌++◌, map}
use mathlib.Core.Option.{Option, none, some}
use native.Mathlib.Omega.{arith}
use agent_advisor.Prelude.Tests.{&&_iff}

module _ {ℓ} {A : Type ℓ} where
  abbrev pub length : List A → ℕ
  length [] = 0
  length (x ∷ xs) = suc (length xs)

  abbrev pub take : ℕ → List A → List A
  take zero xs = []
  take (suc n) [] = []
  take (suc n) (x ∷ xs) = x ∷ take n xs

  abbrev pub drop : ℕ → List A → List A
  drop zero xs = xs
  drop (suc n) [] = []
  drop (suc n) (x ∷ xs) = drop n xs

  -- [x for x in xs if p(x)]
  abbrev pub filter : (A → Bool) → List A → List A
  filter p [] = []
  filter p (x ∷ xs) = let rest = filter p xs in elim (p x) [ true ↦ x ∷ rest | false ↦ rest ]

  -- all(p(x) for x in xs)
  abbrev pub all : (A → Bool) → List A → Bool
  all p [] = true
  all p (x ∷ xs) = p x && all p xs

  -- any(p(x) for x in xs)
  abbrev pub any : (A → Bool) → List A → Bool
  any p [] = false
  any p (x ∷ xs) = p x || any p xs

  abbrev pub All {κ} : (A → Type κ) → List A → Type κ
  All P [] = Unit
  All P (x ∷ xs) = P x × All P xs

  abbrev pub find? : (A → Bool) → List A → Option A
  find? p [] = none
  find? p (x ∷ xs) = let rest = find? p xs in elim (p x) [ true ↦ some x | false ↦ rest ]

  pub length-append : (xs ys : List A) → length (xs ++ ys) ≡ length xs + length ys
  length-append [] ys = omega arith
  length-append (x ∷ xs) ys = omega (arith, length-append xs ys)

  pub take-append-drop : (n : ℕ) (xs : List A) → take n xs ++ drop n xs ≡ xs
  take-append-drop zero xs = refl
  take-append-drop (suc n) [] = refl
  take-append-drop (suc n) (x ∷ xs) = rw (take-append-drop n xs)

  pub length-take : (n : ℕ) (xs : List A) → length (take n xs) ≡ min n (length xs)
  length-take zero xs = omega arith
  length-take (suc n) [] = omega arith
  length-take (suc n) (x ∷ xs) = omega (arith, length-take n xs)

module _ {A : Type 0} where
  -- Membership by recursion: a sum of equations, which the tactics read.
  abbrev pub In : A → List A → Type 0
  In a [] = ⊥
  In a (x ∷ xs) = (a ≡ x) ⊎ In a xs

  -- No element comes up twice.
  abbrev pub IsDistinct : List A → Type 0
  IsDistinct [] = Unit
  IsDistinct (x ∷ xs) = (¬ In x xs) × IsDistinct xs

  pub In-append : (a : A) (xs ys : List A) → In a (xs ++ ys) ↔ (In a xs ⊎ In a ys)
  In-append a [] ys = (inr, ⊎_elim (λ h. absurd h) (λ h. h))
  In-append a (x ∷ xs) ys = ground (arith, In-append a xs ys)

  pub In-filter :
      (p : A → Bool) (a : A) (xs : List A) → In a (filter p xs) ↔ (In a xs × (p a ≡ true))
  In-filter p a [] = (λ h. absurd h, λ h. h.0)
  In-filter p a (x ∷ xs) = ground (arith, In-filter p a xs)

  pub In-subst : (d x : A) (l : List A) → d ≡ x → In x l → In d l
  In-subst d x l e i = subst (λ y. In y l) (sym e) i

  pub all_iff : (p : A → Bool) (xs : List A) → (all p xs ≡ true) ↔ ((a : A) → In a xs → p a ≡ true)
  all_iff p [] = (λ h a i. absurd i, λ h. refl)
  all_iff p (x ∷ xs) = (
    λ h a i.
        ⊎_elim (λ e. rw e ((&&_iff (p x) (all p xs)).0 h).0)
          ((all_iff p xs).0 ((&&_iff (p x) (all p xs)).0 h).1 a) i,
    λ h. (&&_iff (p x) (all p xs)).1 (h x (inl refl), (all_iff p xs).1 (λ a i. h a (inr i))),
  )

  pub All-iff {ℓ} : (P : A → Type ℓ) (xs : List A) → All P xs ↔ ((a : A) → In a xs → P a)
  All-iff P [] = (λ h a i. absurd i, λ h. tt)
  All-iff P (x ∷ xs) = (
    λ h a i. ⊎_elim (λ e. subst P (sym e) h.0) ((All-iff P xs).0 h.1 a) i,
    λ h. (h x (inl refl), (All-iff P xs).1 (λ a i. h a (inr i))),
  )

module _ {A : Type 0} where
  pub filter-same :
      (p q : A → Bool) (xs : List A) → ((x : A) → In x xs → p x ≡ q x) → filter p xs ≡ filter q xs
  filter-same p q [] h = refl
  filter-same p q (x ∷ xs) h =
      let first = h x (inl refl) in
      let rest = filter-same p q xs (λ y i. h y (inr i)) in ground arith

  pub filter-split :
      (p : A → Bool) (xs : List A)
      → length (filter p xs) + length (filter (λ x. not (p x)) xs) ≡ length xs
  filter-split p [] = omega arith
  filter-split p (x ∷ xs) = ground (arith, filter-split p xs)

module _ {A B : Type 0} where
  pub In-map : (f : A → B) (b : B) (xs : List A) → In b (map f xs) ↔ ((x : A) × In x xs × (b ≡ f x))
  In-map f b [] = (λ h. absurd h, λ h. absurd h.1)
  In-map f b (x ∷ xs) = (
    ⊎_elim (λ e. (x, inl refl, e)) (λ h. let (y, i, e) = (In-map f b xs).0 h in (y, inr i, e)),
    λ (y, i, e).
        ⊎_elim (λ s. inl (subst (λ z. b ≡ f z) s e)) (λ j. inr ((In-map f b xs).1 (y, j, e))) i,
  )
