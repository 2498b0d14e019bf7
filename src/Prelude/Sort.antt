-- ===== src/Prelude/Sort.antt =====
-- Python's `sorted`: a stable sort by a Boolean order, here by insertion.
use mathlib.Core.Path.{◌≡◌}
use mathlib.Core.Logic.{◌⊎◌, inl, inr, ◌↔◌, ⊎_elim}
use mathlib.Core.Bool.{Bool, true, false}
use mathlib.Core.List.{List, [], ◌∷◌, Perm}
use mathlib.Core.List.Perm
use native.Mathlib.Omega.{arith}
use agent_advisor.Prelude.Tests.{Bool-cases}
use agent_advisor.Prelude.Lists.{All, In}

module _ {ℓ} {A : Type ℓ} (le : A → A → Bool) where
  unfoldable pub insert : A → List A → List A
  insert a [] = a ∷ []
  insert a (x ∷ xs) =
      let rest = insert a xs in elim (le a x) [ true ↦ a ∷ x ∷ xs | false ↦ x ∷ rest ]

  unfoldable pub sorted : List A → List A
  unfolding insert
  sorted [] = []
  sorted (x ∷ xs) = insert x (sorted xs)

  abbrev pub IsSorted : List A → Type ℓ
  IsSorted [] = Unit
  IsSorted (x ∷ xs) = All (λ y. le x y ≡ true) xs × IsSorted xs

  insert-perm : (a : A) (xs : List A) → Perm (insert a xs) (a ∷ xs)
  unfolding insert
  insert-perm a [] = Perm.rfl
  insert-perm a (x ∷ xs) =
      elim (le a x)
        as (λ b. Perm (elim b [ true ↦ a ∷ x ∷ xs | false ↦ x ∷ insert a xs ]) (a ∷ x ∷ xs)) [
          | true ↦ Perm.rfl
          | false ↦ Perm.trans (Perm.cons x (insert-perm a xs)) (Perm.swap a x xs)
        ]

  pub sorted-perm : (xs : List A) → Perm (sorted xs) xs
  unfolding sorted
  sorted-perm [] = Perm.rfl
  sorted-perm (x ∷ xs) = Perm.trans (insert-perm x (sorted xs)) (Perm.cons x (sorted-perm xs))

module _ {A : Type 0} (le : A → A → Bool) where
  In-insert : (a b : A) (xs : List A) → In b (insert le a xs) ↔ ((b ≡ a) ⊎ In b xs)
  unfolding insert
  In-insert a b [] = (λ h. h, λ h. h)
  In-insert a b (x ∷ xs) = ground (arith, In-insert a b xs)

  pub In-sorted : (b : A) (xs : List A) → In b (sorted le xs) ↔ In b xs
  unfolding sorted
  In-sorted b [] = (λ h. h, λ h. h)
  In-sorted b (x ∷ xs) = ground (arith, In-sorted b xs, In-insert x b (sorted le xs))

-- A total preorder, as the sort needs it.
pub record IsOrder {ℓ} {A : Type ℓ} (le : A → A → Bool) : Type ℓ where
  pub total : (a b : A) → (le a b ≡ true) ⊎ (le b a ≡ true)
  pub trans : (a b c : A) → le a b ≡ true → le b c ≡ true → le a c ≡ true

module _ {A : Type 0} (le : A → A → Bool) (order : IsOrder le) where
  All-le_trans :
      (a x : A) (xs : List A)
      → le a x ≡ true
      → All (λ y. le x y ≡ true) xs
      → All (λ y. le a y ≡ true) xs
  All-le_trans a x [] h k = tt
  All-le_trans a x (y ∷ ys) h k = (order.trans a x y h k.0, All-le_trans a x ys h k.1)

  All-insert : (P : A → Type 0) (a : A) (xs : List A) → P a → All P xs → All P (insert le a xs)
  unfolding insert
  All-insert P a [] h k = (h, tt)
  All-insert P a (x ∷ xs) h k = ground (arith, All-insert P a xs h k.1)

  insert-IsSorted : (a : A) (xs : List A) → IsSorted le xs → IsSorted le (insert le a xs)
  unfolding insert
  insert-IsSorted a [] h = (tt, tt)
  insert-IsSorted a (x ∷ xs) h = elim (Bool-cases (le a x)) [
    | inl first ↦ rw (first, IsSorted) ((first, All-le_trans a x xs first h.0), h)
    | inr later ↦
        let above : le x a ≡ true = ⊎_elim (λ e. cc) (λ e. e) (order.total a x) in
        rw (later, IsSorted)
          (All-insert (λ y. le x y ≡ true) a xs above h.0, insert-IsSorted a xs h.1)
  ]

  pub sorted-IsSorted : (xs : List A) → IsSorted le (sorted le xs)
  unfolding sorted
  sorted-IsSorted [] = tt
  sorted-IsSorted (x ∷ xs) = insert-IsSorted x (sorted le xs) (sorted-IsSorted xs)
