-- ===== src/Prelude/Dict.antt =====
-- Python's `dict` with text keys, as an association list in the order of insertion, and its sets of
-- texts, as lists.
use mathlib.Core.Path.{◌≡◌, refl}
use mathlib.Core.Logic.{◌↔◌, inl, inr}
use mathlib.Core.Bool.{Bool, true, false, ◌||◌}
use mathlib.Core.Option.{Option, none, some}
use mathlib.Core.List.{List, [], ◌∷◌}
use Prim.Native.String.{String}
use native.Mathlib.Omega.{arith}
use agent_advisor.Prelude.Tests.{if◌then◌else◌, Bool-cases}
use agent_advisor.Prelude.Lists.{In, In-subst, In-filter, filter}
use agent_advisor.Prelude.Sort.{sorted, In-sorted}
use agent_advisor.Prelude.Text.{◌==◌, eq_iff, text_leb}

abbrev pub Dict {ℓ} : Type ℓ → Type ℓ
Dict V = List (String × V)

module _ {ℓ} {V : Type ℓ} where
  -- d.get(k)
  unfoldable pub lookup : String → Dict V → Option V
  lookup k [] = none
  lookup k ((j, v) ∷ d) = let rest = lookup k d in if j == k then some v else rest

  -- d[k] = v: a new key goes to the end
  unfoldable pub insert : String → V → Dict V → Dict V
  insert k v [] = (k, v) ∷ []
  insert k v ((j, w) ∷ d) = let rest = insert k v d in if j == k then (j, v) ∷ d else (j, w) ∷ rest

  -- d.pop(k, None)
  unfoldable pub erase : String → Dict V → Dict V
  erase k [] = []
  erase k ((j, w) ∷ d) = let rest = erase k d in if j == k then rest else (j, w) ∷ rest

  -- d.get(k, v)
  abbrev pub get_or : Dict V → String → V → V
  get_or d k v = elim (lookup k d) [ none ↦ v | some w ↦ w ]

  pub lookup-insert :
      (k j : String) (v : V) (d : Dict V)
      → lookup j (insert k v d) ≡ (if k == j then some v else lookup j d)
  unfolding lookup insert
  lookup-insert k j v [] = ground arith
  lookup-insert k j v ((i, w) ∷ d) =
      ground (arith, eq_iff k j, eq_iff i k, eq_iff i j, lookup-insert k j v d)

  pub lookup-erase :
      (k j : String) (d : Dict V) → lookup j (erase k d) ≡ (if k == j then none else lookup j d)
  unfolding lookup erase
  lookup-erase k j [] = ground arith
  lookup-erase k j ((i, w) ∷ d) =
      ground (arith, eq_iff k j, eq_iff i k, eq_iff i j, lookup-erase k j d)

-- k in s
unfoldable pub mem : String → List String → Bool
mem k [] = false
mem k (x ∷ xs) = k == x || mem k xs

pub mem_iff : (k : String) (xs : List String) → (mem k xs ≡ true) ↔ In k xs
unfolding mem
mem_iff k [] = (λ h. cc, λ h. absurd h)
mem_iff k (x ∷ xs) = ground (arith, eq_iff k x, mem_iff k xs)

pub mem-filter :
    (p : String → Bool) (xs : List String) (x : String) → In x xs → mem x (filter p xs) ≡ p x
mem-filter p xs x i = ground (arith, mem_iff x (filter p xs), In-filter p x xs)

-- The elements of a set that is built from a list.
unfoldable pub unique : List String → List String
unique [] = []
unique (x ∷ xs) = let rest = unique xs in if mem x xs then rest else x ∷ rest

pub In-unique : (k : String) (xs : List String) → In k (unique xs) ↔ In k xs
unfolding unique
In-unique k [] = (λ h. h, λ h. h)
In-unique k (x ∷ xs) = ground (arith, mem_iff x xs, mem_iff k xs, In-unique k xs, In-subst k x xs)

-- sorted(set(xs))
unfoldable pub sorted_set : List String → List String
sorted_set xs = sorted text_leb (unique xs)

pub In-sorted_set : (k : String) (xs : List String) → In k (sorted_set xs) ↔ In k xs
unfolding sorted_set
In-sorted_set k xs = ground (arith, In-sorted text_leb k (unique xs), In-unique k xs)

module _ {V : Type 0} where
  -- No key has two entries.
  abbrev pub HasDistinctKeys : Dict V → Type 0
  HasDistinctKeys [] = Unit
  HasDistinctKeys ((k, v) ∷ d) = (lookup k d ≡ none) × HasDistinctKeys d

  pub insert-HasDistinctKeys :
      (k : String) (v : V) (d : Dict V) → HasDistinctKeys d → HasDistinctKeys (insert k v d)
  unfolding insert lookup
  insert-HasDistinctKeys k v [] h = (refl, tt)
  insert-HasDistinctKeys k v ((j, w) ∷ d) h =
      ground
        (arith, eq_iff j k, eq_iff k j, lookup-insert k j v d, insert-HasDistinctKeys k v d h.1)

  lookup-of-In :
      (k : String) (v : V) (d : Dict V) → HasDistinctKeys d → In (k, v) d → lookup k d ≡ some v
  unfolding lookup
  lookup-of-In k v [] h i = absurd i
  lookup-of-In k v ((j, w) ∷ d) h (inl e) = ground (arith, eq_iff j k)
  lookup-of-In k v ((j, w) ∷ d) h (inr i) = ground (arith, eq_iff j k, lookup-of-In k v d h.1 i)

  In-of-lookup : (k : String) (v : V) (d : Dict V) → lookup k d ≡ some v → In (k, v) d
  unfolding lookup
  In-of-lookup k v [] e = cc
  In-of-lookup k v ((j, w) ∷ d) e = elim (Bool-cases (j == k)) [
    | inl here ↦ inl (ground (arith, eq_iff j k))
    | inr there ↦ inr (In-of-lookup k v d (ground arith))
  ]

  pub In-lookup :
      (k : String) (v : V) (d : Dict V) → HasDistinctKeys d → In (k, v) d ↔ (lookup k d ≡ some v)
  In-lookup k v d h = (lookup-of-In k v d h, In-of-lookup k v d)
