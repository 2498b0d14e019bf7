-- ===== src/Prelude/Exceptions.antt =====
-- A Python function that may raise: its value, or the exception. `E` lists the exceptions.
use mathlib.Core.Path.{◌≡◌, refl}
use mathlib.Core.Logic.{◌⊎◌, inl, inr, ◌≢◌}

pub data Result {ℓ κ} (E : Type ℓ) (A : Type κ) : Type (ℓ ⊔ κ) where
  ok : A → Result E A
  err : E → Result E A

module _ {ℓ κ μ} {E : Type ℓ} {A : Type κ} {B : Type μ} where
  infixl 5 ◌>>=◌ ◌>>◌
  abbrev pub ◌>>=◌ : Result E A → (A → Result E B) → Result E B
  m >>= f = elim m [ ok a ↦ f a | err e ↦ err e ]

  abbrev pub ◌>>◌ : Result E A → Result E B → Result E B
  m >> n = m >>= λ _. n

module _ {ℓ κ} {E : Type ℓ} {A : Type κ} where
  pub Result-cases : (r : Result E A) → ((a : A) × (r ≡ ok a)) ⊎ ((e : E) × (r ≡ err e))
  Result-cases (ok a) = inl (a, refl)
  Result-cases (err e) = inr (e, refl)

  pub Result-total : (r : Result E A) → ((e : E) → r ≢ err e) → (a : A) × (r ≡ ok a)
  Result-total (ok a) never = (a, refl)
  Result-total (err e) never = absurd (never e refl)

  pub ok_inj : {a c : A} → ◌≡◌ {A = Result E A} (ok a) (ok c) → a ≡ c
  ok_inj e = cc
