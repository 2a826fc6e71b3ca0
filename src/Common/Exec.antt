-- ===== src/Common/Exec.antt =====
-- Asynchronous functions that may throw: a result beside the state of the database and the host,
-- which keeps what was done before a throw.
use mathlib.Core.Path.{◌≡◌, refl}
use mathlib.Core.Logic.{◌⊎◌, inl, inr}

pub data Result {ℓ} (E A : Type ℓ) : Type ℓ where
  ok : A → Result E A
  thrown : E → Result E A

abbrev pub Exec {ℓ} : Type ℓ → Type ℓ → Type ℓ → Type ℓ
Exec E S A = S → Result E A × S

module _ {ℓ} {E S : Type ℓ} where
  abbrev pub pure : {A : Type ℓ} → A → Exec E S A
  pure a s = (ok a, s)

  abbrev pub throw : {A : Type ℓ} → E → Exec E S A
  throw e s = (thrown e, s)

  abbrev pub lift : {A : Type ℓ} → Result E A → Exec E S A
  lift r s = (r, s)

module _ {ℓ} {E S A B : Type ℓ} where
  abbrev pub continue : Result E A → (A → Exec E S B) → Exec E S B
  continue (ok a) f s = f a s
  continue (thrown e) f s = (thrown e, s)

  infixl 5 ◌>>=◌
  abbrev pub ◌>>=◌ : Exec E S A → (A → Exec E S B) → Exec E S B
  ◌>>=◌ m f s = let (r, s') = m s in continue r f s'

module _ {ℓ} {E A : Type ℓ} where
  pub Result-cases : (r : Result E A) → ((a : A) × (r ≡ ok a)) ⊎ ((e : E) × (r ≡ thrown e))
  Result-cases (ok a) = inl (a, refl)
  Result-cases (thrown e) = inr (e, refl)

module _ {ℓ} {E S A : Type ℓ} where
  pub run_cases :
      (x : Result E A × S)
      → ((a : A) × (t : S) × (x ≡ (ok a, t))) ⊎ ((e : E) × (t : S) × (x ≡ (thrown e, t)))
  run_cases (ok a, t) = inl (a, t, refl)
  run_cases (thrown e, t) = inr (e, t, refl)

-- The error of a run, told as its caller tells it.
module _ {ℓ} {E F S A : Type ℓ} (f : E → F) where
  abbrev pub wrap_result : Result E A × S → Result F A × S
  wrap_result (ok a, s) = (ok a, s)
  wrap_result (thrown e, s) = (thrown (f e), s)
