-- ===== src/Common/Slots.antt =====
-- Lists read and written at an index, as JavaScript arrays within their length.
use Prim.Native.Nat.{ℕ, zero, suc, ◌≤◌, ◌<◌}
use mathlib.Core.Path.{◌≡◌, refl, sym, ap, ◌∙◌, subst}
use mathlib.Core.Logic.{◌⊎◌, inl, inr}
use mathlib.Core.Option.{Option, none, some}
use mathlib.Core.List.{List, [], ◌∷◌}
use native.Mathlib.Omega.{arith}
use bunny_cli_fork.Common.Lists.{length}
use bunny_cli_fork.Common.Tests.{◌==◌, ==→eq, Bool-cases}

pub same_index : (i j : ℕ) → (i ≡ j) ⊎ (i ≡ j → ⊥)
same_index i j = elim (Bool-cases (i == j)) [
  | inl h ↦ inl (==→eq i j h)
  | inr h ↦ inr (λ e. ground (arith, e, h))
]

module _ {ℓ} {A : Type ℓ} where
  unfoldable pub at : ℕ → List A → Option A
  at i [] = none
  at zero (x ∷ xs) = some x
  at (suc i) (x ∷ xs) = at i xs

  -- A write behind the end changes nothing.
  unfoldable pub put : ℕ → A → List A → List A
  put i y [] = []
  put zero y (x ∷ xs) = y ∷ xs
  put (suc i) y (x ∷ xs) = x ∷ put i y xs

  pub length-put : (i : ℕ) (y : A) (xs : List A) → length (put i y xs) ≡ length xs
  unfolding put
  length-put i y [] = refl
  length-put zero y (x ∷ xs) = refl
  length-put (suc i) y (x ∷ xs) = omega (arith, length-put i y xs)

  pub at-put : (i : ℕ) (y : A) (xs : List A) → i < length xs → at i (put i y xs) ≡ some y
  unfolding at put
  at-put i y [] h = absurd (omega arith)
  at-put zero y (x ∷ xs) h = refl
  at-put (suc i) y (x ∷ xs) h = at-put i y xs (omega arith)

  pub at-put_other : (i j : ℕ) (y : A) (xs : List A) → (i ≡ j → ⊥) → at j (put i y xs) ≡ at j xs
  unfolding at put
  at-put_other i j y [] h = refl
  at-put_other zero zero y (x ∷ xs) h = absurd (h refl)
  at-put_other zero (suc j) y (x ∷ xs) h = refl
  at-put_other (suc i) zero y (x ∷ xs) h = refl
  at-put_other (suc i) (suc j) y (x ∷ xs) h = at-put_other i j y xs (λ e. h (omega (arith, e)))

  pub at-bound : (i : ℕ) (x : A) (xs : List A) → at i xs ≡ some x → i < length xs
  unfolding at
  at-bound i x [] e = absurd (clash e)
    where
      clash : {y : A} → none ≡ some y → ⊥
      clash e = cc e
  at-bound zero x (y ∷ xs) e = omega arith
  at-bound (suc i) x (y ∷ xs) e = omega (arith, at-bound i x xs e)

  pub at-past : (i : ℕ) (xs : List A) → at i xs ≡ none → length xs ≤ i
  unfolding at
  at-past i [] e = omega arith
  at-past zero (y ∷ xs) e = absurd (clash e)
    where
      clash : some y ≡ none → ⊥
      clash e = cc e
  at-past (suc i) (y ∷ xs) e = omega (arith, at-past i xs e)

  -- What stands at an index after a write is what was written there, or what stood there.
  pub at-of_put :
      (i j : ℕ) (y z : A) (xs : List A)
      → at j (put i y xs) ≡ some z
      → ((i ≡ j) × (y ≡ z)) ⊎ ((i ≡ j → ⊥) × (at j xs ≡ some z))
  at-of_put i j y z xs e = elim (same_index i j) [
    | inl h ↦ inl (h, same (sym (at-put i y xs (inside h)) ∙ ap (λ k. at k (put i y xs)) h ∙ e))
    | inr h ↦ inr (h, sym (at-put_other i j y xs h) ∙ e)
  ]
    where
      inside : i ≡ j → i < length xs
      inside h =
          subst (λ n. i < n) (length-put i y xs)
            (at-bound i z (put i y xs) (ap (λ k. at k (put i y xs)) h ∙ e))

      same : {a b : A} → some a ≡ some b → a ≡ b
      same e = cc e

  pub at-inside : (i : ℕ) (xs : List A) → i < length xs → (x : A) × (at i xs ≡ some x)
  unfolding at
  at-inside i [] h = absurd (omega arith)
  at-inside zero (x ∷ xs) h = (x, refl)
  at-inside (suc i) (x ∷ xs) h = at-inside i xs (omega arith)
