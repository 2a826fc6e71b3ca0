-- ===== src/Common/Dict.antt =====
-- A `Map` from strings, as its entries in the order of their insertion.
use mathlib.Core.Path.{◌≡◌, refl}
use mathlib.Core.Logic.{inl, inr}
use mathlib.Core.Bool.{false}
use mathlib.Core.Option.{Option, none, some}
use mathlib.Core.List.{List, [], ◌∷◌}
use bunny_cli_fork.Common.Tests.{if◌then◌else◌, Bool-cases}
use bunny_cli_fork.Common.Strings.{Text, text_eq, text_eq_refl, eq_of_text_eq}

module _ {ℓ} {V : Type ℓ} where
  unfoldable pub get : Text → List (Text × V) → Option V
  get k [] = none
  get k ((j, v) ∷ d) = let later = get k d in if text_eq j k then some v else later

  -- An entry with the key keeps its place.
  unfoldable pub set : Text → V → List (Text × V) → List (Text × V)
  set k v [] = (k, v) ∷ []
  set k v ((j, w) ∷ d) = let later = set k v d in if text_eq j k then (j, v) ∷ d else (j, w) ∷ later

  pub get-set : (k : Text) (v : V) (d : List (Text × V)) → get k (set k v d) ≡ some v
  unfolding get set
  get-set k v [] = rw (text_eq_refl k) refl
  get-set k v ((j, w) ∷ d) = elim (Bool-cases (text_eq j k)) [
    | inl here ↦ rw here (rw here refl)
    | inr later ↦ rw later (rw later (get-set k v d))
  ]

  pub get-set_other :
      (k j : Text) (v : V) (d : List (Text × V)) → text_eq k j ≡ false → get j (set k v d) ≡ get j d
  unfolding get set
  get-set_other k j v [] h = rw h refl
  get-set_other k j v ((i, w) ∷ d) h = elim (Bool-cases (text_eq i k)) [
    | inl here ↦ let same = eq_of_text_eq i k here in rw (here) (rw (same, h) refl)
    | inr later ↦ rw later (elim (Bool-cases (text_eq i j)) [
      | inl e ↦ rw e refl
      | inr e ↦ rw e (get-set_other k j v d h)
    ])
  ]

  -- `map.delete(k)`
  unfoldable pub remove : Text → List (Text × V) → List (Text × V)
  remove k [] = []
  remove k ((j, v) ∷ d) = let later = remove k d in if text_eq j k then later else (j, v) ∷ later

  pub get-remove : (k : Text) (d : List (Text × V)) → get k (remove k d) ≡ none
  unfolding get remove
  get-remove k [] = refl
  get-remove k ((j, w) ∷ d) = elim (Bool-cases (text_eq j k)) [
    | inl here ↦ rw here (get-remove k d)
    | inr later ↦ rw later (rw later (get-remove k d))
  ]

  pub get-remove_other :
      (k j : Text) (d : List (Text × V)) → text_eq k j ≡ false → get j (remove k d) ≡ get j d
  unfolding get remove
  get-remove_other k j [] h = refl
  get-remove_other k j ((i, w) ∷ d) h = elim (Bool-cases (text_eq i k)) [
    | inl here ↦ rw here (rw (eq_of_text_eq i k here, h) (get-remove_other k j d h))
    | inr later ↦ rw later (elim (Bool-cases (text_eq i j)) [
      | inl e ↦ rw e refl
      | inr e ↦ rw e (get-remove_other k j d h)
    ])
  ]
