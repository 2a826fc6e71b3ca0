-- ===== src/Cli/Suggest.antt =====
-- packages/cli/src/core/suggest.ts, suggest. Scores are counted in halves, since a prefix scores 0.5.
use bunny_cli_fork.Common.{
  ℕ, ◌*◌, ◌/◌, ◌≤◌, true, false, ◌&&◌, Option, none, some, List, [], ◌∷◌, leb, ltb, if◌then◌else◌,
  Text, length, text_eq, to_lower, starts_with, ◌≡◌, sym, subst, ap, ◌∙◌, ◌⊎◌, inl, inr, Bool-cases,
  arith, is_empty, All,
}
use mathlib.Core.List.{Mem, mem-cons_self, mem-cons_of_mem}
use bunny_cli_fork.Cli.Distance.{distance}

-- Math.min(3, Math.max(1, Math.floor(n / 2))), in halves.
unfoldable pub tolerance : ℕ → ℕ
tolerance n = let half = if leb 1 (n / 2) then n / 2 else 1 in 2 * (if leb 3 half then 3 else half)

unfoldable pub score : Text → Text → ℕ
unfolding distance starts_with
score needle name =
    if ltb 1 (length needle) && starts_with name needle then 1 else 2 * distance needle name

-- The loop: the best candidate so far with its score; without one the score is infinite.
unfoldable pub closest : Text → Option (Text × ℕ) → List Text → Option (Text × ℕ)
unfolding score text_eq to_lower
closest needle best [] = best
closest needle best (c ∷ cs) =
    let skipped = closest needle best cs in
    let taken = closest needle (some (c, score needle (to_lower c))) cs in
    if text_eq (to_lower c) needle then skipped else elim best [
      | none ↦ taken
      | some b ↦ if ltb (score needle (to_lower c)) (b.1) then taken else skipped
    ]

unfoldable pub accept : ℕ → Option (Text × ℕ) → Option Text
accept n none = none
accept n (some (c, v)) = if is_empty c then none else if leb v (tolerance n) then some c else none

unfoldable pub suggest : Text → List Text → Option Text
unfolding closest accept
suggest input cs = accept (length (to_lower input)) (closest (to_lower input) none cs)

-- Equal to the needle up to case, or no closer than the score.
abbrev pub NoCloser : Text → ℕ → Text → Type 0
NoCloser needle v d = (text_eq (to_lower d) needle ≡ true) ⊎ (v ≤ score needle (to_lower d))

abbrev AtMost : ℕ → Option (Text × ℕ) → Type 0
AtMost v none = Unit
AtMost v (some (b, w)) = v ≤ w

abbrev pub IsNear : Text → List Text → Text → ℕ → Type 0
IsNear needle cs c v =
    Mem c cs × (text_eq (to_lower c) needle ≡ false) × (v ≡ score needle (to_lower c))

abbrev Wins : Text → Option (Text × ℕ) → List Text → Text → ℕ → Type 0
Wins needle best cs c v =
    ((best ≡ some (c, v)) ⊎ IsNear needle cs c v) × All (NoCloser needle v) cs × AtMost v best

IsNear-later :
    (needle : Text) (d : Text) (cs : List Text) (c : Text) (v : ℕ)
    → IsNear needle cs c v
    → IsNear needle (d ∷ cs) c v
IsNear-later needle d cs c v (o, x, y) = (mem-cons_of_mem d o, x, y)

Wins-skip :
    (needle : Text) (best : Option (Text × ℕ)) (d : Text) (cs : List Text) (c : Text) (v : ℕ)
    → (AtMost v best → NoCloser needle v d)
    → Wins needle best cs c v
    → Wins needle best (d ∷ cs) c v
Wins-skip needle best d cs c v far (inl e, l, m) = (inl e, (far m, l), m)
Wins-skip needle best d cs c v far (inr n, l, m) =
    (inr (IsNear-later needle d cs c v n), (far m, l), m)

Wins-take :
    (needle : Text) (best : Option (Text × ℕ)) (d : Text) (cs : List Text) (c : Text) (v : ℕ)
    → text_eq (to_lower d) needle ≡ false
    → (v ≤ score needle (to_lower d) → AtMost v best)
    → Wins needle (some (d, score needle (to_lower d))) cs c v
    → Wins needle best (d ∷ cs) c v
Wins-take needle best d cs c v h below (inr n, l, m) =
    (inr (IsNear-later needle d cs c v n), (inr m, l), below m)
Wins-take needle best d cs c v h below (inl e, l, m) = (
  inr (
    subst (λ x. Mem x (d ∷ cs)) same.0 mem-cons_self,
    subst (λ x. text_eq (to_lower x) needle ≡ false) same.0 h,
    sym same.1 ∙ ap (λ x. score needle (to_lower x)) same.0,
  ),
  (inr m, l),
  below m,
)
  where
    same : (d ≡ c) × (score needle (to_lower d) ≡ v)
    same = (cc e, cc e)

closest-Wins :
    (needle : Text) (best : Option (Text × ℕ)) (cs : List Text) (c : Text) (v : ℕ)
    → closest needle best cs ≡ some (c, v)
    → Wins needle best cs c v
unfolding closest
closest-Wins needle best [] c v e = (inl e, tt, subst (AtMost v) (sym e) (omega arith))
closest-Wins needle none (d ∷ cs) c v e = elim (Bool-cases (text_eq (to_lower d) needle)) [
  | inl h ↦
      Wins-skip needle none d cs c v (λ m. inl h) (closest-Wins needle none cs c v (rw h at e))
  | inr h ↦
      Wins-take needle none d cs c v h (λ m. tt)
        (closest-Wins needle (some (d, score needle (to_lower d))) cs c v (rw h at e))
]
closest-Wins needle (some (b, w)) (d ∷ cs) c v e = elim (Bool-cases (text_eq (to_lower d) needle)) [
  | inl h ↦
      Wins-skip needle (some (b, w)) d cs c v (λ m. inl h)
        (closest-Wins needle (some (b, w)) cs c v (rw h at e))
  | inr h ↦ elim (Bool-cases (ltb (score needle (to_lower d)) w)) [
    | inl l ↦
        Wins-take needle (some (b, w)) d cs c v h (λ m. ground (arith, m, l))
          (closest-Wins needle (some (d, score needle (to_lower d))) cs c v (rw l at (rw h at e)))
    | inr l ↦
        Wins-skip needle (some (b, w)) d cs c v (λ m. inr (ground (arith, m, l)))
          (closest-Wins needle (some (b, w)) cs c v (rw l at (rw h at e)))
  ]
]

accept-some :
    (n : ℕ) (r : Option (Text × ℕ)) (c : Text)
    → accept n r ≡ some c
    → (v : ℕ) × (r ≡ some (c, v)) × (v ≤ tolerance n)
unfolding accept
accept-some n none c e = absurd (clash e)
  where
    clash : none ≡ some c → ⊥
    clash e = cc e
accept-some n (some (d, w)) c e = elim (Bool-cases (is_empty d)) [
  | inl h ↦ absurd (clash (rw h at e))
  | inr h ↦ elim (Bool-cases (leb w (tolerance n))) [
    | inl l ↦ (w, ap (λ x. some (x, w)) (same (rw l at (rw h at e))), ground arith)
    | inr l ↦ absurd (clash (rw l at (rw h at e)))
  ]
]
  where
    clash : none ≡ some c → ⊥
    clash e = cc e

    same : some d ≡ some c → d ≡ c
    same e = cc e

closest-IsNear :
    (needle : Text) (cs : List Text) (c : Text) (v : ℕ)
    → Wins needle none cs c v
    → IsNear needle cs c v × All (NoCloser needle v) cs
closest-IsNear needle cs c v (inl e, l, m) = absurd (clash e)
  where
    clash : {w : Text × ℕ} → none ≡ some w → ⊥
    clash e = cc e
closest-IsNear needle cs c v (inr n, l, m) = (n, l)

-- A suggestion is a candidate, differs from the input by more than case, is within the tolerance,
-- and no other candidate that differs by more than case scores less.
pub suggest-closest :
    (input : Text) (cs : List Text) (c : Text)
    → suggest input cs ≡ some c
    → let needle = to_lower input in
      Mem c cs
      × (text_eq (to_lower c) needle ≡ false)
      × (score needle (to_lower c) ≤ tolerance (length needle))
      × All (NoCloser needle (score needle (to_lower c))) cs
unfolding suggest
suggest-closest input cs c e =
    let needle = to_lower input in
    let (v, found, near) = accept-some (length needle) (closest needle none cs) c e in
    let ((member, other, scored), rest) =
      closest-IsNear needle cs c v (closest-Wins needle none cs c v found) in
    (
      member,
      other,
      subst (λ w. w ≤ tolerance (length needle)) scored near,
      subst (λ w. All (NoCloser needle w) cs) scored rest,
    )
