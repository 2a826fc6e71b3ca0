-- ===== src/Common/Trim.antt =====
-- Laws of `trim` and its like: what they remove, what they keep, and that they are idempotent.
use bunny_cli_fork.Common.Tests.{Bool-cases}
use bunny_cli_fork.Common.Chars.{is_space}
use bunny_cli_fork.Common.Strings.{Text, strip, strip_start, strip_end, trim}
use Prim.Native.Nat.{ℕ}
use mathlib.Core.Path.{◌≡◌, refl, ap, sym, ◌∙◌}
use mathlib.Core.Logic.{inl, inr}
use mathlib.Core.Bool.{Bool, false}
use mathlib.Core.List.{[], ◌∷◌, ◌++◌, reverse, reverse-append, reverse-reverse}

module _ (p : ℕ → Bool) where
  -- The first unit, if there is one, is not of the class.
  abbrev pub StartsSolid : Text → Type 0
  StartsSolid [] = Unit
  StartsSolid (a ∷ s) = p a ≡ false

  -- No unit of the class at either end.
  pub record IsStripped (s : Text) : Type 0 where
    pub start : StartsSolid s
    pub end : StartsSolid (reverse s)

  strip_start-StartsSolid : (s : Text) → StartsSolid (strip_start p s)
  unfolding strip_start
  strip_start-StartsSolid [] = tt
  strip_start-StartsSolid (a ∷ s) = elim (Bool-cases (p a)) [
    | inl e ↦ rw e (strip_start-StartsSolid s)
    | inr e ↦ rw e e
  ]

  strip_start_solid : (s : Text) → StartsSolid s → strip_start p s ≡ s
  unfolding strip_start
  strip_start_solid [] h = refl
  strip_start_solid (a ∷ s) h = rw h

  -- What is dropped stands in front.
  pub strip_start-suffix : (s : Text) → (q : Text) × (s ≡ q ++ strip_start p s)
  unfolding strip_start
  strip_start-suffix [] = ([], refl)
  strip_start-suffix (a ∷ s) = elim (Bool-cases (p a)) [
    | inl e ↦ let (q, f) = strip_start-suffix s in (a ∷ q, rw e (ap (λ t. a ∷ t) f))
    | inr e ↦ ([], rw e)
  ]

  strip_end_solid : (s : Text) → StartsSolid (reverse s) → strip_end p s ≡ s
  unfolding strip_end
  strip_end_solid s h = rw (strip_start_solid (reverse s) h) (reverse-reverse s)

  pub strip_stripped : (s : Text) → IsStripped s → strip p s ≡ s
  unfolding strip
  strip_stripped s h = rw (strip_start_solid s h.start) (strip_end_solid s h.end)

  StartsSolid-prefix : (q s : Text) → StartsSolid (q ++ s) → StartsSolid q
  StartsSolid-prefix [] s h = tt
  StartsSolid-prefix (a ∷ q) s h = h

  -- The part that `strip_end` keeps stands in front.
  pub strip_end-prefix : (s : Text) → (q : Text) × (s ≡ strip_end p s ++ q)
  unfolding strip_end
  strip_end-prefix s =
      let (q, e) = strip_start-suffix (reverse s) in
      (
        reverse q,
        sym (reverse-reverse s) ∙ ap reverse e ∙ reverse-append q (strip_start p (reverse s)),
      )

  strip_end-StartsSolid : (s : Text) → StartsSolid s → StartsSolid (strip_end p s)
  strip_end-StartsSolid s h =
      let (q, e) = strip_end-prefix s in StartsSolid-prefix (strip_end p s) q (rw e at h)

  strip_end-EndsSolid : (s : Text) → StartsSolid (reverse (strip_end p s))
  unfolding strip_end
  strip_end-EndsSolid s =
      rw (reverse-reverse (strip_start p (reverse s))) (strip_start-StartsSolid (reverse s))

  pub strip-IsStripped : (s : Text) → IsStripped (strip p s)
  unfolding strip
  strip-IsStripped s = record {
    start = strip_end-StartsSolid (strip_start p s) (strip_start-StartsSolid s);
    end = strip_end-EndsSolid (strip_start p s);
  }

abbrev pub IsTrimmed : Text → Type 0
IsTrimmed s = IsStripped is_space s

pub trim_trimmed : (s : Text) → IsTrimmed s → trim s ≡ s
unfolding trim
trim_trimmed s h = strip_stripped is_space s h

pub trim-IsTrimmed : (s : Text) → IsTrimmed (trim s)
unfolding trim
trim-IsTrimmed s = strip-IsStripped is_space s

pub trim_idem : (s : Text) → trim (trim s) ≡ trim s
trim_idem s = trim_trimmed (trim s) (trim-IsTrimmed s)
