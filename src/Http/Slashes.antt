-- ===== src/Http/Slashes.antt =====
-- The loop of `trimTrailingSlashes` drops exactly the slashes at the end.
use bunny_cli_fork.Common.{
  ℕ, zero, suc, ◌≤◌, ◌<◌, Bool, true, false, some, [], ◌∷◌, ◌++◌, reverse, ◌==◌, ◌≡◌, refl, sym, ap,
  ◌∙◌, subst, inl, inr, if◌then◌else◌, Text, take, length, length-append, Bool-cases, arith,
  strip_end, strip_start, reverse-reverse, reverse-append,
}
use bunny_cli_fork.Http.Urls.{unit_at, is_slash_unit, is_slash_at, slash_end, trim_trailing_slashes}

abbrev pub is_slash : ℕ → Bool
is_slash c = c == b'/'

unit_at-append : (i : ℕ) (s t : Text) → i < length s → unit_at i (s ++ t) ≡ unit_at i s
unfolding unit_at
unit_at-append i [] t h = absurd (omega arith)
unit_at-append zero (a ∷ s) t h = refl
unit_at-append (suc i) (a ∷ s) t h = unit_at-append i s t (omega arith)

unit_at-end : (s : Text) (c : ℕ) → unit_at (length s) (s ++ c ∷ []) ≡ some c
unfolding unit_at
unit_at-end [] c = refl
unit_at-end (a ∷ s) c = unit_at-end s c

is_slash_at-append : (i : ℕ) (s t : Text) → i < length s → is_slash_at i (s ++ t) ≡ is_slash_at i s
unfolding is_slash_at
is_slash_at-append i s t h = ap is_slash_unit (unit_at-append i s t h)

is_slash_at-end : (s : Text) (c : ℕ) → is_slash_at (length s) (s ++ c ∷ []) ≡ is_slash c
unfolding is_slash_at is_slash_unit
is_slash_at-end s c = ap is_slash_unit (unit_at-end s c)

slash_end-append : (e : ℕ) (s t : Text) → e ≤ length s → slash_end e (s ++ t) ≡ slash_end e s
unfolding slash_end
slash_end-append zero s t h = refl
slash_end-append (suc e) s t h =
    rw (is_slash_at-append e s t (omega arith)) (rw (slash_end-append e s t (omega arith)) refl)

slash_end-bound : (e : ℕ) (s : Text) → slash_end e s ≤ e
unfolding slash_end
slash_end-bound zero s = omega arith
slash_end-bound (suc e) s = ground (arith, slash_end-bound e s)

take-short : (n : ℕ) (s t : Text) → n ≤ length s → take n (s ++ t) ≡ take n s
take-short zero s t h = refl
take-short (suc n) [] t h = absurd (omega arith)
take-short (suc n) (a ∷ s) t h = ap (λ r. a ∷ r) (take-short n s t (omega arith))

take-all : (s : Text) → take (length s) s ≡ s
take-all [] = refl
take-all (a ∷ s) = ap (λ r. a ∷ r) (take-all s)

slash_end-suc :
    (s : Text) (c : ℕ)
    → slash_end (suc (length s)) (s ++ c ∷ [])
      ≡ (if is_slash c then slash_end (length s) s else suc (length s))
unfolding slash_end
slash_end-suc s c =
    rw (is_slash_at-end s c) (rw (slash_end-append (length s) s (c ∷ []) (omega arith)) refl)

slash_end-last :
    (s : Text) (c : ℕ)
    → slash_end (length (s ++ c ∷ [])) (s ++ c ∷ [])
      ≡ (if is_slash c then slash_end (length s) s else suc (length s))
slash_end-last s c =
    ap (λ n. slash_end n (s ++ c ∷ [])) (length-append s (c ∷ []) ∙ omega arith) ∙ slash_end-suc s c

-- One more unit at the end.
trim-slash :
    (s : Text) (c : ℕ)
    → is_slash c ≡ true
    → trim_trailing_slashes (s ++ c ∷ []) ≡ trim_trailing_slashes s
unfolding trim_trailing_slashes
trim-slash s c h =
    rw (slash_end-last s c)
      (rw h (take-short (slash_end (length s) s) s (c ∷ []) (slash_end-bound (length s) s)))

trim-other :
    (s : Text) (c : ℕ) → is_slash c ≡ false → trim_trailing_slashes (s ++ c ∷ []) ≡ s ++ c ∷ []
unfolding trim_trailing_slashes
trim-other s c h = rw (slash_end-last s c) (
    rw h (
      ap (λ n. take n (s ++ c ∷ [])) {x = suc (length s)} {y = length (s ++ c ∷ [])}
        (omega (arith, length-append s (c ∷ [])))
      ∙ take-all (s ++ c ∷ [])))

by_last :
    (s : Text) (c : ℕ)
    → reverse (strip_start is_slash (c ∷ reverse s))
      ≡ (if is_slash c then strip_end is_slash s else s ++ c ∷ [])
unfolding strip_start strip_end
by_last s c = elim (Bool-cases (is_slash c)) [
  | inl h ↦ rw h refl
  | inr h ↦ rw h (reverse-append (c ∷ []) (reverse s) ∙ ap (λ t. t ++ c ∷ []) (reverse-reverse s))
]

strip_end-last :
    (s : Text) (c : ℕ)
    → strip_end is_slash (s ++ c ∷ []) ≡ (if is_slash c then strip_end is_slash s else s ++ c ∷ [])
unfolding strip_end
strip_end-last s c =
    ap (λ r. reverse (strip_start is_slash r)) (reverse-append s (c ∷ [])) ∙ by_last s c

reversed-equal : (r : Text) → trim_trailing_slashes (reverse r) ≡ strip_end is_slash (reverse r)
reversed-equal [] = unfold trim_trailing_slashes strip_end strip_start in refl
reversed-equal (c ∷ r) =
    ap trim_trailing_slashes (reverse-append (c ∷ []) r)
    ∙ elim (Bool-cases (is_slash c)) [
      | inl h ↦
          trim-slash (reverse r) c h
          ∙ reversed-equal r
          ∙ sym (strip_end-last (reverse r) c ∙ rw h refl)
      | inr h ↦ trim-other (reverse r) c h ∙ sym (strip_end-last (reverse r) c ∙ rw h refl)
    ]
    ∙ ap (strip_end is_slash) (sym (reverse-append (c ∷ []) r))

-- The loop keeps what is left of the text without the slashes at its end.
pub trim_trailing_slashes-strip : (s : Text) → trim_trailing_slashes s ≡ strip_end is_slash s
trim_trailing_slashes-strip s =
    subst (λ t. trim_trailing_slashes t ≡ strip_end is_slash t) (reverse-reverse s)
      (reversed-equal (reverse s))
