-- ===== src/Common/Find.antt =====
-- Laws of `indexOf` for one code unit, with `slice` on both sides of what is found.
use bunny_cli_fork.Common.Tests.{◌==◌, Bool-cases, Option-cases, ==→eq, ==-self}
use bunny_cli_fork.Common.Lists.{take, drop, length}
use bunny_cli_fork.Common.Strings.{Text, index_of}
use Prim.Native.Nat.{ℕ, suc}
use mathlib.Core.Path.{◌≡◌, refl, ap, sym, ◌∙◌}
use mathlib.Core.Logic.{inl, inr}
use mathlib.Core.Bool.{true, false}
use mathlib.Core.Option.{none, some}
use mathlib.Core.List.{[], ◌∷◌, ◌++◌}

-- The unit does not stand in the text.
abbrev pub Lacks : ℕ → Text → Type 0
Lacks c [] = Unit
Lacks c (a ∷ s) = ((a == c) ≡ false) × Lacks c s

-- Where a text is cut by its first unit `c`.
pub record Cut (c : ℕ) (s : Text) (i : ℕ) : Type 0 where
  pub before : Text
  pub after : Text
  pub whole : s ≡ before ++ c ∷ after
  pub first : Lacks c before
  pub taken : take i s ≡ before
  pub dropped : drop (suc i) s ≡ after

index_of-here : (c a : ℕ) (s : Text) → (a == c) ≡ true → index_of c (a ∷ s) ≡ some 0
unfolding index_of
index_of-here c a s h = rw h

index_of-later :
    (c a : ℕ) (s : Text) (i : ℕ)
    → (a == c) ≡ false
    → index_of c s ≡ some i
    → index_of c (a ∷ s) ≡ some (suc i)
unfolding index_of
index_of-later c a s i h e = rw h (rw (e, index_of))

index_of-nowhere :
    (c a : ℕ) (s : Text) → (a == c) ≡ false → index_of c s ≡ none → index_of c (a ∷ s) ≡ none
unfolding index_of
index_of-nowhere c a s h e = rw h (rw (e, index_of))

pub index_of-Cut : (c : ℕ) (s : Text) (i : ℕ) → index_of c s ≡ some i → Cut c s i
index_of-Cut c [] i h = absurd (nothing h)
  where
    nothing : index_of c [] ≡ some i → ⊥
    nothing h = unfold index_of in cc h
index_of-Cut c (a ∷ s) i h = elim (Bool-cases (a == c)) [
  | inl here ↦ found (same (sym (index_of-here c a s here) ∙ h)) (==→eq a c here)
  | inr later ↦ elim (Option-cases (index_of c s)) [
    | inl missing ↦ cc (index_of-nowhere c a s later missing, h)
    | inr (j, at) ↦
        shift j (same (sym (index_of-later c a s j later at) ∙ h)) later (index_of-Cut c s j at)
  ]
]
  where
    same : {m n : ℕ} → some m ≡ some n → m ≡ n
    same e = cc e

    found : 0 ≡ i → a ≡ c → Cut c (a ∷ s) i
    found z e = rw (← z) (record {
      before = [];
      after = s;
      whole = ap (λ t. t ∷ s) e;
      first = tt;
      taken = refl;
      dropped = refl;
    })

    shift : (j : ℕ) → suc j ≡ i → (a == c) ≡ false → Cut c s j → Cut c (a ∷ s) i
    shift j z later k = rw (← z) (record {
      before = a ∷ k.before;
      after = k.after;
      whole = ap (λ t. a ∷ t) k.whole;
      first = (later, k.first);
      taken = ap (λ t. a ∷ t) k.taken;
      dropped = k.dropped;
    })

pub index_of-append : (c : ℕ) (s t : Text) → Lacks c s → index_of c (s ++ c ∷ t) ≡ some (length s)
index_of-append c [] t h = index_of-here c c t (==-self c)
index_of-append c (a ∷ s) t (h, k) =
    index_of-later c a (s ++ c ∷ t) (length s) h (index_of-append c s t k)

pub index_of-none : (c : ℕ) (s : Text) → Lacks c s → index_of c s ≡ none
index_of-none c [] h = unfold index_of in refl
index_of-none c (a ∷ s) (h, k) = index_of-nowhere c a s h (index_of-none c s k)
