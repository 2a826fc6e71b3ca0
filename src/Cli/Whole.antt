-- ===== src/Cli/Whole.antt =====
-- What a pool has when its lanes have ended.
use bunny_cli_fork.Common.{
  ℕ, suc, zero, ◌≤◌, none, some, List, [], ◌∷◌, ◌≡◌, refl, ap, ◌∙◌, subst, inl, inr, arith, length,
  and_then-some,
}
use bunny_cli_fork.Common.Exec.{Result, ok}
use bunny_cli_fork.Common.Slots.{at, at-bound, at-inside}
use bunny_cli_fork.Cli.Pool.{
  Lane, ready, returned, calling, rejected, Pool, Event, copies, lane_count, start, step, run,
}
use bunny_cli_fork.Cli.Order.{Served, Sound}
use bunny_cli_fork.Cli.Steps.{step-Sound}

pub length-copies : {A : Type 0} (n : ℕ) (x : A) → length (copies n x) ≡ n
unfolding copies
length-copies zero x = refl
length-copies (suc n) x = ap suc (length-copies n x)

at-copies : {A : Type 0} (k n : ℕ) (x y : A) → at k (copies n x) ≡ some y → x ≡ y
unfolding copies at
at-copies k zero x y e = absurd (clash e)
  where
    clash : none ≡ some y → ⊥
    clash e = cc e
at-copies zero (suc n) x y e = cc e
at-copies (suc k) (suc n) x y e = at-copies k n x y e

lane_count-pos : (c n : ℕ) → 1 ≤ lane_count c n
unfolding lane_count
lane_count-pos c n = ground arith

module _ {E T R : Type 0} (items : List T) (fn : T → ℕ → Result E R) where
  start-Sound : (c : ℕ) → Sound items fn (start items fn c)
  unfolding start
  start-Sound c = record {
    crewed = omega (
      arith,
      length-copies {A = Lane E T} (lane_count c (length items)) ready,
      lane_count-pos c (length items),
    );
    sized = length-copies (length items) none;
    holds = λ k i x a.
        absurd (not_calling i x (at-copies k (lane_count c (length items)) ready (calling i x) a));
    spent =
        λ k a. absurd (not_returned (at-copies k (lane_count c (length items)) ready returned a));
    filled = λ i x a l. absurd (omega arith);
  }
    where
      not_calling : (i : ℕ) (x : T) → ◌≡◌ {A = Lane E T} ready (calling i x) → ⊥
      not_calling i x e = cc e

      not_returned : ◌≡◌ {A = Lane E T} ready returned → ⊥
      not_returned e = cc e

  run-Sound :
      (es : List Event) (p q : Pool E T R)
      → run items fn es p ≡ some q
      → Sound items fn p
      → Sound items fn q
  unfolding run
  run-Sound [] p q h s = subst (Sound items fn) (same h) s
    where
      same : {a b : Pool E T R} → some a ≡ some b → a ≡ b
      same e = cc e
  run-Sound (e ∷ es) p q h s =
      let (t, f, g) = and_then-some (step items fn e p) (run items fn es) q h in
      run-Sound es t q g (step-Sound items fn e p t f s)

  -- Whatever the order in which calls settle and lanes are run, once every lane has returned each
  -- item's call was fulfilled, and its value stands at the item's place.
  pub run-ordered :
      (concurrency : ℕ) (es : List Event) (p : Pool E T R)
      → run items fn es (start items fn concurrency) ≡ some p
      → ((k : ℕ) (l : Lane E T) → at k p.lanes ≡ some l → l ≡ returned)
      → (i : ℕ) (x : T) → at i items ≡ some x
      → (r : R) × (fn x i ≡ ok r) × (at i p.results ≡ some (some r))
  run-ordered concurrency es p h ended i x a =
      let s = run-Sound es (start items fn concurrency) p h (start-Sound concurrency) in
      let (l, b) = at-inside 0 p.lanes s.crewed in
      finish (
        s.filled i x a (omega (arith, s.spent 0 (b ∙ ap some (ended 0 l b)), at-bound i x items a)))
    where
      not_calling : ◌≡◌ {A = Lane E T} (calling i x) returned → ⊥
      not_calling e = cc e

      not_rejected : (e : E) → ◌≡◌ {A = Lane E T} (rejected e) returned → ⊥
      not_rejected e h = cc h

      finish :
          Served items fn i x p.results p.lanes
          → (r : R) × (fn x i ≡ ok r) × (at i p.results ≡ some (some r))
      finish (inl v) = v
      finish (inr (inl (k, c))) = absurd (not_calling (ended k (calling i x) c))
      finish (inr (inr (k, e, c))) = absurd (not_rejected e (ended k (rejected e) c))
