-- ===== src/Cli/Steps.antt =====
-- Every step of a pool keeps its invariant.
use bunny_cli_fork.Common.{
  ℕ, ◌≤◌, ◌<◌, Option, none, some, List, ◌≡◌, refl, sym, ap, ◌∙◌, subst, inl, inr, length,
}
use bunny_cli_fork.Common.Exec.{Result, ok, thrown}
use bunny_cli_fork.Common.Slots.{
  at, put, length-put, at-put, at-put_other, at-bound, at-of_put, same_index,
}
use bunny_cli_fork.Cli.Pool.{
  Lane, ready, returned, calling, rejected, Pool, Event, wake, settle, store, wake_lane,
  settle_lane, step,
}
use bunny_cli_fork.Cli.Order.{Served, Sound, Served-put, ready_not_calling, take_item-Sound}

module _ {E T R : Type 0} (items : List T) (fn : T → ℕ → Result E R) where
  store-Sound :
      (lane j : ℕ) (y : T) (p : Pool E T R) (r : Result E R)
      → at lane p.lanes ≡ some (calling j y)
      → fn y j ≡ r
      → Sound items fn p
      → Sound items fn (store items fn lane j p r)
  unfolding store
  store-Sound lane j y p (ok r) h f s = record {
    crewed = subst (λ n. 1 ≤ n) (sym (length-put lane ready p.lanes)) s.crewed;
    sized = length-put j (some r) p.results ∙ s.sized;
    holds = λ k i x a. elim (at-of_put lane k ready (calling i x) p.lanes a) [
      | inl (_, c) ↦ absurd (ready_not_calling items fn i x c)
      | inr (_, c) ↦ s.holds k i x c
    ];
    spent = λ k a. elim (at-of_put lane k ready returned p.lanes a) [
      | inl (_, c) ↦ absurd (ends c)
      | inr (_, c) ↦ s.spent k c
    ];
    filled = λ i x a l. elim (same_index j i) [
      | inl d ↦ inl (
        r,
        ap (λ n. fn x n) (sym d)
            ∙ ap (λ z. fn z j) (same (sym a ∙ ap (λ n. at n items) (sym d) ∙ s.holds lane j y h))
            ∙ f,
        ap (λ n. at n (put j (some r) p.results)) (sym d) ∙ at-put j (some r) p.results inside,
      )
      | inr d ↦ other_results i x d (
          Served-put items fn i x p.results p.lanes lane (calling j y) ready h
            (λ c. d (index i x c)) (calling_not_rejected) (s.filled i x a l))
    ];
  }
    where
      ends : ◌≡◌ {A = Lane E T} ready returned → ⊥
      ends c = cc c

      same : {a b : T} → some a ≡ some b → a ≡ b
      same e = cc e

      inside : j < length p.results
      inside = subst (λ n. j < n) (sym s.sized) (at-bound j y items (s.holds lane j y h))

      index : (i : ℕ) (x : T) → ◌≡◌ {A = Lane E T} (calling j y) (calling i x) → j ≡ i
      index i x c = cc c

      calling_not_rejected : (e : E) → ◌≡◌ {A = Lane E T} (calling j y) (rejected e) → ⊥
      calling_not_rejected e c = cc c

      other_results :
          (i : ℕ) (x : T)
          → (j ≡ i → ⊥)
          → Served items fn i x p.results (put lane ready p.lanes)
          → Served items fn i x (put j (some r) p.results) (put lane ready p.lanes)
      other_results i x d (inl (v, g, a)) = inl (v, g, at-put_other j i (some r) p.results d ∙ a)
      other_results i x d (inr o) = inr o
  store-Sound lane j y p (thrown e) h f s = record {
    crewed = subst (λ n. 1 ≤ n) (sym (length-put lane (rejected e) p.lanes)) s.crewed;
    sized = s.sized;
    holds = λ k i x a. elim (at-of_put lane k (rejected e) (calling i x) p.lanes a) [
      | inl (_, c) ↦ absurd (not_calling i x c)
      | inr (_, c) ↦ s.holds k i x c
    ];
    spent = λ k a. elim (at-of_put lane k (rejected e) returned p.lanes a) [
      | inl (_, c) ↦ absurd (ends c)
      | inr (_, c) ↦ s.spent k c
    ];
    filled = λ i x a l.
        inr
          (inr (lane, e, at-put lane (rejected e) p.lanes (at-bound lane (calling j y) p.lanes h)));
  }
    where
      not_calling : (i : ℕ) (x : T) → ◌≡◌ {A = Lane E T} (rejected e) (calling i x) → ⊥
      not_calling i x c = cc c

      ends : ◌≡◌ {A = Lane E T} (rejected e) returned → ⊥
      ends c = cc c

  wake_lane-Sound :
      (lane : ℕ) (p q : Pool E T R) (o : Option (Lane E T))
      → at lane p.lanes ≡ o
      → wake_lane items fn lane p o ≡ some q
      → Sound items fn p
      → Sound items fn q
  unfolding wake_lane
  wake_lane-Sound lane p q (some ready) h e s =
      subst (Sound items fn) (same e) (take_item-Sound items fn lane p (at p.next items) h refl s)
    where
      same : {a b : Pool E T R} → some a ≡ some b → a ≡ b
      same e = cc e
  wake_lane-Sound lane p q _ h e s = absurd (clash e)
    where
      clash : {a : Pool E T R} → none ≡ some a → ⊥
      clash e = cc e

  settle_lane-Sound :
      (lane : ℕ) (p q : Pool E T R) (o : Option (Lane E T))
      → at lane p.lanes ≡ o
      → settle_lane items fn lane p o ≡ some q
      → Sound items fn p
      → Sound items fn q
  unfolding settle_lane
  settle_lane-Sound lane p q (some (calling i x)) h e s =
      subst (Sound items fn) (same e) (store-Sound lane i x p (fn x i) h refl s)
    where
      same : {a b : Pool E T R} → some a ≡ some b → a ≡ b
      same e = cc e
  settle_lane-Sound lane p q _ h e s = absurd (clash e)
    where
      clash : {a : Pool E T R} → none ≡ some a → ⊥
      clash e = cc e

  pub step-Sound :
      (e : Event) (p q : Pool E T R)
      → step items fn e p ≡ some q
      → Sound items fn p
      → Sound items fn q
  unfolding step
  step-Sound (wake lane) p q h s = wake_lane-Sound lane p q (at lane p.lanes) refl h s
  step-Sound (settle lane) p q h s = settle_lane-Sound lane p q (at lane p.lanes) refl h s
