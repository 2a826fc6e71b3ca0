-- ===== src/Cli/Order.antt =====
-- What holds of a pool at every moment, and that a lane that takes an item keeps it.
use bunny_cli_fork.Common.{
  ℕ, ◌+◌, ◌≤◌, ◌<◌, Option, none, some, List, ◌≡◌, sym, ap, ◌∙◌, subst, ◌⊎◌, inl, inr, arith,
  length,
}
use bunny_cli_fork.Common.Exec.{Result, ok}
use bunny_cli_fork.Common.Slots.{
  at, put, length-put, at-put, at-put_other, at-bound, at-past, at-of_put, same_index,
}
use bunny_cli_fork.Cli.Pool.{Lane, ready, returned, calling, rejected, Pool, take_item}

module _ {E T R : Type 0} (items : List T) (fn : T → ℕ → Result E R) where
  -- The result of an item is stored, its call is pending, or some lane was rejected.
  abbrev pub Served : ℕ → T → List (Option R) → List (Lane E T) → Type 0
  Served i x results lanes =
      ((r : R) × (fn x i ≡ ok r) × (at i results ≡ some (some r)))
      ⊎ (((k : ℕ) × (at k lanes ≡ some (calling i x)))
          ⊎ ((k : ℕ) × (e : E) × (at k lanes ≡ some (rejected e))))

  pub record Sound (p : Pool E T R) : Type 0 where
    pub crewed : 1 ≤ length p.lanes
    pub sized : length p.results ≡ length items
    pub holds : (k i : ℕ) (x : T) → at k p.lanes ≡ some (calling i x) → at i items ≡ some x
    pub spent : (k : ℕ) → at k p.lanes ≡ some returned → length items ≤ p.next
    pub filled : (i : ℕ) (x : T) → at i items ≡ some x → i < p.next → Served i x p.results p.lanes

  pub Served-put :
      (i : ℕ) (x : T) (results : List (Option R)) (lanes : List (Lane E T)) (lane : ℕ)
      (m l : Lane E T)
      → at lane lanes ≡ some m
      → (m ≡ calling i x → ⊥)
      → ((e : E) → m ≡ rejected e → ⊥)
      → Served i x results lanes
      → Served i x results (put lane l lanes)
  Served-put i x results lanes lane m l h c r (inl s) = inl s
  Served-put i x results lanes lane m l h c r (inr (inl (k, a))) = inr (
      inl (k, at-put_other lane k l lanes (λ e. c (same (sym h ∙ ap (λ n. at n lanes) e ∙ a))) ∙ a))
    where
      same : {a b : Lane E T} → some a ≡ some b → a ≡ b
      same e = cc e
  Served-put i x results lanes lane m l h c r (inr (inr (k, e, a))) = inr (
      inr (
        k,
        e,
        at-put_other lane k l lanes (λ d. r e (same (sym h ∙ ap (λ n. at n lanes) d ∙ a))) ∙ a,
      ))
    where
      same : {a b : Lane E T} → some a ≡ some b → a ≡ b
      same e = cc e

  pub ready_not_calling : (i : ℕ) (x : T) → ◌≡◌ {A = Lane E T} ready (calling i x) → ⊥
  ready_not_calling i x e = cc e

  ready_not_rejected : (e : E) → ◌≡◌ {A = Lane E T} ready (rejected e) → ⊥
  ready_not_rejected e h = cc h

  pub take_item-Sound :
      (lane : ℕ) (p : Pool E T R) (o : Option T)
      → at lane p.lanes ≡ some ready
      → at p.next items ≡ o
      → Sound p
      → Sound (take_item items fn lane p o)
  unfolding take_item
  take_item-Sound lane p none h e s = record {
    crewed = subst (λ n. 1 ≤ n) (sym (length-put lane returned p.lanes)) s.crewed;
    sized = s.sized;
    holds = λ k i x a. elim (at-of_put lane k returned (calling i x) p.lanes a) [
      | inl (_, c) ↦ absurd (clash i x c)
      | inr (_, c) ↦ s.holds k i x c
    ];
    spent = λ k a. omega (arith, at-past p.next items e);
    filled = λ i x a l.
        Served-put i x p.results p.lanes lane ready returned h (ready_not_calling i x)
          ready_not_rejected
          (s.filled i x a (omega (arith, at-past p.next items e, at-bound i x items a)));
  }
    where
      clash : (i : ℕ) (x : T) → ◌≡◌ {A = Lane E T} returned (calling i x) → ⊥
      clash i x c = cc c
  take_item-Sound lane p (some y) h e s = record {
    crewed = subst (λ n. 1 ≤ n) (sym (length-put lane (calling p.next y) p.lanes)) s.crewed;
    sized = s.sized;
    holds = λ k i x a. elim (at-of_put lane k (calling p.next y) (calling i x) p.lanes a) [
      | inl (_, c) ↦ ap (λ n. at n items) (sym (index i x c)) ∙ e ∙ ap some (item i x c)
      | inr (_, c) ↦ s.holds k i x c
    ];
    spent = λ k a. elim (at-of_put lane k (calling p.next y) returned p.lanes a) [
      | inl (_, c) ↦ absurd (clash c)
      | inr (_, c) ↦ omega (arith, s.spent k c)
    ];
    filled = λ i x a l. elim (same_index i p.next) [
      | inl d ↦ inr (
          inl (
            lane,
            at-put lane (calling p.next y) p.lanes (at-bound lane ready p.lanes h)
                ∙ ap some (newest i x a d),
          ))
      | inr d ↦
          Served-put i x p.results p.lanes lane ready (calling p.next y) h (ready_not_calling i x)
            ready_not_rejected (s.filled i x a (below i l d))
    ];
  }
    where
      index : (i : ℕ) (x : T) → ◌≡◌ {A = Lane E T} (calling p.next y) (calling i x) → p.next ≡ i
      index i x c = cc c

      item : (i : ℕ) (x : T) → ◌≡◌ {A = Lane E T} (calling p.next y) (calling i x) → y ≡ x
      item i x c = cc c

      clash : ◌≡◌ {A = Lane E T} (calling p.next y) returned → ⊥
      clash c = cc c

      same : {a b : T} → some a ≡ some b → a ≡ b
      same e = cc e

      newest :
          (i : ℕ) (x : T)
          → at i items ≡ some x
          → i ≡ p.next
          → ◌≡◌ {A = Lane E T} (calling p.next y) (calling i x)
      newest i x a d =
          ap (λ n. calling n y) (sym d)
          ∙ ap (λ z. calling i z) (same (sym e ∙ ap (λ n. at n items) (sym d) ∙ a))

      below : (i : ℕ) → i < p.next + 1 → (i ≡ p.next → ⊥) → i < p.next
      below i l d = ground (arith, l, d)
