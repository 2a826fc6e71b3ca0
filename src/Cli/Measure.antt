-- ===== src/Cli/Measure.antt =====
-- A pool's events run out, and it stops only when every lane has ended.
use bunny_cli_fork.Common.{
  ℕ, suc, zero, ◌+◌, ◌-◌, ◌*◌, ◌≤◌, ◌<◌, Option, none, some, List, [], ◌∷◌, ◌≡◌, refl, ap, subst,
  ◌⊎◌, inl, inr, arith, length, and_then-some,
}
use bunny_cli_fork.Common.Exec.{Result, ok, thrown}
use bunny_cli_fork.Common.Slots.{at, put, at-bound}
use bunny_cli_fork.Cli.Pool.{
  Lane, ready, returned, calling, rejected, Pool, Event, wake, settle, copies, lane_count, start,
  take_item, store, wake_lane, settle_lane, step, run,
}

-- How many more events a lane has at least before it ends or takes another item.
abbrev weight : {E T : Type 0} → Lane E T → ℕ
weight ready = 1
weight (calling i x) = 2
weight returned = 0
weight (rejected e) = 0

unfoldable total : {E T : Type 0} → List (Lane E T) → ℕ
total [] = 0
total (l ∷ ls) = weight l + total ls

total-copies : (E T : Type 0) (n : ℕ) → total (copies {A = Lane E T} n ready) ≡ n
unfolding total copies
total-copies E T zero = refl
total-copies E T (suc n) = omega (arith, total-copies E T n)

total-put :
    {E T : Type 0} (k : ℕ) (m l : Lane E T) (ls : List (Lane E T))
    → at k ls ≡ some m
    → total (put k l ls) + weight m ≡ total ls + weight l
unfolding total put at
total-put k m l [] h = absurd (clash h)
  where
    clash : none ≡ some m → ⊥
    clash e = cc e
total-put zero m l (x ∷ ls) h = rw (same h) (omega arith)
  where
    same : some x ≡ some m → x ≡ m
    same e = cc e
total-put (suc k) m l (x ∷ ls) h = omega (arith, total-put k m l ls h)

module _ {E T R : Type 0} (items : List T) (fn : T → ℕ → Result E R) where
  abbrev measure : Pool E T R → ℕ
  measure p = 2 * (length items - p.next) + total p.lanes

  take_item-measure :
      (lane : ℕ) (p : Pool E T R) (o : Option T)
      → at lane p.lanes ≡ some ready
      → at p.next items ≡ o
      → measure (take_item items fn lane p o) < measure p
  unfolding take_item
  take_item-measure lane p none h e = omega (arith, total-put lane ready returned p.lanes h)
  take_item-measure lane p (some x) h e =
      omega (arith, total-put lane ready (calling p.next x) p.lanes h, at-bound p.next x items e)

  store-measure :
      (lane i : ℕ) (x : T) (p : Pool E T R) (r : Result E R)
      → at lane p.lanes ≡ some (calling i x)
      → measure (store items fn lane i p r) < measure p
  unfolding store
  store-measure lane i x p (ok r) h = omega (arith, total-put lane (calling i x) ready p.lanes h)
  store-measure lane i x p (thrown e) h =
      omega (arith, total-put lane (calling i x) (rejected e) p.lanes h)

  wake_lane-measure :
      (lane : ℕ) (p q : Pool E T R) (o : Option (Lane E T))
      → at lane p.lanes ≡ o
      → wake_lane items fn lane p o ≡ some q
      → measure q < measure p
  unfolding wake_lane
  wake_lane-measure lane p q (some ready) h e =
      subst (λ t. measure t < measure p) (same e)
        (take_item-measure lane p (at p.next items) h refl)
    where
      same : {a b : Pool E T R} → some a ≡ some b → a ≡ b
      same e = cc e
  wake_lane-measure lane p q _ h e = absurd (clash e)
    where
      clash : {a : Pool E T R} → none ≡ some a → ⊥
      clash e = cc e

  settle_lane-measure :
      (lane : ℕ) (p q : Pool E T R) (o : Option (Lane E T))
      → at lane p.lanes ≡ o
      → settle_lane items fn lane p o ≡ some q
      → measure q < measure p
  unfolding settle_lane
  settle_lane-measure lane p q (some (calling i x)) h e =
      subst (λ t. measure t < measure p) (same e) (store-measure lane i x p (fn x i) h)
    where
      same : {a b : Pool E T R} → some a ≡ some b → a ≡ b
      same e = cc e
  settle_lane-measure lane p q _ h e = absurd (clash e)
    where
      clash : {a : Pool E T R} → none ≡ some a → ⊥
      clash e = cc e

  step-measure : (e : Event) (p q : Pool E T R) → step items fn e p ≡ some q → measure q < measure p
  unfolding step
  step-measure (wake lane) p q h = wake_lane-measure lane p q (at lane p.lanes) refl h
  step-measure (settle lane) p q h = settle_lane-measure lane p q (at lane p.lanes) refl h

  run-measure :
      (es : List Event) (p q : Pool E T R)
      → run items fn es p ≡ some q
      → length es + measure q ≤ measure p
  unfolding run
  run-measure [] p q h = subst (λ t. 0 + measure t ≤ measure p) (same h) (omega arith)
    where
      same : {a b : Pool E T R} → some a ≡ some b → a ≡ b
      same e = cc e
  run-measure (e ∷ es) p q h =
      let (t, f, g) = and_then-some (step items fn e p) (run items fn es) q h in
      omega (arith, step-measure e p t f, run-measure es t q g)

  -- A lane that has not ended can go on.
  goes_on :
      (p : Pool E T R) (k : ℕ) (o : Option (Lane E T)) (l : Lane E T)
      → o ≡ some l
      → ((q : Pool E T R) × (wake_lane items fn k p o ≡ some q))
        ⊎ (((q : Pool E T R) × (settle_lane items fn k p o ≡ some q))
            ⊎ ((l ≡ returned) ⊎ ((e : E) × (l ≡ rejected e))))
  unfolding wake_lane settle_lane
  goes_on p k o ready h =
      inl (take_item items fn k p (at p.next items), ap (wake_lane items fn k p) h)
  goes_on p k o (calling i x) h =
      inr (inl (store items fn k i p (fn x i), ap (settle_lane items fn k p) h))
  goes_on p k o returned h = inr (inr (inl refl))
  goes_on p k o (rejected e) h = inr (inr (inr (e, refl)))

  -- The work ends: no order of events is longer than twice the items and once the lanes; and any lane
  -- can be run, can settle its call, has returned or was rejected.
  pub run-ends :
      (concurrency : ℕ) (es : List Event) (p : Pool E T R)
      → run items fn es (start items fn concurrency) ≡ some p
      → (k : ℕ) (l : Lane E T) → at k p.lanes ≡ some l
      → (length es ≤ 2 * length items + lane_count concurrency (length items))
        × (((q : Pool E T R) × (step items fn (wake k) p ≡ some q))
            ⊎ (((q : Pool E T R) × (step items fn (settle k) p ≡ some q))
                ⊎ ((l ≡ returned) ⊎ ((e : E) × (l ≡ rejected e)))))
  unfolding start step
  run-ends concurrency es p h k l a = (
    omega (
      arith,
      run-measure es (start items fn concurrency) p h,
      total-copies E T (lane_count concurrency (length items)),
    ),
    goes_on p k (at k p.lanes) l a,
  )
