-- ===== src/Http/Budget.antt =====
-- What a request costs at most: its rounds, its fetches and the time it waits.
use bunny_cli_fork.Common.{
  ℕ, zero, suc, ◌+◌, ◌-◌, ◌*◌, ◌≤◌, ◌<◌, Bool, Option, none, some, ◌≡◌, refl, Text, codes, text_eq,
  arith, subst,
}
use bunny_cli_fork.Common.Exec.{Result, Exec}
use bunny_cli_fork.Http.Request.{
  Thrown, Response, Body, Failure, Turn, done, again, max_retries, follow, turn, retry_message,
  back_off, request_loop, request,
}
use bunny_cli_fork.Http.Replies.{Waits, turn-Waits, turn-cost}

module _ {J S : Type 0} (a : ℕ)
    (next : ℕ → Text → S → Option (Result (Failure J) (Body J) × S)) where
  follow-ends :
      (x : Turn J × S)
      → Waits a (x.0)
      → (a < max_retries
          → (ms : ℕ) (reason : Text) (s : S)
          → (y : Result (Failure J) (Body J) × S) × (next ms reason s ≡ some y))
      → (y : Result (Failure J) (Body J) × S) × (follow next x ≡ some y)
  unfolding follow
  follow-ends (done r, s) w more = ((r, s), refl)
  follow-ends (again ms reason, s) (h, k) more = more h ms reason s

  module _ (cost : S → ℕ) (bound : ℕ) (y : Result (Failure J) (Body J) × S) where
    follow-cost :
        (x : Turn J × S)
        → Waits a (x.0)
        → ((ms : ℕ) (reason : Text) (s : S)
            → a < max_retries
            → ms ≤ 300000
            → next ms reason s ≡ some y
            → cost (y.1) ≤ cost s + bound)
        → follow next x ≡ some y
        → cost (y.1) ≤ cost (x.1) + bound
    unfolding follow
    follow-cost (done r, s) w more e = at_once (same e)
      where
        same : some (r, s) ≡ some y → (r, s) ≡ y
        same e = cc e

        at_once : (r, s) ≡ y → cost (y.1) ≤ cost s + bound
        at_once e = subst (λ z. cost (z.1) ≤ cost s + bound) e (omega arith)
    follow-cost (again ms reason, s) (h, k) more e = more ms reason s h k e

module _ {J S : Type 0} (fetch : Exec Thrown S (Response J))
    (cancel : Response J → Exec Thrown S Unit) (caller : S → Option Thrown) (wait : ℕ → S → S)
    (on_retry : Text → S → S) (label : Text) where
  request_loop-ends :
      (n : ℕ) (i : Bool) (a : ℕ) (s : S)
      → a ≤ max_retries
      → max_retries < a + n
      → (y : Result (Failure J) (Body J) × S) × (request_loop fetch cancel caller wait on_retry
            label n i a s
          ≡ some y)
  unfolding request_loop
  request_loop-ends zero i a s h k = absurd (omega arith)
  request_loop-ends (suc n) i a s h k =
      follow-ends a
        (λ ms reason t.
          request_loop fetch cancel caller wait on_retry label n i (a + 1)
            (back_off wait on_retry label ms reason a t))
        (turn fetch cancel caller i a s) (turn-Waits fetch cancel caller i a s)
        (λ l ms reason t.
          request_loop-ends n i (a + 1) (back_off wait on_retry label ms reason a t) (omega arith)
            (omega arith))

  -- A request always comes to an end within its six rounds, with a body or with an error, whatever
  -- the network answers.
  pub request-ends :
      (method : Text) (s : S)
      → (y : Result (Failure J) (Body J) × S) × (request fetch cancel caller wait on_retry label
            method s
          ≡ some y)
  unfolding request
  request-ends method s =
      request_loop-ends (max_retries + 1) (text_eq method (codes "GET")) 0 s (omega arith)
        (omega arith)

  module _ (cost : S → ℕ) (f w : ℕ) (left : ℕ → ℕ)
      (fetch_cost : (s : S) → cost ((fetch s).1) ≤ cost s + f)
      (cancel_cost : (r : Response J) (s : S) → cost ((cancel r s).1) ≤ cost s)
      (wait_cost : (ms : ℕ) (s : S) → ms ≤ 300000 → cost (wait ms s) ≤ cost s + w)
      (told_cost : (t : Text) (s : S) → cost (on_retry t s) ≤ cost s)
      (enough : (a : ℕ) → a ≤ max_retries → f ≤ left a)
      (spent : (a : ℕ) → a < max_retries → f + w + left (a + 1) ≤ left a) where
    back_off-cost :
        (ms : ℕ) (reason : Text) (a : ℕ) (s : S)
        → ms ≤ 300000
        → cost (back_off wait on_retry label ms reason a s) ≤ cost s + w
    unfolding back_off
    back_off-cost ms reason a s h = omega (
      arith,
      wait_cost ms (on_retry (retry_message label ms reason a) s) h,
      told_cost (retry_message label ms reason a) s,
    )

    request_loop-cost :
        (n : ℕ) (i : Bool) (a : ℕ) (s : S) (y : Result (Failure J) (Body J) × S)
        → a ≤ max_retries
        → request_loop fetch cancel caller wait on_retry label n i a s ≡ some y
        → cost (y.1) ≤ cost s + left a
    unfolding request_loop
    request_loop-cost zero i a s y h e = absurd (clash e)
      where
        clash : none ≡ some y → ⊥
        clash e = cc e
    request_loop-cost (suc n) i a s y h e = omega (
      arith,
      enough a h,
      turn-cost fetch cancel caller cost f fetch_cost cancel_cost i a s,
      follow-cost a
          (λ ms reason t.
            request_loop fetch cancel caller wait on_retry label n i (a + 1)
              (back_off wait on_retry label ms reason a t))
          cost (left a - f) y (turn fetch cancel caller i a s)
          (turn-Waits fetch cancel caller i a s)
          (λ ms reason t l short r. omega (
            arith,
            spent a l,
            back_off-cost ms reason a t short,
            request_loop-cost n i (a + 1) (back_off wait on_retry label ms reason a t) y
                (omega arith) r,
          ))
          e,
    )

module _ {J S : Type 0} (fetch : Exec Thrown S (Response J))
    (cancel : Response J → Exec Thrown S Unit) (caller : S → Option Thrown) (wait : ℕ → S → S)
    (on_retry : Text → S → S) (label : Text) where
  -- Where only `fetch` sends and only `wait` waits, and each wait lasts at most as long as it is asked
  -- to, a request is sent six times at most and waits for 25 minutes at most in all.
  pub request-bounds :
      (sent waited : S → ℕ)
      → ((s : S) → (sent ((fetch s).1) ≤ sent s + 1) × (waited ((fetch s).1) ≤ waited s))
      → ((r : Response J) (s : S)
          → (sent ((cancel r s).1) ≤ sent s) × (waited ((cancel r s).1) ≤ waited s))
      → ((ms : ℕ) (s : S) → (sent (wait ms s) ≤ sent s) × (waited (wait ms s) ≤ waited s + ms))
      → ((t : Text) (s : S) → (sent (on_retry t s) ≤ sent s) × (waited (on_retry t s) ≤ waited s))
      → (method : Text) (s : S) (y : Result (Failure J) (Body J) × S)
      → request fetch cancel caller wait on_retry label method s ≡ some y
      → (sent (y.1) ≤ sent s + 6) × (waited (y.1) ≤ waited s + 1500000)
  unfolding request
  request-bounds sent waited f c w t method s y e = (
    request_loop-cost fetch cancel caller wait on_retry label sent 1 0 (λ a. 6 - a) (λ s. (f s).0)
        (λ r s. (c r s).0) (λ ms s h. omega (arith, (w ms s).0)) (λ x s. (t x s).0)
        (λ a h. omega arith) (λ a h. omega arith) 6 (text_eq method (codes "GET")) 0 s y
        (omega arith) e,
    request_loop-cost fetch cancel caller wait on_retry label waited 0 300000
        (λ a. (5 - a) * 300000) (λ s. omega (arith, (f s).1)) (λ r s. (c r s).1)
        (λ ms s h. omega (arith, (w ms s).1)) (λ x s. (t x s).1) (λ a h. omega arith)
        (λ a h. omega arith) 6 (text_eq method (codes "GET")) 0 s y (omega arith) e,
  )
