-- ===== src/Http/Ending.antt =====
-- A request that is no GET is not repeated after an error.
use bunny_cli_fork.Common.{
  ℕ, ◌+◌, ◌≤◌, false, Option, none, some, ◌==◌, ◌≡◌, Text, codes, text_eq, subst, Bool-cases, inl,
  inr,
}
use bunny_cli_fork.Common.Exec.{Result, ok, Exec, run_cases}
use bunny_cli_fork.Http.Request.{
  Thrown, Response, Body, Failure, Turn, done, again, follow, turn, back_off, request_loop, request,
  is_timeout, after_error, after_response, after_fetch, begin_turn,
}
use bunny_cli_fork.Http.Replies.{turn-cost}

-- No retry is due.
abbrev Stops : {J : Type 0} → Turn J → Type 0
Stops (done r) = Unit
Stops (again ms reason) = ⊥

follow-Stops :
    {J S : Type 0} (next : ℕ → Text → S → Option (Result (Failure J) (Body J) × S)) (x : Turn J × S)
    (y : Result (Failure J) (Body J) × S)
    → Stops (x.0)
    → follow next x ≡ some y
    → x.1 ≡ y.1
unfolding follow
follow-Stops next (done r, s) y h e = cc e
follow-Stops next (again ms reason, s) y h e = absurd h

module _ {J S : Type 0} (fetch : Exec Thrown S (Response J))
    (cancel : Response J → Exec Thrown S Unit) (caller : S → Option Thrown)
    (unlimited : (s : S) (r : Response J) (s' : S)
      → fetch s ≡ (ok r, s')
      → (r.status == 429) ≡ false) where
  after_error-Stops :
      (a : ℕ) (c : Option Thrown) (e : Thrown) → Stops {J = J} (after_error false a c e)
  unfolding after_error
  after_error-Stops a (some reason) e = tt
  after_error-Stops a none e = elim (Bool-cases (is_timeout e)) [
    | inl t ↦ rw t tt
    | inr t ↦ rw t tt
  ]

  after_response-Stops :
      (a : ℕ) (r : Response J) (s : S)
      → (r.status == 429) ≡ false
      → Stops ((after_response fetch cancel caller false a r s).0)
  unfolding after_response
  after_response-Stops a r s h = rw h tt

  begin_turn-Stops :
      (a : ℕ) (s : S) (c : Option Thrown) → Stops ((begin_turn fetch cancel caller false a s c).0)
  unfolding begin_turn after_fetch
  begin_turn-Stops a s (some reason) = tt
  begin_turn-Stops a s none = elim (run_cases (fetch s)) [
    | inl (r, t, e) ↦ rw e (after_response-Stops a r t (unlimited s r t e))
    | inr (x, t, e) ↦ rw e (after_error-Stops a (caller t) x)
  ]

  turn-Stops : (a : ℕ) (s : S) → Stops ((turn fetch cancel caller false a s).0)
  unfolding turn
  turn-Stops a s = begin_turn-Stops a s (caller s)

module _ {J S : Type 0} (fetch : Exec Thrown S (Response J))
    (cancel : Response J → Exec Thrown S Unit) (caller : S → Option Thrown) (wait : ℕ → S → S)
    (on_retry : Text → S → S) (label : Text) where
  -- A request that is no GET is sent once at most, errors of the server and of the network included,
  -- if no answer is a 429, only `fetch` sends, and cancelling a body sends nothing.
  pub request_once :
      (sent : S → ℕ)
      → ((s : S) → sent ((fetch s).1) ≤ sent s + 1)
      → ((r : Response J) (s : S) → sent ((cancel r s).1) ≤ sent s)
      → ((s : S) (r : Response J) (s' : S) → fetch s ≡ (ok r, s') → (r.status == 429) ≡ false)
      → (method : Text) → text_eq method (codes "GET") ≡ false
      → (s : S) (y : Result (Failure J) (Body J) × S)
      → request fetch cancel caller wait on_retry label method s ≡ some y
      → sent (y.1) ≤ sent s + 1
  unfolding request request_loop
  request_once sent f c unlimited method post s y e =
      subst (λ t. sent t ≤ sent s + 1)
        (follow-Stops
          (λ ms reason t.
            request_loop fetch cancel caller wait on_retry label 5 false (0 + 1)
              (back_off wait on_retry label ms reason 0 t))
          (turn fetch cancel caller false 0 s) y (turn-Stops fetch cancel caller unlimited 0 s)
          (rw post at e))
        (turn-cost fetch cancel caller sent 1 f c false 0 s)
