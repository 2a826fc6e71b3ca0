-- ===== src/Http/Replies.antt =====
-- What one round of a request leads to: how long it waits, and what it asks of the network.
use bunny_cli_fork.Common.{
  ℕ, ◌+◌, ◌≤◌, ◌<◌, Bool, ◌&&◌, Option, none, some, ltb, ◌==◌, Bool-cases, ◌≡◌, refl, inl, inr,
  arith, Text, [],
}
use bunny_cli_fork.Common.Exec.{Result, ok, thrown, Exec}
use bunny_cli_fork.Common.ParseInt.{Parsed, not_a_number, plus, minus, parse_int}
use bunny_cli_fork.Http.Request.{
  Thrown, Response, Turn, done, again, smaller, larger, at_least_one, capped_seconds,
  retry_after_seconds, backoff_ms, is_timeout, is_network_error, is_retryable_status, max_retries,
  after_error, after_cancel, after_response, after_fetch, begin_turn, turn,
}

pub at_least_one_lem : (p : Parsed) → 1 ≤ at_least_one p
unfolding at_least_one larger
at_least_one_lem not_a_number = ground arith
at_least_one_lem (plus n) = ground arith
at_least_one_lem (minus n) = ground arith

smaller-bounds : (a b : ℕ) → 1 ≤ a → 1 ≤ b → (1 ≤ smaller a b) × (smaller a b ≤ b)
unfolding smaller
smaller-bounds a b h k = (ground arith, ground arith)

-- From one second to five minutes, whatever the header says.
pub capped_seconds-bounds : (h : Option Text) → (1 ≤ capped_seconds h) × (capped_seconds h ≤ 300)
unfolding capped_seconds
capped_seconds-bounds none =
    smaller-bounds (at_least_one (parse_int [])) 300 (at_least_one_lem (parse_int [])) (omega arith)
capped_seconds-bounds (some t) =
    smaller-bounds (at_least_one (parse_int t)) 300 (at_least_one_lem (parse_int t)) (omega arith)

backoff_ms-bound : (a : ℕ) → backoff_ms a ≤ 30000
unfolding backoff_ms smaller
backoff_ms-bound a = ground arith

-- A wait is due only while retries are left, and lasts five minutes at most.
abbrev pub Waits : {J : Type 0} → ℕ → Turn J → Type 0
Waits a (done r) = Unit
Waits a (again ms reason) = (a < max_retries) × (ms ≤ 300000)

module _ (J : Type 0) where
  after_error-Waits :
      (i : Bool) (a : ℕ) (c : Option Thrown) (e : Thrown) → Waits {J = J} a (after_error i a c e)
  unfolding after_error
  after_error-Waits i a (some reason) e = tt
  after_error-Waits i a none e = elim (Bool-cases (is_timeout e)) [
    | inl t ↦ rw t tt
    | inr t ↦ rw t (elim (Bool-cases (i && is_network_error e && ltb a max_retries)) [
      | inl n ↦ rw n (ground arith, ground (arith, backoff_ms-bound a))
      | inr n ↦ rw n tt
    ])
  ]

  after_cancel-Waits :
      {S : Type 0} (a n : ℕ) (x : Result Thrown Unit × S)
      → a < max_retries
      → Waits {J = J} a ((after_cancel a n x).0)
  unfolding after_cancel
  after_cancel-Waits a n (thrown e, s) h = tt
  after_cancel-Waits a n (ok _, s) h = (h, ground (arith, backoff_ms-bound a))

module _ {J S : Type 0} (fetch : Exec Thrown S (Response J))
    (cancel : Response J → Exec Thrown S Unit) (caller : S → Option Thrown) where
  after_response-Waits :
      (i : Bool) (a : ℕ) (r : Response J) (s : S)
      → Waits a ((after_response fetch cancel caller i a r s).0)
  unfolding after_response retry_after_seconds
  after_response-Waits i a r s = elim (Bool-cases (r.status == 429 && ltb a max_retries)) [
    | inl t ↦ rw t (ground arith, ground (arith, capped_seconds-bounds r.retry_after))
    | inr t ↦ rw t (elim (Bool-cases (i && is_retryable_status r.status && ltb a max_retries)) [
      | inl n ↦ rw n (after_cancel-Waits J a r.status (cancel r s) (ground arith))
      | inr n ↦ rw n tt
    ])
  ]

  after_fetch-Waits :
      (i : Bool) (a : ℕ) (x : Result Thrown (Response J) × S)
      → Waits a ((after_fetch fetch cancel caller i a x).0)
  unfolding after_fetch
  after_fetch-Waits i a (thrown e, s) = after_error-Waits J i a (caller s) e
  after_fetch-Waits i a (ok r, s) = after_response-Waits i a r s

  begin_turn-Waits :
      (i : Bool) (a : ℕ) (s : S) (c : Option Thrown)
      → Waits a ((begin_turn fetch cancel caller i a s c).0)
  unfolding begin_turn
  begin_turn-Waits i a s (some reason) = tt
  begin_turn-Waits i a s none = after_fetch-Waits i a (fetch s)

  pub turn-Waits : (i : Bool) (a : ℕ) (s : S) → Waits a ((turn fetch cancel caller i a s).0)
  unfolding turn
  turn-Waits i a s = begin_turn-Waits i a s (caller s)

-- What a round does to a quantity that a fetch raises by no more than `f` and a cancelled body not at all.
module _ {J S : Type 0} (fetch : Exec Thrown S (Response J))
    (cancel : Response J → Exec Thrown S Unit) (caller : S → Option Thrown) (cost : S → ℕ) (f : ℕ)
    (fetch_cost : (s : S) → cost ((fetch s).1) ≤ cost s + f)
    (cancel_cost : (r : Response J) (s : S) → cost ((cancel r s).1) ≤ cost s) where
  after_cancel-cost :
      (a n : ℕ) (x : Result Thrown Unit × S) → ((after_cancel {J = J} a n x).1) ≡ x.1
  unfolding after_cancel
  after_cancel-cost a n (thrown e, s) = refl
  after_cancel-cost a n (ok _, s) = refl

  after_response-cost :
      (i : Bool) (a : ℕ) (r : Response J) (s : S)
      → cost ((after_response fetch cancel caller i a r s).1) ≤ cost s
  unfolding after_response
  after_response-cost i a r s = elim (Bool-cases (r.status == 429 && ltb a max_retries)) [
    | inl t ↦ rw t (omega arith)
    | inr t ↦ rw t (elim (Bool-cases (i && is_retryable_status r.status && ltb a max_retries)) [
      | inl n ↦ rw n (rw (after_cancel-cost a r.status (cancel r s)) (cancel_cost r s))
      | inr n ↦ rw n (omega arith)
    ])
  ]

  after_fetch-cost :
      (i : Bool) (a : ℕ) (x : Result Thrown (Response J) × S)
      → cost ((after_fetch fetch cancel caller i a x).1) ≤ cost (x.1)
  unfolding after_fetch
  after_fetch-cost i a (thrown e, s) = omega arith
  after_fetch-cost i a (ok r, s) = after_response-cost i a r s

  begin_turn-cost :
      (i : Bool) (a : ℕ) (s : S) (c : Option Thrown)
      → cost ((begin_turn fetch cancel caller i a s c).1) ≤ cost s + f
  unfolding begin_turn
  begin_turn-cost i a s (some reason) = omega arith
  begin_turn-cost i a s none = omega (arith, after_fetch-cost i a (fetch s), fetch_cost s)

  pub turn-cost :
      (i : Bool) (a : ℕ) (s : S) → cost ((turn fetch cancel caller i a s).1) ≤ cost s + f
  unfolding turn
  turn-cost i a s = begin_turn-cost i a s (caller s)
