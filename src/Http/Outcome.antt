-- ===== src/Http/Outcome.antt =====
-- What the outcome of a request says of the last answer.
use bunny_cli_fork.Common.{
  ℕ, zero, suc, ◌+◌, Bool, true, false, ◌&&◌, Option, none, some, ◌==◌, ◌≡◌, refl, Text, codes,
  text_eq, subst, ltb, Bool-cases, Option-cases, inl, inr, if◌then◌else◌, ◌⊎◌, ◌≤◌, ◌≢◌, ◌∙◌, ap,
  arith, eq_of_text_eq, text_eq_refl, ==→eq,
}
use bunny_cli_fork.Common.Exec.{Result, ok, thrown, Exec, run_cases}
use bunny_cli_fork.Http.Request.{
  Thrown, Response, Body, Failure, raised, timed_out, rate_limited, http_error, Turn, done, again,
  max_retries, follow, turn, back_off, request_loop, request, is_timeout, is_network_error,
  is_retryable_status, is_ok, parse_body, after_error, after_cancel, after_response, after_fetch,
  begin_turn, conclude,
}

-- The error of an elapsed or aborted signal, by its name.
abbrev pub IsTimeout : Thrown → Type 0
IsTimeout e = (e.name ≡ some (codes "TimeoutError")) ⊎ (e.name ≡ some (codes "AbortError"))

abbrev pub IsSuccess : ℕ → Type 0
IsSuccess n = (200 ≤ n) × n ≤ 299

is_timeout-IsTimeout : (e : Thrown) → is_timeout e ≡ true → IsTimeout e
unfolding is_timeout
is_timeout-IsTimeout e h = elim (Option-cases e.name) [
  | inl nameless ↦ cc (rw (nameless, is_timeout) at h)
  | inr (n, named) ↦ elim (Bool-cases (text_eq n (codes "TimeoutError"))) [
    | inl first ↦ inl (named ∙ ap some (eq_of_text_eq n (codes "TimeoutError") first))
    | inr other ↦
        let either = rw (named, is_timeout) at h in
        let second = rw other at either in
        inr (named ∙ ap some (eq_of_text_eq n (codes "AbortError") second))
  ]
]

IsTimeout-is_timeout : (e : Thrown) → IsTimeout e → is_timeout e ≡ true
unfolding is_timeout
IsTimeout-is_timeout e (inl named) =
    rw (named, is_timeout) (rw (text_eq_refl (codes "TimeoutError")) refl)
IsTimeout-is_timeout e (inr named) =
    rw (named, is_timeout) (ground (arith, text_eq_refl (codes "AbortError")))

no_timeout : (e : Thrown) → is_timeout e ≡ false → IsTimeout e → ⊥
no_timeout e h t = cc (h, IsTimeout-is_timeout e t)

is_ok-IsSuccess : (n : ℕ) → is_ok n ≡ true → IsSuccess n
unfolding is_ok
is_ok-IsSuccess n h = (ground arith, ground arith)

no_success : (n : ℕ) → is_ok n ≡ false → IsSuccess n → ⊥
unfolding is_ok
no_success n h (low, high) = ground arith

not_429 : (n : ℕ) → (n == 429) ≡ false → n ≢ 429
not_429 n h e = ground arith

module _ {J S : Type 0} (fetch : Exec Thrown S (Response J))
    (cancel : Response J → Exec Thrown S Unit) (caller : S → Option Thrown) where
  -- Where an error that is passed on as it is comes from: the caller's own reason; a fetch that threw
  -- it, neither as a timeout nor after the caller aborted; the cancelling of a body; or the reading
  -- of the last body.
  pub data Origin (e : Thrown) (s : S) : Type 0 where
    by_caller : caller s ≡ some e → Origin e s
    by_fetch : (t : S) → fetch t ≡ (thrown e, s) → caller s ≡ none → (IsTimeout e → ⊥) → Origin e s
    by_cancel :
        (t u : S) (r : Response J) → fetch t ≡ (ok r, u) → cancel r u ≡ (thrown e, s) → Origin e s
    by_body : (t : S) (r : Response J) → fetch t ≡ (ok r, s) → parse_body r ≡ thrown e → Origin e s

  -- What an outcome says of the last answer, and of the state `s` that this answer left.
  abbrev pub Tells : Result (Failure J) (Body J) → S → Type 0
  Tells (ok body) s =
      (t : S) × (r : Response J) × (fetch t ≡ (ok r, s))
      × IsSuccess r.status
      × (parse_body r ≡ ok body)
  Tells (thrown (raised e)) s = Origin e s
  Tells (thrown timed_out) s =
      (t : S) × (e : Thrown) × (fetch t ≡ (thrown e, s)) × IsTimeout e × (caller s ≡ none)
  Tells (thrown rate_limited) s =
      (t : S) × (r : Response J) × (fetch t ≡ (ok r, s)) × (r.status ≡ 429)
  Tells (thrown (http_error n body)) s =
      (t : S) × (r : Response J) × (fetch t ≡ (ok r, s))
      × (r.status ≡ n)
      × (IsSuccess n → ⊥)
      × (n ≢ 429)
      × (parse_body r ≡ ok body)

  abbrev Settles : Turn J → S → Type 0
  Settles (done x) s = Tells x s
  Settles (again ms reason) s = Unit

  conclude-Tells : (t s : S) (r : Response J) → fetch t ≡ (ok r, s) → Tells (conclude r) s
  unfolding conclude
  conclude-Tells t s r e = of_body (parse_body r) refl
    where
      of_body :
          (b : Result Thrown (Body J))
          → parse_body r ≡ b
          → Tells
              (elim b [
                | thrown x ↦ thrown (raised x)
                | ok body ↦
                    if r.status == 429
                    then thrown rate_limited
                    else if is_ok r.status
                    then ok body
                    else thrown (http_error r.status body)
              ])
              s
      of_body (thrown x) h = by_body t r e h
      of_body (ok body) h = elim (Bool-cases (r.status == 429)) [
        | inl l ↦ rw l (t, r, e, ==→eq r.status 429 l)
        | inr l ↦ rw l (elim (Bool-cases (is_ok r.status)) [
          | inl o ↦ rw o (t, r, e, is_ok-IsSuccess r.status o, h)
          | inr o ↦ rw o (t, r, e, refl, no_success r.status o, not_429 r.status l, h)
        ])
      ]

  after_error-Settles :
      (i : Bool) (a : ℕ) (t s : S) (e : Thrown) (c : Option Thrown)
      → fetch t ≡ (thrown e, s)
      → caller s ≡ c
      → Settles (after_error i a c e) s
  unfolding after_error
  after_error-Settles i a t s e (some reason) h k = by_caller k
  after_error-Settles i a t s e none h k = elim (Bool-cases (is_timeout e)) [
    | inl o ↦ rw o (t, e, h, is_timeout-IsTimeout e o, k)
    | inr o ↦ rw o (elim (Bool-cases (i && is_network_error e && ltb a max_retries)) [
      | inl n ↦ rw n tt
      | inr n ↦ rw n (by_fetch t h k (no_timeout e o))
    ])
  ]

  after_cancel-Settles :
      (a n : ℕ) (t u : S) (r : Response J) (x : Result Thrown Unit × S)
      → fetch t ≡ (ok r, u)
      → cancel r u ≡ x
      → Settles ((after_cancel a n x).0) ((after_cancel {J = J} a n x).1)
  unfolding after_cancel
  after_cancel-Settles a n t u r (ok _, s) e k = tt
  after_cancel-Settles a n t u r (thrown x, s) e k = by_cancel t u r e k

  after_response-Settles :
      (i : Bool) (a : ℕ) (t s : S) (r : Response J)
      → fetch t ≡ (ok r, s)
      → let x = after_response fetch cancel caller i a r s in Settles (x.0) (x.1)
  unfolding after_response
  after_response-Settles i a t s r e = elim (Bool-cases (r.status == 429 && ltb a max_retries)) [
    | inl l ↦ rw l tt
    | inr l ↦ rw l (elim (Bool-cases (i && is_retryable_status r.status && ltb a max_retries)) [
      | inl n ↦ rw n (after_cancel-Settles a r.status t s r (cancel r s) e refl)
      | inr n ↦ rw n (conclude-Tells t s r e)
    ])
  ]

  begin_turn-Settles :
      (i : Bool) (a : ℕ) (s : S) (c : Option Thrown)
      → caller s ≡ c
      → let x = begin_turn fetch cancel caller i a s c in Settles (x.0) (x.1)
  unfolding begin_turn after_fetch
  begin_turn-Settles i a s (some reason) k = by_caller k
  begin_turn-Settles i a s none k = elim (run_cases (fetch s)) [
    | inl (r, t, e) ↦ rw e (after_response-Settles i a s t r e)
    | inr (x, t, e) ↦ rw e (after_error-Settles i a s t x (caller t) e refl)
  ]

  turn-Settles :
      (i : Bool) (a : ℕ) (s : S) → let x = turn fetch cancel caller i a s in Settles (x.0) (x.1)
  unfolding turn
  turn-Settles i a s = begin_turn-Settles i a s (caller s) refl

  follow-Tells :
      (next : ℕ → Text → S → Option (Result (Failure J) (Body J) × S))
      (y : Result (Failure J) (Body J) × S)
      → ((ms : ℕ) (reason : Text) (s : S) → next ms reason s ≡ some y → Tells (y.0) (y.1))
      → (x : Turn J × S) → Settles (x.0) (x.1)
      → follow next x ≡ some y
      → Tells (y.0) (y.1)
  unfolding follow
  follow-Tells next y more (done r, s) h e = at_once (same e)
    where
      same : some (r, s) ≡ some y → (r, s) ≡ y
      same e = cc e

      at_once : (r, s) ≡ y → Tells (y.0) (y.1)
      at_once e = subst (λ z. Tells (z.0) (z.1)) e h
  follow-Tells next y more (again ms reason, s) h e = more ms reason s e

  module _ (wait : ℕ → S → S) (on_retry : Text → S → S) (label : Text) where
    request_loop-Tells :
        (n : ℕ) (i : Bool) (a : ℕ) (s : S) (y : Result (Failure J) (Body J) × S)
        → request_loop fetch cancel caller wait on_retry label n i a s ≡ some y
        → Tells (y.0) (y.1)
    unfolding request_loop
    request_loop-Tells zero i a s y e = absurd (clash e)
      where
        clash : none ≡ some y → ⊥
        clash e = cc e
    request_loop-Tells (suc n) i a s y e =
        follow-Tells
          (λ ms reason t.
            request_loop fetch cancel caller wait on_retry label n i (a + 1)
              (back_off wait on_retry label ms reason a t))
          y
          (λ ms reason t r.
            request_loop-Tells n i (a + 1) (back_off wait on_retry label ms reason a t) y r)
          (turn fetch cancel caller i a s) (turn-Settles i a s) e

    -- However a request ends: what it returns is the body of a last answer with a status from 200 to
    -- 299; an HTTP error carries the status and the body of the last answer, which is neither such a
    -- status nor 429; the rate limit is blamed only for a last answer with status 429; a timeout is
    -- reported only where the last fetch was thrown as one and the caller had not aborted; and any
    -- other error is the caller's reason, what the last fetch threw but for a timeout, or what the
    -- cancelling or the reading of the last answer's body threw.
    pub request-outcome :
        (method : Text) (s : S) (y : Result (Failure J) (Body J) × S)
        → request fetch cancel caller wait on_retry label method s ≡ some y
        → Tells (y.0) (y.1)
    unfolding request
    request-outcome method s y e =
        request_loop-Tells (max_retries + 1) (text_eq method (codes "GET")) 0 s y e
