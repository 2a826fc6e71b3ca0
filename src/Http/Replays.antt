-- ===== src/Http/Replays.antt =====
-- What the rate-limit middleware promises: a bounded number of replays, used up before it gives up,
-- and no request kept once its response is dealt with.
use bunny_cli_fork.Common.{
  ℕ, zero, suc, ◌+◌, ◌*◌, ◌≤◌, true, false, Option, none, some, List, ◌==◌, ◌≡◌, refl, ◌⊎◌, subst,
  inl, inr, Text, text_eq, Bool-cases, arith, codes, eq_of_text_eq, text_eq_refl, &&-split, ==→eq,
  ◌≢◌,
}
use bunny_cli_fork.Common.Exec.{Result, ok, thrown, Exec, continue}
use bunny_cli_fork.Common.Dict.{get, remove, get-remove, get-remove_other}
use bunny_cli_fork.Http.Request.{Thrown, Response}
use bunny_cli_fork.Http.RateLimit.{
  Problem, raised, rate_limited, State, is_retryable, delay, warning, resend, attempt_again, replay,
  finish, template_for, on_response,
}

finish-kept :
    {J S R : Type 0} (kept : List (Text × R)) (x : Result Thrown (Response J) × S)
    → ((finish kept x).1).replayable ≡ kept
unfolding finish
finish-kept kept (thrown e, s) = refl
finish-kept kept (ok r, s) = refl

-- A response is due for a retry: rate limited, or a server error at a GET.
abbrev pub IsDue : {J : Type 0} → Text → Response J → Type 0
IsDue method r = (r.status ≡ 429) ⊎ ((method ≡ codes "GET") × 500 ≤ r.status)

is_retryable-IsDue :
    {J : Type 0} (method : Text) (r : Response J) → is_retryable method r ≡ true → IsDue method r
unfolding is_retryable
is_retryable-IsDue method r h = elim (Bool-cases (r.status == 429)) [
  | inl limited ↦ inl (==→eq r.status 429 limited)
  | inr other ↦
      let get_error = &&-split _ _ (rw other at h) in
      inr (eq_of_text_eq method (codes "GET") get_error.0, (ground (arith, get_error.1)))
]

is_retryable_of_due :
    {J : Type 0} (method : Text) (r : Response J) → IsDue method r → is_retryable method r ≡ true
unfolding is_retryable
is_retryable_of_due method r (inl limited) = ground arith
is_retryable_of_due method r (inr (m, error)) =
    ground (arith, text_eq_refl method, text_eq_refl (codes "GET"))

not_due :
    {J : Type 0} (method : Text) (r : Response J)
    → is_retryable method r ≡ false
    → IsDue method r
    → ⊥
not_due method r h due = cc (h, is_retryable_of_due method r due)

module _ {J S R : Type 0} (sent : S → ℕ) (max : ℕ) where
  -- What an outcome of `onResponse` for a response says of the number of fetches made.
  abbrev pub Accounts :
      Text → Response J → ℕ → Result Problem (Option (Response J)) × State S R → Type 0
  Accounts method response n (ok none, st) = (IsDue method response → ⊥) × (n ≡ sent st.host)
  Accounts method response n (ok (some r), st) =
      IsDue method response
      × (sent st.host ≤ n + max)
      × (r.status ≢ 429)
      × ((IsDue method r → ⊥) ⊎ (sent st.host ≡ n + max))
  Accounts method response n (thrown rate_limited, st) =
      IsDue method response × (sent st.host ≡ n + max)
  Accounts method response n (thrown (raised e), st) =
      IsDue method response × (sent st.host ≤ n + max)

module _ {J S R : Type 0} (fetch : R → Exec Thrown S (Response J)) (deadline : R → R)
    (clone : R → R) (aborted : R → S → Option Thrown) (wait : R → ℕ → S → S) (warn : Text → S → S)
    (method_of : R → Text) (max : ℕ) where
  -- However it ends, `onResponse` drops the request that was kept under the response's id, and keeps
  -- what was kept under another id.
  pub on_response-forgets :
      (id other : Text) (request : R) (response : Response J) (st : State S R)
      → text_eq id other ≡ false
      → let kept =
          ((on_response fetch deadline clone aborted wait warn method_of max id request response
            st).1
          ).replayable in
        (get id kept ≡ none) × (get other kept ≡ get other st.replayable)
  unfolding on_response
  on_response-forgets id other request response st k =
      elim (Bool-cases (is_retryable (method_of request) response)) [
        | inl h ↦ rw h (
            rw
              (finish-kept (remove id st.replayable) (
                replay fetch deadline clone aborted wait warn method_of max (method_of request)
                  (template_for id request st.replayable) max 0 response st.host))
              (get-remove id st.replayable, get-remove_other id other st.replayable k))
        | inr h ↦ rw h (get-remove id st.replayable, get-remove_other id other st.replayable k)
      ]

  module _ (sent : S → ℕ) (fetch_sent : (r : R) (s : S) → sent ((fetch r s).1) ≡ sent s + 1)
      (wait_sent : (r : R) (ms : ℕ) (s : S) → sent (wait r ms s) ≡ sent s)
      (warn_sent : (t : Text) (s : S) → sent (warn t s) ≡ sent s) where
    -- A fetch was made if a response came, and one at most was.
    abbrev SentOne : ℕ → Result Thrown (Response J) × S → Type 0
    SentOne n (ok r, s) = sent s ≡ n + 1
    SentOne n (thrown e, s) = sent s ≤ n + 1

    SentOne-of_eq : (n : ℕ) (x : Result Thrown (Response J) × S) → sent (x.1) ≡ n + 1 → SentOne n x
    SentOne-of_eq n (ok r, s) h = h
    SentOne-of_eq n (thrown e, s) h = omega arith

    resend-SentOne :
        (template : R) (c : Option Thrown) (s : S)
        → SentOne
            (sent s)
            (resend fetch deadline clone aborted wait warn method_of max template c s)
    unfolding resend
    resend-SentOne template (some e) s = omega arith
    resend-SentOne template none s =
        SentOne-of_eq (sent s) (fetch (deadline (clone template)) s)
          (fetch_sent (deadline (clone template)) s)

    attempt_again-SentOne :
        (template : R) (a : ℕ) (current : Response J) (s : S)
        → SentOne (sent s) (
            attempt_again fetch deadline clone aborted wait warn method_of max template a current s)
    unfolding attempt_again
    attempt_again-SentOne template a current s =
        let s1 = warn (warning max a current) s in
        let s2 = wait template (delay a current * 1000) s1 in
        subst
          (λ n. SentOne n (
            resend fetch deadline clone aborted wait warn method_of max template
              (aborted template s2) s2))
          (omega (
            arith,
            warn_sent (warning max a current) s,
            wait_sent template (delay a current * 1000) s1,
          ))
          (resend-SentOne template (aborted template s2) s2)

    -- So many fetches at most, and all of them where a retry is still due.
    abbrev Spent : Text → ℕ → Result Thrown (Response J) × S → Type 0
    Spent method n (ok r, s) = (sent s ≤ n) × (is_retryable method r ≡ true → sent s ≡ n)
    Spent method n (thrown e, s) = sent s ≤ n

    continue-Spent :
        (method : Text) (n m : ℕ) (next : Response J → S → Result Thrown (Response J) × S)
        (x : Result Thrown (Response J) × S)
        → n + 1 ≤ m
        → SentOne n x
        → ((r : Response J) (t : S) → sent t ≡ n + 1 → Spent method m (next r t))
        → Spent method m (continue (x.0) next (x.1))
    continue-Spent method n m next (thrown e, t) l h k = omega arith
    continue-Spent method n m next (ok r, t) l h k = k r t h

    replay-Spent :
        (method : Text) (template : R) (left a : ℕ) (current : Response J) (s : S)
        → Spent method (sent s + left) (
            replay fetch deadline clone aborted wait warn method_of max method template left a
              current s)
    unfolding replay
    replay-Spent method template zero a current s = (omega arith, λ h. omega arith)
    replay-Spent method template (suc left) a current s =
        elim (Bool-cases (is_retryable method current)) [
          | inl h ↦ rw h (
              continue-Spent method (sent s) (sent s + suc left)
                (λ next t.
                  replay fetch deadline clone aborted wait warn method_of max method template left
                    (a + 1) next t)
                (attempt_again fetch deadline clone aborted wait warn method_of max template a
                  current s)
                (omega arith) (attempt_again-SentOne template a current s)
                (λ r t e.
                  subst
                    (λ n. Spent method n (
                      replay fetch deadline clone aborted wait warn method_of max method template
                        left (a + 1) r t))
                    (omega (arith, e)) (replay-Spent method template left (a + 1) r t)))
          | inr h ↦ rw h (omega arith, λ k. absurd (clash k h))
        ]
      where
        clash : is_retryable method current ≡ true → is_retryable method current ≡ false → ⊥
        clash h k = cc (h, k)

    finish-Accounts :
        (method : Text) (response : Response J) (n : ℕ) (kept : List (Text × R))
        (x : Result Thrown (Response J) × S)
        → IsDue method response
        → Spent method (n + max) x
        → Accounts sent max method response n (finish kept x)
    unfolding finish
    finish-Accounts method response n kept (thrown e, s) due h = (due, h)
    finish-Accounts method response n kept (ok r, s) due (h, k) =
        elim (Bool-cases (r.status == 429)) [
          | inl l ↦ rw l (due, k (unfold is_retryable in rw l refl))
          | inr l ↦ rw l (
            due,
            h,
            λ e. cc (rw e at l),
            elim (Bool-cases (is_retryable method r)) [
              | inl m ↦ inr (k m)
              | inr m ↦ inl (not_due method r m)
            ],
          )
        ]

    -- Where only `fetch` sends: a response is left as it is, with nothing sent, only where it is due
    -- for no retry (it is neither rate limited, nor a server error at a GET); of one that is due,
    -- the response that comes back is not rate limited, and is due for no retry unless all the
    -- retries were used; the rate limit is blamed only after all the retries; and the retries made
    -- never exceed the maximum.
    pub on_response-Accounts :
        (id : Text) (request : R) (response : Response J) (st : State S R)
        → Accounts sent max (method_of request) response (sent st.host) (
            on_response fetch deadline clone aborted wait warn method_of max id request response st)
    unfolding on_response
    on_response-Accounts id request response st =
        elim (Bool-cases (is_retryable (method_of request) response)) [
          | inl h ↦ rw h (
              finish-Accounts (method_of request) response (sent st.host) (remove id st.replayable)
                (replay fetch deadline clone aborted wait warn method_of max (method_of request)
                  (template_for id request st.replayable) max 0 response st.host)
                (is_retryable-IsDue (method_of request) response h)
                (replay-Spent (method_of request) (template_for id request st.replayable) max 0
                  response st.host))
          | inr h ↦ rw h (not_due (method_of request) response h, refl)
        ]
