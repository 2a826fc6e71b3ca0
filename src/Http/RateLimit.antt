-- ===== src/Http/RateLimit.antt =====
-- packages/stream-import/src/rate-limit.ts: the middleware that repeats rate-limited requests to the
-- Stream API. `fetch`, the copy of a request, its deadline and its signal, the wait and the logger are
-- parameters.
use bunny_cli_fork.Common.{
  ℕ, zero, suc, ◌+◌, ◌*◌, ◌^◌, Bool, ◌&&◌, ◌||◌, Option, none, some, List, ◌++◌, ◌==◌, leb,
  if◌then◌else◌, Text, codes, text_eq,
}
use bunny_cli_fork.Common.Exec.{Result, ok, thrown, Exec, continue}
use bunny_cli_fork.Common.Decimal.{print}
use bunny_cli_fork.Common.Dict.{get, set, remove}
use bunny_cli_fork.Http.Request.{Thrown, Response, capped_seconds}

pub data Problem : Type 0 where
  raised : Thrown → Problem
  rate_limited : Problem

-- The requests kept for a replay, by their ids, beside the state of the host. During the waits of one
-- response no other request is taken to be added.
pub record State (S R : Type 0) : Type 0 where
  pub host : S
  pub replayable : List (Text × R)

unfoldable pub is_retryable : {J : Type 0} → Text → Response J → Bool
is_retryable method r = r.status == 429 || (text_eq method (codes "GET") && leb 500 r.status)

-- The seconds before the next attempt, which is the one after `attempt`.
unfoldable pub delay : {J : Type 0} → ℕ → Response J → ℕ
unfolding capped_seconds
delay attempt r = if r.status == 429 then capped_seconds r.retry_after else 1 * 2 ^ attempt

unfoldable pub warning : {J : Type 0} → ℕ → ℕ → Response J → Text
unfolding delay
warning max attempt r =
    let budget =
      codes "s (attempt " ++ print (attempt + 1) ++ codes "/" ++ print max ++ codes ")..." in
    let seconds = print (delay attempt r) ++ budget in
    if r.status == 429
    then codes "Bunny rate limit hit. Waiting " ++ seconds
    else codes "Bunny returned " ++ print r.status ++ codes ". Retrying in " ++ seconds

-- What is left once the loop ended and the `finally` dropped the request.
unfoldable pub finish :
    {J S R : Type 0}
    → List (Text × R)
    → Result Thrown (Response J) × S
    → Result Problem (Option (Response J)) × State S R
finish kept (thrown e, s) = (thrown (raised e), record { host = s; replayable = kept })
finish kept (ok r, s) = (
  if r.status == 429 then thrown rate_limited else ok (some r),
  record { host = s; replayable = kept },
)

unfoldable pub template_for : {R : Type 0} → Text → R → List (Text × R) → R
template_for id request kept = elim (get id kept) [ none ↦ request | some r ↦ r ]

module _ {J S R : Type 0} (fetch : R → Exec Thrown S (Response J)) (deadline : R → R)
    (clone : R → R) (aborted : R → S → Option Thrown) (wait : R → ℕ → S → S) (warn : Text → S → S)
    (method_of : R → Text) (max : ℕ) where
  -- `template.signal.throwIfAborted()`, given the signal's reason, then the next fetch.
  unfoldable pub resend : R → Option Thrown → S → Result Thrown (Response J) × S
  resend template (some reason) s = (thrown reason, s)
  resend template none s = fetch (deadline (clone template)) s

  unfoldable pub attempt_again : R → ℕ → Response J → S → Result Thrown (Response J) × S
  unfolding resend
  attempt_again template attempt current s =
      let s' =
        wait template (delay attempt current * 1000) (warn (warning max attempt current) s) in
      resend template (aborted template s') s'

  -- The loop, by the retries that are left.
  unfoldable pub replay : Text → R → ℕ → ℕ → Response J → S → Result Thrown (Response J) × S
  replay method template zero attempt current s = (ok current, s)
  replay method template (suc left) attempt current s =
      let (r, s') = attempt_again template attempt current s in
      if is_retryable method current
      then continue r (λ next. replay method template left (attempt + 1) next) s'
      else (ok current, s)

  unfoldable pub on_request : Text → R → State S R → R × State S R
  on_request id request st = (
    deadline request,
    record { host = st.host; replayable = set id (clone request) st.replayable },
  )

  -- `none` leaves the response as it is.
  unfoldable pub on_response :
      Text → R → Response J → State S R → Result Problem (Option (Response J)) × State S R
  unfolding finish
  on_response id request response st =
      let kept = remove id st.replayable in
      let run = finish kept (
        replay (method_of request) (template_for id request st.replayable) max 0 response
          st.host) in
      if is_retryable (method_of request) response
      then run
      else (ok none, record { host = st.host; replayable = kept })

  unfoldable pub on_error : Text → State S R → State S R
  on_error id st = record { host = st.host; replayable = remove id st.replayable }
