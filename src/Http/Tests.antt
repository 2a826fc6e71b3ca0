-- ===== src/Http/Tests.antt =====
-- Runs of the retries at a scripted network.
use bunny_cli_fork.Common.{
  ℕ, ◌+◌, ◌≤◌, Bool, true, false, Option, none, some, List, [], ◌∷◌, ◌==◌, ◌≡◌, refl, ap, Text,
  codes, text_eq, arith, strip_end, starts_with, to_lower, lower,
}
use bunny_cli_fork.Common.Exec.{Result, ok, thrown}
use bunny_cli_fork.Common.Dict.{get}
use bunny_cli_fork.Common.ParseInt.{parse_int, leading_digits, magnitude, signed}
use bunny_cli_fork.Common.Decimal.{parse, parse_from}
use bunny_cli_fork.Http.Urls.{trim_trailing_slashes}
use bunny_cli_fork.Http.Slashes.{is_slash, trim_trailing_slashes-strip}
use bunny_cli_fork.Http.Request.{
  Thrown, Response, Body, Failure, json_body, http_error, request, smaller, larger, at_least_one,
  capped_seconds, retry_after_seconds, backoff_ms, is_retryable_status, is_ok, mentions_json,
  parse_body, after_cancel, conclude, after_response, after_fetch, begin_turn, turn, back_off,
  follow, request_loop,
}
use bunny_cli_fork.Http.Budget.{request-ends, request-bounds}
use bunny_cli_fork.Http.Ending.{request_once}
use bunny_cli_fork.Http.Outcome.{Tells, request-outcome}
use bunny_cli_fork.Http.RateLimit
use bunny_cli_fork.Http.RateLimit.{
  State, is_retryable, delay, warning, replay, attempt_again, resend, finish, template_for,
  on_response,
}
use bunny_cli_fork.Http.Replays.{on_response-forgets, Accounts, on_response-Accounts}

-- The answers to come, the fetches made and the milliseconds waited.
record Network : Type 0 where
  answers : List (Response ℕ)
  fetches : ℕ
  waited : ℕ

abbrev reset : Thrown
reset = record { is_type_error = true; name = none; code = none }

abbrev answer : ℕ → Option Text → Response ℕ
answer n h = record {
  status = n;
  retry_after = h;
  content_type = some (codes "application/json");
  json = ok 7;
  text = ok [];
}

-- The next answer; a network that has none left resets the connection.
abbrev next_answer : List (Response ℕ) → ℕ → ℕ → Result Thrown (Response ℕ) × Network
next_answer [] f w = (thrown reset, record { answers = []; fetches = f + 1; waited = w })
next_answer (r ∷ rs) f w = (ok r, record { answers = rs; fetches = f + 1; waited = w })

abbrev fetch : Network → Result Thrown (Response ℕ) × Network
fetch n = next_answer n.answers n.fetches n.waited

abbrev cancel : Response ℕ → Network → Result Thrown Unit × Network
cancel r n = (ok tt, n)

abbrev caller : Network → Option Thrown
caller n = none

abbrev wait : ℕ → Network → Network
wait ms n = record { answers = n.answers; fetches = n.fetches; waited = n.waited + ms }

abbrev told : Text → Network → Network
told t n = n

abbrev busy : Network
busy = record {
  answers = answer 429 (some (codes " 2")) ∷ answer 503 none ∷ answer 200 none ∷ [];
  fetches = 0;
  waited = 0;
}

abbrev calm : Network
calm = record { answers = []; fetches = 3; waited = 4000 }

busy_run :
    request fetch cancel caller wait told (codes "Vimeo") (codes "GET") busy
    ≡ some (ok (json_body 7), calm)
unfolding request request_loop turn begin_turn after_fetch after_response after_cancel follow
    back_off conclude is_ok is_retryable_status backoff_ms smaller retry_after_seconds
    capped_seconds at_least_one larger parse_int parse_body mentions_json starts_with text_eq
    leading_digits magnitude signed parse parse_from to_lower lower
busy_run = refl

request-ends_example :
    (y : Result (Failure ℕ) (Body ℕ) × Network) × (request fetch cancel caller wait told
        (codes "Vimeo")
        (codes "GET")
        busy
      ≡ some y)
request-ends_example = request-ends fetch cancel caller wait told (codes "Vimeo") (codes "GET") busy

fetch_counts :
    (n : Network) → ((fetch n).1.fetches ≤ n.fetches + 1) × ((fetch n).1.waited ≤ n.waited)
fetch_counts n = of_answers n.answers
  where
    of_answers :
        (rs : List (Response ℕ))
        → let m = (next_answer rs n.fetches n.waited).1 in
          (m.fetches ≤ n.fetches + 1) × (m.waited ≤ n.waited)
    of_answers [] = (omega arith, omega arith)
    of_answers (r ∷ rs) = (omega arith, omega arith)

request-bounds_example : (calm.fetches ≤ busy.fetches + 6) × (calm.waited ≤ busy.waited + 1500000)
request-bounds_example =
    request-bounds fetch cancel caller wait told (codes "Vimeo") (λ n. n.fetches) (λ n. n.waited)
      fetch_counts (λ r n. (omega arith, omega arith)) (λ ms n. (omega arith, omega arith))
      (λ t n. (omega arith, omega arith)) (codes "GET") busy (ok (json_body 7), calm) busy_run

request-outcome_example : Tells fetch cancel caller (ok (json_body 7)) calm
request-outcome_example =
    request-outcome fetch cancel caller wait told (codes "Vimeo") (codes "GET") busy
      (ok (json_body 7), calm) busy_run

-- A server that always answers 503.
abbrev failing : Network → Result Thrown (Response ℕ) × Network
failing n =
    (ok (answer 503 none), record { answers = []; fetches = n.fetches + 1; waited = n.waited })

abbrev failed : Network
failed = record { answers = []; fetches = 4; waited = 4000 }

failed_run :
    request failing cancel caller wait told (codes "Vimeo") (codes "POST") calm
    ≡ some (thrown (http_error 503 (json_body 7)), failed)
unfolding request request_loop turn begin_turn after_fetch after_response follow conclude is_ok
    is_retryable_status parse_body mentions_json starts_with text_eq to_lower lower
failed_run = refl

not_429 :
    (n : Network) (r : Response ℕ) (m : Network) → failing n ≡ (ok r, m) → (r.status == 429) ≡ false
not_429 n r m e = ap status_test (same e)
  where
    status_test : Response ℕ → Bool
    status_test r = r.status == 429

    same : failing n ≡ (ok r, m) → r ≡ answer 503 none
    same e = cc e

request_once_example : failed.fetches ≤ calm.fetches + 1
unfolding text_eq
request_once_example =
    request_once failing cancel caller wait told (codes "Vimeo") (λ n. n.fetches) (λ n. omega arith)
      (λ r n. omega arith) not_429 (codes "POST") refl calm
      (thrown (http_error 503 (json_body 7)), failed) failed_run

-- The middleware at the same network, with requests that are only a method.
abbrev send : Text → Network → Result Thrown (Response ℕ) × Network
send r n = fetch n

abbrev told_of : Text → Network → Option Thrown
told_of r n = none

abbrev wait_for : Text → ℕ → Network → Network
wait_for r ms n = wait ms n

abbrev kept : State Network Text
kept = record {
  host = busy;
  replayable = (codes "r1", codes "GET") ∷ (codes "r2", codes "POST") ∷ [];
}

abbrev self : Text → Text
self r = r

abbrev handled : Result RateLimit.Problem (Option (Response ℕ)) × State Network Text
unfolding on_response
handled =
    on_response send self self told_of wait_for told self 2 (codes "r1") (codes "GET")
      (answer 503 none) kept

on_response-forgets_example :
    (get (codes "r1") handled.1.replayable ≡ none)
    × (get (codes "r2") handled.1.replayable ≡ get (codes "r2") kept.replayable)
unfolding on_response text_eq
on_response-forgets_example =
    on_response-forgets send self self told_of wait_for told self 2 (codes "r1") (codes "r2")
      (codes "GET") (answer 503 none) kept refl

send_counts : (r : Text) (n : Network) → (send r n).1.fetches ≡ n.fetches + 1
send_counts r n = of_answers n.answers
  where
    of_answers :
        (rs : List (Response ℕ)) → (next_answer rs n.fetches n.waited).1.fetches ≡ n.fetches + 1
    of_answers [] = refl
    of_answers (r ∷ rs) = refl

on_response-Accounts_example :
    Accounts (λ (n : Network). n.fetches) 2 (codes "GET") (answer 503 none) 0 handled
unfolding on_response
on_response-Accounts_example =
    on_response-Accounts send self self told_of wait_for told self 2 (λ n. n.fetches) send_counts
      (λ r ms n. refl) (λ t n. refl) (codes "r1") (codes "GET") (answer 503 none) kept

trim_trailing_slashes-strip_example :
    trim_trailing_slashes (codes "a//") ≡ strip_end is_slash (codes "a//")
trim_trailing_slashes-strip_example = trim_trailing_slashes-strip (codes "a//")
