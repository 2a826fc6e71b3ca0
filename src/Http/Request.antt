-- ===== src/Http/Request.antt =====
-- packages/stream-import/src/http.ts: one request with its retries. `fetch`, the caller's signal,
-- the wait and the cancelling of a body are parameters that act on a state.
use bunny_cli_fork.Common.{
  ℕ, zero, suc, ◌+◌, ◌*◌, ◌/◌, ◌^◌, Bool, false, ◌&&◌, ◌||◌, Option, none, some, List, [], ◌∷◌,
  ◌++◌, if◌then◌else◌, ◌==◌, ltb, leb, Text, codes, text_eq, any, starts_with, to_lower,
}
use bunny_cli_fork.Common.Exec.{Result, ok, thrown, Exec}
use bunny_cli_fork.Common.ParseInt.{Parsed, not_a_number, plus, minus, parse_int}
use bunny_cli_fork.Common.Decimal.{print}

-- What `fetch` or the reading of a body throws.
pub record Thrown : Type 0 where
  pub is_type_error : Bool
  pub name : Option Text
  pub code : Option Text

pub record Response (J : Type 0) : Type 0 where
  pub status : ℕ
  pub retry_after : Option Text
  pub content_type : Option Text
  pub json : Result Thrown J
  pub text : Result Thrown Text

pub data Body (J : Type 0) : Type 0 where
  no_body : Body J
  json_body : J → Body J
  text_body : Text → Body J

-- `timed_out` and `rate_limited` are the two that are a TransientHttpError.
pub data Failure (J : Type 0) : Type 0 where
  raised : Thrown → Failure J
  timed_out rate_limited : Failure J
  http_error : ℕ → Body J → Failure J

abbrev pub max_retries : ℕ
max_retries = 5

-- Math.min(a, b) and Math.max(a, b)
unfoldable pub smaller : ℕ → ℕ → ℕ
smaller a b = if leb a b then a else b

unfoldable pub larger : ℕ → ℕ → ℕ
larger a b = if leb a b then b else a

-- `Math.max(Number.isNaN(header) ? 30 : header, 1)`: a negative number is below 1.
unfoldable pub at_least_one : Parsed → ℕ
unfolding larger
at_least_one not_a_number = larger 30 1
at_least_one (plus n) = larger n 1
at_least_one (minus n) = 1

unfoldable pub capped_seconds : Option Text → ℕ
unfolding smaller at_least_one parse_int
capped_seconds none = smaller (at_least_one (parse_int [])) 300
capped_seconds (some header) = smaller (at_least_one (parse_int header)) 300

unfoldable pub retry_after_seconds : {J : Type 0} → Response J → ℕ
unfolding capped_seconds
retry_after_seconds r = capped_seconds r.retry_after

unfoldable pub backoff_ms : ℕ → ℕ
unfolding smaller
backoff_ms attempt = smaller (1000 * 2 ^ attempt) 30000

abbrev pub network_codes : List Text
network_codes =
    codes "ECONNRESET"
    ∷ codes "ECONNREFUSED"
    ∷ codes "ENOTFOUND"
    ∷ codes "EAI_AGAIN"
    ∷ codes "ETIMEDOUT"
    ∷ codes "EPIPE"
    ∷ codes "ConnectionRefused"
    ∷ codes "ConnectionClosed"
    ∷ codes "ConnectionReset"
    ∷ codes "FailedToOpenSocket"
    ∷ []

unfoldable pub is_timeout : Thrown → Bool
is_timeout e = elim e.name [
  | none ↦ false
  | some n ↦ text_eq n (codes "TimeoutError") || text_eq n (codes "AbortError")
]

unfoldable pub is_network_error : Thrown → Bool
is_network_error e =
    e.is_type_error || elim e.code [ none ↦ false | some c ↦ any (text_eq c) network_codes ]

unfoldable pub is_retryable_status : ℕ → Bool
is_retryable_status n = n == 500 || n == 502 || n == 503 || n == 504

-- response.ok
unfoldable pub is_ok : ℕ → Bool
is_ok n = leb 200 n && leb n 299

-- /json/i.test(contentType)
unfoldable pub mentions_json : Text → Bool
mentions_json [] = false
mentions_json (c ∷ s) = starts_with (to_lower (c ∷ s)) (codes "json") || mentions_json s

unfoldable pub text_or_null : {J : Type 0} → Text → Body J
text_or_null [] = no_body
text_or_null (c ∷ s) = text_body (c ∷ s)

unfoldable pub parse_body : {J : Type 0} → Response J → Result Thrown (Body J)
unfolding mentions_json text_or_null
parse_body r =
    if r.status == 204
    then ok no_body
    else if mentions_json (elim r.content_type [ none ↦ [] | some t ↦ t ])
    then elim r.json [ ok j ↦ ok (json_body j) | thrown e ↦ ok no_body ]
    else elim r.text [ ok t ↦ ok (text_or_null t) | thrown e ↦ thrown e ]

-- Where one turn of the loop leads: out of it, or to a wait of so many milliseconds for a reason.
pub data Turn (J : Type 0) : Type 0 where
  done : Result (Failure J) (Body J) → Turn J
  again : ℕ → Text → Turn J

module _ {J : Type 0} where
  -- The `catch` around `fetch`; `reason` is the caller's, once it aborted.
  unfoldable pub after_error : Bool → ℕ → Option Thrown → Thrown → Turn J
  after_error idempotent attempt (some reason) e = done (thrown (raised reason))
  after_error idempotent attempt none e =
      if is_timeout e
      then done (thrown timed_out)
      else if idempotent && is_network_error e && ltb attempt max_retries
      then again (backoff_ms attempt) (codes "connection failed")
      else done (thrown (raised e))

  unfoldable pub after_cancel : {S : Type 0} → ℕ → ℕ → Result Thrown Unit × S → Turn J × S
  after_cancel attempt status (thrown e, s) = (done (thrown (raised e)), s)
  after_cancel attempt status (ok _, s) =
      (again (backoff_ms attempt) (codes "returned " ++ print status), s)

  -- What is left once no retry is due.
  unfoldable pub conclude : Response J → Result (Failure J) (Body J)
  conclude r = elim (parse_body r) [
    | thrown e ↦ thrown (raised e)
    | ok body ↦
        if r.status == 429
        then thrown rate_limited
        else if is_ok r.status
        then ok body
        else thrown (http_error r.status body)
  ]

-- The end of the loop, or its next round.
unfoldable pub follow :
    {J S : Type 0}
    → (ℕ → Text → S → Option (Result (Failure J) (Body J) × S))
    → Turn J × S
    → Option (Result (Failure J) (Body J) × S)
follow next (done r, s) = some (r, s)
follow next (again ms reason, s) = next ms reason s

module _ {J S : Type 0} (fetch : Exec Thrown S (Response J))
    (cancel : Response J → Exec Thrown S Unit) (caller : S → Option Thrown) where
  unfoldable pub after_response : Bool → ℕ → Response J → S → Turn J × S
  unfolding is_retryable_status
  after_response idempotent attempt r s =
      if r.status == 429 && ltb attempt max_retries
      then (again (retry_after_seconds r * 1000) (codes "rate limit hit"), s)
      else if idempotent && is_retryable_status r.status && ltb attempt max_retries
      then after_cancel attempt r.status (cancel r s)
      else (done (conclude r), s)

  unfoldable pub after_fetch : Bool → ℕ → Result Thrown (Response J) × S → Turn J × S
  after_fetch idempotent attempt (thrown e, s) = (after_error idempotent attempt (caller s) e, s)
  after_fetch idempotent attempt (ok r, s) = after_response idempotent attempt r s

  -- `caller?.throwIfAborted()`, given the signal's reason, then the request.
  unfoldable pub begin_turn : Bool → ℕ → S → Option Thrown → Turn J × S
  begin_turn idempotent attempt s (some reason) = (done (thrown (raised reason)), s)
  begin_turn idempotent attempt s none = after_fetch idempotent attempt (fetch s)

  -- One round.
  unfoldable pub turn : Bool → ℕ → S → Turn J × S
  turn idempotent attempt s = begin_turn idempotent attempt s (caller s)

unfoldable pub retry_message : Text → ℕ → Text → ℕ → Text
retry_message label ms reason attempt =
    label
    ++ codes " "
    ++ reason
    ++ codes ". Waiting "
    ++ print ((ms + 500) / 1000)
    ++ codes "s (attempt "
    ++ print (attempt + 1)
    ++ codes "/5)..."

unfoldable pub back_off : {S : Type 0} → (ℕ → S → S) → (Text → S → S) → Text → ℕ → Text → ℕ → S → S
back_off wait on_retry label ms reason attempt s =
    wait ms (on_retry (retry_message label ms reason attempt) s)

-- The loop, with its messages and its waits.
module _ {J S : Type 0} (fetch : Exec Thrown S (Response J))
    (cancel : Response J → Exec Thrown S Unit) (caller : S → Option Thrown) (wait : ℕ → S → S)
    (on_retry : Text → S → S) (label : Text) where
  -- The loop, for at most so many rounds; `none` where they do not do.
  unfoldable pub request_loop : ℕ → Bool → ℕ → S → Option (Result (Failure J) (Body J) × S)
  request_loop zero idempotent attempt s = none
  request_loop (suc rounds) idempotent attempt s =
      follow
        (λ ms reason s'.
          request_loop rounds idempotent (attempt + 1)
            (back_off wait on_retry label ms reason attempt s'))
        (turn fetch cancel caller idempotent attempt s)

  -- The rounds that the request is given.
  unfoldable pub request : Text → S → Option (Result (Failure J) (Body J) × S)
  request method s = request_loop (max_retries + 1) (text_eq method (codes "GET")) 0 s
