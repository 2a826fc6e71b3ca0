-- ===== src/Cli/Tests.antt =====
-- Runs of the suggestions and of the pool.
use bunny_cli_fork.Common.{
  ℕ, zero, suc, ◌+◌, ◌*◌, ◌≤◌, false, none, some, List, [], ◌∷◌, ◌≡◌, refl, ◌⊎◌, Text, codes,
  text_eq, length, All, starts_with, to_lower, lower,
}
use mathlib.Core.List.{Mem}
use bunny_cli_fork.Common.Exec.{Result, ok}
use bunny_cli_fork.Common.Slots.{at, put}
use bunny_cli_fork.Cli.Distance.{
  distance, least_of, cost, count_from, rewrite, next_row, all_rows, entry,
}
use bunny_cli_fork.Cli.Edits.{Edits}
use bunny_cli_fork.Cli.Rows.{distance-Edits}
use bunny_cli_fork.Cli.Suggest.{
  tolerance, score, closest, accept, suggest, NoCloser, suggest-closest,
}
use bunny_cli_fork.Cli.Pool.{
  Lane, returned, rejected, Pool, Event, wake, settle, copies, lane_count, start, take_item, store,
  wake_lane, settle_lane, step, run,
}
use bunny_cli_fork.Cli.Whole.{run-ordered}
use bunny_cli_fork.Cli.Measure.{run-ends}

distance_test : distance (codes "kitten") (codes "sitting") ≡ 3
unfolding distance least_of cost count_from rewrite next_row all_rows entry
distance_test = refl

distance-Edits_example :
    Edits (codes "lst") (codes "list") (distance (codes "lst") (codes "list"))
    × (distance (codes "lst") (codes "list") ≤ 1)
distance-Edits_example =
    distance-Edits (codes "lst") (codes "list") 1
      (Edits.keep (Edits.insert (Edits.keep (Edits.keep Edits.finished))))

abbrev commands : List Text
commands = codes "deploy" ∷ codes "list" ∷ codes "Last" ∷ []

suggest_test : suggest (codes "lst") commands ≡ some (codes "list")
unfolding suggest closest accept score tolerance distance least_of cost count_from rewrite next_row
    all_rows entry text_eq to_lower lower starts_with
suggest_test = refl

suggest-closest_example :
    Mem (codes "list") commands
    × (text_eq (to_lower (codes "list")) (to_lower (codes "lst")) ≡ false)
    × (score (to_lower (codes "lst")) (to_lower (codes "list"))
        ≤ tolerance (length (to_lower (codes "lst"))))
    × All
        (NoCloser
          (to_lower (codes "lst"))
          (score (to_lower (codes "lst")) (to_lower (codes "list"))))
        commands
suggest-closest_example = suggest-closest (codes "lst") commands (codes "list") suggest_test

-- Two lanes over three items, the second call settling first.
abbrev twice : ℕ → ℕ → Result Text ℕ
twice x i = ok (2 * x)

abbrev numbers : List ℕ
numbers = 5 ∷ 6 ∷ 7 ∷ []

abbrev events : List Event
events = wake 0 ∷ wake 1 ∷ settle 1 ∷ wake 1 ∷ settle 1 ∷ settle 0 ∷ wake 0 ∷ wake 1 ∷ []

abbrev ended : Pool Text ℕ ℕ
ended = record {
  next = 5;
  lanes = returned ∷ returned ∷ [];
  results = some 10 ∷ some 12 ∷ some 14 ∷ [];
}

events_test : run numbers twice events (start numbers twice 2) ≡ some ended
unfolding run start step wake_lane settle_lane take_item store lane_count copies at put
events_test = refl

all_returned : (k : ℕ) (l : Lane Text ℕ) → at k ended.lanes ≡ some l → l ≡ returned
unfolding at
all_returned zero l e = cc e
all_returned (suc zero) l e = cc e
all_returned (suc (suc k)) l e = absurd (clash e)
  where
    clash : none ≡ some l → ⊥
    clash e = cc e

run-ordered_example : (r : ℕ) × (twice 7 2 ≡ ok r) × (at 2 ended.results ≡ some (some r))
unfolding at
run-ordered_example = run-ordered numbers twice 2 events ended events_test all_returned 2 7 refl

run-ends_example :
    (length events ≤ 2 * length numbers + lane_count 2 (length numbers))
    × (((q : Pool Text ℕ ℕ) × (step numbers twice (wake 1) ended ≡ some q))
        ⊎ (((q : Pool Text ℕ ℕ) × (step numbers twice (settle 1) ended ≡ some q))
            ⊎ ((◌≡◌ {A = Lane Text ℕ} returned returned)
                ⊎ ((e : Text) × (◌≡◌ {A = Lane Text ℕ} returned (rejected e))))))
unfolding at
run-ends_example = run-ends numbers twice 2 events ended events_test 1 returned refl
