-- ===== src/Cli/Pool.antt =====
-- packages/cli/src/core/concurrency.ts: lanes that take the next item each, interleaved at their
-- awaits. What the mapped function settles with is a parameter.
use bunny_cli_fork.Common.{
  ℕ, zero, suc, ◌+◌, Option, none, some, List, [], ◌∷◌, ◌==◌, leb, and_then, if◌then◌else◌, length,
}
use bunny_cli_fork.Common.Exec.{Result, ok, thrown}
use bunny_cli_fork.Common.Slots.{at, put}

-- Where a lane is: about to take an item, waiting for the call on one, at its end, or rejected.
pub data Lane (E T : Type 0) : Type 0 where
  ready returned : Lane E T
  calling : ℕ → T → Lane E T
  rejected : E → Lane E T

pub record Pool (E T R : Type 0) : Type 0 where
  pub next : ℕ
  pub lanes : List (Lane E T)
  pub results : List (Option R)

-- What the event loop runs next: a lane up to its next await, or a lane whose call has settled.
pub data Event : Type 0 where
  wake settle : ℕ → Event

unfoldable pub copies : {A : Type 0} → ℕ → A → List A
copies zero x = []
copies (suc n) x = x ∷ copies n x

-- `Math.min(concurrency, items.length) || 1`
unfoldable pub lane_count : ℕ → ℕ → ℕ
lane_count concurrency n =
    let fewer = if leb concurrency n then concurrency else n in if fewer == 0 then 1 else fewer

module _ {E T R : Type 0} (items : List T) (fn : T → ℕ → Result E R) where
  unfoldable pub start : ℕ → Pool E T R
  unfolding lane_count copies
  start concurrency = record {
    next = 0;
    lanes = copies (lane_count concurrency (length items)) ready;
    results = copies (length items) none;
  }

  -- `next++`, then the end of the lane or its call.
  unfoldable pub take_item : ℕ → Pool E T R → Option T → Pool E T R
  take_item lane p none = record {
    next = p.next + 1;
    lanes = put lane returned p.lanes;
    results = p.results;
  }
  take_item lane p (some x) = record {
    next = p.next + 1;
    lanes = put lane (calling p.next x) p.lanes;
    results = p.results;
  }

  -- The result is stored and the lane goes round, or the call's rejection ends the lane.
  unfoldable pub store : ℕ → ℕ → Pool E T R → Result E R → Pool E T R
  store lane i p (ok r) = record {
    next = p.next;
    lanes = put lane ready p.lanes;
    results = put i (some r) p.results;
  }
  store lane i p (thrown e) = record {
    next = p.next;
    lanes = put lane (rejected e) p.lanes;
    results = p.results;
  }

  -- A lane that is not ready cannot be woken, and one that waits for no call cannot settle.
  unfoldable pub wake_lane : ℕ → Pool E T R → Option (Lane E T) → Option (Pool E T R)
  unfolding take_item at
  wake_lane lane p (some ready) = some (take_item lane p (at p.next items))
  wake_lane lane p _ = none

  unfoldable pub settle_lane : ℕ → Pool E T R → Option (Lane E T) → Option (Pool E T R)
  unfolding store
  settle_lane lane p (some (calling i x)) = some (store lane i p (fn x i))
  settle_lane lane p _ = none

  unfoldable pub step : Event → Pool E T R → Option (Pool E T R)
  unfolding wake_lane settle_lane at
  step (wake lane) p = wake_lane lane p (at lane p.lanes)
  step (settle lane) p = settle_lane lane p (at lane p.lanes)

  -- Any order of the events that can happen.
  unfoldable pub run : List Event → Pool E T R → Option (Pool E T R)
  unfolding step
  run [] p = some p
  run (e ∷ es) p = and_then (step e p) (run es)
