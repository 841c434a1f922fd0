-- ===== src/Backpressure/Bounded.antt =====
-- The loop gives up after ten drains in a row that fail.
use viperblock.Prelude.{
  ℕ, zero, suc, ◌+◌, ◌/◌, ◌≤◌, ◌<◌, ◌≡◌, ◌≢◌, refl, true, none, arith, inl, inr, ◌⊎◌,
}
use native.Mathlib.Decide.{dec_lt}
use viperblock.Backpressure.{
  DrainResult, Round, Wait, max_pending_bytes, sleep, settle, drive, wait_round, wait_rounds,
  await_backpressure,
}

-- Every round from `n` on is driven by this writer, and its drain fails otherwise than for space.

abbrev pub AllFail : ℕ → (ℕ → Round) → Type 0
AllFail n rounds =
    (i : ℕ) → n ≤ i → ((rounds i).drives ≡ true) × ((rounds i).drain ≡ DrainResult.failed)

-- a round whose drain fails either ends the loop or counts one more failure
round_counts :
    (low : ℕ) (r : Round) (w : Wait)
    → r.drives ≡ true
    → r.drain ≡ DrainResult.failed
    → (wait_round low r w).1 ≡ none
    → (wait_round low r w).0.drain_failures ≡ suc w.drain_failures
unfolding wait_round drive settle sleep
round_counts low r w drives fails goes_on = ground (arith, drives, fails, goes_on)

-- a loop that goes on has counted fewer than ten
round_few :
    (low : ℕ) (r : Round) (w : Wait)
    → w.drain_failures < 10
    → (wait_round low r w).1 ≡ none
    → (wait_round low r w).0.drain_failures < 10
unfolding wait_round drive settle sleep
round_few low r w few goes_on = few_by r.drain refl
  where
    few_by : (d : DrainResult) → r.drain ≡ d → (wait_round low r w).0.drain_failures < 10
    few_by DrainResult.drained e = ground (arith, e, few, goes_on)
    few_by DrainResult.no_space e = ground (arith, e, few, goes_on)
    few_by DrainResult.failed e = ground (arith, e, few, goes_on)

wait_rounds_next :
    (low : ℕ) (rounds : ℕ → Round) (fuel i : ℕ) (w : Wait)
    → (wait_rounds low rounds (suc fuel) i w).1 ≡ none
    → let r = wait_round low (rounds i) w in
      (r.1 ≡ none) × ((wait_rounds low rounds fuel (suc i) r.0).1 ≡ none)
unfolding wait_rounds
wait_rounds_next low rounds fuel i w h = ground (arith, h)

-- ten rounds more than those that may go otherwise end the loop
wait_rounds-ends :
    (low n : ℕ) (rounds : ℕ → Round) (fuel i : ℕ) (w : Wait)
    → AllFail n rounds
    → w.drain_failures < 10
    → ((n ≤ i) × (10 ≤ fuel + w.drain_failures)) ⊎ ((i ≤ n) × (n + 10 ≤ fuel + i))
    → (wait_rounds low rounds fuel i w).1 ≢ none
wait_rounds-ends low n rounds zero i w fail few room h = ground (arith, few, room)
wait_rounds-ends low n rounds (suc fuel) i w fail few room h =
    let (goes_on, rest) = wait_rounds_next low rounds fuel i w h in
    let next = (wait_round low (rounds i) w).0 in
    let fewer = round_few low (rounds i) w few goes_on in
    elim (dec_lt i n) [
      | yes before ↦
          wait_rounds-ends low n rounds fuel (suc i) next fail fewer
            (inr (omega arith, ground (arith, before, room))) rest
      | no reached ↦
          let (drives, fails) = fail i (omega (arith, reached)) in
          let counted = round_counts low (rounds i) w drives fails goes_on in
          wait_rounds-ends low n rounds fuel (suc i) next fail fewer
            (inl (omega (arith, reached), ground (arith, counted, reached, room))) rest
    ]

-- A writer in awaitBackpressure whose drains all fail, otherwise than for space, from some round
-- on has returned after ten more rounds, whatever the counter reads and however the rounds
-- before went.
pub await_backpressure-ends :
    (configured pending n : ℕ) (rounds : ℕ → Round)
    → AllFail n rounds
    → await_backpressure configured pending rounds (n + 10) ≢ none
unfolding await_backpressure
await_backpressure-ends configured pending n rounds fail h =
    let high = max_pending_bytes configured in
    let start : Wait = record { drain_failures = 0; backoff = 10 } in
    wait_rounds-ends (high / 2) n rounds (n + 10) 0 start fail (omega arith)
      (inr (omega arith, omega arith)) (ground (arith, h))
