-- ===== src/Backpressure.antt =====
-- `awaitBackpressure` of viperblock/viperblock.go, the loop that holds a write back until the
-- buffered bytes have fallen. What happens in each round is an argument: what the counter reads at
-- its start, whether the context has ended, whether this writer drives the drain, how the drain
-- goes, and what the counter reads after it.
pub mod Bounded
use viperblock.Prelude.{
  ℕ, zero, suc, ◌+◌, ◌*◌, ◌/◌, ◌^◌, Bool, Option, none, some, ltb, leb, ◌==◌, if◌then◌else◌,
}

pub data DrainResult : Type 0 where
  drained no_space failed : DrainResult

pub record Round : Type 0 where
  pub pending : ℕ
  pub ended : Bool
  pub drives : Bool
  pub drain : DrainResult
  pub pending_after : ℕ
  pub ended_asleep : Bool

-- `DefaultMaxPendingBytes`
abbrev pub default_max_pending_bytes : ℕ
default_max_pending_bytes = 256 * 2 ^ 20

-- `maxPendingBytes`
unfoldable pub max_pending_bytes : ℕ → ℕ
max_pending_bytes configured = if configured == 0 then default_max_pending_bytes else configured

-- `maxDrainFailures`
abbrev pub max_drain_failures : ℕ
max_drain_failures = 10

-- what the call returns
pub data Waited : Type 0 where
  returned context_ended out_of_space aborted : Waited

-- `drainFailures` and `backoff`, in milliseconds
pub record Wait : Type 0 where
  pub drain_failures : ℕ
  pub backoff : ℕ

-- the part of a round from the `select` on
unfoldable pub sleep : Round → Wait → Wait × Option Waited
sleep r w =
    if r.ended_asleep
    then (w, some Waited.context_ended)
    else (record w { backoff = if ltb w.backoff 500 then 2 * w.backoff else w.backoff }, none)

unfoldable pub settle : ℕ → Round → Wait → Wait × Option Waited
unfolding sleep
settle low r w = if leb r.pending_after low then (w, some Waited.returned) else sleep r w

-- the drain that this writer drives, by its result
unfoldable pub drive : ℕ → Round → DrainResult → Wait → Wait × Option Waited
unfolding settle sleep
drive low r DrainResult.no_space w = (w, some Waited.out_of_space)
drive low r DrainResult.failed w =
    let counted : Wait = record w { drain_failures = suc w.drain_failures } in
    let settled = settle low r counted in
    if leb max_drain_failures counted.drain_failures
    then (counted, some Waited.aborted)
    else settled
drive low r DrainResult.drained w = settle low r (record w { drain_failures = 0 })

-- One round: what is carried to the next one, or what is returned.
unfoldable pub wait_round : ℕ → Round → Wait → Wait × Option Waited
unfolding drive settle sleep
wait_round low r w =
    let driven = drive low r r.drain w in
    let slept = sleep r w in
    if leb r.pending low
    then (w, some Waited.returned)
    else if r.ended
    then (w, some Waited.context_ended)
    else if r.drives
    then driven
    else slept

-- The loop over the rounds from `i` on; none where it still waits after `fuel` of them.
unfoldable pub wait_rounds : ℕ → (ℕ → Round) → ℕ → ℕ → Wait → Wait × Option Waited
unfolding wait_round
wait_rounds low rounds zero i w = (w, none)
wait_rounds low rounds (suc fuel) i w =
    let (next, out) = wait_round low (rounds i) w in
    let rest = wait_rounds low rounds fuel (suc i) next in
    elim out [ some r ↦ (next, some r) | none ↦ rest ]

-- `awaitBackpressure`, where the counter reads `pending` first
unfoldable pub await_backpressure : ℕ → ℕ → (ℕ → Round) → ℕ → Option Waited
unfolding wait_rounds
await_backpressure configured pending rounds fuel =
    let high = max_pending_bytes configured in
    let start : Wait = record { drain_failures = 0; backoff = 10 } in
    if leb pending high
    then some Waited.returned
    else (wait_rounds (high / 2) rounds fuel 0 start).1
