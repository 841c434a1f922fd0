-- ===== src/Numbering.antt =====
-- The sequence numbers that viperblock/viperblock.go hands out to writes: `reserveSeqNum`,
-- `bumpSeqNumHighWater`, `mintVolumeUUID`, `SaveStateCtx`, `EnsureVolumeUUID` and the bootstrap at the end of `LoadStateCtx`. On an
-- encrypted volume a number is part of a GCM nonce. What the random source and the disk do is an
-- argument of each operation. The push to the backend is left out: its failure is only logged.
-- Each operation is one step.
pub mod Issue
pub mod History
use viperblock.Prelude.{
  ℕ, zero, suc, ◌+◌, ◌-◌, ◌/◌, ◌^◌, Bool, true, false, ◌&&◌, not, Option, none, some, List, [], ◌∷◌,
  ltb, leb, ◌==◌, if◌then◌else◌,
}
use viperblock.Words.{add64, sub64}

-- `MaxSeqNum`
abbrev pub max_seq_num : ℕ
max_seq_num = 2 ^ 56 - 1

-- `seqNumReservation`
abbrev pub seq_num_reservation : ℕ
seq_num_reservation = 2 ^ 20

-- the fields of `VB` that numbering reads, and `durable`, the high-water in the local config.json
pub record Counter : Type 0 where
  pub encryption_enabled : Bool
  pub seq_num : ℕ
  pub seq_num_high_water : ℕ
  pub volume_uuid : List ℕ
  pub durable : ℕ

-- What `persistStateLocal` does: the new state is on disk; it failed and the old one is; or it
-- failed after the new state had replaced the old one, as when the directory's fsync fails.
pub data Persist : Type 0 where
  saved failed failed_late : Persist

pub data SeqError : Type 0 where
  nonce_limit mint_failed persist_failed : SeqError

pub data Reserved : Type 0 where
  start : ℕ → Reserved
  error : SeqError → Reserved

unfoldable pub is_zero_uuid : List ℕ → Bool
is_zero_uuid [] = true
is_zero_uuid (x ∷ xs) = (x == 0) && is_zero_uuid xs

-- `mintVolumeUUID`, with what `rand.Read` gave; `none` where it failed
unfoldable pub mint_volume_uuid : Option (List ℕ) → Counter → Option Counter
mint_volume_uuid random c =
    if is_zero_uuid c.volume_uuid
    then elim random [ none ↦ none | some bytes ↦ some (record c { volume_uuid = bytes }) ]
    else some c

-- the disk after `persistStateLocal(hw)`
unfoldable pub persist_state_local : Persist → ℕ → Counter → Counter
persist_state_local Persist.saved hw c = record c { durable = hw }
persist_state_local Persist.failed hw c = c
persist_state_local Persist.failed_late hw c = record c { durable = hw }

-- `for end > hw { hw += seqNumReservation }`
unfoldable pub raise : ℕ → ℕ → ℕ → ℕ
raise zero end hw = hw
raise (suc fuel) end hw =
    let rest = raise fuel end (add64 hw seq_num_reservation) in if ltb hw end then rest else hw

-- rounds enough for the loop
abbrev pub rounds : ℕ → ℕ → ℕ
rounds end hw = suc ((end - hw) / seq_num_reservation)

-- `persistStateLocal(hw)`, then `seqNumHighWater.Store(hw)` unless it failed
unfoldable pub publish_high_water : Persist → ℕ → Counter → Counter × Bool
unfolding persist_state_local
publish_high_water Persist.saved hw c =
    (record (persist_state_local Persist.saved hw c) { seq_num_high_water = hw }, true)
publish_high_water Persist.failed hw c = (persist_state_local Persist.failed hw c, false)
publish_high_water Persist.failed_late hw c = (persist_state_local Persist.failed_late hw c, false)

-- the part of `reserveSeqNum` under `seqNumHighWaterMu`
unfoldable pub reserve_window : Option (List ℕ) → Persist → ℕ → ℕ → Counter → Counter × Reserved
reserve_window random disk first end c = elim (mint_volume_uuid random c) [
  | none ↦ (c, Reserved.error SeqError.mint_failed)
  | some d ↦
      let hw = raise (rounds end d.seq_num_high_water) end d.seq_num_high_water in
      let (d', ok) = publish_high_water disk hw d in
      (d', if ok then Reserved.start first else Reserved.error SeqError.persist_failed)
]

-- `reserveSeqNum`
unfoldable pub reserve_seq_num : Option (List ℕ) → Persist → ℕ → Counter → Counter × Reserved
reserve_seq_num random disk n c =
    let end = add64 c.seq_num n in
    let first = sub64 end n in
    let c' = record c { seq_num = end } in
    let slow = reserve_window random disk first end c' in
    if c.encryption_enabled
    then (if ltb max_seq_num end
        then (c', Reserved.error SeqError.nonce_limit)
        else if leb end c.seq_num_high_water
        then (c', Reserved.start first)
        else slow)
    else (c', Reserved.start first)

-- `bumpSeqNumHighWater`
unfoldable pub bump_seq_num_high_water : Persist → Counter → Counter × Bool
bump_seq_num_high_water disk c =
    publish_high_water disk (add64 c.seq_num_high_water seq_num_reservation) c

-- the part of `SaveStateCtx` after the UUID; the high-water that a mint seeds is published first.
unfoldable pub save_minted : Persist → Bool → Counter → Counter × Bool
save_minted disk minted c =
    let hw = if minted then seq_num_reservation else c.seq_num_high_water in
    publish_high_water disk hw (record c { seq_num_high_water = hw })

-- `SaveStateCtx`, and whether it goes on to the backend
unfoldable pub save_state : Option (List ℕ) → Persist → Counter → Counter × Bool
save_state random disk c =
    if c.encryption_enabled
    then elim (mint_volume_uuid random c) [
      | none ↦ (c, false)
      | some d ↦ save_minted disk (is_zero_uuid c.volume_uuid) d
    ]
    else save_minted disk false c

-- `max(vb.seqNumHighWater.Load(), seqNumReservation)`
abbrev pub at_least_one_window : ℕ → ℕ
at_least_one_window hw = if ltb hw seq_num_reservation then seq_num_reservation else hw

-- the part of `EnsureVolumeUUID` after the mint
unfoldable pub seed_high_water : Persist → Counter → Counter × Bool
seed_high_water disk c =
    let hw = at_least_one_window c.seq_num_high_water in
    publish_high_water disk (raise (rounds c.seq_num hw) c.seq_num hw) c

-- `EnsureVolumeUUID`
unfoldable pub ensure_volume_uuid : Option (List ℕ) → Persist → Counter → Counter × Bool
ensure_volume_uuid random disk c =
    if not c.encryption_enabled
    then (c, true)
    else if not (is_zero_uuid c.volume_uuid)
    then (c, true)
    else elim (mint_volume_uuid random c) [ none ↦ (c, false) | some d ↦ seed_high_water disk d ]

-- The bootstrap of `LoadStateCtx` on an encrypted volume, from the state found on disk. What the
-- process had in memory is lost.
unfoldable pub reopen : Persist → List ℕ → Counter → Counter × Bool
reopen disk uuid c =
    bump_seq_num_high_water disk
      (record c { volume_uuid = uuid; seq_num = c.durable; seq_num_high_water = c.durable })
