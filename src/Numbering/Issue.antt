-- ===== src/Numbering/Issue.antt =====
-- One reservation of an encrypted volume.
use viperblock.Prelude.{
  ℕ, zero, suc, ◌+◌, ◌*◌, ◌≤◌, ◌<◌, ◌≡◌, refl, true, Option, none, some, List, arith, leb,
  if◌then◌else◌,
}
use viperblock.Words.{u64}
use viperblock.Numbering.{
  Counter, Persist, Reserved, SeqError, max_seq_num, seq_num_reservation, raise, rounds,
  mint_volume_uuid, persist_state_local, publish_high_water, reserve_window, reserve_seq_num,
}

raise_reaches :
    (fuel end hw : ℕ)
    → end ≤ max_seq_num
    → end < hw + fuel * seq_num_reservation
    → end ≤ raise fuel end hw
unfolding raise
raise_reaches zero end hw top h = omega arith
raise_reaches (suc fuel) end hw top h =
    ground (arith, raise_reaches fuel end (hw + seq_num_reservation) top)

-- The rounds given are enough for the loop.
pub raise_enough : (end hw : ℕ) → end ≤ max_seq_num → end ≤ raise (rounds end hw) end hw
raise_enough end hw top = raise_reaches (rounds end hw) end hw top (omega arith)

pub raise_grows : (fuel end hw : ℕ) → end ≤ max_seq_num → hw ≤ raise fuel end hw
unfolding raise
raise_grows zero end hw top = omega arith
raise_grows (suc fuel) end hw top =
    ground (arith, raise_grows fuel end (hw + seq_num_reservation) top)

-- What memory takes as durable is durable, on an encrypted volume.
pub record IsDurable (c : Counter) : Type 0 where
  pub encrypted : c.encryption_enabled ≡ true
  pub below : c.seq_num_high_water ≤ c.durable

-- Nothing is issued below `lo`, and the ranges follow one another.
abbrev pub Follows : ℕ → Option (ℕ × ℕ) → Counter → Type 0
Follows lo none c = (lo ≤ c.seq_num) × (lo ≤ c.durable)
Follows lo (some (first, n)) c = (lo ≤ first) × (first + n ≤ c.seq_num) × (first + n ≤ c.durable)

pub mint_keeps :
    (random : Option (List ℕ)) (c d : Counter)
    → mint_volume_uuid random c ≡ some d
    → (d.seq_num ≡ c.seq_num)
      × (d.durable ≡ c.durable)
      × (d.seq_num_high_water ≡ c.seq_num_high_water)
      × (d.encryption_enabled ≡ c.encryption_enabled)
unfolding mint_volume_uuid
mint_keeps none c d h = ground arith
mint_keeps (some bytes) c d h = ground arith

-- a reservation that went well, or failed, from the floor `lo`
abbrev pub Outcome : ℕ → ℕ → Counter × Reserved → Type 0
Outcome lo n (d, Reserved.start first) = IsDurable d × Follows lo (some (first, n)) d
Outcome lo n (d, Reserved.error e) = IsDurable d × Follows lo none d

reserve_window-Outcome :
    (lo n first end : ℕ) (random : Option (List ℕ)) (disk : Persist) (c : Counter)
    → IsDurable c
    → c.seq_num ≡ end
    → first + n ≡ end
    → lo ≤ first
    → lo ≤ c.durable
    → end ≤ max_seq_num
    → c.seq_num_high_water < end
    → Outcome lo n (reserve_window random disk first end c)
unfolding reserve_window publish_high_water persist_state_local
reserve_window-Outcome lo n first end random disk c v at sum low kept top past =
    decide (mint_volume_uuid random c) refl
  where
    go :
        (d : Counter)
        → (d.seq_num ≡ c.seq_num)
          × (d.durable ≡ c.durable)
          × (d.seq_num_high_water ≡ c.seq_num_high_water)
          × (d.encryption_enabled ≡ c.encryption_enabled)
        → (disk : Persist)
        → let hw = raise (rounds end d.seq_num_high_water) end d.seq_num_high_water in
          let (d', ok) = publish_high_water disk hw d in
          Outcome lo n
            (d', if ok then Reserved.start first else Reserved.error SeqError.persist_failed)
    go d same Persist.saved = ground (arith, v, same, raise_enough end d.seq_num_high_water top)
    go d same Persist.failed = ground (arith, v, same)
    go d same Persist.failed_late = ground (
      arith,
      v,
      same,
      raise_enough end d.seq_num_high_water top,
      raise_grows (rounds end d.seq_num_high_water) end d.seq_num_high_water top,
    )

    decide :
        (o : Option Counter)
        → mint_volume_uuid random c ≡ o
        → Outcome lo n (elim o [
          | none ↦ (c, Reserved.error SeqError.mint_failed)
          | some d ↦
              let hw = raise (rounds end d.seq_num_high_water) end d.seq_num_high_water in
              let (d', ok) = publish_high_water disk hw d in
              (d', if ok then Reserved.start first else Reserved.error SeqError.persist_failed)
        ])
    decide none e = (v, (omega arith, kept))
    decide (some d) e = go d (mint_keeps random c d e) disk

-- On an encrypted volume whose high-water in memory is durable and whose counter has room, a
-- reservation that succeeds starts at or above every earlier floor and ends at or below the
-- counter and the durable high-water; one that fails keeps the floor.
pub reserve_seq_num-Outcome :
    (lo n : ℕ) (random : Option (List ℕ)) (disk : Persist) (c : Counter)
    → IsDurable c
    → c.seq_num + n < u64
    → lo ≤ c.seq_num
    → lo ≤ c.durable
    → Outcome lo n (reserve_seq_num random disk n c)
unfolding reserve_seq_num
reserve_seq_num-Outcome lo n random disk c v room low kept = ground (
  arith,
  v,
  reserve_window-Outcome lo n c.seq_num (c.seq_num + n) random disk
      (record c { seq_num = c.seq_num + n }) (record { encrypted = v.encrypted; below = v.below })
      refl refl low kept,
)

-- With a disk and a random source that work, an encrypted volume serves every reservation that
-- ends within 56 bits, from the counter on, and refuses every other, where the 64-bit counter
-- has room.
pub reserve_seq_num-serves :
    (n : ℕ) (bytes : List ℕ) (c : Counter)
    → c.encryption_enabled ≡ true
    → c.seq_num + n < u64
    → (reserve_seq_num (some bytes) Persist.saved n c).1 ≡ (
        if leb (c.seq_num + n) max_seq_num
        then Reserved.start c.seq_num
        else Reserved.error SeqError.nonce_limit)
unfolding reserve_seq_num reserve_window mint_volume_uuid publish_high_water
reserve_seq_num-serves n bytes c on room = ground arith
