-- ===== src/Numbering/History.antt =====
-- Histories of an encrypted volume: reservations, saves, crashes and reopenings.
use viperblock.Prelude.{
  ℕ, ◌+◌, ◌≤◌, ◌<◌, ◌≡◌, refl, false, Option, none, some, List, [], ◌∷◌, arith, if◌then◌else◌,
  Option-cases, inl, inr,
}
use viperblock.Words.{u64}
use viperblock.Numbering.{
  Counter, Persist, Reserved, SeqError, start, error, max_seq_num, seq_num_reservation, raise,
  rounds, is_zero_uuid, mint_volume_uuid, persist_state_local, publish_high_water, reserve_window,
  reserve_seq_num, bump_seq_num_high_water, save_minted, save_state, at_least_one_window,
  seed_high_water, ensure_volume_uuid, reopen,
}
use viperblock.Numbering.Issue.{IsDurable, raise_enough, raise_grows, mint_keeps}

-- A reservation; a `SaveState`; an `EnsureVolumeUUID`; or a crash and the opening of the volume from
-- the local config.json.

pub data Event : Type 0 where
  reserve : Option (List ℕ) → Persist → ℕ → Event
  saves ensures : Option (List ℕ) → Persist → Event
  restart : Persist → List ℕ → Event

-- the counter after an event, and the first number and the length of what it issued
unfoldable pub step : Event → Counter → Counter × Option (ℕ × ℕ)
step (Event.reserve random disk n) c =
    let (d, r) = reserve_seq_num random disk n c in
    (d, elim r [ start first ↦ some (first, n) | error e ↦ none ])
step (Event.saves random disk) c = ((save_state random disk c).0, none)
step (Event.ensures random disk) c = ((ensure_volume_uuid random disk c).0, none)
step (Event.restart disk uuid) c = ((reopen disk uuid c).0, none)

-- The 64-bit counters have room for the event, and a save finds the UUID minted.
abbrev pub Room : Event → Counter → Type 0
Room (Event.reserve random disk n) c = c.seq_num + n < u64
Room (Event.saves random disk) c = is_zero_uuid c.volume_uuid ≡ false
Room (Event.ensures random disk) c = c.seq_num ≤ max_seq_num
Room (Event.restart disk uuid) c = c.durable + seq_num_reservation < u64

-- Nothing is issued below `lo`, and what is issued stays below the high-water in memory.
abbrev pub Holds : ℕ → Option (ℕ × ℕ) → Counter → Type 0
Holds lo none c = (lo ≤ c.seq_num) × (lo ≤ c.seq_num_high_water)
Holds lo (some (first, n)) c =
    (lo ≤ first) × (first + n ≤ c.seq_num) × (first + n ≤ c.seq_num_high_water)

-- after a reservation
abbrev Reserves : ℕ → ℕ → Counter × Reserved → Type 0
Reserves lo n (d, Reserved.start first) = IsDurable d × Holds lo (some (first, n)) d
Reserves lo n (d, Reserved.error e) = IsDurable d × Holds lo none d

-- What is published is durable.
publish-Holds :
    (lo hw : ℕ) (disk : Persist) (c : Counter)
    → IsDurable c
    → c.seq_num_high_water ≤ hw
    → lo ≤ c.seq_num
    → lo ≤ c.seq_num_high_water
    → let d = (publish_high_water disk hw c).0 in IsDurable d × Holds lo none d
unfolding publish_high_water persist_state_local
publish-Holds lo hw Persist.saved c v up low held = ground (arith, v)
publish-Holds lo hw Persist.failed c v up low held = ground (arith, v)
publish-Holds lo hw Persist.failed_late c v up low held = ground (arith, v)

publish-Reserves :
    (lo n first end : ℕ) (disk : Persist) (c d : Counter)
    → IsDurable c
    → (d.seq_num ≡ c.seq_num)
      × (d.durable ≡ c.durable)
      × (d.seq_num_high_water ≡ c.seq_num_high_water)
      × (d.encryption_enabled ≡ c.encryption_enabled)
    → c.seq_num ≡ end
    → first + n ≡ end
    → lo ≤ first
    → lo ≤ c.seq_num_high_water
    → end ≤ max_seq_num
    → let hw = raise (rounds end d.seq_num_high_water) end d.seq_num_high_water in
      let (d', ok) = publish_high_water disk hw d in
      Reserves lo n
        (d', if ok then Reserved.start first else Reserved.error SeqError.persist_failed)
unfolding publish_high_water persist_state_local
publish-Reserves lo n first end Persist.saved c d v same at sum low held top =
    ground (arith, v, same, raise_enough end d.seq_num_high_water top)
publish-Reserves lo n first end Persist.failed c d v same at sum low held top =
    ground (arith, v, same)
publish-Reserves lo n first end Persist.failed_late c d v same at sum low held top = ground (
  arith,
  v,
  same,
  raise_enough end d.seq_num_high_water top,
  raise_grows (rounds end d.seq_num_high_water) end d.seq_num_high_water top,
)

window-Reserves :
    (lo n first end : ℕ) (random : Option (List ℕ)) (disk : Persist) (c : Counter)
    → IsDurable c
    → c.seq_num ≡ end
    → first + n ≡ end
    → lo ≤ first
    → lo ≤ c.seq_num_high_water
    → end ≤ max_seq_num
    → Reserves lo n (reserve_window random disk first end c)
unfolding reserve_window
window-Reserves lo n first end random disk c v at sum low held top =
    decide (mint_volume_uuid random c) refl
  where
    decide :
        (o : Option Counter)
        → mint_volume_uuid random c ≡ o
        → Reserves lo n (elim o [
          | none ↦ (c, Reserved.error SeqError.mint_failed)
          | some d ↦
              let hw = raise (rounds end d.seq_num_high_water) end d.seq_num_high_water in
              let (d', ok) = publish_high_water disk hw d in
              (d', if ok then Reserved.start first else Reserved.error SeqError.persist_failed)
        ])
    decide none e = (v, (omega arith, held))
    decide (some d) e =
        publish-Reserves lo n first end disk c d v (mint_keeps random c d e) at sum low held top

reserve-Reserves :
    (lo n : ℕ) (random : Option (List ℕ)) (disk : Persist) (c : Counter)
    → IsDurable c
    → c.seq_num + n < u64
    → lo ≤ c.seq_num
    → lo ≤ c.seq_num_high_water
    → Reserves lo n (reserve_seq_num random disk n c)
unfolding reserve_seq_num
reserve-Reserves lo n random disk c v room low held = ground (
  arith,
  v,
  window-Reserves lo n c.seq_num (c.seq_num + n) random disk (record c { seq_num = c.seq_num + n })
      (record { encrypted = v.encrypted; below = v.below }) refl refl low held,
)

save_state-Holds :
    (lo : ℕ) (random : Option (List ℕ)) (disk : Persist) (c : Counter)
    → IsDurable c
    → is_zero_uuid c.volume_uuid ≡ false
    → lo ≤ c.seq_num
    → lo ≤ c.seq_num_high_water
    → let d = (save_state random disk c).0 in IsDurable d × Holds lo none d
unfolding save_state save_minted mint_volume_uuid
save_state-Holds lo random disk c v set low held =
    ground (arith, v, set, publish-Holds lo c.seq_num_high_water disk c v (omega arith) low held)

seed-Holds :
    (lo : ℕ) (disk : Persist) (c : Counter)
    → IsDurable c
    → c.seq_num ≤ max_seq_num
    → lo ≤ c.seq_num
    → lo ≤ c.seq_num_high_water
    → let d = (seed_high_water disk c).0 in IsDurable d × Holds lo none d
unfolding seed_high_water
seed-Holds lo disk c v top low held =
    let hw = at_least_one_window c.seq_num_high_water in
    let up = raise_grows (rounds c.seq_num hw) c.seq_num hw top in
    publish-Holds lo (raise (rounds c.seq_num hw) c.seq_num hw) disk c v (ground (arith, up)) low
      held

ensure-Holds :
    (lo : ℕ) (random : Option (List ℕ)) (disk : Persist) (c : Counter)
    → IsDurable c
    → c.seq_num ≤ max_seq_num
    → lo ≤ c.seq_num
    → lo ≤ c.seq_num_high_water
    → let d = (ensure_volume_uuid random disk c).0 in IsDurable d × Holds lo none d
unfolding ensure_volume_uuid
ensure-Holds lo random disk c v top low held = elim (Option-cases (mint_volume_uuid random c)) [
  | inl e ↦ ground (arith, v, e)
  | inr (d, e) ↦
      let same = mint_keeps random c d e in
      let seeded =
        seed-Holds lo disk d
          (record { encrypted = ground (arith, v, same); below = omega (arith, v, same) })
          (omega (arith, same)) (omega (arith, same)) (omega (arith, same)) in
      ground (arith, v, e, seeded)
]

reopen-Holds :
    (lo : ℕ) (disk : Persist) (uuid : List ℕ) (c : Counter)
    → IsDurable c
    → c.durable + seq_num_reservation < u64
    → lo ≤ c.seq_num_high_water
    → let d = (reopen disk uuid c).0 in IsDurable d × Holds lo none d
unfolding reopen bump_seq_num_high_water publish_high_water persist_state_local
reopen-Holds lo Persist.saved uuid c v room held = ground (arith, v)
reopen-Holds lo Persist.failed uuid c v room held = ground (arith, v)
reopen-Holds lo Persist.failed_late uuid c v room held = ground (arith, v)

-- the ranges that a history issues, in order
unfoldable pub issued : List Event → Counter → List (ℕ × ℕ)
issued [] c = []
issued (e ∷ es) c =
    let (d, r) = step e c in let rest = issued es d in elim r [ none ↦ rest | some x ↦ x ∷ rest ]

-- Every event of the history has room.
abbrev pub Roomy : List Event → Counter → Type 0
Roomy [] c = Unit {0}
Roomy (e ∷ es) c = Room e c × Roomy es (step e c).0

-- Each range begins at or above `lo` and above the ranges before it.
abbrev pub Ascends : ℕ → List (ℕ × ℕ) → Type 0
Ascends lo [] = Unit {0}
Ascends lo ((first, n) ∷ rest) = (lo ≤ first) × Ascends (first + n) rest

step-Holds :
    (lo : ℕ) (e : Event) (c : Counter)
    → IsDurable c
    → Room e c
    → lo ≤ c.seq_num
    → lo ≤ c.seq_num_high_water
    → let (d, r) = step e c in IsDurable d × Holds lo r d
unfolding step
step-Holds lo (Event.reserve random disk n) c v room low held =
    go (reserve_seq_num random disk n c) (reserve-Reserves lo n random disk c v room low held)
  where
    go :
        (dr : Counter × Reserved)
        → Reserves lo n dr
        → let (d, r) = dr in
          IsDurable d × Holds lo (elim r [ start first ↦ some (first, n) | error e ↦ none ]) d
    go (d, Reserved.start first) h = h
    go (d, Reserved.error e) h = h
step-Holds lo (Event.saves random disk) c v room low held =
    save_state-Holds lo random disk c v room low held
step-Holds lo (Event.ensures random disk) c v room low held =
    ensure-Holds lo random disk c v room low held
step-Holds lo (Event.restart disk uuid) c v room low held = reopen-Holds lo disk uuid c v room held

-- On an encrypted volume, starting where the high-water in memory is durable, the ranges of
-- sequence numbers that a history of reservations, saves, EnsureVolumeUUID calls, crashes and
-- reopenings issues ascend and never share a number, whatever the disks and the random source
-- do. Each opening reads the local high-water, a save finds the UUID minted, EnsureVolumeUUID
-- finds the counter within 56 bits, and the 64-bit counters have room.
pub issued-Ascends :
    (lo : ℕ) (es : List Event) (c : Counter)
    → IsDurable c
    → Roomy es c
    → lo ≤ c.seq_num
    → lo ≤ c.seq_num_high_water
    → Ascends lo (issued es c)
unfolding issued
issued-Ascends lo [] c v room low held = tt
issued-Ascends lo (e ∷ es) c v (room, rooms) low held =
    let (d, f) = step-Holds lo e c v room low held in
    go (λ l. issued-Ascends l es (step e c).0 d rooms) (step e c).1 f
  where
    go :
        ((l : ℕ)
          → l ≤ (step e c).0.seq_num
          → l ≤ (step e c).0.seq_num_high_water
          → Ascends l (issued es (step e c).0))
        → (r : Option (ℕ × ℕ)) → Holds lo r (step e c).0
        → Ascends lo
            (let rest = issued es (step e c).0 in elim r [ none ↦ rest | some x ↦ x ∷ rest ])
    go rest none f = rest lo f.0 f.1
    go rest (some (first, n)) f = (f.0, rest (first + n) f.1 f.2)
