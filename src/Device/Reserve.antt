-- ===== src/Device/Reserve.antt =====
-- One number, as `writeOneBlockLocked` reserves it.
use viperblock.Prelude.{
  ℕ, ◌+◌, ◌<◌, ◌≡◌, refl, some, Option, List, arith, ltb, leb, Bool-cases, Option-cases, inl, inr,
}
use viperblock.Words.{u64, add64, sub64}
use viperblock.Numbering.{
  Counter, Persist, Reserved, reserve_seq_num, reserve_window, publish_high_water,
  persist_state_local, raise, rounds, max_seq_num, mint_volume_uuid,
}

mint_seq_num :
    (random : Option (List ℕ)) (c d : Counter)
    → mint_volume_uuid random c ≡ some d
    → d.seq_num ≡ c.seq_num
unfolding mint_volume_uuid
mint_seq_num random c d h = elim (Option-cases random) [
  | inl e ↦ ground (arith, e, h)
  | inr (bytes, e) ↦ ground (arith, e, h)
]

publish_seq_num :
    (disk : Persist) (hw : ℕ) (c : Counter) → (publish_high_water disk hw c).0.seq_num ≡ c.seq_num
unfolding publish_high_water persist_state_local
publish_seq_num Persist.saved hw c = refl
publish_seq_num Persist.failed hw c = refl
publish_seq_num Persist.failed_late hw c = refl

window_one :
    (random : Option (List ℕ)) (disk : Persist) (first end start : ℕ) (c : Counter)
    → (reserve_window random disk first end c).1 ≡ Reserved.start start
    → (start ≡ first) × ((reserve_window random disk first end c).0.seq_num ≡ c.seq_num)
unfolding reserve_window
window_one random disk first end start c h = elim (Option-cases (mint_volume_uuid random c)) [
  | inl e ↦ absurd (ground (arith, e, h))
  | inr (d, e) ↦
      let hw = raise (rounds end d.seq_num_high_water) end d.seq_num_high_water in
      (
        ground (arith, e, h),
        ground (arith, e, publish_seq_num disk hw d, mint_seq_num random c d e),
      )
]

-- A number that is reserved is the counter's, which goes up by one.
pub reserve_one :
    (random : Option (List ℕ)) (disk : Persist) (c : Counter) (first : ℕ)
    → c.seq_num + 1 < u64
    → (reserve_seq_num random disk 1 c).1 ≡ Reserved.start first
    → (first ≡ c.seq_num) × ((reserve_seq_num random disk 1 c).0.seq_num ≡ c.seq_num + 1)
unfolding reserve_seq_num
reserve_one random disk c first room h =
    let end = add64 c.seq_num 1 in
    let back : sub64 end 1 ≡ c.seq_num = omega (arith, room) in
    let c' : Counter = record c { seq_num = end } in
    let slow = window_one random disk (sub64 end 1) end first c' in
    elim (Bool-cases c.encryption_enabled) [
      | inr off ↦ ground (arith, off, h, back, room)
      | inl on ↦ elim (Bool-cases (ltb max_seq_num end)) [
        | inl limit ↦ absurd (ground (arith, on, limit, h))
        | inr below ↦ elim (Bool-cases (leb end c.seq_num_high_water)) [
          | inl fast ↦ ground (arith, on, below, fast, h, back, room)
          | inr late ↦ ground (arith, on, below, late, h, back, room, slow)
        ]
      ]
    ]
