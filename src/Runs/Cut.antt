-- ===== src/Runs/Cut.antt =====
-- Where a run of consecutive, eligible items ends, and what a list of items says of a block.
use viperblock.Prelude.{
  ℕ, suc, ◌+◌, ◌-◌, ◌≤◌, ◌<◌, ◌≡◌, refl, Bool, ◌&&◌, ◌⊎◌, inl, inr, Option, none, some, List, [],
  ◌∷◌, arith, ltb, leb, ◌==◌, if◌then◌else◌, Bool-cases, length, get_or, drop,
}
use viperblock.Words.{u64, add64}
use viperblock.Block.{BlockEntry, BlockState}
use viperblock.Runs.{Item, seqs, max_run, run_length, Placement, place_offset}

-- the entry of a block placed at index `i` with sequence number `s`

abbrev pub placed_entry : Placement → ℕ → ℕ → BlockEntry
placed_entry p i s = record {
  bytes = [];
  seq_num = s;
  object_id = p.object_id;
  object_offset = place_offset p i;
  state = BlockState.persisted;
}

-- what the items, the first of which has index `i`, say of block `b`
abbrev pub placed : Placement → ℕ → List Item → ℕ → Option BlockEntry
placed p i [] b = none
placed p i (x ∷ xs) b =
    let rest = placed p (i + 1) xs b in
    if x.eligible && (x.block == b) then some (placed_entry p i x.seq) else rest

-- the blocks ascend from `lo` on, below the last 64-bit number
abbrev pub Ascends : ℕ → List Item → Type 0
Ascends lo [] = Unit {0}
Ascends lo (x ∷ xs) = (lo ≤ x.block) × (x.block + 1 < u64) × Ascends (x.block + 1) xs

pub placed_below :
    (p : Placement) (i lo : ℕ) (xs : List Item) (b : ℕ)
    → Ascends lo xs
    → b < lo
    → placed p i xs b ≡ none
placed_below p i lo [] b a h = refl
placed_below p i lo (x ∷ xs) b a h = ground (arith, placed_below p (i + 1) (x.block + 1) xs b)

sub_self : (n : ℕ) → n - n ≡ 0
sub_self n = omega arith

sub_cases : (b c : ℕ) → (b < c) ⊎ (b - c ≡ 0) ⊎ (b - c ≡ suc (b - suc c))
sub_cases b c = omega arith

module _ (first : ℕ) where
  pub run_length_ge : (n : ℕ) (xs : List Item) → n ≤ run_length first n xs
  unfolding run_length
  run_length_ge n [] = omega arith
  run_length_ge n (x ∷ xs) = ground (arith, run_length_ge (suc n) xs)

  pub run_length_le : (n : ℕ) (xs : List Item) → n ≤ max_run → run_length first n xs ≤ max_run
  unfolding run_length
  run_length_le n [] h = h
  run_length_le n (x ∷ xs) h = ground (arith, run_length_le (suc n) xs)

  pub run_length_fits : (n : ℕ) (xs : List Item) → run_length first n xs ≤ n + length xs
  unfolding run_length
  run_length_fits n [] = omega arith
  run_length_fits n (x ∷ xs) = ground (arith, run_length_fits (suc n) xs)

  abbrev passes : ℕ → Item → Bool
  passes n x = x.eligible && (ltb n max_run && (x.block == add64 first n))

  -- the run and the items behind it, for items that ascend from `first + n` on
  pub run_length_top :
      (n lo : ℕ) (xs : List Item)
      → lo ≡ first + n
      → Ascends lo xs
      → first + n < u64
      → first + run_length first n xs < u64
  unfolding run_length
  run_length_top n lo [] e a h = h
  run_length_top n lo (x ∷ xs) e a h = ground (arith, run_length_top (suc n) (x.block + 1) xs)

  pub behind_run :
      (n lo : ℕ) (xs : List Item)
      → lo ≡ first + n
      → Ascends lo xs
      → first + n < u64
      → Ascends (first + run_length first n xs) (drop (run_length first n xs - n) xs)
  unfolding run_length
  behind_run n lo [] e a h = rw (sub_self n) tt
  behind_run n lo (x ∷ xs) e a h = elim (Bool-cases (passes n x)) [
    | inl t ↦
        let step : run_length first (suc n) xs - n ≡ suc (run_length first (suc n) xs - suc n) =
          omega (arith, run_length_ge (suc n) xs) in
        rw (t, step) (behind_run (suc n) (x.block + 1) xs (ground arith) a.2 (ground arith))
    | inr t ↦ rw (t, sub_self n) (omega (arith, a.0), a.1, a.2)
  ]

  -- what the items say, cut where the run ends
  pub placed_run :
      (p : Placement) (i n lo : ℕ) (xs : List Item) (b : ℕ)
      → lo ≡ first + n
      → Ascends lo xs
      → first + n < u64
      → placed p (i + n) xs b ≡ (
          if leb (first + n) b && ltb b (first + run_length first n xs)
          then some (placed_entry p (i + (b - first)) (get_or (seqs xs) (b - (first + n)) 0))
          else placed p (i + run_length first n xs) (drop (run_length first n xs - n) xs) b)
  unfolding run_length
  placed_run p i n lo [] b e a h = rw (sub_self n) (ground arith)
  placed_run p i n lo (x ∷ xs) b e a h = elim (Bool-cases (passes n x)) [
    | inl t ↦
        let step : run_length first (suc n) xs - n ≡ suc (run_length first (suc n) xs - suc n) =
          omega (arith, run_length_ge (suc n) xs) in
        rw (t, step)
          (ground (
            arith,
            t,
            placed_run p i (suc n) (x.block + 1) xs b,
            run_length_ge (suc n) xs,
            sub_cases b (first + n),
          ))
    | inr t ↦ rw (t, sub_self n) (ground arith)
  ]
