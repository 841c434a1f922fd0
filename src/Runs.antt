-- ===== src/Runs.antt =====
-- How `MarkPersistedRange` and `SetPersistedRange` of viperblock/blockstore.go cut a list of blocks
-- into runs and install each run as one extent. The slices `blocks`, `seqNums` and `eligible` are
-- walked together, as a list of items.
pub mod Cut
pub mod Install
pub mod Place
use viperblock.Prelude.{
  ℕ, zero, suc, ◌+◌, ◌%◌, Bool, ◌&&◌, List, [], ◌∷◌, map, ltb, ◌==◌, if◌then◌else◌, take, drop,
}
use viperblock.Words.{u16, add32, add64, mul32}
use viperblock.Dict.{Dict, insert}
use viperblock.Extents.{Extent, fracture_overlaps}

pub record Item : Type 0 where
  pub block : ℕ
  pub seq : ℕ
  pub eligible : Bool

abbrev pub seqs : List Item → List ℕ
seqs = map (λ x. x.seq)

-- the largest run, so that its length fits 16 bits
abbrev pub max_run : ℕ
max_run = 65535

-- The inner loop: `n` is `j - i`, and `first` is `blocks[i]`. In `SetPersistedRange`, where `j`
-- starts at `i + 1` and every block is eligible, the first round is left out; it always passes.
unfoldable pub run_length : ℕ → ℕ → List Item → ℕ
run_length first n [] = n
run_length first n (x ∷ xs) =
    let longer = run_length first (suc n) xs in
    if x.eligible && (ltb n max_run && (x.block == add64 first n)) then longer else n

-- What one call places: the chunk, the offset of its first block, and the bytes to a block.
pub record Placement : Type 0 where
  pub object_id : ℕ
  pub object_offset : ℕ
  pub stride : ℕ

-- `objectOffset + uint32(i)*stride`; the truncation of `i` is lost in that of the product.
abbrev pub place_offset : Placement → ℕ → ℕ
place_offset p i = add32 p.object_offset (mul32 i p.stride)

-- `run`, of the `n` items that start `xs`, the first of which has index `i`
abbrev pub run_extent : Placement → ℕ → ℕ → ℕ → List Item → Extent
run_extent p i first n xs = record {
  seq_nums = take n (seqs xs);
  start_block = first;
  object_id = p.object_id;
  object_offset = place_offset p i;
  stride = p.stride;
  num_blocks = n % u16;
}

-- `ubs.fractureOverlapsLocked(run.startBlock, run.numBlocks)` and the insertion
unfoldable pub install : Extent → Dict Extent → Dict Extent
install run m = insert run.start_block run (fracture_overlaps run.start_block run.num_blocks m)

-- The outer loop at index `i`, `xs` being the items from `i` on. The fuel bounds the rounds; as many
-- as there are items suffice.
unfoldable pub install_runs : Placement → ℕ → ℕ → List Item → Dict Extent → Dict Extent
install_runs p zero i xs m = m
install_runs p (suc fuel) i [] m = m
install_runs p (suc fuel) i (x ∷ xs) m =
    let n = run_length x.block 0 (x ∷ xs) in
    let skipped = install_runs p fuel (i + 1) xs m in
    let placed =
      install_runs p fuel (i + n) (drop n (x ∷ xs))
        (install (run_extent p i x.block n (x ∷ xs)) m) in
    if x.eligible then placed else skipped
