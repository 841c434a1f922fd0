-- ===== src/Drain.antt =====
-- How the blocks of a drained or recovered log become chunks: the part that `WriteWALToChunkCtx`,
-- `WriteShardedWALToChunkCtx` and `RecoverLocalWALs` of viperblock/viperblock.go share. The newest
-- record of each block is kept, the blocks are sorted, and cut into chunks. `Drain.Chunk` models
-- what `createChunkFile` does with one chunk.
pub mod Order
pub mod Newest
pub mod Cut
pub mod Chunk
use viperblock.Prelude.{
  ℕ, zero, suc, ◌+◌, Bool, true, false, Option, none, some, List, [], ◌∷◌, ◌++◌, ltb, leb,
  if◌then◌else◌, length, get_elem?,
}
use viperblock.Bytes.{Bytes}
use viperblock.Dict.{Dict, find, insert}
use viperblock.Store.Census.{Block}

-- `BlockOptimised`
pub record BlockOptimised : Type 0 where
  pub seq_num : ℕ
  pub index : ℕ

-- `!ok || existing.SeqNum < block.SeqNum`
abbrev pub supersedes : ℕ → Option BlockOptimised → Bool
supersedes seq_num none = true
supersedes seq_num (some existing) = ltb existing.seq_num seq_num

-- one round of the loop that fills `blocksMap`
unfoldable pub note : ℕ → Block → Dict BlockOptimised → Dict BlockOptimised
note i block m =
    if supersedes block.seq_num (find block.block m)
    then insert block.block (record { seq_num = block.seq_num; index = i }) m
    else m

-- the loop, for the blocks from index `i` on
unfoldable pub blocks_map : ℕ → List Block → Dict BlockOptimised → Dict BlockOptimised
blocks_map i [] m = m
blocks_map i (block ∷ blocks) m = blocks_map (suc i) blocks (note i block m)

-- `&blocks[block.Index]`, for the entries of the map in its order
unfoldable pub picked : List Block → Dict BlockOptimised → List Block
picked blocks [] = []
picked blocks ((k, o) ∷ m) =
    let rest = picked blocks m in
    elim (get_elem? blocks o.index) [ none ↦ rest | some block ↦ block ∷ rest ]

-- `sort.Slice` by block number, on blocks that are all different
unfoldable pub insert_block : Block → List Block → List Block
insert_block b [] = b ∷ []
insert_block b (x ∷ xs) =
    let rest = insert_block b xs in if leb b.block x.block then b ∷ x ∷ xs else x ∷ rest

unfoldable pub sort_blocks : List Block → List Block
sort_blocks [] = []
sort_blocks (b ∷ bs) = insert_block b (sort_blocks bs)

-- `sortedBlocks`
unfoldable pub sorted_blocks : List Block → List Block
sorted_blocks blocks = sort_blocks (picked blocks (blocks_map 0 blocks []))

-- `chunkJob`
pub record ChunkJob : Type 0 where
  pub buf : Bytes
  pub blocks : List Block

-- the block without its data, as it is handed on
abbrev pub matched : Block → Block
matched block = record { seq_num = block.seq_num; block = block.block; len = 0; bytes = [] }

-- The loop that fills `chunkBuffer` and `matchedBlocks` and submits them where the buffer is full,
-- and the submission of what remains.
unfoldable pub cut_chunks : ℕ → Bytes → List Block → List Block → List ChunkJob
cut_chunks obj_block_size buf blocks [] =
    if ltb 0 (length buf) then record { buf = buf; blocks = blocks } ∷ [] else []
cut_chunks obj_block_size buf blocks (b ∷ bs) =
    elim (leb obj_block_size (length (buf ++ b.bytes))) [
      | true ↦
          record { buf = buf ++ b.bytes; blocks = blocks ++ (matched b ∷ []) }
          ∷ cut_chunks obj_block_size [] [] bs
      | false ↦ cut_chunks obj_block_size (buf ++ b.bytes) (blocks ++ (matched b ∷ [])) bs
    ]

-- the chunks of the blocks that a log held
unfoldable pub chunk_jobs : ℕ → List Block → List ChunkJob
chunk_jobs obj_block_size blocks = cut_chunks obj_block_size [] [] (sorted_blocks blocks)
