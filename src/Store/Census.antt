-- ===== src/Store/Census.antt =====
-- The operations of `UnifiedBlockStore` that go through all of its blocks. A shard's map is visited
-- in the order of its list.
pub mod Totals
use viperblock.Prelude.{ℕ, ◌+◌, List, [], ◌∷◌, ◌++◌, length, replicate, if◌then◌else◌}
use viperblock.Dict.{Dict}
use viperblock.Block.{BlockEntry, BlockState, same_state}
use viperblock.Extents.{Extent}
use viperblock.Store.{Store, num_shards}

-- the fields of `Block` that these operations set
pub record Block : Type 0 where
  pub seq_num : ℕ
  pub block : ℕ
  pub len : ℕ
  pub bytes : List ℕ

-- the loop over one shard of `GetBlocksByState`
unfoldable pub blocks_in : BlockState → Dict BlockEntry → List ℕ
blocks_in st [] = []
blocks_in st ((b, e) ∷ m) =
    let rest = blocks_in st m in if same_state e.state st then b ∷ rest else rest

unfoldable pub blocks_in_all : BlockState → List (Dict BlockEntry) → List ℕ
unfolding blocks_in
blocks_in_all st [] = []
blocks_in_all st (m ∷ ms) = blocks_in st m ++ blocks_in_all st ms

-- `GetBlocksByState`
unfoldable pub get_blocks_by_state : Store → BlockState → List ℕ
unfolding blocks_in_all
get_blocks_by_state s st = blocks_in_all st s.shards

-- the loop over one shard of `GetHotBlocks` and of `GetPendingBlocks`
unfoldable pub data_in : BlockState → Dict BlockEntry → List Block
data_in st [] = []
data_in st ((b, e) ∷ m) =
    let rest = data_in st m in
    if same_state e.state st
    then record { seq_num = e.seq_num; block = b; len = length e.bytes; bytes = e.bytes } ∷ rest
    else rest

unfoldable pub data_in_all : BlockState → List (Dict BlockEntry) → List Block
unfolding data_in
data_in_all st [] = []
data_in_all st (m ∷ ms) = data_in st m ++ data_in_all st ms

-- `GetHotBlocks`
unfoldable pub get_hot_blocks : Store → List Block
unfolding data_in_all
get_hot_blocks s = data_in_all BlockState.hot s.shards

-- `GetPendingBlocks`
unfoldable pub get_pending_blocks : Store → List Block
unfolding data_in_all
get_pending_blocks s = data_in_all BlockState.pending s.shards

unfoldable pub entries_total : List (Dict BlockEntry) → ℕ
entries_total [] = 0
entries_total (m ∷ ms) = length m + entries_total ms

unfoldable pub extents_total : Dict Extent → ℕ
extents_total [] = 0
extents_total ((k, pe) ∷ m) = pe.num_blocks + extents_total m

-- `Count`
unfoldable pub count : Store → ℕ
unfolding entries_total extents_total
count s = entries_total s.shards + extents_total s.extents

-- `PersistedExtentCount`
unfoldable pub persisted_extent_count : Store → ℕ
persisted_extent_count s = length s.extents

-- the loop over one shard of `CountByState`, for the state `st`
unfoldable pub tally : BlockState → Dict BlockEntry → ℕ
tally st [] = 0
tally st ((b, e) ∷ m) = (if same_state e.state st then 1 else 0) + tally st m

unfoldable pub tally_all : BlockState → List (Dict BlockEntry) → ℕ
unfolding tally
tally_all st [] = 0
tally_all st (m ∷ ms) = tally st m + tally_all st ms

-- `CountByState`: the count that the returned map gives a state, 0 where the state is no key of it
unfoldable pub count_by_state : Store → BlockState → ℕ
unfolding tally_all extents_total
count_by_state s st =
    tally_all st s.shards
    + (if same_state st BlockState.persisted then extents_total s.extents else 0)

-- `Clear`
unfoldable pub clear : Store → Store
clear s = record s { shards = replicate num_shards []; extents = [] }

-- `GetStats`: reads, writes, cache hits and cache misses
unfoldable pub get_stats : Store → ℕ × ℕ × ℕ × ℕ
get_stats s = let c = s.stats in (c.reads, c.writes, c.cache_hits, c.cache_miss)
