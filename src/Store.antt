-- ===== src/Store.antt =====
-- `UnifiedBlockStore` of viperblock/blockstore.go: sixteen shards of block entries, the index of
-- coalesced extents, the sequence counter and the statistics. The locks are left out: each
-- operation is one step, and `MarkPersistedRange`, which takes locks several times, is given pass
-- by pass. A byte slice is its contents; no entry's bytes are written in place.
pub mod Readers
pub mod Writers
pub mod Ranges
pub mod Census
pub mod View
use viperblock.Prelude.{
  ℕ, ◌%◌, ◌≡◌, refl, Option, none, some, List, [], length, get_or, set, replicate, arith, ◌==◌,
  if◌then◌else◌,
}
use viperblock.Dict.{Dict, find, insert, delete}
use viperblock.Block.{BlockEntry}
use viperblock.Extents.{Extent}

-- `BlockStoreStats`
pub record Stats : Type 0 where
  pub reads : ℕ
  pub writes : ℕ
  pub cache_hits : ℕ
  pub cache_miss : ℕ
  pub hot_reads : ℕ
  pub pend_reads : ℕ
  pub backend_reads : ℕ

abbrev pub no_stats : Stats
no_stats = record {
  reads = 0;
  writes = 0;
  cache_hits = 0;
  cache_miss = 0;
  hot_reads = 0;
  pend_reads = 0;
  backend_reads = 0;
}

-- `UnifiedBlockStore`
pub record Store : Type 0 where
  pub shards : List (Dict BlockEntry)
  pub block_size : ℕ
  pub seq_num : ℕ
  pub extents : Dict Extent
  pub stats : Stats

-- `NumShards`
abbrev pub num_shards : ℕ
num_shards = 16

-- `NewUnifiedBlockStore`
unfoldable pub new_store : ℕ → Store
new_store block_size = record {
  shards = replicate num_shards [];
  block_size = block_size;
  seq_num = 0;
  extents = [];
  stats = no_stats;
}

-- `blockNum & ShardMask`: the mask is one less than the power of two `NumShards`.
abbrev pub shard_index : ℕ → ℕ
shard_index b = b % num_shards

-- `getShard`
unfoldable pub get_shard : Store → ℕ → Dict BlockEntry
get_shard s b = get_or s.shards (shard_index b) []

-- `entry, exists := shard.entries[blockNum]`
unfoldable pub entry : Store → ℕ → Option BlockEntry
unfolding get_shard
entry s b = find b (get_shard s b)

-- `shard.entries[blockNum] = entry`, and a write through the entry's pointer
unfoldable pub put : Store → ℕ → BlockEntry → Store
unfolding get_shard
put s b e = record s { shards = set s.shards (shard_index b) (insert b e (get_shard s b)) }

-- `delete(shard.entries, blockNum)`
unfoldable pub remove : Store → ℕ → Store
unfolding get_shard
remove s b = record s { shards = set s.shards (shard_index b) (delete b (get_shard s b)) }
