-- ===== src/Store/View.antt =====
-- What a store says of each block, whichever index holds it, and how one entry's change shows.
pub mod Readers
pub mod Writers
pub mod Stale
pub mod Finalize
pub mod Ranges
pub mod Races
pub mod Cycle
pub mod Load
pub mod Removal
pub mod Lifecycle
pub mod Dirty
use viperblock.Prelude.{
  ℕ, ◌+◌, ◌<◌, ◌≤◌, ◌≡◌, ◌≢◌, refl, ◌∙◌, Option, none, some, List, [], ◌∷◌, arith, length, get_or,
  set, length-set, get_or-set, ◌==◌, if◌then◌else◌,
}
use viperblock.Words.{u64}
use viperblock.Dict.{Dict, find, insert, delete, find-insert, find-delete}
use viperblock.Block.{BlockEntry}
use viperblock.Extents.{read_persisted}
use viperblock.Extents.Lookup.{IsWf}
use viperblock.Store.{Store, entry, get_shard, shard_index, num_shards, put, remove, new_store}

-- the entry in a shard, or else the extent that covers the block
abbrev pub view : Store → ℕ → Option BlockEntry
view s b = elim (entry s b) [ some e ↦ some e | none ↦ read_persisted s.extents b ]

-- A store has all its shards and a well-formed extent index.
pub record IsValid (s : Store) : Type 0 where
  pub sharded : length s.shards ≡ num_shards
  pub extents : IsWf s.extents

-- No entry's sequence number is ahead of the counter, which is not about to wrap.
pub record IsIssued (s : Store) : Type 0 where
  pub bounded : s.seq_num + 1 < u64
  pub issued : (b : ℕ) (e : BlockEntry) → entry s b ≡ some e → e.seq_num ≤ s.seq_num

module _ (s : Store) (sharded : length s.shards ≡ num_shards) (b : ℕ) where
  pub entry-put :
      (e : BlockEntry) (j : ℕ) → entry (put s b e) j ≡ (if b == j then some e else entry s j)
  unfolding entry put
  entry-put e j = ground (
    arith,
    get_or-set s.shards (shard_index b) (shard_index j) (insert b e (get_shard s b)) [],
    find-insert b j e (get_or s.shards (shard_index j) []),
  )

  pub entry-remove : (j : ℕ) → entry (remove s b) j ≡ (if b == j then none else entry s j)
  unfolding entry remove
  entry-remove j = ground (
    arith,
    get_or-set s.shards (shard_index b) (shard_index j) (delete b (get_shard s b)) [],
    find-delete b j (get_or s.shards (shard_index j) []),
  )

  pub put-sharded : (e : BlockEntry) → length (put s b e).shards ≡ num_shards
  unfolding put
  put-sharded e = length-set s.shards (shard_index b) _ ∙ sharded

  pub remove-sharded : length (remove s b).shards ≡ num_shards
  unfolding remove
  remove-sharded = length-set s.shards (shard_index b) _ ∙ sharded
