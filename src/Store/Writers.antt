-- ===== src/Store/Writers.antt =====
-- The operations of `UnifiedBlockStore` that write one block.
use viperblock.Prelude.{
  ℕ, Bool, true, false, ◌&&◌, ◌||◌, none, some, List, [], ltb, leb, ◌==◌, if◌then◌else◌,
}
use viperblock.Words.{add64}
use viperblock.Block.{BlockEntry, BlockState, same_state, zero_entry}
use viperblock.Extents.{find_extent, fracture_overlaps}
use viperblock.Store.{Store, entry, put, remove}

-- `entry, exists := ...; if !exists { entry = &BlockEntry{} }`

abbrev pub entry_or_zero : Store → ℕ → BlockEntry
entry_or_zero s b = elim (entry s b) [ none ↦ zero_entry | some e ↦ e ]

-- the entry of a block just written
abbrev pub hot_entry : List ℕ → ℕ → BlockEntry
hot_entry bytes seq_num = record {
  bytes = bytes;
  seq_num = seq_num;
  object_id = 0;
  object_offset = 0;
  state = BlockState.hot;
}

-- `WriteWithSeqNum`; a block that had no entry gets one whether or not the write is newer.
unfoldable pub write_with_seq_num : Store → ℕ → List ℕ → ℕ → Store
write_with_seq_num s b bytes seq_num =
    let e = entry_or_zero s b in
    put s b (if ltb e.seq_num seq_num then hot_entry bytes seq_num else e)

-- `Write`: the counter is raised first, and its new value is the write's number.
unfoldable pub write : Store → ℕ → List ℕ → Store × ℕ
write s b bytes =
    let seq_num = add64 s.seq_num 1 in
    let s' = write_with_seq_num (record s { seq_num = seq_num }) b bytes seq_num in
    let c = s'.stats in (record s' { stats = record c { writes = add64 c.writes 1 } }, seq_num)

-- The shape of the four transitions: `false` where the block has no entry or the test fails.
abbrev pub update_if : Store → ℕ → (BlockEntry → Bool) → (BlockEntry → BlockEntry) → Store × Bool
update_if s b test change = elim (entry s b) [
  | none ↦ (s, false)
  | some e ↦ if test e then (put s b (change e), true) else (s, false)
]

-- `MarkPending`
unfoldable pub mark_pending : Store → ℕ → Store × Bool
mark_pending s b =
    update_if s b (λ e. same_state e.state BlockState.hot)
      (λ e. record e { state = BlockState.pending })

-- `MarkPersisted`
unfoldable pub mark_persisted : Store → ℕ → ℕ → ℕ → ℕ → Store × Bool
mark_persisted s b object_id offset seq_num =
    update_if s b (λ e. same_state e.state BlockState.pending && (seq_num == e.seq_num))
      (λ _. record {
        bytes = [];
        seq_num = seq_num;
        object_id = object_id;
        object_offset = offset;
        state = BlockState.persisted;
      })

-- `SetPersisted`
unfoldable pub set_persisted : Store → ℕ → ℕ → ℕ → ℕ → Store
set_persisted s b object_id offset seq_num =
    let e = entry_or_zero s b in
    put s b (
      if leb e.seq_num seq_num || same_state e.state BlockState.empty
      then record {
        bytes = [];
        seq_num = seq_num;
        object_id = object_id;
        object_offset = offset;
        state = BlockState.persisted;
      }
      else e)

-- `Cache`
unfoldable pub cache : Store → ℕ → List ℕ → Store × Bool
cache s b bytes =
    update_if s b (λ e. same_state e.state BlockState.persisted)
      (λ e. record e { state = BlockState.cached; bytes = bytes })

-- `EvictCache`
unfoldable pub evict_cache : Store → ℕ → Store × Bool
evict_cache s b =
    update_if s b (λ e. same_state e.state BlockState.cached)
      (λ e. record e { state = BlockState.persisted; bytes = [] })

-- `Delete`: a block with an entry loses only the entry.
unfoldable pub delete_block : Store → ℕ → Store × Bool
delete_block s b = elim (entry s b) [
  | some _ ↦ (remove s b, true)
  | none ↦ elim (find_extent s.extents b) [
    | some _ ↦ (record s { extents = fracture_overlaps b 1 s.extents }, true)
    | none ↦ (s, false)
  ]
]

-- `SetSeqNum`
unfoldable pub set_seq_num : Store → ℕ → Store
set_seq_num s seq_num = record s { seq_num = seq_num }
