-- ===== src/Store/Readers.antt =====
-- The reading operations of `UnifiedBlockStore`. A read also counts itself in the statistics.
use viperblock.Prelude.{ℕ, Option, none, some, List, [], if◌then◌else◌, ◌||◌}
use viperblock.Words.{add64}
use viperblock.Block.{BlockEntry, BlockState, same_state}
use viperblock.Extents.{read_persisted}
use viperblock.Store.{Store, Stats, entry, no_stats}

-- The outcome of a read: the entry's bytes and state, or `ErrZeroBlock`.

pub data ReadResult : Type 0 where
  found : List ℕ → BlockState → ReadResult
  zero_block : ReadResult

abbrev pub count_read : Stats → Stats
count_read c = record c { reads = add64 c.reads 1 }

abbrev pub count_miss : Stats → Stats
count_miss c = record c { cache_miss = add64 c.cache_miss 1 }

abbrev pub count_backend : Stats → Stats
count_backend c = record c { backend_reads = add64 c.backend_reads 1 }

-- the counter that the `switch` of `ReadSingle` and of `ReadEntry` raises
abbrev pub count_state : BlockState → Stats → Stats
count_state BlockState.hot c = record c { hot_reads = add64 c.hot_reads 1 }
count_state BlockState.pending c = record c { pend_reads = add64 c.pend_reads 1 }
count_state BlockState.cached c = record c { cache_hits = add64 c.cache_hits 1 }
count_state BlockState.persisted c = count_backend c
count_state BlockState.empty c = count_miss c

abbrev pub with_stats : Store → Stats → Store
with_stats s c = record s { stats = c }

-- `ReadBlock`
unfoldable pub read_block : Store → ℕ → Store × Option BlockEntry
read_block s b = (
  with_stats s (count_read s.stats),
  elim (entry s b) [ some e ↦ some e | none ↦ read_persisted s.extents b ],
)

-- the `switch` of `ReadSingle`
abbrev pub single_of : BlockEntry → BlockState → ReadResult
single_of e BlockState.hot = found e.bytes BlockState.hot
single_of e BlockState.pending = found e.bytes BlockState.pending
single_of e BlockState.cached = found e.bytes BlockState.cached
single_of e BlockState.persisted = found [] BlockState.persisted
single_of e BlockState.empty = zero_block

-- `ReadSingle`
unfoldable pub read_single : Store → ℕ → Store × ReadResult
read_single s b =
    let c = count_read s.stats in
    elim (entry s b) [
      | some e ↦ (with_stats s (count_state e.state c), single_of e e.state)
      | none ↦ elim (read_persisted s.extents b) [
        | some _ ↦ (with_stats s (count_backend c), found [] BlockState.persisted)
        | none ↦ (with_stats s (count_miss c), zero_block)
      ]
    ]

-- `ReadEntry`
unfoldable pub read_entry : Store → ℕ → Store × Option BlockEntry
read_entry s b =
    let c = count_read s.stats in
    elim (entry s b) [
      | some e ↦ (with_stats s (count_state e.state c), some e)
      | none ↦ elim (read_persisted s.extents b) [
        | some pe ↦ (with_stats s (count_backend c), some pe)
        | none ↦ (with_stats s (count_miss c), none)
      ]
    ]

-- `GetPersistedInfo`: the object and the offset of a block that is on the backend
unfoldable pub get_persisted_info : Store → ℕ → Option (ℕ × ℕ)
get_persisted_info s b = elim (entry s b) [
  | some e ↦
      if same_state e.state BlockState.persisted || same_state e.state BlockState.cached
      then some (e.object_id, e.object_offset)
      else none
  | none ↦ elim (read_persisted s.extents b) [
    | some pe ↦ some (pe.object_id, pe.object_offset)
    | none ↦ none
  ]
]

-- `GetSeqNum`
unfoldable pub get_seq_num : Store → ℕ
get_seq_num s = s.seq_num

-- `Stats`: every counter of the copy is a new one.
unfoldable pub stats_copy : Store → Stats
stats_copy s = no_stats
