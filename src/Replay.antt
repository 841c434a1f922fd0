-- ===== src/Replay.antt =====
-- `RecoverLocalWALs` of viperblock/viperblock.go: the segments that a crash left are read, their
-- blocks are put into chunks, the state is saved, and the segments that were read are removed. The
-- files stand in the order of their names; how the saves go is an argument.
pub mod Files
use viperblock.Prelude.{
  ℕ, Bool, true, false, not, Option, none, some, List, [], ◌∷◌, ◌++◌, leb, if◌then◌else◌,
}
use viperblock.Bytes.{Bytes}
use viperblock.Dict.{Dict}
use viperblock.Lookup.{BlockLookup, block_stride}
use viperblock.Reload.{max_object, raise_object_num, fill_store}
use viperblock.Store.{Store}
use viperblock.Store.Census.{Block}
use viperblock.Wal.{Config, Recovered, RecoveryError, larger, read_wal_file_for_recovery}
use viperblock.Drain.{ChunkJob, chunk_jobs}
use viperblock.Drain.Chunk.{Volume, ChunkResult, create_chunk_file}

-- a segment: `contents` is none where it cannot be opened, and `faults` tells which reads fail.
pub record File : Type 0 where
  pub name : Bytes
  pub contents : Option Bytes
  pub faults : ℕ → Bool

-- `readWALFileForRecovery` on a file
unfoldable pub read_file : Config → File → Recovered
read_file vb file = elim file.contents [
  | none ↦ Recovered.refused RecoveryError.io_error
  | some raw ↦ read_wal_file_for_recovery vb file.faults raw
]

-- what the loop over the files gathers: `allBlocks`, `maxSeqNum` and `successFiles`
pub record Gathered : Type 0 where
  pub blocks : List Block
  pub max_seq_num : ℕ
  pub names : List Bytes

-- `errors.Is(err, ErrIntegrity)` ends the loop; another error only leaves the file out.
unfoldable pub after_refusal : RecoveryError → Option Gathered → Option Gathered
after_refusal RecoveryError.integrity rest = none
after_refusal RecoveryError.short_header rest = rest
after_refusal RecoveryError.pre_encryption rest = rest
after_refusal RecoveryError.bad_magic rest = rest
after_refusal RecoveryError.bad_version rest = rest
after_refusal RecoveryError.bad_block_size rest = rest
after_refusal RecoveryError.io_error rest = rest

-- one file more, before those after it; none is an integrity failure.
unfoldable pub gather_one : Bytes → Recovered → Option Gathered → Option Gathered
gather_one name (Recovered.recovered blocks m) none = none
gather_one name (Recovered.recovered blocks m) (some g) = some (record {
  blocks = blocks ++ g.blocks;
  max_seq_num = larger m g.max_seq_num;
  names = name ∷ g.names;
})
gather_one name (Recovered.refused e) rest = after_refusal e rest

unfoldable pub gather : Config → List File → Option Gathered
gather vb [] = some (record { blocks = []; max_seq_num = 0; names = [] })
gather vb (file ∷ files) = gather_one file.name (read_file vb file) (gather vb files)

-- the entries of the map, in its order
unfoldable pub entries_of : Dict BlockLookup → List BlockLookup
entries_of [] = []
entries_of ((k, bl) ∷ m) = bl ∷ entries_of m

-- the loop that raises `ObjectNum` past the chunks that the map names
unfoldable pub reconcile_object_num : Volume → Volume
reconcile_object_num v = record v {
  object_num = raise_object_num (max_object (entries_of v.index.entries) none) v.object_num;
}

-- The chunks, one after the other; false where one is not created.
unfoldable pub create_chunks :
    Config
    → (ℕ → Bytes → Dict Bytes → Dict Bytes × Bool)
    → Bytes
    → List ChunkJob
    → Volume
    → Volume × Bool
create_chunks vb write_ctx chunk_magic [] v = (v, true)
create_chunks vb write_ctx chunk_magic (job ∷ jobs) v =
    let (w, result) = create_chunk_file vb write_ctx chunk_magic job.buf job.blocks v in
    let rest = create_chunks vb write_ctx chunk_magic jobs w in
    elim result [
      | ChunkResult.created ↦ rest
      | ChunkResult.length_mismatch ↦ (w, false)
      | ChunkResult.write_failed ↦ (w, false)
    ]

-- the loop that enters the runs of the map in the block store
unfoldable pub sync_store : Config → Volume → Volume
sync_store vb v =
    let stride = block_stride vb.block_size vb.encryption_enabled in
    record v {
      store = elim v.store [ none ↦ none | some s ↦ some (fill_store stride v.index.entries s) ];
    }

pub data ReplayResult : Type 0 where
  done integrity_failure chunk_failed state_not_saved blocks_not_saved : ReplayResult

-- the volume, `SeqNum`, and the names of the files that were removed
pub record Replayed : Type 0 where
  pub volume : Volume
  pub seq_num : ℕ
  pub removed : List Bytes

-- the part after the chunks: the saves, and the removal of the files
unfoldable pub save_replay : Bool → Bool → List Bytes → Replayed → Replayed × ReplayResult
save_replay state_saved blocks_saved names r =
    if not state_saved
    then (r, ReplayResult.state_not_saved)
    else if not blocks_saved
    then (r, ReplayResult.blocks_not_saved)
    else (record r { removed = names }, ReplayResult.done)

-- the part from the blocks on, where there is a block
unfoldable pub replay_blocks :
    Config
    → (ℕ → Bytes → Dict Bytes → Dict Bytes × Bool)
    → Bytes
    → ℕ
    → Bool
    → Bool
    → Gathered
    → Replayed
    → Replayed × ReplayResult
replay_blocks vb write_ctx chunk_magic obj_block_size state_saved blocks_saved g r =
    let jobs = chunk_jobs obj_block_size g.blocks in
    let (v, ok) = create_chunks vb write_ctx chunk_magic jobs (reconcile_object_num r.volume) in
    let saved =
      save_replay state_saved blocks_saved g.names
        (record r { volume = sync_store vb v; seq_num = larger r.seq_num g.max_seq_num }) in
    if ok then saved else (record r { volume = v }, ReplayResult.chunk_failed)

unfoldable pub replay_gathered :
    Config
    → (ℕ → Bytes → Dict Bytes → Dict Bytes × Bool)
    → Bytes
    → ℕ
    → Bool
    → Bool
    → Option Gathered
    → Replayed
    → Replayed × ReplayResult
replay_gathered vb write_ctx chunk_magic obj_block_size state_saved blocks_saved none r =
    (r, ReplayResult.integrity_failure)
replay_gathered vb write_ctx chunk_magic obj_block_size state_saved blocks_saved (some g) r =
    elim g.blocks [
      | [] ↦ (record r { removed = g.names }, ReplayResult.done)
      | ◌∷◌ b bs ↦
          replay_blocks vb write_ctx chunk_magic obj_block_size state_saved blocks_saved g r
    ]

-- `RecoverLocalWALs`, on the files of the directory; without one there is nothing to do.
unfoldable pub recover_local_wals :
    Config
    → (ℕ → Bytes → Dict Bytes → Dict Bytes × Bool)
    → Bytes
    → ℕ
    → Bool
    → Bool
    → List File
    → Volume
    → ℕ
    → Replayed × ReplayResult
recover_local_wals vb write_ctx chunk_magic obj_block_size state_saved blocks_saved files v
      seq_num =
    replay_gathered vb write_ctx chunk_magic obj_block_size state_saved blocks_saved
      (gather vb files) (record { volume = v; seq_num = seq_num; removed = [] })
