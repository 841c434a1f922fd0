-- ===== src/Gc.antt =====
-- The garbage collection of chunks of viperblock/viperblock.go: `sweepChunks` with the checks before
-- it, the floor that the numbered checkpoint sets, the reconciliation with the chunks of the
-- backend, and the deletions. What the backend answers during one sweep is an argument, and the
-- parsing of JSON and of keys, which libraries do, is a part of it. The locks are left out.
pub mod Tally
pub mod Counts
pub mod Keeps
pub mod Floor
pub mod Sweep
pub mod History
use viperblock.Prelude.{
  ℕ, ◌-◌, Bool, true, false, ◌&&◌, ◌||◌, not, Option, none, some, List, [], ◌∷◌, ltb, leb, ◌==◌,
  if◌then◌else◌,
}
use viperblock.Words.{u64, add64}
use viperblock.Bytes.{Bytes}
use viperblock.Dict.{Dict, find, insert, delete, keys}
use viperblock.Lookup.{BlockLookup}
use viperblock.Checkpoint.{equal, walk_block_checkpoint, CheckpointError}
use viperblock.Reload.{max_object}

-- the outcome of one read: an object that is not there is told apart from other errors.
pub data Read : Type 0 where
  missing failed : Read
  bytes : Bytes → Read

-- what the backend answers during one sweep
pub record Answers : Type 0 where
  pub marker_before : Read
  pub snapshots : Option (List Bytes)
  pub config : Bytes → Read
  pub source_volume_name : Bytes → Option Bytes
  pub chunk_keys : Option (List Bytes)
  pub chunk_object_id : Bytes → Option ℕ
  pub checkpoint : Read
  pub marker_after : Read
  pub delete_fails : ℕ → Bool

-- the fields of `VB` that a sweep uses; a marker that is absent is the empty slice, as
-- `bytes.Equal` has it.
pub record Collector : Type 0 where
  pub gc_enabled : Bool
  pub volume_name : Bytes
  pub version : ℕ
  pub wal_magic : Bytes
  pub latched_off : Bool
  pub snapshot_checked : Bool
  pub snapshot_safe : Bool
  pub marker_baseline : Bytes
  pub reconciled : Bool
  pub floor : Option ℕ
  pub object_num : ℕ
  pub gc_refcount : Dict ℕ

-- `readSnapshotMarker`; none is an error.
unfoldable pub read_snapshot_marker : Read → Option Bytes
read_snapshot_marker missing = some []
read_snapshot_marker failed = none
read_snapshot_marker (bytes b) = some b

-- one candidate of `scanForOwnSnapshots`: whether the scan goes on, or its answer
pub data Probe : Type 0 where
  goes_on broken ours : Probe

unfoldable pub probe_body : Bytes → Option Bytes → Probe
probe_body volume_name none = Probe.broken
probe_body volume_name (some source) =
    if equal source volume_name then Probe.ours else Probe.goes_on

unfoldable pub probe_read : Answers → Bytes → Read → Probe
probe_read backend volume_name missing = Probe.goes_on
probe_read backend volume_name failed = Probe.broken
probe_read backend volume_name (bytes b) = probe_body volume_name (backend.source_volume_name b)

unfoldable pub after_probe : Probe → Option Bool → Option Bool
after_probe Probe.goes_on rest = rest
after_probe Probe.broken rest = none
after_probe Probe.ours rest = some false

-- the loop of `scanForOwnSnapshots`
unfoldable pub scan_names : Answers → Bytes → List Bytes → Option Bool
scan_names backend volume_name [] = some true
scan_names backend volume_name (name ∷ names) =
    after_probe (probe_read backend volume_name (backend.config name))
      (scan_names backend volume_name names)

-- `scanForOwnSnapshots`; none is an error.
unfoldable pub scan_for_own_snapshots : Answers → Bytes → Option Bool
scan_for_own_snapshots backend volume_name = elim backend.snapshots [
  | none ↦ none
  | some names ↦ scan_names backend volume_name names
]

-- the part of `ensureGCSnapshotSafe` after the cached answers
unfoldable pub first_scan : Collector → Option Bytes → Option Bool → Collector × Bool
first_scan v none scanned = (v, false)
first_scan v (some baseline) none = (v, false)
first_scan v (some baseline) (some safe) =
    (record v { marker_baseline = baseline; snapshot_safe = safe; snapshot_checked = true }, safe)

-- `ensureGCSnapshotSafe`
unfoldable pub ensure_gc_snapshot_safe : Answers → Collector → Collector × Bool
ensure_gc_snapshot_safe backend v =
    if v.latched_off
    then (v, false)
    else if v.snapshot_checked
    then (v, v.snapshot_safe)
    else first_scan v (read_snapshot_marker backend.marker_before)
        (scan_for_own_snapshots backend v.volume_name)

-- `numberedCheckpointHighWater`: none is an error, and `some none` no object.
unfoldable pub numbered_checkpoint_high_water : Collector → Read → Option (Option ℕ)
numbered_checkpoint_high_water v missing = some none
numbered_checkpoint_high_water v failed = none
numbered_checkpoint_high_water v (bytes b) =
    let (blocks, error) = walk_block_checkpoint b v.version v.wal_magic in
    elim error [ some e ↦ none | none ↦ some (max_object blocks none) ]

-- the floor under what the checkpoint says
abbrev pub floor_of : Option ℕ → ℕ
floor_of none = 0
floor_of (some high) = add64 high 1

-- the part of `ensureGCFloor` that reads the checkpoint
unfoldable pub fresh_floor : Collector → Option (Option ℕ) → Collector × ℕ
fresh_floor v none = (v, u64 - 1)
fresh_floor v (some high) = (record v { floor = some (floor_of high) }, floor_of high)

-- `ensureGCFloor`
unfoldable pub ensure_gc_floor : Answers → Collector → Collector × ℕ
ensure_gc_floor backend v =
    let fresh = fresh_floor v (numbered_checkpoint_high_water v backend.checkpoint) in
    elim v.floor [ some floor ↦ (v, floor) | none ↦ fresh ]

-- `if _, tracked := vb.gcRefcount[id]; !tracked { vb.gcRefcount[id] = 0 }`
unfoldable pub track_chunk : ℕ → Dict ℕ → Dict ℕ
track_chunk id counts = elim (find id counts) [ none ↦ insert id 0 counts | some n ↦ counts ]

unfoldable pub track_keys : Answers → List Bytes → Dict ℕ → Dict ℕ
track_keys backend [] counts = counts
track_keys backend (key ∷ ks) counts =
    track_keys backend ks
      (elim (backend.chunk_object_id key) [ none ↦ counts | some id ↦ track_chunk id counts ])

-- `reconcileChunksOnce`
unfoldable pub reconcile_chunks_once : Answers → Collector → Collector
reconcile_chunks_once backend v = if v.reconciled then v else elim backend.chunk_keys [
  | none ↦ v
  | some ks ↦ record v { gc_refcount = track_keys backend ks v.gc_refcount; reconciled = true }
]

-- the loop over the reference counts
unfoldable pub candidates_among : Dict ℕ → ℕ → ℕ → List ℕ → List ℕ
candidates_among counts floor watermark [] = []
candidates_among counts floor watermark (id ∷ ids) =
    let rest = candidates_among counts floor watermark ids in
    elim (find id counts) [
      | none ↦ rest
      | some refs ↦ if (refs == 0) && (leb floor id && ltb id watermark) then id ∷ rest else rest
    ]

-- `gcSnapshotMarkerMoved`
unfoldable pub gc_snapshot_marker_moved : Read → Collector → Collector × Bool
gc_snapshot_marker_moved answer v = elim (read_snapshot_marker answer) [
  | none ↦ (v, true)
  | some current ↦
      let moved = not (equal current v.marker_baseline) in
      (record v { latched_off = v.latched_off || moved }, moved)
]

-- `deleteChunkObjects`, with the chunks that it asked the backend to delete
unfoldable pub delete_chunk_objects : Answers → List ℕ → Collector → Collector
delete_chunk_objects backend [] v = v
delete_chunk_objects backend (id ∷ ids) v =
    delete_chunk_objects backend ids
      (if backend.delete_fails id then v else record v { gc_refcount = delete id v.gc_refcount })

-- the part of `sweepChunks` after the safety check, with the chunks that it asks the backend to
-- delete
unfoldable pub collect_chunks : Answers → Collector → Collector × List ℕ
collect_chunks backend v =
    let (w, floor) = ensure_gc_floor backend (reconcile_chunks_once backend v) in
    let candidates = candidates_among w.gc_refcount floor w.object_num (keys w.gc_refcount) in
    let (u, moved) = gc_snapshot_marker_moved backend.marker_after w in
    if moved then (u, []) else (delete_chunk_objects backend candidates u, candidates)

-- `sweepChunks`
unfoldable pub sweep_chunks : Answers → Collector → Collector × List ℕ
sweep_chunks backend v =
    let (w, safe) = ensure_gc_snapshot_safe backend v in
    let collected = collect_chunks backend w in
    if not v.gc_enabled then (v, []) else if not safe then (w, []) else collected
