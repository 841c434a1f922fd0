-- ===== src/Drain/Chunk.antt =====
-- `createChunkFile` of viperblock/viperblock.go: one chunk is numbered, sealed where the volume is
-- encrypted, and uploaded; then its blocks leave the pending writes, and enter the block-to-object
-- map and the block store run by run. The backend is a parameter. The locks are left out, and with
-- them the interleaving of several uploads.
pub mod Runs
pub mod Place
pub mod Step
pub mod Register
pub mod Stale
use viperblock.Prelude.{
  ℕ, zero, suc, ◌+◌, ◌*◌, Bool, true, false, ◌||◌, Option, none, some, List, [], ◌∷◌, ◌++◌, map,
  ltb, leb, ◌==◌, if◌then◌else◌, length, replicate,
}
use viperblock.Words.{add64, sub64}
use viperblock.Bytes.{Bytes, slice, put_be}
use viperblock.Dict.{Dict, find, insert}
use viperblock.Conversions.{ℤ, safe_int_to_uint16, safe_int_to_uint32}
use viperblock.Crypto.{make_nonce, init_aad, update_aad, domain_chunk}
use viperblock.Lookup.{BlockLookup, Index, block_stride, resolve_block_lookup, insert_coalesced}
use viperblock.Runs.{Placement}
use viperblock.Reload.{run_blocks}
use viperblock.Store.{Store}
use viperblock.Store.Census.{Block}
use viperblock.Store.Ranges.{mark_persisted_range}
use viperblock.Wal.{Config}

-- `ChunkHeader`, under the magic bytes of a chunk
unfoldable pub chunk_header : Bytes → Config → Bytes
chunk_header chunk_magic vb = chunk_magic ++ (put_be 2 vb.version ++ put_be 4 vb.block_size)

-- The sealing loop, from the block at position `i`; none where the buffer is too short.
unfoldable pub seal_blocks : Config → Bytes → ℕ → Bytes → List Block → Option Bytes
seal_blocks vb buf i aad [] = some []
seal_blocks vb buf i aad (b ∷ bs) =
    let filled = update_aad aad b.block b.seq_num in
    let nonce = make_nonce b.seq_num vb.volume_uuid domain_chunk in
    let sealed = vb.aead.seal nonce (slice (i * vb.block_size) vb.block_size buf) filled in
    let rest = seal_blocks vb buf (suc i) filled bs in
    if ltb (length buf) (i * vb.block_size + vb.block_size)
    then none
    else elim rest [ none ↦ none | some more ↦ some (sealed ++ more) ]

-- `*bodyBuffer`
unfoldable pub body_buffer : Config → Bytes → List Block → Option Bytes
body_buffer vb buf blocks =
    if vb.encryption_enabled
    then seal_blocks vb buf 0 (init_aad (replicate 48 0) vb.volume_name_hash) blocks
    else some buf

-- the fields of `VB` that a chunk changes. `pending_bytes` stands for its 64 bits; `cached` holds the
-- blocks given to the cache, the last one first, and is none where the cache has no room; the
-- reference counts of `index` and `store` are none where they are not used.
pub record Volume : Type 0 where
  pub object_num : ℕ
  pub objects : Dict Bytes
  pub pending : List Block
  pub pending_bytes : ℕ
  pub cached : Option (List (ℕ × Bytes))
  pub index : Index
  pub dirty : Bool
  pub store : Option Store

-- `matchedBlockMap[k]`
unfoldable pub is_matched : ℕ → List Block → Bool
is_matched k [] = false
is_matched k (b ∷ bs) = (b.block == k) || is_matched k bs

-- the loop over the pending writes: those that are kept, and those that were uploaded
unfoldable pub filter_pending : List Block → List Block → List Block × List Block
filter_pending blocks [] = ([], [])
filter_pending blocks (p ∷ pending) =
    let (kept, uploaded) = filter_pending blocks pending in
    if is_matched p.block blocks then (kept, p ∷ uploaded) else (p ∷ kept, uploaded)

-- `freedBytes`
unfoldable pub freed_bytes : List Block → ℕ
freed_bytes [] = 0
freed_bytes (p ∷ uploaded) = length p.bytes + freed_bytes uploaded

unfoldable pub add_cached : List Block → List (ℕ × Bytes) → List (ℕ × Bytes)
add_cached [] cached = cached
add_cached (p ∷ uploaded) cached = add_cached uploaded ((p.block, p.bytes) ∷ cached)

-- the pending writes, the counter and the cache after an upload
unfoldable pub release_pending : List Block → Volume → Volume
release_pending blocks v =
    let (kept, uploaded) = filter_pending blocks v.pending in
    record v {
      pending = kept;
      pending_bytes = sub64 v.pending_bytes (freed_bytes uploaded);
      cached = elim v.cached [ none ↦ none | some cached ↦ some (add_cached uploaded cached) ];
    }

-- where the chunk of an upload lies
pub record Upload : Type 0 where
  pub chunk_index : ℕ
  pub header_len : ℕ
  pub stride : ℕ

-- the inner loop: the run that goes on after `prev`, and the blocks after it
unfoldable pub take_run : Block → List Block → List Block × List Block
take_run prev [] = ([], [])
take_run prev (b ∷ bs) =
    let (run, rest) = take_run b bs in
    if b.block == add64 prev.block 1 then (b ∷ run, rest) else ([], b ∷ bs)

-- `newBlock`, for the run of `first` and `more` that starts at position `run_start`
unfoldable pub new_block : Upload → ℕ → Block → List Block → BlockLookup
new_block up run_start first more = record {
  start_block = first.block;
  num_blocks = safe_int_to_uint16 (ℤ.pos (length (first ∷ more)));
  object_id = up.chunk_index;
  object_offset = safe_int_to_uint32 (ℤ.pos (up.header_len + run_start * up.stride));
  seq_num = first.seq_num;
  seq_nums = map (λ b. b.seq_num) (first ∷ more);
}

-- `hadOld && oldBlock.SeqNum >= newBlock.SeqNum`
unfoldable pub is_stale : Option (BlockLookup × ℕ) → BlockLookup → Bool
is_stale none new = false
is_stale (some (old, i)) new = leb new.seq_num old.seq_num

-- `if _, tracked := vb.gcRefcount[id]; !tracked { vb.gcRefcount[id] = 0 }`
unfoldable pub track : ℕ → Option (Dict ℕ) → Option (Dict ℕ)
track id none = none
track id (some counts) = elim (find id counts) [
  | none ↦ some (insert id 0 counts)
  | some n ↦ some counts
]

-- what becomes of one run, in the map
unfoldable pub place_run : Upload → BlockLookup → Index → Index
place_run up new x =
    if is_stale (resolve_block_lookup x.entries new.start_block) new
    then record x { gc_refcount = track new.object_id x.gc_refcount }
    else insert_coalesced new up.stride x

-- and in the block store
unfoldable pub store_run : Upload → BlockLookup → ℕ → Index → Option Store → Option Store
store_run up new n x none = none
store_run up new n x (some s) =
    let placement : Placement = record {
      object_id = up.chunk_index;
      object_offset = new.object_offset;
      stride = up.stride;
    } in
    some (
      if is_stale (resolve_block_lookup x.entries new.start_block) new
      then s
      else (mark_persisted_range s (run_blocks new 0 n) placement new.seq_nums).0)

-- The loop over the runs. A run has a block, so as many rounds as there are blocks suffice.
unfoldable pub place_runs :
    Upload → ℕ → ℕ → List Block → Index × Option Store → Index × Option Store
place_runs up zero run_start blocks state = state
place_runs up (suc fuel) run_start [] state = state
place_runs up (suc fuel) run_start (first ∷ blocks) (x, store) =
    let (more, rest) = take_run first blocks in
    let new = new_block up run_start first more in
    let n = length (first ∷ more) in
    place_runs up fuel (run_start + n) rest (place_run up new x, store_run up new n x store)

pub data ChunkResult : Type 0 where
  created length_mismatch write_failed : ChunkResult

-- the part after the upload
unfoldable pub register_chunk : Upload → List Block → Volume → Volume
register_chunk up blocks v =
    let released = release_pending blocks v in
    let (x, store) = place_runs up (length blocks) 0 blocks (v.index, v.store) in
    record released { index = x; store = store; dirty = true }

-- the part from the write on, of the number `chunk_index`
unfoldable pub upload_chunk :
    Config
    → (ℕ → Bytes → Dict Bytes → Dict Bytes × Bool)
    → Bytes
    → ℕ
    → Bytes
    → List Block
    → Volume
    → Volume × ChunkResult
upload_chunk vb write_ctx headers chunk_index body blocks v =
    let (objects, ok) = write_ctx chunk_index (headers ++ body) v.objects in
    let stored : Volume = record v { objects = objects } in
    let up : Upload = record {
      chunk_index = chunk_index;
      header_len = length headers;
      stride = block_stride vb.block_size vb.encryption_enabled;
    } in
    let registered = register_chunk up blocks stored in
    if ok then (registered, ChunkResult.created) else (stored, ChunkResult.write_failed)

-- `createChunkFile`. `write_ctx` is the backend's write of a chunk: the objects afterwards, and
-- whether it succeeded.
unfoldable pub create_chunk_file :
    Config
    → (ℕ → Bytes → Dict Bytes → Dict Bytes × Bool)
    → Bytes
    → Bytes
    → List Block
    → Volume
    → Volume × ChunkResult
create_chunk_file vb write_ctx chunk_magic buf blocks v =
    let numbered : Volume = record v { object_num = add64 v.object_num 1 } in
    elim (body_buffer vb buf blocks) [
      | none ↦ (numbered, ChunkResult.length_mismatch)
      | some body ↦
          upload_chunk vb write_ctx (chunk_header chunk_magic vb) v.object_num body blocks numbered
    ]
