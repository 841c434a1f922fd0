-- ===== src/Device.antt =====
-- Reading blocks from chunk objects, of viperblock/viperblock.go: `checkChunkMagic`, `openChunkRun`,
-- `fetchConsecutiveBlocksFromBackend` and `fetchBaseBlocksFromBackend`. The backend's reads are a
-- parameter, by object, offset and length. Positions lie within the buffer, whose length is a
-- `uint64`; `OffsetStart` and `OffsetEnd`, which are only logged, are left out. The two fetches
-- differ in the backend's read and in the words of their errors, which are not told apart.
pub mod Buffer
pub mod Runs
pub mod Decode
pub mod Fetch
pub mod Fill
pub mod Read
pub mod Collect
pub mod Gather
pub mod Layers
pub mod Reads
pub mod Cache
pub mod Remember
pub mod Keeps
pub mod Transparent
pub mod Write
pub mod ReadAt
pub mod Reserve
pub mod Patch
pub mod Splice
pub mod Published
pub mod WriteBlock
pub mod WriteAt
pub mod ReadBack
pub mod Cached
pub mod AtHand
pub mod Unchanged
use viperblock.Prelude.{
  ℕ, zero, suc, ◌+◌, ◌*◌, Bool, true, false, ◌&&◌, ◌||◌, not, Option, none, some, List, [], ◌∷◌,
  ◌++◌, map, ltb, ◌==◌, if◌then◌else◌, length, take, drop, replicate,
}
use viperblock.Words.{add32, add64, mul32}
use viperblock.Bytes.{Bytes, slice}
use viperblock.Dict.{Dict}
use viperblock.Conversions.{ℤ, safe_int_to_uint16}
use viperblock.Crypto.{make_nonce, init_aad, update_aad, domain_chunk}
use viperblock.Checkpoint.{equal}
use viperblock.Lookup.{BlockLookup, block_stride}
use viperblock.Store.{Store}
use viperblock.Store.Writers.{cache}
use viperblock.Wal.{Aead}

pub data ReadError : Type 0 where
  too_large out_of_range bad_block_size no_source backend_failed short_header pre_encryption :
      ReadError
  unknown_magic short_read bad_run integrity panicked : ReadError

pub data Result {ℓ} (A : Type ℓ) : Type ℓ where
  ok : A → Result A
  err : ReadError → Result A

-- the fields of `VB` that a chunk's bytes depend on
pub record Codec : Type 0 where
  pub block_size : ℕ
  pub encryption_enabled : Bool
  pub aead : Aead

-- a volume that chunks belong to: its name, its UUID and the hash of its name
pub record Source : Type 0 where
  pub name : Bytes
  pub uuid : Bytes
  pub name_hash : Bytes

-- the reads of chunk objects of one volume; none where the backend reports an error
abbrev pub Reader : Type 0
Reader = ℕ → ℕ → ℕ → Option Bytes

-- What reading changes: the block store, the chunks whose magic was checked, and the blocks given
-- to the cache, the last one first, which is none where the cache has no room.
pub record Memory : Type 0 where
  pub store : Store
  pub checked : List (Bytes × ℕ)
  pub cached : Option (List (ℕ × Bytes))

-- `ConsecutiveBlock`, of one block
pub record ConsecutiveBlock : Type 0 where
  pub block_position : ℕ
  pub start_block : ℕ
  pub object_id : ℕ
  pub object_offset : ℕ
  pub seq_num : ℕ

-- `ConsecutiveBlock`, of a run
pub record ConsecutiveRun : Type 0 where
  pub block_position : ℕ
  pub start_block : ℕ
  pub num_blocks : ℕ
  pub object_id : ℕ
  pub object_offset : ℕ
  pub seq_nums : List ℕ

-- `copy(b[start:start+width], from)`, for bounds within `b`
abbrev pub copy_into : ℕ → ℕ → Bytes → Bytes → Bytes
copy_into start width from b =
    take start b ++ (take width from ++ drop (start + length (take width from)) b)

unfoldable pub is_checked : Bytes → ℕ → List (Bytes × ℕ) → Bool
is_checked name id [] = false
is_checked name id ((other, j) ∷ checked) =
    (equal name other && (id == j)) || is_checked name id checked

-- the tests of the first four bytes
unfoldable pub check_header : Bytes → Option ReadError
check_header header =
    if ltb (length header) 4
    then some ReadError.short_header
    else if equal (take 4 header) (86 ∷ 66 ∷ 67 ∷ 72 ∷ [])
    then some ReadError.pre_encryption
    else if not (equal (take 4 header) (86 ∷ 66 ∷ 67 ∷ 69 ∷ []))
    then some ReadError.unknown_magic
    else none

unfoldable pub note_checked : Bytes → ℕ → Option ReadError → Memory → Result Memory
note_checked name id none m = ok (record m { checked = (name, id) ∷ m.checked })
note_checked name id (some e) m = err e

-- `checkChunkMagic`
unfoldable pub check_chunk_magic : Codec → Bytes → ℕ → Reader → Memory → Result Memory
check_chunk_magic vb name id read m =
    if not vb.encryption_enabled
    then ok m
    else if is_checked name id m.checked
    then ok m
    else elim (read id 0 4) [
      | none ↦ err ReadError.backend_failed
      | some header ↦ note_checked name id (check_header header) m
    ]

-- the loop of `openChunkRun`, from the block at position `k`
unfoldable pub open_blocks : Codec → Source → ℕ → ℕ → Bytes → Bytes → List ℕ → Result Bytes
open_blocks vb volume start_block k aad ciphertext [] = ok []
open_blocks vb volume start_block k aad ciphertext (seq_num ∷ seq_nums) =
    let filled = update_aad aad (add64 start_block k) seq_num in
    let nonce = make_nonce seq_num volume.uuid domain_chunk in
    let sealed = slice (k * (vb.block_size + 16)) (vb.block_size + 16) ciphertext in
    let rest = open_blocks vb volume start_block (suc k) filled ciphertext seq_nums in
    elim (vb.aead.unseal nonce sealed filled) [
      | none ↦ err ReadError.integrity
      | some plain ↦ elim rest [ err e ↦ err e | ok more ↦ ok (plain ++ more) ]
    ]

-- `openChunkRun`; its buffer is the part of `data` that the run fills.
unfoldable pub open_chunk_run : Codec → Source → Bytes → ConsecutiveRun → Result Bytes
open_chunk_run vb volume ciphertext cb =
    if not (length ciphertext == cb.num_blocks * (vb.block_size + 16))
    then err ReadError.bad_run
    else if not (length cb.seq_nums == cb.num_blocks)
    then err ReadError.bad_run
    else open_blocks vb volume cb.start_block 0 (init_aad (replicate 48 0) volume.name_hash)
        ciphertext cb.seq_nums

-- The blocks that go on after `prev` in the same object.
unfoldable pub run_after : ConsecutiveBlock → List ConsecutiveBlock → List ConsecutiveBlock
run_after prev [] = []
run_after prev (cb ∷ cbs) =
    let run = run_after cb cbs in
    if (cb.start_block == add64 prev.start_block 1) && (cb.object_id == prev.object_id)
    then cb ∷ run
    else []

-- a run of the block `first` and those after it
unfoldable pub run_of : Codec → ConsecutiveBlock → List ConsecutiveBlock → ConsecutiveRun
run_of vb first more = record {
  block_position = first.block_position;
  start_block = first.start_block;
  num_blocks = safe_int_to_uint16 (ℤ.pos (length (first ∷ more)));
  object_id = first.object_id;
  object_offset = first.object_offset;
  seq_nums = if vb.encryption_enabled then map (λ c. c.seq_num) (first ∷ more) else [];
}

-- `consecutiveBlocksRead`
unfoldable pub was_read : ℕ → List ℕ → Bool
was_read block [] = false
was_read block (b ∷ read) = (b == block) || was_read block read

-- `consecutiveBlocksToRead`
unfoldable pub blocks_to_read : Codec → List ℕ → List ConsecutiveBlock → List ConsecutiveRun
blocks_to_read vb read [] = []
blocks_to_read vb read (cb ∷ cbs) =
    let run = run_after cb cbs in
    let skipped = blocks_to_read vb read cbs in
    let rest = blocks_to_read vb (map (λ c. c.start_block) run ++ read) cbs in
    if was_read cb.start_block read then skipped else run_of vb cb run ∷ rest

-- the bytes of a run
unfoldable pub decode_run : Codec → Source → ConsecutiveRun → Bytes → Result Bytes
decode_run vb volume cb bytes =
    if vb.encryption_enabled
    then open_chunk_run vb volume bytes cb
    else if not (length bytes == mul32 cb.num_blocks (block_stride vb.block_size false))
    then err ReadError.short_read
    else ok bytes

-- `BlockStore.Cache` of the `n` blocks from the one at position `i`
unfoldable pub cache_blocks : Codec → ℕ → Bytes → ℕ → ℕ → Store → Store
cache_blocks vb start_block run i zero s = s
cache_blocks vb start_block run i (suc n) s =
    cache_blocks vb start_block run (suc i) n
      (cache s (start_block + i) (slice (i * vb.block_size) vb.block_size run)).0

-- `Cache.lru.Add` of the same blocks
unfoldable pub add_blocks : Codec → ℕ → Bytes → ℕ → ℕ → List (ℕ × Bytes) → List (ℕ × Bytes)
add_blocks vb start_block run i zero cached = cached
add_blocks vb start_block run i (suc n) cached =
    add_blocks vb start_block run (suc i) n
      ((start_block + i, slice (i * vb.block_size) vb.block_size run) ∷ cached)

unfoldable pub remember : Codec → ConsecutiveRun → Bytes → Memory → Memory
remember vb cb run m = record m {
  store = cache_blocks vb cb.start_block run 0 cb.num_blocks m.store;
  cached = elim m.cached [
    | none ↦ none
    | some cached ↦ some (add_blocks vb cb.start_block run 0 cb.num_blocks cached)
  ];
}

-- The run's bytes are copied into `data`, and what stands there is cached.
unfoldable pub place_run : Codec → ConsecutiveRun → Bytes → Bytes × Memory → Bytes × Memory
place_run vb cb bytes (buf, m) =
    let start = cb.block_position * vb.block_size in
    let width = cb.num_blocks * vb.block_size in
    let filled = copy_into start width bytes buf in
    (filled, remember vb cb (slice start width filled) m)

-- one run: the magic, the read, the decoding and the copy
unfoldable pub fetch_run :
    Codec → Source → Reader → ConsecutiveRun → Bytes × Memory → Result (Bytes × Memory)
fetch_run vb volume read cb (buf, m) = elim (check_chunk_magic vb volume.name cb.object_id read m) [
  | err e ↦ err e
  | ok m' ↦
      elim (read cb.object_id cb.object_offset
        (mul32 cb.num_blocks (block_stride vb.block_size vb.encryption_enabled))) [
          | none ↦ err ReadError.backend_failed
          | some bytes ↦ elim (decode_run vb volume cb bytes) [
            | err e ↦ err e
            | ok run ↦ ok (place_run vb cb run (buf, m'))
          ]
        ]
]

unfoldable pub fetch_runs :
    Codec → Source → Reader → List ConsecutiveRun → Bytes × Memory → Result (Bytes × Memory)
fetch_runs vb volume read [] state = ok state
fetch_runs vb volume read (cb ∷ cbs) state = elim (fetch_run vb volume read cb state) [
  | err e ↦ err e
  | ok next ↦ fetch_runs vb volume read cbs next
]

-- `fetchConsecutiveBlocksFromBackend`
unfoldable pub fetch_consecutive_blocks :
    Codec → Source → Reader → List ConsecutiveBlock → Bytes × Memory → Result (Bytes × Memory)
unfolding blocks_to_read
fetch_consecutive_blocks vb volume read cbs state =
    fetch_runs vb volume read (blocks_to_read vb [] cbs) state

-- `fetchBaseBlocksFromBackend`
unfoldable pub fetch_base_blocks :
    Codec → Source → Reader → List ConsecutiveBlock → Bytes × Memory → Result (Bytes × Memory)
unfolding blocks_to_read
fetch_base_blocks vb volume read cbs state =
    if length volume.name == 0
    then err ReadError.no_source
    else fetch_runs vb volume read (blocks_to_read vb [] cbs) state
