-- ===== src/Checkpoint.antt =====
-- The block checkpoint of viperblock/viperblock.go: a header and one 34-byte record for each
-- physical block, in big-endian order, as `SaveBlockStateCtx` writes it and `walkBlockCheckpoint`
-- reads it. The files and the upload are left out.
pub mod RoundTrip
use viperblock.Prelude.{
  ℕ, zero, suc, ◌+◌, ◌-◌, ◌%◌, Bool, true, false, ◌&&◌, not, Option, none, some, List, [], ◌∷◌,
  ◌++◌, ltb, leb, ◌==◌, if◌then◌else◌, length, take, drop,
}
use viperblock.Dict.{Dict, insert}
use viperblock.Bytes.{Bytes, slice, put_be, get_be, crc32}
use viperblock.Lookup.{BlockLookup, expand_block_lookup}

-- `blockWalChunkSize`
abbrev pub block_wal_chunk_size : ℕ
block_wal_chunk_size = 34

-- `blockCheckpointHeaderSize`
abbrev pub block_checkpoint_header_size : ℕ
block_checkpoint_header_size = 14

-- `blockToObjectWALMagic`, "VBWB"
abbrev pub block_to_object_wal_magic : Bytes
block_to_object_wal_magic = 86 ∷ 66 ∷ 87 ∷ 66 ∷ []

pub data CheckpointError : Type 0 where
  short_header bad_magic bad_version trailing_bytes bad_size bad_checksum : CheckpointError

-- the 30 bytes that the checksum covers
unfoldable pub record_body : BlockLookup → Bytes
record_body block =
    put_be 8 block.start_block
    ++ put_be 2 block.num_blocks
    ++ put_be 8 block.object_id
    ++ put_be 4 block.object_offset
    ++ put_be 8 block.seq_num

-- `writeBlockWalChunk`
unfoldable pub write_block_wal_chunk : BlockLookup → Bytes
write_block_wal_chunk block = record_body block ++ put_be 4 (crc32 (record_body block))

-- the fields of a record
unfoldable pub decode_fields : Bytes → BlockLookup
decode_fields raw = record {
  seq_nums = [];
  start_block = get_be (slice 0 8 raw);
  num_blocks = get_be (slice 8 2 raw);
  object_id = get_be (slice 10 8 raw);
  object_offset = get_be (slice 18 4 raw);
  seq_num = get_be (slice 22 8 raw);
}

pub data Decoded : Type 0 where
  decoded : BlockLookup → Decoded
  refused : CheckpointError → Decoded

-- `decodeBlockWalChunk`
unfoldable pub decode_block_wal_chunk : Bytes → Decoded
decode_block_wal_chunk raw =
    if not (length raw == block_wal_chunk_size)
    then Decoded.refused CheckpointError.bad_size
    else if crc32 (take 30 raw) == get_be (slice 30 4 raw)
    then Decoded.decoded (decode_fields raw)
    else Decoded.refused CheckpointError.bad_checksum

-- The loop of `walkBlockCheckpoint` on the bytes not read yet: the records that `fn` was called
-- with, and the error that ended the walk.
unfoldable pub walk_records : ℕ → Bytes → List BlockLookup × Option CheckpointError
walk_records zero raw = ([], none)
walk_records (suc fuel) raw =
    let (blocks, error) = walk_records fuel (drop block_wal_chunk_size raw) in
    if leb block_wal_chunk_size (length raw)
    then elim (decode_block_wal_chunk (take block_wal_chunk_size raw)) [
      | refused e ↦ ([], some e)
      | decoded block ↦ (block ∷ blocks, error)
    ]
    else ([], none)

-- `bytes.Equal`
abbrev pub equal : Bytes → Bytes → Bool
equal [] [] = true
equal [] (y ∷ ys) = false
equal (x ∷ xs) [] = false
equal (x ∷ xs) (y ∷ ys) = (x == y) && equal xs ys

-- `walkBlockCheckpoint`
unfoldable pub walk_block_checkpoint : Bytes → ℕ → Bytes → List BlockLookup × Option CheckpointError
walk_block_checkpoint raw version magic =
    let walked = walk_records (length raw) (drop block_checkpoint_header_size raw) in
    if ltb (length raw) block_checkpoint_header_size
    then ([], some CheckpointError.short_header)
    else if not (equal (slice 0 4 raw) magic)
    then ([], some CheckpointError.bad_magic)
    else if not (get_be (slice 4 2 raw) == version)
    then ([], some CheckpointError.bad_version)
    else if not ((length raw - block_checkpoint_header_size) % block_wal_chunk_size == 0)
    then ([], some CheckpointError.trailing_bytes)
    else walked

-- `blocks[block.StartBlock] = block`, for the records in their order
unfoldable pub collect : List BlockLookup → Dict BlockLookup → Dict BlockLookup
collect [] m = m
collect (block ∷ blocks) m = collect blocks (insert block.start_block block m)

-- `ParseBlockCheckpointBytes`
unfoldable pub parse_block_checkpoint_bytes : Bytes → ℕ → Option (Dict BlockLookup)
parse_block_checkpoint_bytes raw version =
    let (blocks, error) = walk_block_checkpoint raw version block_to_object_wal_magic in
    elim error [ some e ↦ none | none ↦ some (collect blocks []) ]

-- `BlockToObjectWALHeader`, at the time `now`
unfoldable pub block_to_object_wal_header : ℕ → ℕ → Bytes
block_to_object_wal_header version now =
    block_to_object_wal_magic ++ put_be 2 version ++ put_be 8 now

unfoldable pub write_records : List BlockLookup → Bytes
write_records [] = []
write_records (block ∷ blocks) = write_block_wal_chunk block ++ write_records blocks

-- the single-block entries of a map, in its order
unfoldable pub expand_all : ℕ → Dict BlockLookup → List BlockLookup
expand_all stride [] = []
expand_all stride ((k, bl) ∷ m) = expand_block_lookup bl stride ++ expand_all stride m

-- the bytes that `SaveBlockStateCtx` writes
unfoldable pub save_block_state : ℕ → ℕ → ℕ → Dict BlockLookup → Bytes
save_block_state version now stride m =
    block_to_object_wal_header version now ++ write_records (expand_all stride m)
