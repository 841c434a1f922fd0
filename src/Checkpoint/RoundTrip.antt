-- ===== src/Checkpoint/RoundTrip.antt =====
-- Checkpoints written and read back.
use viperblock.Prelude.{
  ℕ, zero, suc, ◌+◌, ◌≤◌, ◌<◌, ◌%◌, ◌*◌, ◌≡◌, refl, sym, ap, ◌∙◌, none, some, List, [], ◌∷◌, ◌++◌,
  arith, length, take, drop, length-append,
}
use viperblock.Words.{u16, u32, u64}
use viperblock.Bytes.{Bytes, slice, put_be, get_be, crc32, get_be-put_be, crc32_bounded}
use viperblock.Dict.{Dict}
use viperblock.Lookup.{BlockLookup}
use viperblock.Checkpoint.{
  Decoded, record_body, write_block_wal_chunk, decode_fields, decode_block_wal_chunk, walk_records,
  walk_block_checkpoint, collect, write_records, block_wal_chunk_size, block_to_object_wal_header,
  save_block_state, expand_all, parse_block_checkpoint_bytes, block_to_object_wal_magic,
}

-- The fields fit their bytes, and there is no list of sequence numbers: the record has no place
-- for one.

pub record IsSingle (block : BlockLookup) : Type 0 where
  pub unlisted : block.seq_nums ≡ []
  pub start_fits : block.start_block < u64
  pub num_fits : block.num_blocks < u16
  pub object_fits : block.object_id < u64
  pub offset_fits : block.object_offset < u32
  pub seq_fits : block.seq_num < u64

decode_fields-write_block_wal_chunk :
    (block : BlockLookup) → IsSingle block → decode_fields (write_block_wal_chunk block) ≡ block
unfolding decode_fields write_block_wal_chunk record_body
decode_fields-write_block_wal_chunk block v =
    rw
      (
        get_be-put_be 8 block.start_block v.start_fits,
        get_be-put_be 2 block.num_blocks v.num_fits,
        get_be-put_be 8 block.object_id v.object_fits,
        get_be-put_be 4 block.object_offset v.offset_fits,
        get_be-put_be 8 block.seq_num v.seq_fits,
        ← v.unlisted,
      )
      refl

-- the three things that a record of the right size and sum gives the decoder
decode_accepts :
    (raw : Bytes)
    → length raw ≡ block_wal_chunk_size
    → crc32 (take 30 raw) ≡ get_be (slice 30 4 raw)
    → decode_block_wal_chunk raw ≡ Decoded.decoded (decode_fields raw)
unfolding decode_block_wal_chunk
decode_accepts raw size sum = ground (arith, size, sum)

pub length-write_block_wal_chunk :
    (block : BlockLookup) → length (write_block_wal_chunk block) ≡ block_wal_chunk_size
unfolding write_block_wal_chunk record_body
length-write_block_wal_chunk block = refl

take-write_block_wal_chunk :
    (block : BlockLookup) → take 30 (write_block_wal_chunk block) ≡ record_body block
unfolding write_block_wal_chunk record_body
take-write_block_wal_chunk block = refl

slice-write_block_wal_chunk :
    (block : BlockLookup)
    → slice 30 4 (write_block_wal_chunk block) ≡ put_be 4 (crc32 (record_body block))
unfolding write_block_wal_chunk record_body
slice-write_block_wal_chunk block = refl

-- A single-block entry that fits its fields is decoded from its 34-byte record as it was, and
-- its checksum accepted.
pub decode-write :
    (block : BlockLookup)
    → IsSingle block
    → decode_block_wal_chunk (write_block_wal_chunk block) ≡ Decoded.decoded block
decode-write block v =
    let sum = get_be-put_be 4 (crc32 (record_body block)) (crc32_bounded (record_body block)) in
    let accepted =
      decode_accepts (write_block_wal_chunk block) (length-write_block_wal_chunk block) (
        ap crc32 (take-write_block_wal_chunk block)
        ∙ sym sum
        ∙ ap get_be (sym (slice-write_block_wal_chunk block))) in
    accepted ∙ ap Decoded.decoded (decode_fields-write_block_wal_chunk block v)

pub take-write_first :
    (block : BlockLookup) (rest : Bytes)
    → take block_wal_chunk_size (write_block_wal_chunk block ++ rest) ≡ write_block_wal_chunk block
unfolding write_block_wal_chunk record_body
take-write_first block rest = refl

pub drop-write_first :
    (block : BlockLookup) (rest : Bytes)
    → drop block_wal_chunk_size (write_block_wal_chunk block ++ rest) ≡ rest
unfolding write_block_wal_chunk record_body
drop-write_first block rest = refl

abbrev pub AllSingle : List BlockLookup → Type 0
AllSingle [] = Unit {0}
AllSingle (block ∷ blocks) = IsSingle block × AllSingle blocks

length-write_records :
    (blocks : List BlockLookup)
    → length (write_records blocks) ≡ length blocks * block_wal_chunk_size
unfolding write_records
length-write_records [] = refl
length-write_records (block ∷ blocks) = omega (
  arith,
  length-append (write_block_wal_chunk block) (write_records blocks),
  length-write_block_wal_chunk block,
  length-write_records blocks,
)

walk_step :
    (fuel : ℕ) (raw : Bytes) (block : BlockLookup) (found : List BlockLookup)
    → block_wal_chunk_size ≤ length raw
    → decode_block_wal_chunk (take block_wal_chunk_size raw) ≡ Decoded.decoded block
    → walk_records fuel (drop block_wal_chunk_size raw) ≡ (found, none)
    → walk_records (suc fuel) raw ≡ (block ∷ found, none)
unfolding walk_records
walk_step fuel raw block found long first rest = rw (first, rest) (ground (arith, long))

walk_records-write_records :
    (fuel : ℕ) (blocks : List BlockLookup)
    → AllSingle blocks
    → length blocks ≤ fuel
    → walk_records fuel (write_records blocks) ≡ (blocks, none)
unfolding write_records walk_records
walk_records-write_records zero [] v enough = refl
walk_records-write_records (suc fuel) [] v enough = refl
walk_records-write_records zero (block ∷ blocks) v enough = absurd (omega arith)
walk_records-write_records (suc fuel) (block ∷ blocks) (v, vs) enough =
    walk_step fuel (write_block_wal_chunk block ++ write_records blocks) block blocks
      (omega (
        arith,
        length-append (write_block_wal_chunk block) (write_records blocks),
        length-write_block_wal_chunk block,
      ))
      (ap decode_block_wal_chunk (take-write_first block (write_records blocks))
        ∙ decode-write block v)
      (ap (walk_records fuel) (drop-write_first block (write_records blocks))
        ∙ walk_records-write_records fuel blocks vs (omega arith))

-- a header that is accepted, and what comes after it
walk_accepts :
    (version now : ℕ) (rest : Bytes) (found : List BlockLookup)
    → version < u16
    → length rest % block_wal_chunk_size ≡ 0
    → walk_records (14 + length rest) rest ≡ (found, none)
    → walk_block_checkpoint
        (block_to_object_wal_header version now ++ rest)
        version
        block_to_object_wal_magic
      ≡ (found, none)
unfolding walk_block_checkpoint block_to_object_wal_header
walk_accepts version now rest found fits whole walked =
    ground (arith, whole, walked, get_be-put_be 2 version fits)

pub walk-save_block_state :
    (version now stride : ℕ) (m : Dict BlockLookup)
    → version < u16
    → AllSingle (expand_all stride m)
    → walk_block_checkpoint
        (save_block_state version now stride m)
        version
        block_to_object_wal_magic
      ≡ (expand_all stride m, none)
unfolding save_block_state
walk-save_block_state version now stride m fits v =
    let blocks = expand_all stride m in
    let rest = write_records blocks in
    walk_accepts version now rest blocks fits (omega (arith, length-write_records blocks)) (
      walk_records-write_records (14 + length rest) blocks v
        (omega (arith, length-write_records blocks)))

parse_accepts :
    (raw : Bytes) (version : ℕ) (blocks : List BlockLookup)
    → walk_block_checkpoint raw version block_to_object_wal_magic ≡ (blocks, none)
    → parse_block_checkpoint_bytes raw version ≡ some (collect blocks [])
unfolding parse_block_checkpoint_bytes
parse_accepts raw version blocks h =
    ap (λ w. elim w.1 [ some e ↦ none | none ↦ some (collect w.0 []) ]) h

-- The checkpoint of a map whose expanded entries fit their fields is parsed back, under the same
-- version, into the map that collects those entries by their first block.
pub parse-save_block_state :
    (version now stride : ℕ) (m : Dict BlockLookup)
    → version < u16
    → AllSingle (expand_all stride m)
    → parse_block_checkpoint_bytes (save_block_state version now stride m) version
      ≡ some (collect (expand_all stride m) [])
parse-save_block_state version now stride m fits v =
    parse_accepts (save_block_state version now stride m) version (expand_all stride m)
      (walk-save_block_state version now stride m fits v)
