-- ===== src/Wal.antt =====
-- The write-ahead log of viperblock/viperblock.go: its header and its records, as `WriteWAL` and
-- `WriteShardedWAL` append them and `readWALFileForRecovery` reads them back. A segment is the
-- bytes of its file and the dirty flag; how the system calls of one append go is an argument. The
-- AEAD cipher is Go's, and a parameter.
pub mod Append
pub mod Records
pub mod Bodies
pub mod Recovery
use viperblock.Prelude.{
  ℕ, zero, suc, ◌+◌, Bool, true, false, ◌||◌, not, Option, none, some, List, [], ◌∷◌, ◌++◌, ltb,
  ◌==◌, if◌then◌else◌, length, take, drop, replicate,
}
use viperblock.Bytes.{Bytes, slice, put_be, get_be, crc_bytes, xor, crc32}
use viperblock.Crypto.{make_nonce, init_aad, update_aad, domain_wal}
use viperblock.Checkpoint.{equal}
use viperblock.Store.Census.{Block}

-- `cipher.AEAD`, its `Seal` and `Open` by its nonce, its text and its associated data
pub record Aead : Type 0 where
  pub seal : Bytes → Bytes → Bytes → Bytes
  pub unseal : Bytes → Bytes → Bytes → Option Bytes

-- the fields of `VB` that the log uses
pub record Config : Type 0 where
  pub wal_magic : Bytes
  pub version : ℕ
  pub block_size : ℕ
  pub encryption_enabled : Bool
  pub volume_uuid : Bytes
  pub volume_name_hash : Bytes
  pub aead : Aead

-- `WALHeaderSize`
abbrev pub wal_header_size : ℕ
wal_header_size = 18

-- `WALHeader`, at the time `now`
unfoldable pub wal_header : Config → ℕ → Bytes
wal_header vb now =
    vb.wal_magic ++ (put_be 2 vb.version ++ (put_be 4 vb.block_size ++ put_be 8 now))

-- `crc32.Update` with the IEEE table
unfoldable pub crc32_update : ℕ → Bytes → ℕ
crc32_update crc b = xor 32 (crc_bytes b (xor 32 crc 4294967295)) 4294967295

-- the first 24 bytes of a record
unfoldable pub record_fields : Block → Bytes
record_fields block = put_be 8 block.seq_num ++ (put_be 8 block.block ++ put_be 8 block.len)

-- the checksum of a record's fields and bytes
unfoldable pub checksum : Bytes → Bytes → ℕ
checksum fields bytes = crc32_update (crc32 fields) bytes

-- the record of an unencrypted log, and of a shard's log
unfoldable pub plain_record : Block → Bytes
plain_record block =
    record_fields block ++ (put_be 4 (checksum (record_fields block) block.bytes) ++ block.bytes)

-- the record of an encrypted log
unfoldable pub sealed_record : Config → Block → Bytes
sealed_record vb block =
    let nonce = make_nonce block.seq_num vb.volume_uuid domain_wal in
    let aad =
      update_aad (init_aad (replicate 48 0) vb.volume_name_hash) block.block block.seq_num in
    record_fields block ++ vb.aead.seal nonce block.bytes aad

unfoldable pub wal_record : Config → Block → Bytes
wal_record vb block = if vb.encryption_enabled then sealed_record vb block else plain_record block

pub record Segment : Type 0 where
  pub bytes : Bytes
  pub dirty : Bool

-- How the system calls of one append go: whether `Stat` succeeds, how many bytes `Write` takes,
-- whether it reports an error, and whether `Truncate` succeeds.
pub record Disk : Type 0 where
  pub stats : Bool
  pub taken : ℕ
  pub fails : Bool
  pub truncates : Bool

pub data Outcome : Type 0 where
  done stat_failed rolled_back torn : Outcome

-- `WriteWAL`
unfoldable pub write_wal : Config → Disk → Block → Segment → Segment × Outcome
write_wal vb disk block wal =
    let bytes = wal_record vb block in
    let written = wal.bytes ++ take disk.taken bytes in
    if not disk.stats
    then (wal, Outcome.stat_failed)
    else if disk.fails || not (length (take disk.taken bytes) == length bytes)
    then if disk.truncates
      then (record { bytes = take (length wal.bytes) written; dirty = true }, Outcome.rolled_back)
      else (record { bytes = written; dirty = true }, Outcome.torn)
    else (record { bytes = written; dirty = true }, Outcome.done)

-- `WriteShardedWAL`, on the segment of the block's shard
unfoldable pub write_sharded_wal : Disk → Block → Segment → Segment × Outcome
write_sharded_wal disk block shard =
    let bytes = plain_record block in
    let written = take disk.taken bytes in
    (
      record { bytes = shard.bytes ++ written; dirty = true },
      if disk.fails || not (length written == length bytes) then Outcome.torn else Outcome.done,
    )

pub data RecoveryError : Type 0 where
  short_header pre_encryption bad_magic bad_version bad_block_size io_error integrity :
      RecoveryError

-- the blocks of a file and their highest sequence number, or the error
pub data Recovered : Type 0 where
  recovered : List Block → ℕ → Recovered
  refused : RecoveryError → Recovered

-- the block of a record whose data were found to be `bytes`
unfoldable pub block_of : Bytes → Bytes → Block
block_of raw bytes = record {
  seq_num = get_be (slice 0 8 raw);
  block = get_be (slice 8 8 raw);
  len = get_be (slice 16 8 raw);
  bytes = bytes;
}

-- a record of an encrypted log, under the buffer of associated data
unfoldable pub open_record : Config → Bytes → Bytes → Option Block
open_record vb aad raw =
    let nonce = make_nonce (get_be (slice 0 8 raw)) vb.volume_uuid domain_wal in
    elim (vb.aead.unseal nonce (drop 24 raw) aad) [
      | none ↦ none
      | some plain ↦ some (block_of raw plain)
    ]

-- a record of an unencrypted log
unfoldable pub check_record : Bytes → Option Block
check_record raw =
    if checksum (take 24 raw) (drop 28 raw) == get_be (slice 24 4 raw)
    then some (block_of raw (drop 28 raw))
    else none

-- The larger of two numbers.
abbrev pub larger : ℕ → ℕ → ℕ
larger a b = if ltb a b then b else a

-- one more block before those that the rest of the file gave
abbrev pub keep : Block → Recovered → Recovered
keep block (recovered blocks max_seq_num) =
    Recovered.recovered (block ∷ blocks) (larger block.seq_num max_seq_num)
keep block (refused e) = Recovered.refused e

abbrev pub keep_or : Recovered → Option Block → Recovered → Recovered
keep_or stop none rest = stop
keep_or stop (some block) rest = keep block rest

-- The loop on an encrypted file, from the bytes not read yet. `faults n` tells that the read with
-- `n` bytes left fails for another reason than the end of the file.
unfoldable pub read_sealed : Config → (ℕ → Bool) → ℕ → Bytes → Bytes → Recovered
read_sealed vb faults zero aad raw = Recovered.recovered [] 0
read_sealed vb faults (suc fuel) aad raw =
    let size = 40 + vb.block_size in
    let first = take size raw in
    let filled = update_aad aad (get_be (slice 8 8 first)) (get_be (slice 0 8 first)) in
    let rest = read_sealed vb faults fuel filled (drop size raw) in
    if faults (length raw)
    then Recovered.refused RecoveryError.io_error
    else if ltb (length raw) size
    then Recovered.recovered [] 0
    else keep_or (Recovered.refused RecoveryError.integrity) (open_record vb filled first) rest

-- the loop on an unencrypted file
unfoldable pub read_plain : Config → (ℕ → Bool) → ℕ → Bytes → Recovered
read_plain vb faults zero raw = Recovered.recovered [] 0
read_plain vb faults (suc fuel) raw =
    let size = 28 + vb.block_size in
    let rest = read_plain vb faults fuel (drop size raw) in
    if faults (length raw) || ltb (length raw) size
    then Recovered.recovered [] 0
    else keep_or (Recovered.recovered [] 0) (check_record (take size raw)) rest

-- the records after the header; the fuel is the number of bytes, and every record has some.
unfoldable pub read_body : Config → (ℕ → Bool) → Bytes → Recovered
read_body vb faults raw =
    if vb.encryption_enabled
    then read_sealed vb faults (length raw) (init_aad (replicate 48 0) vb.volume_name_hash) raw
    else read_plain vb faults (length raw) raw

-- `readWALFileForRecovery`, on a file that could be opened
unfoldable pub read_wal_file_for_recovery : Config → (ℕ → Bool) → Bytes → Recovered
read_wal_file_for_recovery vb faults raw =
    if ltb (length raw) wal_header_size
    then Recovered.refused RecoveryError.short_header
    else if not (equal (slice 0 4 raw) vb.wal_magic)
    then if vb.encryption_enabled
      then if equal (slice 0 4 raw) (86 ∷ 66 ∷ 87 ∷ 76 ∷ [])
        then Recovered.refused RecoveryError.pre_encryption
        else Recovered.refused RecoveryError.bad_magic
      else Recovered.refused RecoveryError.bad_magic
    else if not (get_be (slice 4 2 raw) == vb.version)
    then Recovered.refused RecoveryError.bad_version
    else if not (get_be (slice 6 4 raw) == vb.block_size)
    then Recovered.refused RecoveryError.bad_block_size
    else read_body vb faults (drop wal_header_size raw)
