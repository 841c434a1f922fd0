-- ===== src/Device/Write.antt =====
-- The write path of viperblock/viperblock.go: `WriteAtCtx` and `writeOneBlockLocked`, on a volume
-- with a block store whose UUID was set when it was opened. What the backend, the random source and
-- the disk do while one block is written is an argument, and so is what happens while the write
-- waits at the end. The locks, their counters and the trigger of the uploader are left out.
use viperblock.Prelude.{
  ℕ, zero, suc, ◌-◌, ◌*◌, ◌/◌, ◌%◌, Bool, ◌||◌, Option, none, some, List, [], ◌∷◌, ◌++◌, ltb, ◌==◌,
  if◌then◌else◌, length, replicate,
}
use viperblock.Words.{u64, add64, sub64}
use viperblock.Bytes.{Bytes, slice}
use viperblock.Numbering.{Counter, Persist, SeqError, Reserved, reserve_seq_num}
use viperblock.Backpressure.{Round, Waited, await_backpressure}
use viperblock.Store.Writers.{write_with_seq_num}
use viperblock.Store.Census.{Block}
use viperblock.Device.{ReadError, ok, err, Memory, copy_into}
use viperblock.Device.Read.{Volume, Backend, read_at}

-- the fields of `VB` that a write changes; `pending_bytes` stands for its 64 bits.

pub record Device : Type 0 where
  pub counter : Counter
  pub memory : Memory
  pub writes : List Block
  pub pending_bytes : ℕ

-- what one block's write meets
pub record Env : Type 0 where
  pub backend : Backend
  pub random : Option (List ℕ)
  pub disk : Persist

-- the flags that refuse a write, and what it meets in `awaitBackpressure`
pub record Gate : Type 0 where
  pub backend_full : Bool
  pub backend_near_full : Bool
  pub max_pending_bytes : ℕ
  pub rounds : ℕ → Round
  pub fuel : ℕ

pub data WriteError : Type 0 where
  no_space too_large out_of_range buffer_empty : WriteError
  read_failed : ReadError → WriteError
  seq_failed : SeqError → WriteError
  gate_failed : Waited → WriteError

-- Whether the call has returned, and how.
pub data Written : Type 0 where
  written waiting : Written
  refused : WriteError → Written

-- `blockData`: zeros, the block as it was, and the caller's bytes
abbrev pub spliced : ℕ → ℕ → ℕ → Bytes → Bytes → Bytes
spliced block_size write_start write_end patch existing =
    copy_into write_start (write_end - write_start) patch
      (copy_into 0 block_size existing (replicate block_size 0))

-- the part of `writeOneBlockLocked` after the number is reserved
unfoldable pub publish_as : ℕ → ℕ → Bytes → Reserved → Device → Device × Option WriteError
publish_as block block_size bytes (Reserved.error e) d = (d, some (WriteError.seq_failed e))
publish_as block block_size bytes (Reserved.start first) d =
    let seq_num = add64 first 1 in
    let blk : Block = record {
      seq_num = seq_num;
      block = block;
      len = block_size;
      bytes = bytes;
    } in
    let m = d.memory in
    (
      record d {
        writes = d.writes ++ (blk ∷ []);
        memory = record m { store = write_with_seq_num m.store block bytes seq_num };
      },
      none,
    )

-- the part from the reservation on
unfoldable pub publish : Env → ℕ → ℕ → Bytes → Device → Device × Option WriteError
publish env block block_size bytes d =
    let (counter, reserved) = reserve_seq_num env.random env.disk 1 d.counter in
    publish_as block block_size bytes reserved (record d { counter = counter })

-- `writeOneBlockLocked`
unfoldable pub write_one_block_locked :
    Volume → Env → ℕ → Bool → ℕ → ℕ → Bytes → Device → Device × Option WriteError
write_one_block_locked vb env b partial write_start write_end patch d =
    let block_size = vb.codec.block_size in
    if partial
    then elim (read_at vb env.backend ((b * block_size) % u64) block_size d.memory) [
      | err e ↦ (d, some (WriteError.read_failed e))
      | ok existing ↦
          publish env b block_size (spliced block_size write_start write_end patch existing.bytes)
            (record d { memory = existing.memory })
    ]
    else publish env b block_size (spliced block_size write_start write_end patch []) d

-- `writeStart` and `writeEnd`
abbrev pub write_start_of : ℕ → ℕ → ℕ
write_start_of offset block_start = if ltb block_start offset then offset - block_start else 0

abbrev pub write_end_of : ℕ → ℕ → ℕ → ℕ → ℕ
write_end_of block_size end_offset block_start block_end =
    if ltb end_offset block_end then end_offset - block_start else block_size

-- The body of the loop for block `b`. The slice that it takes of the caller's bytes lies within them.
unfoldable pub write_block : Volume → Env → ℕ → Bytes → ℕ → Device → Device × Option WriteError
write_block vb env offset bytes b d =
    let block_size = vb.codec.block_size in
    let end_offset = add64 offset (length bytes) in
    let block_start = (b * block_size) % u64 in
    let write_start = write_start_of offset block_start in
    let write_end = write_end_of block_size end_offset block_start (add64 block_start block_size) in
    let partial = ltb 0 write_start || ltb write_end block_size in
    let low = sub64 (add64 block_start write_start) offset in
    let high = sub64 (add64 block_start write_end) offset in
    write_one_block_locked vb env b partial write_start write_end (slice low (high - low) bytes) d

-- the loop over `n` blocks from `b`
unfoldable pub write_blocks :
    Volume → (ℕ → Env) → ℕ → Bytes → ℕ → ℕ → Device → Device × Option WriteError
write_blocks vb envs offset bytes b zero d = (d, none)
write_blocks vb envs offset bytes b (suc n) d =
    let (d', error) = write_block vb (envs b) offset bytes b d in
    let rest = write_blocks vb envs offset bytes (suc b) n d' in
    elim error [ some e ↦ (d', some e) | none ↦ rest ]

unfoldable pub gate_result : Option Waited → Written
gate_result none = Written.waiting
gate_result (some Waited.returned) = Written.written
gate_result (some Waited.context_ended) =
    Written.refused (WriteError.gate_failed Waited.context_ended)
gate_result (some Waited.out_of_space) =
    Written.refused (WriteError.gate_failed Waited.out_of_space)
gate_result (some Waited.aborted) = Written.refused (WriteError.gate_failed Waited.aborted)

-- The part after the loop. What the drains change while the write waits is not a part of it.
unfoldable pub finish_write : Gate → ℕ → ℕ → Device × Option WriteError → Device × Written
finish_write gate n block_size (d, some e) = (d, Written.refused e)
finish_write gate n block_size (d, none) =
    let pending = add64 d.pending_bytes (n * block_size) in
    (
      record d { pending_bytes = pending },
      gate_result (await_backpressure gate.max_pending_bytes pending gate.rounds gate.fuel),
    )

-- `WriteAtCtx`
unfoldable pub write_at : Volume → Gate → (ℕ → Env) → ℕ → Bytes → Device → Device × Written
write_at vb gate envs offset bytes d =
    let block_size = vb.codec.block_size in
    let start_block = offset / block_size in
    let end_block = sub64 (add64 offset (length bytes)) 1 / block_size in
    let n = suc end_block - start_block in
    if gate.backend_full || gate.backend_near_full
    then (d, Written.refused WriteError.no_space)
    else if ltb vb.size offset
    then (d, Written.refused WriteError.too_large)
    else if ltb vb.size (add64 offset (length bytes))
    then (d, Written.refused WriteError.out_of_range)
    else if length bytes == 0
    then (d, Written.refused WriteError.buffer_empty)
    else finish_write gate n block_size (write_blocks vb envs offset bytes start_block n d)
