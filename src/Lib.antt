-- ===== src/Lib.antt =====
-- A model of viperblock, a block device whose blocks are written to memory and a log, and moved to
-- chunk objects on a backend. The parts that are modelled, by file:
--
--   Extents, Runs, Store, Block   viperblock/blockstore.go: the index of coalesced extents
--     (`persistedExtent`), the runs that `MarkPersistedRange` and `SetPersistedRange` install in it,
--     and `UnifiedBlockStore` with its sixteen shards. `Store.View` is what a block reads as,
--     whichever index holds it.
--   Lookup         viperblock/viperblock.go: `BlockLookup`, `resolveBlockLookup`,
--     `insertCoalescedLocked`, `expandBlockLookup` and `coalesceBlockLookup`.
--   Checkpoint     viperblock/viperblock.go: the bytes of the block checkpoint, written from the
--     expanded entries of Lookup and parsed.
--   Wal            viperblock/viperblock.go: the log's header and records, `WriteWAL` and
--     `WriteShardedWAL`, and `readWALFileForRecovery`.
--   Drain          viperblock/viperblock.go: the newest record of each block and the cut into chunks
--     of `WriteWALToChunkCtx`, `WriteShardedWALToChunkCtx` and `RecoverLocalWALs`, and
--     `createChunkFile`, which enters a chunk in the map of Lookup and the index of Store.
--   Replay         viperblock/viperblock.go: `RecoverLocalWALs`, on Wal and Drain.
--   Device         viperblock/viperblock.go, on a volume with a block store: `ReadAtCtx` and
--     `readBlockStore` with the fetches from chunk objects, and `WriteAtCtx` on Store, Numbering and
--     Backpressure. `Device.Layers.image` is the byte that a volume has at a place, from its memory,
--     its chunks, the snapshot that it was cloned from or the ancestors of that.
--   Backpressure   viperblock/viperblock.go: `awaitBackpressure`.
--   Gc             viperblock/viperblock.go: `sweepChunks` and the checks before it.
--   LoadState      viperblock/viperblock.go: `LoadStateCtx` and `classifyStateLoad`.
--   Snapshots      viperblock/snapshot.go: the flat section of inherited blocks.
--   Reload         viperblock/viperblock.go: `parseBlockCheckpoint`, which rebuilds the map of
--     Lookup and the index of Store from a checkpoint when a volume is opened.
--   Numbering      viperblock/viperblock.go: `reserveSeqNum` and its durable high-water, which
--     `SaveStateCtx`, `EnsureVolumeUUID` and each opening persist.
--   Crypto         viperblock/crypto.go: nonces and associated data, made from those numbers.
--   Arena          viperblock/arena.go, the bump allocator of write data.
--   SimpleFs       simplefs/simplefs.go, a block allocator for files on a volume.
--   Conversions    utils/utils.go, the saturating conversions.
--
-- Bytes, Words, Dict and Prelude hold what these share: bytes and CRC-32, wrap-around arithmetic,
-- Go's maps as association lists in whatever order `range` visits them, and lists. Tests holds
-- runs on concrete inputs.
--
-- State is passed explicitly, one step for an operation. Locks are left out; `MarkPersistedRange`,
-- which lets go of its locks between its passes, is given pass by pass. What a disk, a backend, a
-- random source or another process does is an argument; the AEAD cipher is one too, with what is
-- documented of it as a hypothesis, and so are the parsing of JSON and of object keys.
--
-- Loops whose end does not show in their argument run on fuel: the cutting of items into runs and the
-- loop over the runs of a chunk have the number of items, the raising of the high-water has the
-- number of windows to the target and one more, the walks over a checkpoint and over a log have the
-- number of bytes, and the loop of `coalesceBlockLookup` has the number of keys; each is at least the
-- number of rounds that the code makes. The rounds of `awaitBackpressure` are counted by the caller,
-- and none is what the model returns of a loop that still waits.
--
-- A read of consecutive blocks of one object relies on their layout in a chunk: blocks with
-- neighbouring numbers lie one stride apart. It is a hypothesis on the volume.
--
-- Not modelled: reads on a volume without a block store, two writers interleaved, the flush of
-- buffered writes to the logs and the rotation of logs, the interleaving of parallel uploads, the
-- rest of snapshots and clones, the backends, and the tools and bindings around the library.
mod Prelude
pub mod Dict
pub mod Words
pub mod Block
pub mod Extents
pub mod Reload
pub mod Replay
pub mod Runs
pub mod Store
pub mod Arena
pub mod Bytes
pub mod Checkpoint
pub mod Conversions
pub mod Device
pub mod Crypto
pub mod LoadState
pub mod Lookup
pub mod Numbering
pub mod SimpleFs
pub mod Backpressure
pub mod Drain
pub mod Gc
pub mod Snapshots
pub mod Wal
mod Tests
