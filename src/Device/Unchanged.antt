-- ===== src/Device/Unchanged.antt =====
-- The bytes of the volume after `ReadAtCtx`, which caches what it reads.
use viperblock.Prelude.{ℕ, ◌+◌, ◌/◌, ◌≤◌, ◌<◌, ◌≡◌, refl, inl}
use viperblock.Device.{ok}
use viperblock.Device.Decode.{IsCodec}
use viperblock.Device.Read.{Volume, Backend, Answer, read_at}
use viperblock.Device.Layers.{World, IsBacked, image}
use viperblock.Device.Cache.{IsKept, Kept-image, Kept-IsSound}
use viperblock.Device.ReadAt.{IsRequest, blocks_of, read_at-Kept, read_at-IsAtHand}
use viperblock.Device.Cached.{IsAtHand}
use viperblock.Device.Write.{Device}
use viperblock.Device.Splice.{IsDevice}

-- After a read that succeeds, no block of the request waits in the store as Persisted with an
-- entry of its own: each such block was cached. Every block, of the request or not, is found
-- where it was, or in memory as a copy of what lies on the volume's own chunk. No byte of the
-- volume changes by that, and the store stays well formed and sound. The conditions are those
-- under which a read returns the bytes of the volume, on a well-formed store.
pub read_at-IsDevice :
    (vb : Volume) (world : World) (backend : Backend) (offset len : ℕ) (d : Device) (a : Answer)
    → IsCodec vb.codec
    → IsRequest vb offset len
    → IsBacked vb world backend
    → IsDevice vb d
    → read_at vb backend offset len d.memory ≡ ok a
    → IsDevice vb (record d { memory = a.memory })
      × ((b : ℕ)
          → offset / vb.codec.block_size ≤ b
          → b < offset / vb.codec.block_size + blocks_of vb.codec.block_size offset len
          → IsAtHand a.memory.store b)
      × ((b : ℕ) → IsKept vb world d.memory.store a.memory.store b)
      × ((b k : ℕ)
          → k < vb.codec.block_size
          → image vb world a.memory.store b k ≡ image vb world d.memory.store b k)
read_at-IsDevice vb world backend offset len d a codec request backed ready got =
    let held =
      read_at-Kept vb world backend d.memory codec offset len request a d.counter.seq_num backed
        ready.sound got
        (record { valid = ready.valid; bounded = ready.bounded; kept = λ j. inl refl }) in
    (
      record {
        valid = held.valid;
        bounded = held.bounded;
        sound =
            Kept-IsSound vb world d.memory.store d.counter.seq_num a.memory.store held ready.sound;
      },
      λ b low high.
          read_at-IsAtHand vb world backend d.memory codec offset len request a b backed ready.sound
            ready.valid got low high,
      held.kept,
      λ b k l. Kept-image vb world d.memory.store d.counter.seq_num a.memory.store held b k l,
    )
