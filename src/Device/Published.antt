-- ===== src/Device/Published.antt =====
-- What `writeOneBlockLocked` has done where it returns no error.
use viperblock.Prelude.{ℕ, ◌*◌, ◌%◌, ◌≡◌, refl, ap, true, false, none, some, []}
use viperblock.Words.{u64}
use viperblock.Bytes.{Bytes}
use viperblock.Device.{Result, ok, err}
use viperblock.Device.Read.{Volume, Answer, read_at}
use viperblock.Device.Write.{Device, Env, WriteError, spliced, publish, write_one_block_locked}

-- A block that is written without an error
module _ (vb : Volume) (env : Env) (b ws we : ℕ) (patch : Bytes) (d d' : Device) where
  -- what follows the read of a partial write
  after_read :
      (r : Result Answer)
      → elim r [
        | err e ↦ (d, some (WriteError.read_failed e))
        | ok existing ↦
            publish env b vb.codec.block_size
              (spliced vb.codec.block_size ws we patch existing.bytes)
              (record d { memory = existing.memory })
      ]
        ≡ (d', none)
      → (a : Answer) × (r ≡ ok a)
        × (publish env b vb.codec.block_size
              (spliced vb.codec.block_size ws we patch a.bytes)
              (record d { memory = a.memory })
            ≡ (d', none))
  after_read (Result.err e) h = absurd (clash (ap (λ t. t.1) h))
    where
      clash : {x : WriteError} → some x ≡ none → ⊥
      clash e = cc
  after_read (Result.ok a) h = (a, refl, h)

  pub partly_written :
      write_one_block_locked vb env b true ws we patch d ≡ (d', none)
      → (a : Answer) × (read_at vb env.backend
            ((b * vb.codec.block_size) % u64)
            vb.codec.block_size
            d.memory
          ≡ ok a)
        × (publish env b vb.codec.block_size
              (spliced vb.codec.block_size ws we patch a.bytes)
              (record d { memory = a.memory })
            ≡ (d', none))
  unfolding write_one_block_locked
  partly_written h =
      after_read
        (read_at vb env.backend ((b * vb.codec.block_size) % u64) vb.codec.block_size d.memory) h

  pub wholly_written :
      write_one_block_locked vb env b false ws we patch d ≡ (d', none)
      → publish env b vb.codec.block_size (spliced vb.codec.block_size ws we patch []) d
        ≡ (d', none)
  unfolding write_one_block_locked
  wholly_written h = h
