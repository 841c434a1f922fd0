-- ===== src/Wal/Recovery.antt =====
-- Segments read back by `readWALFileForRecovery`.
use viperblock.Prelude.{
  ℕ, ◌<◌, ◌≤◌, ◌≡◌, refl, ap, ◌∙◌, true, List, [], ◌∷◌, ◌++◌, arith, length, drop,
}
use viperblock.Bytes.{Bytes, slice, put_be, get_be, get_be-put_be}
use viperblock.Checkpoint.{equal}
use viperblock.Store.Census.{Block}
use viperblock.Wal.{
  Config, Recovered, wal_header, read_body, read_wal_file_for_recovery, wal_header_size,
}
use viperblock.Wal.Records.{IsConfig, AllLoggable, wal_records}
use viperblock.Wal.Bodies.{reliable, record_size, max_seq, read_body-wal_records}

module _ (vb : Config) where
  header_accepted :
      (raw rest : Bytes)
      → wal_header_size ≤ length raw
      → equal (slice 0 4 raw) vb.wal_magic ≡ true
      → get_be (slice 4 2 raw) ≡ vb.version
      → get_be (slice 6 4 raw) ≡ vb.block_size
      → drop wal_header_size raw ≡ rest
      → read_wal_file_for_recovery vb reliable raw ≡ read_body vb reliable rest
  unfolding read_wal_file_for_recovery
  header_accepted raw rest long magic version size after =
      rw (magic, version, size, after) (ground (arith, long))

equal_self : (b : Bytes) → equal b b ≡ true
equal_self [] = refl
equal_self (x ∷ xs) = ground (arith, equal_self xs)

-- a slice of four bytes
four : (b : Bytes) → length b ≡ 4 → (x : ℕ) × (y : ℕ) × (z : ℕ) × (w : ℕ) × (b ≡ x ∷ y ∷ z ∷ w ∷ [])
four [] h = absurd (omega (arith, h))
four (x ∷ []) h = absurd (omega (arith, h))
four (x ∷ y ∷ []) h = absurd (omega (arith, h))
four (x ∷ y ∷ z ∷ []) h = absurd (omega (arith, h))
four (x ∷ y ∷ z ∷ w ∷ []) h = (x, y, z, w, refl)
four (x ∷ y ∷ z ∷ w ∷ v ∷ b) h = absurd (omega (arith, h))

-- the file of a segment that `OpenWAL` created at the time `now`
abbrev pub file_of : Config → ℕ → Bytes → Bytes
file_of vb now body = wal_header vb now ++ body

read-file_of :
    (vb : Config) (now : ℕ) (body : Bytes)
    → IsConfig vb
    → read_wal_file_for_recovery vb reliable (file_of vb now body) ≡ read_body vb reliable body
unfolding wal_header
read-file_of vb now body c =
    let (x, y, z, w, e) = four vb.wal_magic c.magic_fits in
    let rest = put_be 2 vb.version ++ (put_be 4 vb.block_size ++ put_be 8 now) in
    let raw = (x ∷ y ∷ z ∷ w ∷ rest) ++ body in
    ap (λ m. read_wal_file_for_recovery vb reliable ((m ++ rest) ++ body)) e
    ∙ header_accepted vb raw body (omega (arith))
        (ap (equal (x ∷ y ∷ z ∷ w ∷ [])) e ∙ equal_self (x ∷ y ∷ z ∷ w ∷ []))
        (get_be-put_be 2 vb.version c.version_fits) (get_be-put_be 4 vb.block_size c.size_fits) refl

-- Recovery of a segment that holds the header and the records of blocks that fit, and after them
-- fewer bytes than a record has, returns those blocks in their order, and their highest sequence
-- number: nothing is lost to a torn tail, with and without encryption.
pub recover-wal_records :
    (vb : Config) (now : ℕ) (blocks : List Block) (tail : Bytes)
    → IsConfig vb
    → AllLoggable vb blocks
    → length tail < record_size vb
    → read_wal_file_for_recovery vb reliable (file_of vb now (wal_records vb blocks ++ tail))
      ≡ Recovered.recovered blocks (max_seq blocks)
recover-wal_records vb now blocks tail c vs short =
    read-file_of vb now (wal_records vb blocks ++ tail) c
    ∙ read_body-wal_records vb blocks tail c vs short
