-- ===== src/Wal/Bodies.antt =====
-- The records of a segment read back, one loop with encryption and one without.
use viperblock.Prelude.{
  ℕ, zero, suc, ◌+◌, ◌<◌, ◌≤◌, ◌≡◌, refl, ap, ◌∙◌, Bool, true, false, some, List, [], ◌∷◌, ◌++◌,
  Bool-cases, inl, inr, arith, length, take, drop, replicate, length-append, take-append,
  drop-append, append_assoc, if◌then◌else◌,
}
use viperblock.Bytes.{Bytes, slice, get_be}
use viperblock.Crypto.{init_aad, update_aad}
use viperblock.Store.Census.{Block}
use viperblock.Wal.{
  Config, Recovered, plain_record, sealed_record, wal_record, check_record, open_record, larger,
  read_sealed, read_plain, read_body,
}
use viperblock.Wal.Records.{
  IsConfig, IsLoggable, AllLoggable, IsPrimed, wal_records, length-plain_record,
  length-sealed_record, update_aad-IsPrimed, init_aad-IsPrimed, check_record-plain_record,
  open_record-sealed_record, seq_of, num_of,
}

-- the highest sequence number of some blocks

unfoldable pub max_seq : List Block → ℕ
max_seq [] = 0
max_seq (block ∷ blocks) = larger block.seq_num (max_seq blocks)

-- the reads of a file that has no fault but its end
abbrev pub reliable : ℕ → Bool
reliable n = false

-- the length of a record
unfoldable pub record_size : Config → ℕ
record_size vb = if vb.encryption_enabled then 40 + vb.block_size else 28 + vb.block_size

-- What a file of these blocks gives.
abbrev pub Gives : List Block → Recovered
Gives blocks = Recovered.recovered blocks (max_seq blocks)

module _ (vb : Config) where
  plain_end :
      (fuel : ℕ) (tail : Bytes)
      → length tail < 28 + vb.block_size
      → read_plain vb reliable fuel tail ≡ Recovered.recovered [] 0
  unfolding read_plain
  plain_end zero tail h = refl
  plain_end (suc fuel) tail h = ground (arith, h)

  sealed_end :
      (fuel : ℕ) (aad tail : Bytes)
      → length tail < 40 + vb.block_size
      → read_sealed vb reliable fuel aad tail ≡ Recovered.recovered [] 0
  unfolding read_sealed
  sealed_end zero aad tail h = refl
  sealed_end (suc fuel) aad tail h = ground (arith, h)

  plain_step :
      (fuel : ℕ) (raw : Bytes) (block : Block) (blocks : List Block)
      → 28 + vb.block_size ≤ length raw
      → check_record (take (28 + vb.block_size) raw) ≡ some block
      → read_plain vb reliable fuel (drop (28 + vb.block_size) raw) ≡ Gives blocks
      → read_plain vb reliable (suc fuel) raw ≡ Gives (block ∷ blocks)
  unfolding read_plain max_seq
  plain_step fuel raw block blocks long first rest = rw (first, rest) (ground (arith, long))

  sealed_step :
      (fuel : ℕ) (raw first aad : Bytes) (block : Block) (blocks : List Block)
      → 40 + vb.block_size ≤ length raw
      → take (40 + vb.block_size) raw ≡ first
      → get_be (slice 8 8 first) ≡ block.block
      → get_be (slice 0 8 first) ≡ block.seq_num
      → open_record vb (update_aad aad block.block block.seq_num) first ≡ some block
      → read_sealed vb reliable fuel
          (update_aad aad block.block block.seq_num)
          (drop (40 + vb.block_size) raw)
        ≡ Gives blocks
      → read_sealed vb reliable (suc fuel) aad raw ≡ Gives (block ∷ blocks)
  unfolding read_sealed max_seq
  sealed_step fuel raw first aad block blocks long t b n opened rest =
      rw (t, b, n, opened, rest) (ground (arith, long))

  wal_record_plain :
      (block : Block) → vb.encryption_enabled ≡ false → wal_record vb block ≡ plain_record block
  unfolding wal_record
  wal_record_plain block off = rw off

  wal_record_sealed :
      (block : Block) → vb.encryption_enabled ≡ true → wal_record vb block ≡ sealed_record vb block
  unfolding wal_record
  wal_record_sealed block on = rw on

  num_of_sealed :
      (block : Block)
      → IsLoggable vb block
      → get_be (slice 8 8 (sealed_record vb block)) ≡ block.block
  unfolding sealed_record
  num_of_sealed block v = num_of block _ vb v

  seq_of_sealed :
      (block : Block)
      → IsLoggable vb block
      → get_be (slice 0 8 (sealed_record vb block)) ≡ block.seq_num
  unfolding sealed_record
  seq_of_sealed block v = seq_of block _ vb v

  module _ (tail : Bytes) where
    read_plain_all :
        (fuel : ℕ) (blocks : List Block)
        → vb.encryption_enabled ≡ false
        → length tail < 28 + vb.block_size
        → AllLoggable vb blocks
        → length blocks ≤ fuel
        → read_plain vb reliable fuel (wal_records vb blocks ++ tail) ≡ Gives blocks
    unfolding wal_records max_seq
    read_plain_all fuel [] off short vs enough = plain_end fuel tail short
    read_plain_all zero (block ∷ blocks) off short vs enough = absurd (omega arith)
    read_plain_all (suc fuel) (block ∷ blocks) off short (v, vs) enough =
        let rest = wal_records vb blocks ++ tail in
        let size = length-plain_record vb block v in
        let same = ap (λ r. r ++ rest) (wal_record_plain block off) in
        ap (read_plain vb reliable (suc fuel))
          (append_assoc (wal_record vb block) (wal_records vb blocks) tail ∙ same)
        ∙ plain_step fuel (plain_record block ++ rest) block blocks
            (omega (arith, length-append (plain_record block) rest, size))
            (ap check_record (take-append _ (plain_record block) rest size)
              ∙ check_record-plain_record vb block v)
            (ap (read_plain vb reliable fuel) (drop-append _ (plain_record block) rest size)
              ∙ read_plain_all fuel blocks off short vs (omega arith))

    read_sealed_all :
        (fuel : ℕ) (aad : Bytes) (blocks : List Block)
        → vb.encryption_enabled ≡ true
        → IsConfig vb
        → IsPrimed vb aad
        → length tail < 40 + vb.block_size
        → AllLoggable vb blocks
        → length blocks ≤ fuel
        → read_sealed vb reliable fuel aad (wal_records vb blocks ++ tail) ≡ Gives blocks
    unfolding wal_records max_seq
    read_sealed_all fuel aad [] on c primed short vs enough = sealed_end fuel aad tail short
    read_sealed_all zero aad (block ∷ blocks) on c primed short vs enough = absurd (omega arith)
    read_sealed_all (suc fuel) aad (block ∷ blocks) on c primed short (v, vs) enough =
        let rest = wal_records vb blocks ++ tail in
        let first = sealed_record vb block in
        let size = length-sealed_record vb block c.cipher v in
        let filled = update_aad aad block.block block.seq_num in
        let same = ap (λ r. r ++ rest) (wal_record_sealed block on) in
        ap (read_sealed vb reliable (suc fuel) aad)
          (append_assoc (wal_record vb block) (wal_records vb blocks) tail ∙ same)
        ∙ sealed_step fuel (first ++ rest) first aad block blocks
            (omega (arith, length-append first rest, size)) (take-append _ first rest size)
            (num_of_sealed block v) (seq_of_sealed block v)
            (open_record-sealed_record vb block aad c primed v)
            (ap (read_sealed vb reliable fuel filled) (drop-append _ first rest size)
              ∙ read_sealed_all fuel filled blocks on c
                  (update_aad-IsPrimed vb aad block.block block.seq_num c primed) short vs
                  (omega arith))

  length-wal_record :
      (block : Block) → IsLoggable vb block → IsConfig vb → 0 < length (wal_record vb block)
  length-wal_record block v c = elim (Bool-cases vb.encryption_enabled) [
    | inl on ↦
        omega
          (arith, ap length (wal_record_sealed block on), length-sealed_record vb block c.cipher v)
    | inr off ↦
        omega (arith, ap length (wal_record_plain block off), length-plain_record vb block v)
  ]

  length-wal_records :
      (blocks : List Block)
      → AllLoggable vb blocks
      → IsConfig vb
      → length blocks ≤ length (wal_records vb blocks)
  unfolding wal_records
  length-wal_records [] vs c = omega arith
  length-wal_records (block ∷ blocks) (v, vs) c = omega (
    arith,
    length-append (wal_record vb block) (wal_records vb blocks),
    length-wal_record block v c,
    length-wal_records blocks vs c,
  )

  body_sealed :
      (raw : Bytes)
      → vb.encryption_enabled ≡ true
      → read_body vb reliable raw
        ≡ read_sealed vb reliable (length raw) (init_aad (replicate 48 0) vb.volume_name_hash) raw
  unfolding read_body
  body_sealed raw on = rw on refl

  body_plain :
      (raw : Bytes)
      → vb.encryption_enabled ≡ false
      → read_body vb reliable raw ≡ read_plain vb reliable (length raw) raw
  unfolding read_body
  body_plain raw off = rw off refl

  pub read_body-wal_records :
      (blocks : List Block) (tail : Bytes)
      → IsConfig vb
      → AllLoggable vb blocks
      → length tail < record_size vb
      → read_body vb reliable (wal_records vb blocks ++ tail) ≡ Gives blocks
  unfolding record_size
  read_body-wal_records blocks tail c vs short =
      let raw = wal_records vb blocks ++ tail in
      let enough : length blocks ≤ length raw =
        omega (arith, length-append (wal_records vb blocks) tail, length-wal_records blocks vs c) in
      elim (Bool-cases vb.encryption_enabled) [
        | inl on ↦
            body_sealed raw on
            ∙ read_sealed_all tail (length raw) _ blocks on c (init_aad-IsPrimed vb c)
                (ground (arith, on, short)) vs enough
        | inr off ↦
            body_plain raw off
            ∙ read_plain_all tail (length raw) blocks off (ground (arith, off, short)) vs enough
      ]
