-- ===== src/Wal/Records.antt =====
-- Single records of the log, written and read back.
use viperblock.Prelude.{
  ℕ, ◌+◌, ◌<◌, ◌≡◌, refl, sym, ap, ◌∙◌, Option, none, some, List, [], ◌∷◌, ◌++◌, arith, length,
  take, drop, replicate, take-append,
}
use viperblock.Words.{u16, u32, u64}
use viperblock.Bytes.{Bytes, slice, put_be, get_be, get_be-put_be, xor_32_bounded}
use viperblock.Crypto.{make_nonce, init_aad, update_aad, domain_wal}
use viperblock.Store.Census.{Block}
use viperblock.Wal.{
  Config, Aead, record_fields, plain_record, sealed_record, wal_record, checksum, block_of,
  open_record, check_record, crc32_update,
}

-- What is documented of an AEAD cipher with a 16-byte tag.

pub record IsAead (aead : Aead) : Type 0 where
  pub unseal-seal : (n p a : Bytes) → aead.unseal n (aead.seal n p a) a ≡ some p
  pub length-seal : (n p a : Bytes) → length (aead.seal n p a) ≡ length p + 16

-- The fields of a block fit their bytes, and its data fill a block.
pub record IsLoggable (vb : Config) (block : Block) : Type 0 where
  pub seq_fits : block.seq_num < u64
  pub block_fits : block.block < u64
  pub len_fits : block.len < u64
  pub fills : length block.bytes ≡ vb.block_size

-- The fields of a volume fit the header, and its cipher is one.
pub record IsConfig (vb : Config) : Type 0 where
  pub magic_fits : length vb.wal_magic ≡ 4
  pub version_fits : vb.version < u16
  pub size_fits : vb.block_size < u32
  pub hash_fits : length vb.volume_name_hash ≡ 32
  pub cipher : IsAead vb.aead

abbrev pub AllLoggable : Config → List Block → Type 0
AllLoggable vb [] = Unit {0}
AllLoggable vb (block ∷ blocks) = IsLoggable vb block × AllLoggable vb blocks

-- the records of some blocks, one after the other
unfoldable pub wal_records : Config → List Block → Bytes
wal_records vb [] = []
wal_records vb (block ∷ blocks) = wal_record vb block ++ wal_records vb blocks

module _ (block : Block) (rest : Bytes) where
  take-record_fields : take 24 (record_fields block ++ rest) ≡ record_fields block
  unfolding record_fields
  take-record_fields = refl

  drop-record_fields : drop 24 (record_fields block ++ rest) ≡ rest
  unfolding record_fields
  drop-record_fields = refl

  block_of-record_fields :
      (vb : Config)
      → IsLoggable vb block
      → block_of (record_fields block ++ rest) block.bytes ≡ block
  unfolding block_of record_fields
  block_of-record_fields vb v =
      rw
        (
          get_be-put_be 8 block.seq_num v.seq_fits,
          get_be-put_be 8 block.block v.block_fits,
          get_be-put_be 8 block.len v.len_fits,
        )
        refl

  pub seq_of :
      (vb : Config)
      → IsLoggable vb block
      → get_be (slice 0 8 (record_fields block ++ rest)) ≡ block.seq_num
  unfolding record_fields
  seq_of vb v = get_be-put_be 8 block.seq_num v.seq_fits

  pub num_of :
      (vb : Config)
      → IsLoggable vb block
      → get_be (slice 8 8 (record_fields block ++ rest)) ≡ block.block
  unfolding record_fields
  num_of vb v = get_be-put_be 8 block.block v.block_fits

length-record_fields : (block : Block) → length (record_fields block) ≡ 24
unfolding record_fields
length-record_fields block = refl

check_accepts :
    (raw bytes : Bytes)
    → drop 28 raw ≡ bytes
    → checksum (take 24 raw) bytes ≡ get_be (slice 24 4 raw)
    → check_record raw ≡ some (block_of raw bytes)
unfolding check_record
check_accepts raw bytes d h = rw d (ground (arith, h))

checksum_bounded : (fields bytes : Bytes) → checksum fields bytes < u32
unfolding checksum crc32_update
checksum_bounded fields bytes = omega (arith, xor_32_bounded _ _)

sum_of :
    (block : Block) (rest : Bytes) (sum : ℕ)
    → sum < u32
    → get_be (slice 24 4 (record_fields block ++ (put_be 4 sum ++ rest))) ≡ sum
unfolding record_fields
sum_of block rest sum small = get_be-put_be 4 sum small

data_of :
    (block : Block) (rest : Bytes) (sum : ℕ)
    → drop 28 (record_fields block ++ (put_be 4 sum ++ rest)) ≡ rest
unfolding record_fields
data_of block rest sum = refl

pub check_record-plain_record :
    (vb : Config) (block : Block)
    → IsLoggable vb block
    → check_record (plain_record block) ≡ some block
unfolding plain_record
check_record-plain_record vb block v =
    let sum = checksum (record_fields block) block.bytes in
    let rest = put_be 4 sum ++ block.bytes in
    let bounded = checksum_bounded (record_fields block) block.bytes in
    check_accepts (record_fields block ++ rest) block.bytes (data_of block block.bytes sum) (
      ap (λ f. checksum f block.bytes) (take-record_fields block rest)
      ∙ sym (sum_of block block.bytes sum bounded))
    ∙ ap some (block_of-record_fields block rest vb v)

pub length-plain_record :
    (vb : Config) (block : Block)
    → IsLoggable vb block
    → length (plain_record block) ≡ 28 + vb.block_size
unfolding plain_record record_fields
length-plain_record vb block v = omega (arith, v.fills)

pub length-sealed_record :
    (vb : Config) (block : Block)
    → IsAead vb.aead
    → IsLoggable vb block
    → length (sealed_record vb block) ≡ 40 + vb.block_size
unfolding sealed_record record_fields
length-sealed_record vb block c v = omega (arith, v.fills, c.length-seal _ block.bytes _)

-- The buffer of associated data holds the hash of the volume's name.
abbrev pub IsPrimed : Config → Bytes → Type 0
IsPrimed vb aad = take 32 aad ≡ vb.volume_name_hash

pub update_aad-IsPrimed :
    (vb : Config) (aad : Bytes) (b n : ℕ)
    → IsConfig vb
    → IsPrimed vb aad
    → IsPrimed vb (update_aad aad b n)
unfolding update_aad
update_aad-IsPrimed vb aad b n c h =
    take-append 32 (take 32 aad) (put_be 8 b ++ put_be 8 n) (ap length h ∙ c.hash_fits) ∙ h

pub init_aad-IsPrimed :
    (vb : Config) → IsConfig vb → IsPrimed vb (init_aad (replicate 48 0) vb.volume_name_hash)
unfolding init_aad
init_aad-IsPrimed vb c = take-append 32 vb.volume_name_hash _ c.hash_fits

update_aad_primed :
    (vb : Config) (aad aad' : Bytes) (b n : ℕ)
    → IsPrimed vb aad
    → IsPrimed vb aad'
    → update_aad aad b n ≡ update_aad aad' b n
unfolding update_aad
update_aad_primed vb aad aad' b n h h' = rw (h, h') refl

open_accepts :
    (vb : Config) (aad raw plain nonce : Bytes)
    → make_nonce (get_be (slice 0 8 raw)) vb.volume_uuid domain_wal ≡ nonce
    → vb.aead.unseal nonce (drop 24 raw) aad ≡ some plain
    → open_record vb aad raw ≡ some (block_of raw plain)
unfolding open_record
open_accepts vb aad raw plain nonce e h =
    let after : Option Bytes → Option Block =
      λ o. elim o [ none ↦ none | some plain ↦ some (block_of raw plain) ] in
    ap (λ n. after (vb.aead.unseal n (drop 24 raw) aad)) e ∙ ap after h

pub open_record-sealed_record :
    (vb : Config) (block : Block) (aad : Bytes)
    → IsConfig vb
    → IsPrimed vb aad
    → IsLoggable vb block
    → open_record vb (update_aad aad block.block block.seq_num) (sealed_record vb block)
      ≡ some block
unfolding sealed_record
open_record-sealed_record vb block aad c h v =
    let nonce = make_nonce block.seq_num vb.volume_uuid domain_wal in
    let fresh = init_aad (replicate 48 0) vb.volume_name_hash in
    let filled = update_aad fresh block.block block.seq_num in
    let rest = vb.aead.seal nonce block.bytes filled in
    let same =
      update_aad_primed vb aad fresh block.block block.seq_num h (init_aad-IsPrimed vb c) in
    ap (λ a. open_record vb a (record_fields block ++ rest)) same
    ∙ open_accepts vb filled (record_fields block ++ rest) block.bytes nonce
        (ap (λ s. make_nonce s vb.volume_uuid domain_wal) (seq_of block rest vb v))
        (ap (λ d. vb.aead.unseal nonce d filled) (drop-record_fields block rest)
          ∙ c.cipher.unseal-seal _ _ _)
    ∙ ap some (block_of-record_fields block rest vb v)
