-- ===== src/Crypto.antt =====
-- The nonces and the associated data of viperblock/crypto.go. A volume's UUID is four bytes and the
-- hash of its name is 32; the hash function itself is not modelled.
pub mod Separation
use viperblock.Prelude.{ℕ, ◌+◌, ◌/◌, ◌%◌, ◌^◌, List, [], ◌∷◌, ◌++◌, length, take, drop}
use viperblock.Bytes.{Bytes, slice, put_be}

-- the domain bytes
abbrev pub domain_chunk : ℕ
domain_chunk = 0

abbrev pub domain_wal : ℕ
domain_wal = 1

abbrev pub domain_vbstate_meta : ℕ
domain_vbstate_meta = 2

abbrev pub domain_snapshot_meta : ℕ
domain_snapshot_meta = 3

-- `makeNonce`
unfoldable pub make_nonce : ℕ → Bytes → ℕ → Bytes
make_nonce seq_num volume_uuid domain =
    (seq_num / 2 ^ 48) % 256
    ∷ (seq_num / 2 ^ 40) % 256
    ∷ (seq_num / 2 ^ 32) % 256
    ∷ (seq_num / 2 ^ 24) % 256
    ∷ (seq_num / 2 ^ 16) % 256
    ∷ (seq_num / 2 ^ 8) % 256
    ∷ seq_num % 256
    ∷ (volume_uuid ++ (domain ∷ []))

-- `makeAAD`
unfoldable pub make_aad : Bytes → ℕ → ℕ → Bytes
make_aad volume_name_hash block_num seq_num =
    volume_name_hash ++ (put_be 8 block_num ++ put_be 8 seq_num)

-- `initAAD` on a 48-byte buffer
unfoldable pub init_aad : Bytes → Bytes → Bytes
init_aad aad volume_name_hash = volume_name_hash ++ drop 32 aad

-- `updateAAD` on a 48-byte buffer
unfoldable pub update_aad : Bytes → ℕ → ℕ → Bytes
update_aad aad block_num seq_num = take 32 aad ++ (put_be 8 block_num ++ put_be 8 seq_num)

-- `makeMetaAAD`
unfoldable pub make_meta_aad : Bytes → Bytes → ℕ → Bytes
make_meta_aad volume_name_hash domain_tag state_seq_num =
    volume_name_hash ++ (domain_tag ++ put_be 8 state_seq_num)
