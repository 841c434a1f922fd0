-- ===== src/Tests/Codec.antt =====
-- The checkpoint, the nonces and the associated data at concrete inputs.
use viperblock.Prelude.{ℕ, ◌≡◌, refl, arith, some, [], ◌∷◌, replicate, true, none, ◌-◌, ◌≤◌}
use viperblock.Dict.{Dict}
use viperblock.Bytes.{Bytes, xor, crc_bits, crc_bytes, crc32}
use viperblock.Lookup.{
  BlockLookup, seq_num_at, offset_at, single_at, expand_from, expand_block_lookup,
}
use viperblock.Checkpoint.{
  expand_all, collect, save_block_state, block_to_object_wal_magic, parse_block_checkpoint_bytes,
}
use viperblock.Checkpoint.RoundTrip.{
  IsSingle, AllSingle, parse-save_block_state, walk-save_block_state,
}
use viperblock.Reload.{Volume, parse_block_checkpoint, Below, parse_block_checkpoint-Below}
use viperblock.Words.{u64}
use viperblock.Snapshots.{SourceGroup, write_section, parse_flat_section}
use viperblock.Snapshots.Flat.{IsSource, layer_of, parse-write_section}
use viperblock.Crypto.{domain_chunk}
use viperblock.Crypto.Separation.{make_nonce-inj, make_aad-inj}

-- the check value of CRC-32, that of the digits 1 to 9

crc32_of_digits : crc32 (49 ∷ 50 ∷ 51 ∷ 52 ∷ 53 ∷ 54 ∷ 55 ∷ 56 ∷ 57 ∷ []) ≡ 3421780262
unfolding crc32 crc_bytes crc_bits xor
crc32_of_digits = refl

abbrev single : BlockLookup
single = record {
  seq_nums = [];
  start_block = 70000;
  object_id = 9;
  seq_num = 41;
  object_offset = 4106;
  num_blocks = 1;
}

abbrev run_of_two : BlockLookup
run_of_two = record {
  seq_nums = 41 ∷ 57 ∷ [];
  start_block = 70000;
  object_id = 9;
  seq_num = 41;
  object_offset = 10;
  num_blocks = 2;
}

abbrev index : Dict BlockLookup
index = (70000, run_of_two) ∷ []

single-IsSingle : IsSingle single
single-IsSingle = record {
  unlisted = refl;
  start_fits = omega arith;
  num_fits = omega arith;
  object_fits = omega arith;
  offset_fits = omega arith;
  seq_fits = omega arith;
}

index-AllSingle : AllSingle (expand_all 4096 index)
unfolding expand_all expand_block_lookup expand_from single_at seq_num_at offset_at
index-AllSingle = (
  record {
    unlisted = refl;
    start_fits = omega arith;
    num_fits = omega arith;
    object_fits = omega arith;
    offset_fits = omega arith;
    seq_fits = omega arith;
  },
  (
    record {
      unlisted = refl;
      start_fits = omega arith;
      num_fits = omega arith;
      object_fits = omega arith;
      offset_fits = omega arith;
      seq_fits = omega arith;
    },
    tt,
  ),
)

parse-save_block_state_example :
    parse_block_checkpoint_bytes (save_block_state 1 1700000000 4096 index) 1
    ≡ some (collect (expand_all 4096 index) [])
parse-save_block_state_example =
    parse-save_block_state 1 1700000000 4096 index (omega arith) index-AllSingle

abbrev uuid : Bytes
uuid = 7 ∷ 1 ∷ 4 ∷ 9 ∷ []

abbrev hash : Bytes
hash = replicate 32 171

abbrev number : ℕ
number = 41

abbrev block : ℕ
block = 70000

make_nonce-inj_example : (number ≡ number) × (uuid ≡ uuid) × (domain_chunk ≡ domain_chunk)
make_nonce-inj_example =
    make_nonce-inj number number uuid uuid domain_chunk domain_chunk (omega arith) (omega arith)
      refl refl refl

make_aad-inj_example : (hash ≡ hash) × (block ≡ block) × (number ≡ number)
make_aad-inj_example =
    make_aad-inj hash hash block block number number refl refl (omega arith) (omega arith)
      (omega arith) (omega arith) refl

abbrev reopened : Volume
reopened = record {
  index = record { entries = []; gc_refcount = none };
  object_num = 4;
  store = none;
}

index-Below : Below (u64 - 1) (expand_all 4096 index)
unfolding expand_all expand_block_lookup expand_from single_at seq_num_at offset_at
index-Below = (omega arith, (omega arith, tt))

parse_block_checkpoint-Below_example :
    let w =
      (parse_block_checkpoint true 1 block_to_object_wal_magic
        (save_block_state 1 1700000000 4096 index)
        4096
        reopened).0 in
    Below w.object_num (expand_all 4096 index) × (4 ≤ w.object_num)
parse_block_checkpoint-Below_example =
    parse_block_checkpoint-Below true 1 4096 block_to_object_wal_magic
      (save_block_state 1 1700000000 4096 index) reopened (expand_all 4096 index)
      (walk-save_block_state 1 1700000000 4096 index (omega arith) index-AllSingle) index-Below

abbrev base_source : SourceGroup
base_source = record {
  name = 118 ∷ 49 ∷ [];
  uuid = 1 ∷ 2 ∷ 3 ∷ 4 ∷ [];
  name_hash = replicate 32 9;
  blocks = single ∷ [];
}

base_source-IsSource : IsSource base_source
base_source-IsSource = record {
  name_fits = omega arith;
  uuid_fits = refl;
  hash_fits = refl;
  count_fits = omega arith;
  single = (single-IsSingle, tt);
}

parse-write_section_example :
    (raw : Bytes) × (write_section (base_source ∷ base_source ∷ []) ≡ some raw)
    × (parse_flat_section raw ≡ some (layer_of base_source ∷ layer_of base_source ∷ []))
parse-write_section_example =
    parse-write_section (base_source ∷ base_source ∷ [])
      (base_source-IsSource, (base_source-IsSource, tt)) (omega arith)
