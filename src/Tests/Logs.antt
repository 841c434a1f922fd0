-- ===== src/Tests/Logs.antt =====
-- Write-ahead logs of small blocks, with a cipher that stands for the real one.
use viperblock.Prelude.{
  ℕ, ◌+◌, ◌<◌, ◌≡◌, refl, ap, ◌∙◌, Bool, true, false, Option, none, some, List, [], ◌∷◌, ◌++◌,
  arith, length, take, replicate, length-append, take-append, ltb, if◌then◌else◌, ◌-◌,
}
use viperblock.Store.Census.{Block}
use viperblock.Wal.{
  Aead, Config, Disk, Recovered, wal_record, sealed_record, record_fields, write_wal,
  read_wal_file_for_recovery,
}
use viperblock.Wal.Records.{IsAead, IsConfig, IsLoggable}
use viperblock.Wal.Bodies.{reliable, record_size, max_seq}
use viperblock.Wal.Append.{run_appends, fresh_segment, acknowledged, recover-run_appends}

-- the text behind 16 zero bytes

abbrev pub plain_aead : Aead
plain_aead = record {
  seal = λ n p a. replicate 16 0 ++ p;
  unseal = λ n c a. if ltb (length c) 16 then none else some (viperblock.Prelude.drop 16 c);
}

plain_aead-IsAead : IsAead plain_aead
plain_aead-IsAead = record {
  unseal-seal = λ n p a. ground arith;
  length-seal = λ n p a. omega arith;
}

abbrev config : Config
config = record {
  wal_magic = 86 ∷ 66 ∷ 87 ∷ 69 ∷ [];
  version = 1;
  block_size = 2;
  encryption_enabled = true;
  volume_uuid = 1 ∷ 2 ∷ 3 ∷ 4 ∷ [];
  volume_name_hash = replicate 32 7;
  aead = plain_aead;
}

config-IsConfig : IsConfig config
config-IsConfig = record {
  magic_fits = refl;
  version_fits = omega arith;
  size_fits = omega arith;
  hash_fits = refl;
  cipher = plain_aead-IsAead;
}

abbrev logged : ℕ → ℕ → Block
logged n b = record { seq_num = n; block = b; len = 2; bytes = n ∷ b ∷ [] }

abbrev working : Disk
working = record { stats = true; taken = 1000; fails = false; truncates = true }

abbrev full : Disk
full = record { stats = true; taken = 7; fails = true; truncates = true }

logged_fits : IsLoggable config (logged 5 9)
logged_fits = record {
  seq_fits = omega arith;
  block_fits = omega arith;
  len_fits = omega arith;
  fills = refl;
}

later_fits : IsLoggable config (logged 6 9)
later_fits = record {
  seq_fits = omega arith;
  block_fits = omega arith;
  len_fits = omega arith;
  fills = refl;
}

abbrev attempts : List (Disk × Block)
attempts = (working, logged 5 9) ∷ (full, logged 6 9) ∷ (working, logged 6 9) ∷ []

recover-run_appends_example :
    let (last, blocks) = run_appends config attempts (fresh_segment config 77) in
    read_wal_file_for_recovery config reliable (last.bytes ++ (1 ∷ 2 ∷ 3 ∷ []))
    ≡ Recovered.recovered blocks (max_seq blocks)
unfolding record_size
recover-run_appends_example =
    recover-run_appends config 77 attempts (1 ∷ 2 ∷ 3 ∷ []) config-IsConfig
      (refl, logged_fits, (refl, later_fits, (refl, later_fits, tt))) (omega arith)

-- the append to the full disk is not among the blocks
blocks_of_attempts :
    (run_appends config attempts (fresh_segment config 77)).1 ≡ logged 5 9 ∷ logged 6 9 ∷ []
unfolding run_appends write_wal acknowledged wal_record sealed_record record_fields
blocks_of_attempts = refl
