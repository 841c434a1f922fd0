-- ===== src/Tests/Openings.antt =====
-- A recovery of two segments, a state that is loaded, and a writer that waits.
use viperblock.Prelude.{
  ℕ, ◌+◌, ◌≡◌, ◌≢◌, ◌⊎◌, refl, Bool, true, false, none, some, List, [], ◌∷◌, ◌++◌,
}
use viperblock.Bytes.{Bytes}
use viperblock.Dict.{Dict}
use viperblock.Store.Census.{Block}
use viperblock.Numbering.{Counter}
use viperblock.Wal.{Config, wal_header, wal_record}
use viperblock.Tests.Logs.{plain_aead}
use viperblock.Drain.Chunk
use viperblock.Replay.{File, ReplayResult, recover_local_wals}
use viperblock.Replay.Files.{AllRead, recover_local_wals-IsCautious}
use viperblock.LoadState.{State, Volume}
use viperblock.LoadState.Decides.{Decides}
use viperblock.Backpressure.{Round, DrainResult, await_backpressure}
use viperblock.Backpressure.Bounded.{await_backpressure-ends}

abbrev config : Config
config = record {
  wal_magic = 86 ∷ 66 ∷ 87 ∷ 76 ∷ [];
  version = 1;
  block_size = 2;
  encryption_enabled = false;
  volume_uuid = [];
  volume_name_hash = [];
  aead = plain_aead;
}

abbrev logged : Block
logged = record { seq_num = 5; block = 20; len = 2; bytes = 1 ∷ 2 ∷ [] }

abbrev files : List File
files =
    record {
      name = 97 ∷ [];
      contents = some (wal_header config 77 ++ wal_record config logged);
      faults = λ n. false;
    }
    ∷ record { name = 98 ∷ []; contents = none; faults = λ n. false }
    ∷ []

abbrev empty_volume : viperblock.Drain.Chunk.Volume
empty_volume = record {
  object_num = 4;
  objects = [];
  pending = [];
  pending_bytes = 0;
  cached = none;
  index = record { entries = []; gc_refcount = none };
  dirty = false;
  store = none;
}

abbrev taking : ℕ → Bytes → Dict Bytes → Dict Bytes × Bool
taking id body objects = ((id, body) ∷ objects, true)

recover_local_wals-IsCautious_example :
    let (r, result) =
      recover_local_wals config taking (86 ∷ 66 ∷ 67 ∷ 72 ∷ []) 4 true true files empty_volume 3 in
    ((result ≡ ReplayResult.done) ⊎ (r.removed ≡ [])) × AllRead config files r.removed
recover_local_wals-IsCautious_example =
    recover_local_wals-IsCautious config taking (86 ∷ 66 ∷ 67 ∷ 72 ∷ []) 4 true true files
      empty_volume 3

abbrev saved : ℕ → State
saved n = record {
  volume_name = 118 ∷ [];
  volume_size = 1048576;
  block_size = 4096;
  obj_block_size = 4194304;
  seq_num = 9;
  object_num = 4;
  wal_num = 2;
  block_to_object_wal_num = 1;
  version = 1;
  size_gib = 1;
  sharded_wal = false;
  snapshot_id = [];
  encryption_enabled = false;
  volume_uuid = [];
  key_fingerprint = [];
  state_seq_num = n;
  seq_num_high_water = 0;
}

abbrev counter : Counter
counter = record {
  encryption_enabled = false;
  seq_num = 0;
  seq_num_high_water = 0;
  volume_uuid = [];
  durable = 0;
}

abbrev fresh_volume : Volume
fresh_volume = record {
  volume_name = 118 ∷ [];
  volume_size = 0;
  block_size = 4096;
  obj_block_size = 4194304;
  object_num = 0;
  wal_num = 0;
  block_to_object_wal_num = 0;
  use_sharded_wal = false;
  sharded_wal = none;
  version = 1;
  size_gib = 0;
  next_state_seq_num = 0;
  master_key = none;
  counter = counter;
}

-- drains that fail, over a counter that stays at 1000
abbrev failing : Round
failing = record {
  pending = 1000;
  ended = false;
  drives = true;
  drain = DrainResult.failed;
  pending_after = 1000;
  ended_asleep = false;
}

await_backpressure-ends_example : await_backpressure 500 1000 (λ i. failing) (3 + 10) ≢ none
await_backpressure-ends_example =
    await_backpressure-ends 500 1000 3 (λ i. failing) (λ i from. (refl, refl))
