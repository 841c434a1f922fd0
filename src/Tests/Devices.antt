-- ===== src/Tests/Devices.antt =====
-- A volume of blocks of four bytes, cloned from a snapshot that has its blocks 0 and 1 in chunk 3, with
-- a cipher that puts sixteen zero bytes before the text.
use viperblock.Prelude.{
  ℕ, zero, suc, ◌+◌, ◌*◌, ◌%◌, ◌≤◌, ◌≡◌, refl, sym, ◌∙◌, ap, subst, true, false, Option, none, some,
  [], ◌∷◌, ◌++◌, arith, length, get_or, replicate, ltb, if◌then◌else◌, drop,
}
use viperblock.Bytes.{Bytes, slice}
use viperblock.Dict.{insert, Dict, find, keys}
use viperblock.Block.{BlockEntry, BlockState}
use viperblock.Lookup.{BlockLookup, block_stride}
use viperblock.Numbering.{
  is_zero_uuid, mint_volume_uuid, persist_state_local, publish_high_water, raise, reserve_seq_num,
  reserve_window, Persist,
}
use viperblock.Backpressure.{await_backpressure, max_pending_bytes, DrainResult}
use viperblock.Store.{put, new_store, entry, get_shard}
use viperblock.Store.View.{view, entry-put}
use viperblock.Store.View.Writers.{put-IsValid, view-put}
use viperblock.Device.Cached.{IsAtHand}
use viperblock.Extents.{entry_at, offset_at, seq_num_at, scan, find_extent, read_persisted}
use viperblock.Wal.{Aead}
use viperblock.Device.{
  fetch_consecutive_blocks, fetch_runs, add_blocks, blocks_to_read, cache_blocks, check_chunk_magic,
  check_header, decode_run, fetch_base_blocks, fetch_run, is_checked, note_checked, open_blocks,
  open_chunk_run, place_run, remember, run_after, run_of, was_read, ok, err, Codec, Source,
}
use viperblock.Device.Decode.{IsCodec}
use viperblock.Device.Fetch.{IsServed}
use viperblock.Device.Collect.{found_of, own_location, base_location, ancestor_location}
use viperblock.Device.Read.{
  fetch_all, collect, add_found, cut_answer, fetch_ancestors, fetch_base, find_entry, Volume, Layer,
  Backend, Location, Found, Answer, location_of, find_block, find_below, find_ancestor,
  lookup_base_block_to_object, read_at, read_block_store,
}
use viperblock.Device.Layers.{World, IsBacked, image}
use viperblock.Device.ReadAt.{IsRequest, read_at-IsImage}
use viperblock.Device.Write.{
  finish_write, write_blocks, write_block, write_one_block_locked, gate_result, publish, publish_as,
  Device, Env, Gate, Written, write_at,
}
use viperblock.Device.Splice.{IsDevice}
use viperblock.Device.WriteAt.{write_at-IsRewritten}
use viperblock.Device.ReadBack.{read_at-write_at}
use viperblock.Store.Readers.{read_entry}
use viperblock.Crypto.{init_aad, make_nonce, update_aad}
use viperblock.Store.Writers.{cache, write_with_seq_num}
use viperblock.Tests.Stores.{new_store-IsValid}
use viperblock.Device.Unchanged.{read_at-IsDevice}

abbrev aead : Aead
aead = record {
  seal = λ n p a. replicate 16 0 ++ p;
  unseal = λ n c a. if ltb (length c) 16 then none else some (drop 16 c);
}

abbrev codec : Codec
codec = record { block_size = 4; encryption_enabled = true; aead = aead }

codec-IsCodec : IsCodec codec
codec-IsCodec = record {
  positive = omega arith;
  small = omega arith;
  cipher = record { length-unseal = λ n c a p h. ground (arith, h) };
}

abbrev source : ℕ → Source
source n = record { name = n ∷ []; uuid = n ∷ []; name_hash = replicate 32 n }

-- chunk 3 of the snapshot's volume
abbrev object : Bytes
object =
    86
    ∷ 66
    ∷ 67
    ∷ 69
    ∷ (replicate 10 0
        ++ (replicate 16 0 ++ (10 ∷ 11 ∷ 12 ∷ 13 ∷ (replicate 16 0 ++ (14 ∷ 15 ∷ 16 ∷ 17 ∷ [])))))

abbrev world : World
world = record { own = λ id. []; from = λ name id. object }

abbrev lookup : ℕ → ℕ → BlockLookup
lookup b offset = record {
  seq_nums = (b + 1) ∷ [];
  start_block = b;
  object_id = 3;
  seq_num = b + 1;
  object_offset = offset;
  num_blocks = 1;
}

abbrev snapshot : Layer
snapshot = record { source = source 2; blocks = (0, lookup 0 14) ∷ (1, lookup 1 34) ∷ [] }

abbrev volume : Volume
volume = record { size = 16; codec = codec; own = source 1; base = some snapshot; ancestors = [] }

abbrev backend : Backend
backend = record {
  read = λ id offset n. none;
  read_from = λ name id offset n. some (slice offset n object);
}

snapshot-IsServed :
    IsServed snapshot.source
      (world.from snapshot.source.name)
      (backend.read_from snapshot.source.name)
snapshot-IsServed = record { hashed = refl; served = λ id offset n b h l. ground (arith, h) }

the_layer : (layer : Layer) → some snapshot ≡ some layer → snapshot ≡ layer
the_layer layer h = ap (λ o. elim o [ none ↦ snapshot | some x ↦ x ]) h

volume-IsBacked : IsBacked volume world backend
volume-IsBacked = record {
  own = record { hashed = refl; served = λ id offset n b h l. ground (arith, h) };
  base = λ layer h.
      subst (λ l. IsServed l.source (world.from l.source.name) (backend.read_from l.source.name))
        (the_layer layer h) snapshot-IsServed;
  ancestors = tt;
}

abbrev device : Device
device = record {
  counter = record {
    encryption_enabled = true;
    seq_num = 5;
    seq_num_high_water = 100;
    volume_uuid = 1 ∷ [];
    durable = 100;
  };
  memory = record { store = new_store 4; checked = []; cached = some [] };
  writes = [];
  pending_bytes = 0;
}

no_shard : (n i : ℕ) → get_or {A = Dict BlockEntry} (replicate n []) i [] ≡ []
no_shard zero i = refl
no_shard (suc n) zero = refl
no_shard (suc n) (suc i) = no_shard n i

new_view : (b : ℕ) → view (new_store 4) b ≡ none
unfolding new_store entry get_shard read_persisted find_extent scan find keys
new_view b = ap (λ d. elim (find b d) [ none ↦ none | some e ↦ some e ]) (no_shard 16 (b % 16))

-- where each block of the volume is found at first
at : (b : ℕ) → Found
at zero = Found.in_base (location_of (lookup 0 14))
at (suc zero) = Found.in_base (location_of (lookup 1 34))
at (suc (suc b)) = Found.nowhere

found_at : (b : ℕ) → found_of volume (new_store 4) b ≡ at b
unfolding find_block find_below find_ancestor lookup_base_block_to_object find at
found_at b = ap (find_block volume b) (new_view b) ∙ below b
  where
    below : (b : ℕ) → find_below volume b ≡ at b
    below zero = refl
    below (suc zero) = refl
    below (suc (suc b)) = ground arith

new_entry : (b : ℕ) → entry (new_store 4) b ≡ none
unfolding new_store entry get_shard find
new_entry b = ap (find b) (no_shard 16 (b % 16))

at_offset :
    (b : ℕ) (l : Location)
    → base_location (at b) ≡ some l
    → (b ≤ 1) × (l.object_offset ≡ 14 + b * 20)
unfolding at
at_offset zero l h = (omega arith, ground (arith, h))
at_offset (suc zero) l h = (omega arith, ground (arith, h))
at_offset (suc (suc b)) l h = absurd (ground (arith, h))

at_base : (b : ℕ) → (own_location (at b) ≡ none) × ((ai : ℕ) → ancestor_location ai (at b) ≡ none)
unfolding at
at_base zero = (refl, λ ai. refl)
at_base (suc zero) = (refl, λ ai. refl)
at_base (suc (suc b)) = (refl, λ ai. refl)

at_chunk : (b : ℕ) (bytes : Bytes) → at b ≡ Found.in_memory bytes → ⊥
unfolding at
at_chunk zero bytes h = cc
at_chunk (suc zero) bytes h = cc
at_chunk (suc (suc b)) bytes h = cc

no_location : (l : Location) (o : Option Location) → o ≡ none → o ≡ some l → ⊥
no_location l o e h = cc

device-IsDevice : IsDevice volume device
unfolding block_stride
device-IsDevice = record {
  valid = new_store-IsValid 4;
  bounded = λ b e h. absurd (ground (arith, new_entry b, h));
  sound = record {
    full = λ b bytes h. absurd (at_chunk b bytes (sym (found_at b) ∙ h));
    own = λ b l l' e e' same. absurd (
        no_location l (own_location (at b)) (at_base b).0 (ap own_location (sym (found_at b)) ∙ e));
    base = λ b l l' e e' same. omega (
      arith,
      at_offset b l (ap base_location (sym (found_at b)) ∙ e),
      at_offset (suc b) l' (ap base_location (sym (found_at (suc b))) ∙ e'),
    );
    ancestors = λ ai b l l' e e' same. absurd (
        no_location l (ancestor_location ai (at b)) ((at_base b).1 ai)
          (ap (ancestor_location ai) (sym (found_at b)) ∙ e));
  };
}

abbrev env : Env
env = record { backend = backend; random = none; disk = Persist.saved }

abbrev gate : Gate
gate = record {
  backend_full = false;
  backend_near_full = false;
  max_pending_bytes = 0;
  rounds = λ n. record {
    pending = 0;
    ended = false;
    drives = true;
    drain = DrainResult.drained;
    pending_after = 0;
    ended_asleep = false;
  };
  fuel = 1;
}

-- three bytes, the first of them in block 0
abbrev patch : Bytes
patch = 21 ∷ 22 ∷ 23 ∷ []

abbrev after : Device
after = (write_at volume gate (λ b. env) 3 patch device).0

-- all that a write and a read open
model : Unit {0}
unfolding write_at read_at read_block_store find_block entry find new_store find_ancestor find_below
    lookup_base_block_to_object keys find_extent read_persisted scan block_stride get_shard
    finish_write write_blocks write_block write_one_block_locked fetch_all fetch_consecutive_blocks
    fetch_runs collect add_found read_entry await_backpressure max_pending_bytes init_aad make_nonce
    update_aad cut_answer fetch_ancestors fetch_base find_entry gate_result publish publish_as
    add_blocks blocks_to_read cache_blocks check_chunk_magic check_header decode_run
    fetch_base_blocks fetch_run is_checked note_checked open_blocks open_chunk_run place_run
    remember run_after run_of was_read insert entry_at offset_at seq_num_at is_zero_uuid
    mint_volume_uuid persist_state_local publish_high_water raise reserve_seq_num reserve_window
    cache write_with_seq_num put
model = tt

succeeds : write_at volume gate (λ b. env) 3 patch device ≡ (after, Written.written)
unfolding model
succeeds = refl

-- what is read from 1 on: the snapshot's bytes, and in them the caller's
abbrev answer : ℕ → ℕ → Device → Answer
answer offset len d = elim (read_at volume backend offset len d.memory) [
  | ok a ↦ a
  | err e ↦ record { bytes = []; zero_block = false; memory = d.memory }
]

reads : (answer 1 6 device).bytes ≡ 11 ∷ 12 ∷ 13 ∷ 14 ∷ 15 ∷ 16 ∷ []
unfolding model
reads = refl

reads_after : (answer 1 6 after).bytes ≡ 11 ∷ 12 ∷ 21 ∷ 22 ∷ 23 ∷ 16 ∷ []
unfolding model
reads_after = refl

device_reads : read_at volume backend 1 6 device.memory ≡ ok (answer 1 6 device)
unfolding model
device_reads = refl

request : IsRequest volume 1 6
unfolding block_stride
request = record {
  inside = omega arith;
  some_bytes = omega arith;
  few = omega arith;
  small = omega arith;
}

read_at-IsImage_example :
    get_or (answer 1 6 device).bytes 4 0 ≡ image volume world (new_store 4) 1 1
read_at-IsImage_example =
    (read_at-IsImage volume world backend device.memory codec-IsCodec 1 6 request
        (answer 1 6 device) volume-IsBacked device-IsDevice.sound device_reads).1
      4 1 1 (omega arith) (omega arith) (omega arith)

-- The same volume, with block 0 on its own chunk 3, of which memory has no copy
abbrev placed : BlockEntry
placed = record {
  bytes = [];
  seq_num = 5;
  object_id = 3;
  object_offset = 14;
  state = BlockState.persisted;
}

abbrev own_world : World
own_world = record { own = λ id. object; from = λ name id. object }

abbrev own_backend : Backend
own_backend = record {
  read = λ id offset n. some (slice offset n object);
  read_from = λ name id offset n. some (slice offset n object);
}

own-IsServed : IsServed volume.own own_world.own own_backend.read
own-IsServed = record { hashed = refl; served = λ id offset n b h l. ground (arith, h) }

own-IsBacked : IsBacked volume own_world own_backend
own-IsBacked = record {
  own = own-IsServed;
  base = λ layer h.
      subst
        (λ l.
          IsServed l.source (own_world.from l.source.name) (own_backend.read_from l.source.name))
        (the_layer layer h) snapshot-IsServed;
  ancestors = tt;
}

abbrev stored : Device
stored = record device {
  memory = record { store = put (new_store 4) 0 placed; checked = []; cached = none };
}

-- where each block is found now
now_at : (b : ℕ) → Found
now_at zero = Found.own_chunk (record { object_id = 3; object_offset = 14; seq_num = 5 })
now_at (suc zero) = Found.in_base (location_of (lookup 1 34))
now_at (suc (suc b)) = Found.nowhere

now_found : (b : ℕ) → found_of volume stored.memory.store b ≡ now_at b
unfolding find_block find_entry at now_at
now_found zero = ap (find_block volume 0) (view-put (new_store 4) (new_store-IsValid 4) 0 placed 0)
now_found (suc zero) =
    ap (find_block volume 1) (view-put (new_store 4) (new_store-IsValid 4) 0 placed 1) ∙ found_at 1
now_found (suc (suc b)) =
    ap (find_block volume (suc (suc b)))
      (view-put (new_store 4) (new_store-IsValid 4) 0 placed (suc (suc b)) ∙ ground arith)
    ∙ found_at (suc (suc b))

now_one :
    (b : ℕ) (l : Location)
    → ((own_location (now_at b) ≡ some l → b ≡ 0) × (base_location (now_at b) ≡ some l → b ≡ 1))
      × ((ai : ℕ) → ancestor_location ai (now_at b) ≡ none)
unfolding now_at
now_one zero l = ((λ h. refl, λ h. absurd (ground (arith, h))), λ ai. refl)
now_one (suc zero) l = ((λ h. absurd (ground (arith, h)), λ h. refl), λ ai. refl)
now_one (suc (suc b)) l =
    ((λ h. absurd (ground (arith, h)), λ h. absurd (ground (arith, h))), λ ai. refl)

now_chunk : (b : ℕ) (bytes : Bytes) → now_at b ≡ Found.in_memory bytes → ⊥
unfolding now_at
now_chunk zero bytes h = cc
now_chunk (suc zero) bytes h = cc
now_chunk (suc (suc b)) bytes h = cc

stored-IsDevice : IsDevice volume stored
stored-IsDevice = record {
  valid = put-IsValid (new_store 4) (new_store-IsValid 4) 0 placed;
  bounded = λ b e h.
      ground
        (arith, entry-put (new_store 4) (new_store-IsValid 4).sharded 0 placed b, new_entry b, h);
  sound = record {
    full = λ b bytes h. absurd (now_chunk b bytes (sym (now_found b) ∙ h));
    own = λ b l l' e e' same.
        let low = (now_one (suc b) l').0.0 (ap own_location (sym (now_found (suc b))) ∙ e') in
        absurd (omega (arith, low));
    base = λ b l l' e e' same.
        let low = (now_one b l).0.1 (ap base_location (sym (now_found b)) ∙ e) in
        let high = (now_one (suc b) l').0.1 (ap base_location (sym (now_found (suc b))) ∙ e') in
        absurd (omega (arith, low, high));
    ancestors = λ ai b l l' e e' same. absurd (
        no_location l (ancestor_location ai (now_at b)) ((now_one b l).1 ai)
          (ap (ancestor_location ai) (sym (now_found b)) ∙ e));
  };
}

abbrev own_answer : Answer
own_answer = elim (read_at volume own_backend 1 6 stored.memory) [
  | ok a ↦ a
  | err e ↦ record { bytes = []; zero_block = false; memory = stored.memory }
]

stored_reads : read_at volume own_backend 1 6 stored.memory ≡ ok own_answer
unfolding model
stored_reads = refl

-- block 0 is in memory after the read
now_cached : found_of volume own_answer.memory.store 0 ≡ Found.in_memory (10 ∷ 11 ∷ 12 ∷ 13 ∷ [])
unfolding model
now_cached = refl

read_at-IsDevice_example : IsAtHand own_answer.memory.store 0
read_at-IsDevice_example =
    (read_at-IsDevice volume own_world own_backend 1 6 stored own_answer codec-IsCodec request
        own-IsBacked stored-IsDevice stored_reads).1
      0 (omega arith) (omega arith)

write_at-IsRewritten_example : image volume world after.memory.store 1 0 ≡ 22
write_at-IsRewritten_example =
    (write_at-IsRewritten volume world codec-IsCodec (λ b. env) 3 patch (λ b. volume-IsBacked)
        (omega arith) gate device after device-IsDevice (omega arith) succeeds).1
      1 0 (omega arith)

read_at-write_at_example :
    (a : Answer) × (read_at volume backend 3 3 after.memory ≡ ok a) × (a.bytes ≡ patch)
unfolding block_stride
read_at-write_at_example =
    read_at-write_at volume world codec-IsCodec (λ b. env) 3 patch (λ b. volume-IsBacked)
      (omega arith) gate device after backend volume-IsBacked device-IsDevice (omega arith)
      (omega arith) (omega arith) succeeds
