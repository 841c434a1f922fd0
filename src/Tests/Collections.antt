-- ===== src/Tests/Collections.antt =====
-- Two sweeps of a volume, the second of which finds chunks without references.
use viperblock.Prelude.{
  ℕ, ◌≡◌, ◌≢◌, ◌<◌, ◌∙◌, refl, sym, ap, subst, inl, true, false, Option, none, some, [], ◌∷◌, List,
  arith,
}
use viperblock.Bytes.{Bytes, xor, crc_bits, crc_bytes, crc32}
use viperblock.Dict.{Dict, In, find, keys}
use viperblock.Lookup.{
  BlockLookup, Index, seq_num_at, offset_at, single_at, expand_from, expand_block_lookup,
}
use viperblock.Checkpoint.{
  block_to_object_wal_magic, save_block_state, expand_all, walk_block_checkpoint, walk_records,
  decode_block_wal_chunk, decode_fields, block_to_object_wal_header, write_records,
  write_block_wal_chunk, record_body,
}
use viperblock.Checkpoint.RoundTrip.{AllSingle, walk-save_block_state}
use viperblock.Reload.{Below, max_object}
use viperblock.Gc.Tally.{IsTallied, refs}
use viperblock.Gc.{
  Answers, Collector, Read, sweep_chunks, ensure_gc_snapshot_safe, first_scan,
  scan_for_own_snapshots, scan_names, collect_chunks, reconcile_chunks_once, track_keys,
  ensure_gc_floor, fresh_floor, candidates_among, gc_snapshot_marker_moved, read_snapshot_marker,
  delete_chunk_objects, numbered_checkpoint_high_water,
}
use viperblock.Gc.History.{Event, step, run, AllName, sweep_chunks-Spares}

abbrev entry_of : ℕ → ℕ → BlockLookup
entry_of object start = record {
  seq_nums = [];
  start_block = start;
  object_id = object;
  seq_num = 7;
  object_offset = 10;
  num_blocks = 2;
}

abbrev index : Index
index = record {
  entries = (20, entry_of 4 20) ∷ [];
  gc_refcount = some ((1, 0) ∷ (3, 0) ∷ (4, 1) ∷ []);
}

abbrev answers : Answers
answers = record {
  marker_before = Read.missing;
  snapshots = some [];
  config = λ name. Read.missing;
  source_volume_name = λ b. none;
  chunk_keys = some [];
  chunk_object_id = λ key. none;
  checkpoint = Read.failed;
  marker_after = Read.missing;
  delete_fails = λ id. false;
}

-- the volume as it is opened: block 40 lies in chunk 1, as the numbered checkpoint says.
abbrev opened : Collector
opened = record {
  gc_enabled = true;
  volume_name = 118 ∷ [];
  version = 1;
  wal_magic = block_to_object_wal_magic;
  latched_off = false;
  snapshot_checked = false;
  snapshot_safe = false;
  marker_baseline = [];
  reconciled = false;
  floor = none;
  object_num = 2;
  gc_refcount = (1, 1) ∷ [];
}

abbrev protected : BlockLookup
protected = record {
  seq_nums = [];
  start_block = 40;
  object_id = 1;
  seq_num = 7;
  object_offset = 10;
  num_blocks = 1;
}

abbrev checkpointed : Dict BlockLookup
checkpointed = (40, protected) ∷ []

protected-AllSingle : AllSingle (protected ∷ [])
protected-AllSingle = (
  record {
    unlisted = refl;
    start_fits = omega arith;
    num_fits = omega arith;
    object_fits = omega arith;
    offset_fits = omega arith;
    seq_fits = omega arith;
  },
  tt,
)

checkpointed-expanded : expand_all 4096 checkpointed ≡ protected ∷ []
unfolding expand_all expand_block_lookup expand_from single_at seq_num_at offset_at
checkpointed-expanded = refl

abbrev numbered : Bytes
numbered = save_block_state 1 1700000000 4096 checkpointed

abbrev first_answers : Answers
first_answers = record answers { checkpoint = Read.bytes numbered }

-- a sweep that reads the checkpoint, then writes that fill the chunks 3 and 4 and empty 1 and 3
abbrev history : List Event
history = Event.sweeps first_answers ∷ Event.changes ((1, 0) ∷ (3, 0) ∷ (4, 1) ∷ []) 5 ∷ []

history-AllName : AllName (protected ∷ []) opened history
unfolding numbered_checkpoint_high_water
history-AllName = (
  λ high h.
      let read =
        walk-save_block_state 1 1700000000 4096 checkpointed (omega arith)
          (subst AllSingle (sym checkpointed-expanded) protected-AllSingle)
        ∙ ap (λ bs. (bs, none)) checkpointed-expanded in
      ground (arith, read, h),
  tt,
)

index-IsTallied : IsTallied index
unfolding find refs
index-IsTallied = record {
  unique = (refl, tt);
  counts = (1, 0) ∷ (3, 0) ∷ (4, 1) ∷ [];
  kept = refl;
  counted = λ id. ground arith;
}

-- all that the sweeps open
model : Unit {0}
unfolding sweep_chunks ensure_gc_snapshot_safe first_scan scan_for_own_snapshots scan_names
    collect_chunks reconcile_chunks_once track_keys ensure_gc_floor fresh_floor candidates_among
    gc_snapshot_marker_moved read_snapshot_marker delete_chunk_objects
    numbered_checkpoint_high_water max_object keys find run step walk_block_checkpoint walk_records
    decode_block_wal_chunk decode_fields save_block_state block_to_object_wal_header write_records
    write_block_wal_chunk record_body expand_all expand_block_lookup expand_from single_at
    seq_num_at offset_at crc32 crc_bytes crc_bits xor
model = tt

second : (run history opened).floor ≡ some 2
unfolding model
second = refl

swept : In 3 (sweep_chunks answers (run history opened)).1
unfolding model
swept = inl refl

counted : index.gc_refcount ≡ some (run history opened).gc_refcount
unfolding model
counted = refl

unread : (high : Option ℕ) → numbered_checkpoint_high_water opened Read.failed ≡ some high → ⊥
unfolding numbered_checkpoint_high_water
unread high h = cc

sweep_chunks-Spares_example :
    ((run history opened).gc_enabled ≡ true)
    × ((run history opened).latched_off ≡ false)
    × ((k : ℕ) (pe : BlockLookup) → find k index.entries ≡ some pe → pe.object_id ≢ 3)
    × Below 3 (protected ∷ [])
    × (3 < (run history opened).object_num)
sweep_chunks-Spares_example =
    sweep_chunks-Spares answers opened history index (protected ∷ []) 3 refl (omega arith, tt)
      history-AllName (λ high h. absurd (unread high h)) index-IsTallied counted swept
