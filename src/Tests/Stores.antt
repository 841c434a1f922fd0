-- ===== src/Tests/Stores.antt =====
-- The block store at a small history: blocks 20 to 23 are written, flushed and sealed as one run,
-- and block 21 is written again.
use mathlib.Core.Option.{or_else}
use viperblock.Prelude.{
  ℕ, ◌+◌, ◌≡◌, refl, inl, true, Option, none, some, List, [], ◌∷◌, arith, false, ◌==◌,
  if◌then◌else◌,
}
use viperblock.Dict.{find, insert, delete, keys}
use viperblock.Block.{BlockEntry, BlockState}
use viperblock.Extents.{
  scan, find_extent, entry_at, read_persisted, fracture_one, fracture_all, fracture_overlaps,
  seq_num_at, offset_at, add_head, add_tail,
}
use viperblock.Extents.Lookup.{IsWf}
use viperblock.Extents.Clear.{fracture_overlaps-IsWf, read_persisted-fracture_overlaps}
use viperblock.Runs.{Placement, run_length, install, install_runs}
use viperblock.Store.{Store, new_store, entry, get_shard, put, remove}
use viperblock.Store.Writers.{
  write, write_with_seq_num, mark_pending, mark_persisted, cache, evict_cache, delete_block,
  hot_entry,
}
use viperblock.Store.Ranges.{
  is_sealed, predict, any_eligible, publish, finalize, seal_items, mark_persisted_range, all_items,
  set_persisted_range,
}
use viperblock.Store.View.{view, IsValid, IsIssued}
use viperblock.Store.View.Lifecycle.{
  Op, writes, replays, pends, persists_range, persists, caches, evicts, deletes, apply, run,
  apply-IsValid, run-IsValid,
}
use viperblock.Store.View.Dirty.{IsDirty, run_keeps_bytes}
use viperblock.Store.View.Ranges.{IsSealed, mark_persisted_range-IsSealed}
use viperblock.Store.View.Load.{IsLoaded, set_persisted_range-IsLoaded}
use viperblock.Store.View.Races.{finalize_raced}
use viperblock.Store.View.Removal.{IsDeleted, delete_block-IsDeleted}
use viperblock.Store.View.Cycle.{placed, read_single-cycle}
use viperblock.Store.Readers.{found, read_single}
use viperblock.Store.View.Writers.{view-write}
use viperblock.Store.View.Stale.{write-IsIssued, mark_persisted_stale}

pub new_store-IsValid : (n : ℕ) → IsValid (new_store n)
unfolding new_store find
new_store-IsValid n = record {
  sharded = refl;
  extents = record { each = λ k pe h. ground arith; apart = λ j k pe qe h g l. ground arith };
}

abbrev chunk : Placement
chunk = record { object_id = 7; object_offset = 14; stride = 4096 }

abbrev history : List Op
history =
    writes 20 (1 ∷ [])
    ∷ writes 21 (2 ∷ [])
    ∷ writes 22 (3 ∷ [])
    ∷ pends 20
    ∷ pends 21
    ∷ pends 22
    ∷ persists_range (20 ∷ 21 ∷ 22 ∷ []) chunk (1 ∷ 2 ∷ 3 ∷ [])
    ∷ writes 21 (9 ∷ [])
    ∷ []

abbrev sample : Store
sample = run history (new_store 4096)

sample-IsValid : IsValid sample
sample-IsValid = run-IsValid history (new_store 4096) (omega arith) (new_store-IsValid 4096)

-- all that a run of the model opens
model : Unit {0}
unfolding find insert delete keys seq_num_at offset_at scan find_extent entry_at read_persisted
    add_head add_tail fracture_one fracture_all fracture_overlaps run_length install install_runs
    new_store get_shard entry put remove write_with_seq_num write mark_pending mark_persisted cache
    evict_cache delete_block is_sealed predict any_eligible publish finalize seal_items
    mark_persisted_range all_items set_persisted_range or_else
model = tt

-- block 22 is read from the extent, block 21 from its shard, and block 20 from the extent again
sample_reads :
    (view sample 22
      ≡ some (record {
        bytes = [];
        seq_num = 3;
        object_id = 7;
        object_offset = 8206;
        state = BlockState.persisted;
      }))
    × (view sample 21 ≡ some (hot_entry (9 ∷ []) 4))
    × (view sample 19 ≡ none)
unfolding model
sample_reads = (refl, refl, refl)

run_keeps_bytes_example :
    (e' : BlockEntry) × (view
        (run (pends 21 ∷ persists 21 7 18 2 ∷ caches 20 (5 ∷ []) ∷ []) sample)
        21
      ≡ some e')
    × IsDirty e'
    × (e'.bytes ≡ 9 ∷ [])
    × (e'.seq_num ≡ 4)
unfolding model
run_keeps_bytes_example =
    run_keeps_bytes (pends 21 ∷ persists 21 7 18 2 ∷ caches 20 (5 ∷ []) ∷ []) sample 21
      (hot_entry (9 ∷ []) 4) sample-IsValid (omega arith) refl (inl refl) (omega arith)

abbrev pended : Store
pended = apply (pends 21) sample

pended-IsValid : IsValid pended
pended-IsValid = apply-IsValid (pends 21) sample tt sample-IsValid

mark_persisted_range-IsSealed_example :
    IsSealed pended chunk
      (20 ∷ 21 ∷ [])
      (1 ∷ 4 ∷ [])
      (mark_persisted_range pended (20 ∷ 21 ∷ []) chunk (1 ∷ 4 ∷ []))
mark_persisted_range-IsSealed_example =
    mark_persisted_range-IsSealed pended chunk 0 (20 ∷ 21 ∷ []) (1 ∷ 4 ∷ []) pended-IsValid
      (omega arith) refl

read_persisted-fracture_overlaps_example :
    read_persisted (fracture_overlaps 21 1 sample.extents) 22 ≡ read_persisted sample.extents 22
read_persisted-fracture_overlaps_example =
    read_persisted-fracture_overlaps sample.extents sample-IsValid.extents 21 1 (omega arith)
      (omega arith) 22

fracture_overlaps-IsWf_example : IsWf (fracture_overlaps 21 1 sample.extents)
fracture_overlaps-IsWf_example =
    fracture_overlaps-IsWf sample.extents sample-IsValid.extents 21 1 (omega arith) (omega arith)

set_persisted_range-IsLoaded_example :
    IsLoaded sample chunk
      (22 ∷ 23 ∷ 40 ∷ [])
      (8 ∷ 9 ∷ 10 ∷ [])
      (set_persisted_range sample (22 ∷ 23 ∷ 40 ∷ []) chunk (8 ∷ 9 ∷ 10 ∷ []))
set_persisted_range-IsLoaded_example =
    set_persisted_range-IsLoaded sample chunk 0 (22 ∷ 23 ∷ 40 ∷ []) (8 ∷ 9 ∷ 10 ∷ []) sample-IsValid
      (omega arith) refl

-- two blocks written to a new store
abbrev fresh : Store
fresh = new_store 4096

fresh-IsIssued : IsIssued fresh
unfolding new_store entry get_shard find
fresh-IsIssued = record { bounded = omega arith; issued = λ b e h. ground arith }

abbrev one : Store
one = (write fresh 20 (1 ∷ [])).0

one-IsValid : IsValid one
one-IsValid = run-IsValid (writes 20 (1 ∷ []) ∷ []) fresh (omega arith) (new_store-IsValid 4096)

one-IsIssued : IsIssued one
one-IsIssued =
    write-IsIssued fresh 20 (1 ∷ []) (new_store-IsValid 4096) fresh-IsIssued
      (unfold new_store in omega arith)

mark_persisted_stale_example :
    let again = (write one 20 (6 ∷ [])).0 in
    let flushed = (mark_pending again 20).0 in
    (mark_persisted again 20 7 14 1 ≡ (again, false))
    × (mark_persisted flushed 20 7 14 1 ≡ (flushed, false))
    × (view flushed 20
        ≡ some (record {
          bytes = 6 ∷ [];
          seq_num = one.seq_num + 1;
          object_id = 0;
          object_offset = 0;
          state = BlockState.pending;
        }))
mark_persisted_stale_example =
    mark_persisted_stale one 20 (6 ∷ []) 7 14 1 one-IsValid one-IsIssued
      (unfold model in omega arith)

-- block 21 under a number of the volume's counter, which is ahead of the store's
abbrev seq_of : Option BlockEntry → Option ℕ
seq_of none = none
seq_of (some e) = some e.seq_num

abbrev ahead : Store
ahead = write_with_seq_num one 21 (8 ∷ []) 9

ahead-IsValid : IsValid ahead
ahead-IsValid = run-IsValid (replays 21 (8 ∷ []) 9 ∷ []) one (omega arith) one-IsValid

view-write_example :
    ((write ahead 21 (6 ∷ [])).1 ≡ 2)
    × ((j : ℕ)
        → view (write ahead 21 (6 ∷ [])).0 j
          ≡ (if 21 == j then some (hot_entry (8 ∷ []) 9) else view ahead j))
unfolding model
view-write_example = view-write ahead 21 (6 ∷ []) ahead-IsValid

-- block 21 of `pended` is sampled and covered by an extent
sampled : predict pended (21 ∷ []) (4 ∷ []) ≡ record { block = 21; seq = 4; eligible = true } ∷ []
unfolding model
sampled = refl

covered :
    let items = predict pended (21 ∷ []) (4 ∷ []) in
    seq_of (read_persisted (publish chunk items pended).extents 21) ≡ some 4
unfolding model
covered = refl

finalize_raced_example :
    let items = predict pended (21 ∷ []) (4 ∷ []) in
    let raced = write_with_seq_num (publish chunk items pended) 21 (6 ∷ []) 9 in
    view (finalize items raced).0 21 ≡ some (hot_entry (6 ∷ []) 9)
finalize_raced_example =
    finalize_raced pended chunk 0 (21 ∷ []) (4 ∷ []) 21 (6 ∷ []) 9 pended-IsValid
      (unfold model in omega arith) (omega arith)

-- block 20 of `sample`, which an extent covers, through all states
read_single-cycle_example :
    let placed = placed sample 20 8 (6 ∷ []) 3 14 (6 ∷ []) in
    (read_single placed 20).1 ≡ found [] BlockState.persisted
read_single-cycle_example =
    (read_single-cycle sample 20 8 (6 ∷ []) 3 14 (6 ∷ []) sample-IsValid
      (unfold model in omega arith)).4

-- block 21 was persisted, then written again: deleting it uncovers the old place
delete_block-IsDeleted_example : IsDeleted sample 21 (delete_block sample 21)
delete_block-IsDeleted_example = delete_block-IsDeleted sample 21 sample-IsValid (omega arith)

delete_uncovers :
    view (delete_block sample 21).0 21
    ≡ some (record {
      bytes = [];
      seq_num = 2;
      object_id = 7;
      object_offset = 4110;
      state = BlockState.persisted;
    })
unfolding model
delete_uncovers = refl

run-IsValid_example : IsValid (run (evicts 20 ∷ deletes 22 ∷ []) sample)
run-IsValid_example = run-IsValid (evicts 20 ∷ deletes 22 ∷ []) sample (omega arith) sample-IsValid
