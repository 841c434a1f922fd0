-- ===== src/Reload.antt =====
-- `parseBlockCheckpoint` of viperblock/viperblock.go: the block-to-object map, the reference counts
-- and the chunk number of a volume that is opened, rebuilt from a checkpoint. The compare-and-swap
-- of the chunk number is one step.
use viperblock.Prelude.{
  ℕ, zero, suc, ◌-◌, ◌≤◌, ◌<◌, ◌≡◌, Bool, true, false, Option, none, some, List, [], ◌∷◌, arith,
  ltb, leb, if◌then◌else◌,
}
use viperblock.Words.{u64, add64}
use viperblock.Dict.{Dict}
use viperblock.Bytes.{Bytes}
use viperblock.Lookup.{BlockLookup, Index, slice_from, refer}
use viperblock.Lookup.Coalesce.{coalesce_block_lookup}
use viperblock.Checkpoint.{walk_block_checkpoint, collect, CheckpointError}
use viperblock.Runs.{Placement}
use viperblock.Store.{Store}
use viperblock.Store.Ranges.{set_persisted_range}

-- the fields of `VB` that are rebuilt; `store` is none where no block store is used.

pub record Volume : Type 0 where
  pub index : Index
  pub object_num : ℕ
  pub store : Option Store

-- the largest chunk that the records name, where there is a record
unfoldable pub max_object : List BlockLookup → Option ℕ → Option ℕ
max_object [] m = m
max_object (bl ∷ blocks) m = max_object blocks (elim m [
  | none ↦ some bl.object_id
  | some n ↦ some (if ltb n bl.object_id then bl.object_id else n)
])

-- the counts of the entries of the coalesced map
unfoldable pub count_references : Dict BlockLookup → Option (Dict ℕ) → Option (Dict ℕ)
count_references [] counts = counts
count_references ((k, bl) ∷ m) counts = count_references m (refer bl.object_id counts)

-- the loop that raises `ObjectNum`
unfoldable pub raise_object_num : Option ℕ → ℕ → ℕ
raise_object_num none current = current
raise_object_num (some n) current =
    let next = add64 n 1 in if leb next current then current else next

unfoldable pub run_blocks : BlockLookup → ℕ → ℕ → List ℕ
run_blocks bl i zero = []
run_blocks bl i (suc n) = add64 bl.start_block i ∷ run_blocks bl (suc i) n

-- the loop that enters each run of the coalesced map in the block store
unfoldable pub fill_store : ℕ → Dict BlockLookup → Store → Store
unfolding run_blocks
fill_store stride [] s = s
fill_store stride ((k, bl) ∷ m) s =
    let place : Placement = record {
      object_id = bl.object_id;
      object_offset = bl.object_offset;
      stride = stride;
    } in
    fill_store stride m
      (set_persisted_range s (run_blocks bl 0 bl.num_blocks) place (slice_from bl 0 bl.num_blocks))

-- the volume after the walk, from the records and the error that the walk gave
unfoldable pub rebuild :
    Bool → ℕ → Volume → List BlockLookup × Option CheckpointError → Volume × Bool
rebuild gc_enabled stride v (blocks, some e) =
    let counts = if gc_enabled then some [] else v.index.gc_refcount in
    (record v { index = record { entries = v.index.entries; gc_refcount = counts } }, false)
rebuild gc_enabled stride v (blocks, none) =
    let counts = if gc_enabled then some [] else v.index.gc_refcount in
    let entries = coalesce_block_lookup (collect blocks []) stride in
    (
      record {
        index = record {
          entries = entries;
          gc_refcount = if gc_enabled then count_references entries counts else counts;
        };
        object_num = raise_object_num (max_object blocks none) v.object_num;
        store = elim v.store [ none ↦ none | some s ↦ some (fill_store stride entries s) ];
      },
      true,
    )

-- `parseBlockCheckpoint`; the second component tells whether it went well.
unfoldable pub parse_block_checkpoint : Bool → ℕ → Bytes → Bytes → ℕ → Volume → Volume × Bool
parse_block_checkpoint gc_enabled version magic raw stride v =
    rebuild gc_enabled stride v (walk_block_checkpoint raw version magic)

-- Every chunk named lies below `bound`.
abbrev pub Below : ℕ → List BlockLookup → Type 0
Below bound [] = Unit {0}
Below bound (bl ∷ blocks) = (bl.object_id < bound) × Below bound blocks

-- what the fold and the loop after it leave, from a largest chunk so far
abbrev Reaches : ℕ → Option ℕ → Type 0
Reaches bound none = Unit {0}
Reaches bound (some n) = n < bound

raise-Reaches :
    (blocks : List BlockLookup) (m : Option ℕ) (current : ℕ)
    → Below (u64 - 1) blocks
    → Reaches (u64 - 1) m
    → let bound = raise_object_num (max_object blocks m) current in
      Below bound blocks × Reaches bound m × (current ≤ bound)
unfolding raise_object_num max_object
raise-Reaches [] none current small top = (tt, tt, omega arith)
raise-Reaches [] (some n) current small top = (tt, ground (arith, top), ground (arith, top))
raise-Reaches (bl ∷ blocks) none current (s, ss) top =
    let r = raise-Reaches blocks (some bl.object_id) current ss s in ((r.1, r.0), tt, r.2)
raise-Reaches (bl ∷ blocks) (some n) current (s, ss) top =
    let larger = if ltb n bl.object_id then bl.object_id else n in
    let r = raise-Reaches blocks (some larger) current ss (ground (arith, s, top)) in
    ((ground (arith, r.1), r.0), ground (arith, r.1), r.2)

-- After parseBlockCheckpoint has read a checkpoint whose chunk numbers lie below 2 ^ 64 - 1,
-- ObjectNum lies above every chunk number that a record names, and is not lowered.
pub parse_block_checkpoint-Below :
    (gc_enabled : Bool) (version stride : ℕ) (magic raw : Bytes) (v : Volume)
    (blocks : List BlockLookup)
    → walk_block_checkpoint raw version magic ≡ (blocks, none)
    → Below (u64 - 1) blocks
    → let w = (parse_block_checkpoint gc_enabled version magic raw stride v).0 in
      Below w.object_num blocks × (v.object_num ≤ w.object_num)
unfolding parse_block_checkpoint rebuild
parse_block_checkpoint-Below gc_enabled version stride magic raw v blocks h small =
    let r = raise-Reaches blocks none v.object_num small tt in rw h (r.0, r.2)
