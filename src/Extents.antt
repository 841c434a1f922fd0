-- ===== src/Extents.antt =====
-- The coalesced index of persisted blocks of viperblock/blockstore.go: `persistedExtent`, the
-- lookup in it, and the fracture of what a fresher run overlaps. The map stands alone here; its
-- lock is the store's concern.
pub mod Lookup
pub mod Pieces
pub mod Fracture
pub mod Clear
use viperblock.Prelude.{
  ℕ, ◌%◌, Bool, ◌&&◌, ◌||◌, Option, none, some, List, [], ◌∷◌, ltb, leb, if◌then◌else◌, length,
  get_or, take, drop,
}
use viperblock.Words.{u16, add32, add64, mul32, sub64}
use viperblock.Dict.{Dict, find, insert, delete, keys}
use viperblock.Block.{BlockEntry, BlockState}

-- `persistedExtent`
pub record Extent : Type 0 where
  pub seq_nums : List ℕ
  pub start_block : ℕ
  pub object_id : ℕ
  pub object_offset : ℕ
  pub stride : ℕ
  pub num_blocks : ℕ

-- `persistedExtent{}`
abbrev pub zero_extent : Extent
zero_extent = record {
  seq_nums = [];
  start_block = 0;
  object_id = 0;
  object_offset = 0;
  stride = 0;
  num_blocks = 0;
}

-- `end`
abbrev pub end : Extent → ℕ
end pe = add64 pe.start_block pe.num_blocks

-- `seqNumAt`
unfoldable pub seq_num_at : Extent → ℕ → ℕ
seq_num_at pe i = if ltb i (length pe.seq_nums) then get_or pe.seq_nums i 0 else 0

-- `offsetAt`
unfoldable pub offset_at : Extent → ℕ → ℕ
offset_at pe i = add32 pe.object_offset (mul32 i pe.stride)

-- the test of the scan: strictly inside the extent
abbrev pub strictly_inside : Extent → ℕ → Bool
strictly_inside pe b = ltb pe.start_block b && ltb b (end pe)

-- the `range` loop of `findPersistedExtentLocked`
unfoldable pub scan : List ℕ → Dict Extent → ℕ → Option Extent
scan [] m b = none
scan (k ∷ ks) m b =
    let rest = scan ks m b in
    elim (find k m) [ none ↦ rest | some pe ↦ if strictly_inside pe b then some pe else rest ]

-- `findPersistedExtentLocked`
unfoldable pub find_extent : Dict Extent → ℕ → Option Extent
find_extent m b = elim (find b m) [ some pe ↦ some pe | none ↦ scan (keys m) m b ]

-- the `BlockEntry` that `readPersisted` builds, at the 16-bit position of the block
unfoldable pub entry_at : Extent → ℕ → BlockEntry
unfolding seq_num_at offset_at
entry_at pe b =
    let idx = sub64 b pe.start_block % u16 in
    record {
      bytes = [];
      seq_num = seq_num_at pe idx;
      object_id = pe.object_id;
      object_offset = offset_at pe idx;
      state = BlockState.persisted;
    }

-- `readPersisted`
unfoldable pub read_persisted : Dict Extent → ℕ → Option BlockEntry
read_persisted m b = elim (find_extent m b) [ none ↦ none | some pe ↦ some (entry_at pe b) ]

-- The surviving head [exStart, newStart) of `existing`. A slice of fewer sequence numbers than the
-- head has blocks would panic; `take` then gives what there is.
abbrev pub head_of : Extent → ℕ → Extent
head_of existing new_start =
    let head_num = sub64 new_start existing.start_block in
    record existing {
      num_blocks = head_num % u16;
      seq_nums =
          if ltb 0 (length existing.seq_nums)
          then take head_num existing.seq_nums
          else existing.seq_nums;
    }

-- The surviving tail [newEnd, exEnd) of `existing`
abbrev pub tail_of : Extent → ℕ → Extent
tail_of existing new_end =
    let skipped = sub64 new_end existing.start_block in
    record existing {
      start_block = new_end;
      num_blocks = sub64 (end existing) new_end % u16;
      object_offset = offset_at existing (skipped % u16);
      seq_nums =
          if ltb 0 (length existing.seq_nums)
          then drop skipped existing.seq_nums
          else existing.seq_nums;
    }

unfoldable pub add_head : Extent → ℕ → Dict Extent → Dict Extent
add_head existing new_start m =
    if ltb existing.start_block new_start
    then insert existing.start_block (head_of existing new_start) m
    else m

unfoldable pub add_tail : Extent → ℕ → Dict Extent → Dict Extent
add_tail existing new_end m =
    if ltb new_end (end existing) then insert new_end (tail_of existing new_end) m else m

-- `existing := ubs.persistedExtents[key]`
abbrev pub get : ℕ → Dict Extent → Extent
get key m = elim (find key m) [ none ↦ zero_extent | some pe ↦ pe ]

-- one round of the loop of `fractureOverlapsLocked`
unfoldable pub fracture_one : ℕ → ℕ → ℕ → Dict Extent → Dict Extent
unfolding add_head add_tail
fracture_one new_start new_end key m =
    let existing = get key m in
    if leb (end existing) new_start || leb new_end existing.start_block
    then m
    else add_tail existing new_end (add_head existing new_start (delete key m))

unfoldable pub fracture_all : ℕ → ℕ → List ℕ → Dict Extent → Dict Extent
fracture_all new_start new_end [] m = m
fracture_all new_start new_end (key ∷ ks) m =
    fracture_all new_start new_end ks (fracture_one new_start new_end key m)

-- `fractureOverlapsLocked`
unfoldable pub fracture_overlaps : ℕ → ℕ → Dict Extent → Dict Extent
unfolding fracture_all
fracture_overlaps new_start new_num m = fracture_all new_start (add64 new_start new_num) (keys m) m
