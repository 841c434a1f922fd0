-- ===== src/Lookup.antt =====
-- The block-to-object map of viperblock/viperblock.go: `BlockLookup`, its runs, the lookup in the
-- map, the insertion that fractures what it overlaps, and the recoalescing of a flat map. The map
-- stands alone here; its lock is left out.
pub mod Coalesce
pub mod Pieces
pub mod View
pub mod Fracture
pub mod Insert
pub mod Every
use viperblock.Prelude.{
  ℕ, zero, suc, ◌+◌, ◌-◌, Bool, true, false, ◌&&◌, ◌||◌, Option, none, some, List, [], ◌∷◌, ltb,
  leb, ◌==◌, if◌then◌else◌, length, get_or,
}
use viperblock.Words.{add32, add64, mul32, sub64}
use viperblock.Dict.{Dict, find, insert, delete, keys}
use viperblock.Conversions.{ℤ, safe_uint64_to_int, safe_int_to_uint32, safe_int_to_uint16}

-- `BlockLookup`
pub record BlockLookup : Type 0 where
  pub seq_nums : List ℕ
  pub start_block : ℕ
  pub object_id : ℕ
  pub seq_num : ℕ
  pub object_offset : ℕ
  pub num_blocks : ℕ

-- `end`
abbrev pub end : BlockLookup → ℕ
end bl = add64 bl.start_block bl.num_blocks

-- `seqNumAt`, for positions that are not negative
unfoldable pub seq_num_at : BlockLookup → ℕ → ℕ
seq_num_at bl i = if ltb i (length bl.seq_nums) then get_or bl.seq_nums i 0 else bl.seq_num

-- `offsetAt`
unfoldable pub offset_at : BlockLookup → ℕ → ℕ → ℕ
offset_at bl i stride = add32 bl.object_offset (mul32 (safe_int_to_uint32 (ℤ.pos i)) stride)

-- the loop of `sliceSeqNums`, over `n` positions from `from`
unfoldable pub slice_from : BlockLookup → ℕ → ℕ → List ℕ
unfolding seq_num_at
slice_from bl from zero = []
slice_from bl from (suc n) = seq_num_at bl from ∷ slice_from bl (suc from) n

-- `sliceSeqNums`
unfoldable pub slice_seq_nums : BlockLookup → ℕ → ℕ → List ℕ
slice_seq_nums bl from to = slice_from bl from (to - from)

-- the block at position `i`, as an entry of its own
unfoldable pub single_at : BlockLookup → ℕ → ℕ → BlockLookup
unfolding seq_num_at offset_at
single_at bl stride i = record {
  seq_nums = [];
  start_block = add64 bl.start_block i;
  object_id = bl.object_id;
  seq_num = seq_num_at bl i;
  object_offset = offset_at bl i stride;
  num_blocks = 1;
}

unfoldable pub expand_from : BlockLookup → ℕ → ℕ → ℕ → List BlockLookup
expand_from bl stride i zero = []
expand_from bl stride i (suc n) = single_at bl stride i ∷ expand_from bl stride (suc i) n

-- `blockStride`
unfoldable pub block_stride : ℕ → Bool → ℕ
block_stride block_size encryption_enabled =
    if encryption_enabled then add32 block_size 16 else block_size

-- `expandBlockLookup`
unfoldable pub expand_block_lookup : BlockLookup → ℕ → List BlockLookup
expand_block_lookup bl stride = expand_from bl stride 0 bl.num_blocks

-- the test of the scan: strictly inside the run
abbrev pub strictly_inside : BlockLookup → ℕ → Bool
strictly_inside bl block = ltb bl.start_block block && ltb block (end bl)

-- the containment scan of `resolveBlockLookup`
unfoldable pub scan : List ℕ → Dict BlockLookup → ℕ → Option (BlockLookup × ℕ)
scan [] m block = none
scan (k ∷ ks) m block =
    let rest = scan ks m block in
    elim (find k m) [
      | none ↦ rest
      | some bl ↦
          if strictly_inside bl block
          then some (bl, safe_uint64_to_int (sub64 block bl.start_block))
          else rest
    ]

-- `resolveBlockLookup`
unfoldable pub resolve_block_lookup : Dict BlockLookup → ℕ → Option (BlockLookup × ℕ)
resolve_block_lookup m block = elim (find block m) [
  | some bl ↦ some (bl, 0)
  | none ↦ scan (keys m) m block
]

-- the surviving head [exStart, newStart)
abbrev pub head_of : BlockLookup → ℕ → BlockLookup
head_of existing new_start =
    let head_len = safe_uint64_to_int (sub64 new_start existing.start_block) in
    record {
      start_block = existing.start_block;
      num_blocks = safe_int_to_uint16 (ℤ.pos head_len);
      object_id = existing.object_id;
      object_offset = existing.object_offset;
      seq_num = seq_num_at existing 0;
      seq_nums = slice_seq_nums existing 0 head_len;
    }

-- the surviving tail [newEnd, exEnd)
abbrev pub tail_of : BlockLookup → ℕ → ℕ → BlockLookup
tail_of existing new_end stride =
    let tail_offset = safe_uint64_to_int (sub64 new_end existing.start_block) in
    let tail_len = safe_uint64_to_int (sub64 (end existing) new_end) in
    record {
      start_block = new_end;
      num_blocks = safe_int_to_uint16 (ℤ.pos tail_len);
      object_id = existing.object_id;
      object_offset = offset_at existing tail_offset stride;
      seq_num = seq_num_at existing tail_offset;
      seq_nums = slice_seq_nums existing tail_offset (tail_offset + tail_len);
    }

-- the map and the reference counts; a missing count reads as 0
pub record Index : Type 0 where
  pub entries : Dict BlockLookup
  pub gc_refcount : Option (Dict ℕ)

abbrev pub count_of : ℕ → Dict ℕ → ℕ
count_of id m = elim (find id m) [ none ↦ 0 | some n ↦ n ]

-- `if gcRefcount != nil { gcRefcount[id]++ }`
unfoldable pub refer : ℕ → Option (Dict ℕ) → Option (Dict ℕ)
refer id none = none
refer id (some m) = some (insert id (add64 (count_of id m) 1) m)

-- `if gcRefcount != nil { if n := gcRefcount[id]; n > 0 { gcRefcount[id] = n - 1 } }`
unfoldable pub unrefer : ℕ → Option (Dict ℕ) → Option (Dict ℕ)
unrefer id none = none
unrefer id (some m) =
    if ltb 0 (count_of id m) then some (insert id (count_of id m - 1) m) else some m

-- `b.BlockLookup[e.StartBlock] = e`, counted
unfoldable pub add_entry : BlockLookup → Index → Index
add_entry e x = record {
  entries = insert e.start_block e x.entries;
  gc_refcount = refer e.object_id x.gc_refcount;
}

unfoldable pub add_head : BlockLookup → ℕ → Index → Index
add_head existing new_start x =
    if ltb existing.start_block new_start then add_entry (head_of existing new_start) x else x

unfoldable pub add_tail : BlockLookup → ℕ → ℕ → Index → Index
add_tail existing new_end stride x =
    if ltb new_end (end existing) then add_entry (tail_of existing new_end stride) x else x

-- one round of the loop of `insertCoalescedLocked`
unfoldable pub fracture_one : ℕ → ℕ → ℕ → ℕ → Index → Index
fracture_one new_start new_end stride k x = elim (find k x.entries) [
  | none ↦ x
  | some existing ↦
      let y : Index = record {
        entries = delete k x.entries;
        gc_refcount = unrefer existing.object_id x.gc_refcount;
      } in
      if leb (end existing) new_start || leb new_end existing.start_block
      then x
      else add_tail existing new_end stride (add_head existing new_start y)
]

unfoldable pub fracture_all : ℕ → ℕ → ℕ → List ℕ → Index → Index
fracture_all new_start new_end stride [] x = x
fracture_all new_start new_end stride (k ∷ ks) x =
    fracture_all new_start new_end stride ks (fracture_one new_start new_end stride k x)

-- `insertCoalescedLocked`
unfoldable pub insert_coalesced : BlockLookup → ℕ → Index → Index
insert_coalesced e stride x =
    add_entry e (fracture_all e.start_block (end e) stride (keys x.entries) x)
