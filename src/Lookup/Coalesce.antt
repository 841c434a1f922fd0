-- ===== src/Lookup/Coalesce.antt =====
-- `coalesceBlockLookup`: the runs of a flat map, rebuilt from where its blocks lie.
use viperblock.Prelude.{
  ℕ, zero, suc, Bool, ◌&&◌, none, some, List, [], ◌∷◌, leb, ◌==◌, if◌then◌else◌, length,
}
use viperblock.Words.{add32, add64}
use viperblock.Dict.{Dict, find, insert, keys}
use viperblock.Conversions.{ℤ, safe_int_to_uint16}
use viperblock.Lookup.{BlockLookup}

-- `BlockLookup{}`

abbrev pub zero_lookup : BlockLookup
zero_lookup = record {
  seq_nums = [];
  start_block = 0;
  object_id = 0;
  seq_num = 0;
  object_offset = 0;
  num_blocks = 0;
}

-- `flat[key]`
abbrev pub get : ℕ → Dict BlockLookup → BlockLookup
get key m = elim (find key m) [ none ↦ zero_lookup | some bl ↦ bl ]

-- `slices.Sort`, on keys that are all different
unfoldable pub insert_sorted : ℕ → List ℕ → List ℕ
insert_sorted k [] = k ∷ []
insert_sorted k (x ∷ xs) = let rest = insert_sorted k xs in if leb k x then k ∷ x ∷ xs else x ∷ rest

unfoldable pub sort : List ℕ → List ℕ
sort [] = []
sort (k ∷ ks) = insert_sorted k (sort ks)

-- `cand` comes right after `prev` in the object of `first`.
abbrev pub adjoins : BlockLookup → BlockLookup → ℕ → BlockLookup → Bool
adjoins first prev stride cand =
    (cand.start_block == add64 prev.start_block 1)
    && (cand.object_id == first.object_id)
    && (cand.object_offset == add32 prev.object_offset stride)

-- the inner loop: the sequence numbers after the first one, and the keys left
unfoldable pub take_run :
    Dict BlockLookup → BlockLookup → BlockLookup → ℕ → List ℕ → List ℕ × List ℕ
take_run flat first prev stride [] = ([], [])
take_run flat first prev stride (k ∷ ks) =
    let cand = get k flat in
    let (nums, left) = take_run flat first cand stride ks in
    if adjoins first prev stride cand then (cand.seq_num ∷ nums, left) else ([], k ∷ ks)

-- the entry `merged` of a run
abbrev pub merge : BlockLookup → List ℕ → BlockLookup
merge first seq_nums = record {
  start_block = first.start_block;
  num_blocks = safe_int_to_uint16 (ℤ.pos (length seq_nums));
  object_id = first.object_id;
  object_offset = first.object_offset;
  seq_num = first.seq_num;
  seq_nums = seq_nums;
}

-- the outer loop, which takes at least one key in each round
unfoldable pub coalesce_keys :
    ℕ → Dict BlockLookup → ℕ → List ℕ → Dict BlockLookup → Dict BlockLookup
coalesce_keys zero flat stride ks out = out
coalesce_keys (suc fuel) flat stride [] out = out
coalesce_keys (suc fuel) flat stride (k ∷ ks) out =
    let first = get k flat in
    let (nums, left) = take_run flat first first stride ks in
    let merged = merge first (first.seq_num ∷ nums) in
    coalesce_keys fuel flat stride left (insert merged.start_block merged out)

-- `coalesceBlockLookup`
unfoldable pub coalesce_block_lookup : Dict BlockLookup → ℕ → Dict BlockLookup
coalesce_block_lookup flat stride =
    let ks = sort (keys flat) in coalesce_keys (length ks) flat stride ks []
