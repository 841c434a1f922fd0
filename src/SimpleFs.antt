-- ===== src/SimpleFs.antt =====
-- The block allocator of simplefs/simplefs.go. A file name is a number, the maps are association
-- lists, and the JSON files are left out. Each operation is one step.
use viperblock.Prelude.{
  ℕ, zero, suc, ◌+◌, ◌-◌, ◌/◌, ◌%◌, Bool, true, Option, none, some, List, [], ◌∷◌, ◌++◌, ltb, ◌==◌,
  if◌then◌else◌, length, take, drop,
}
use viperblock.Words.{add64, sub64}
use viperblock.Dict.{Dict, find, insert, delete}
use viperblock.Conversions.{safe_uint64_to_int}
pub mod Conserve

-- `SimpleBlock`
pub record SimpleBlock : Type 0 where
  pub size : ℕ
  pub blocks : List ℕ

-- `SimpleFS` with its `SimpleVolume`
pub record SimpleFs : Type 0 where
  pub used : Dict Bool
  pub free : List ℕ
  pub size : ℕ
  pub files : Dict SimpleBlock
  pub block_size : ℕ

-- the blocks from `i`, `n` of them
unfoldable pub count_up : ℕ → ℕ → List ℕ
count_up i zero = []
count_up i (suc n) = i ∷ count_up (suc i) n

-- `CreateVolume`; the second component tells whether it went well.
unfoldable pub create_volume : ℕ → SimpleFs → SimpleFs × Bool
create_volume size fs =
    let total = size / fs.block_size in
    if size % fs.block_size == 0
    then (record fs { size = total; used = []; free = count_up 0 total }, true)
    else (fs, Bool.false)

-- `FormatVolume`
unfoldable pub format_volume : SimpleFs → SimpleFs
format_volume fs = record fs { used = []; free = count_up 0 fs.size; files = [] }

unfoldable pub mark_used : List ℕ → Dict Bool → Dict Bool
mark_used [] m = m
mark_used (b ∷ bs) m = mark_used bs (insert b true m)

-- `AllocateBlocks`
unfoldable pub allocate_blocks : ℕ → SimpleFs → SimpleFs × Option (List ℕ)
allocate_blocks size fs =
    let n = safe_uint64_to_int size in
    let blocks = take n fs.free in
    if ltb (length fs.free) n
    then (fs, none)
    else (record fs { used = mark_used blocks fs.used; free = drop n fs.free }, some blocks)

-- `FreeBlocks`
unfoldable pub free_blocks : List ℕ → SimpleFs → SimpleFs
free_blocks [] fs = fs
free_blocks (b ∷ bs) fs =
    free_blocks bs (record fs { used = delete b fs.used; free = fs.free ++ (b ∷ []) })

-- the blocks of a file freed, and its name deleted
unfoldable pub remove_file : ℕ → SimpleBlock → SimpleFs → SimpleFs
remove_file name file fs =
    let freed = free_blocks file.blocks fs in record freed { files = delete name freed.files }

-- the earlier blocks of a file that is written again, freed
unfoldable pub drop_file : ℕ → SimpleFs → SimpleFs
drop_file name fs = elim (find name fs.files) [ none ↦ fs | some file ↦ remove_file name file fs ]

-- `(dataLen + Blocksize - 1) / Blocksize`
abbrev pub num_blocks : ℕ → SimpleFs → ℕ
num_blocks data_len fs = sub64 (add64 data_len fs.block_size) 1 / fs.block_size

-- the blocks of a file allocated, and the file entered
unfoldable pub place_file : ℕ → ℕ → SimpleFs → SimpleFs × Option (List ℕ)
place_file name data_len fs =
    let (next, blocks) = allocate_blocks (num_blocks data_len fs) fs in
    elim blocks [
      | none ↦ (next, none)
      | some bs ↦ (
        record next { files = insert name (record { size = data_len; blocks = bs }) next.files },
        some bs,
      )
    ]

-- `CreateFile`
unfoldable pub create_file : ℕ → ℕ → SimpleFs → SimpleFs × Option (List ℕ)
create_file name data_len fs = place_file name data_len (drop_file name fs)

-- `DeleteFile`; the second component tells whether the file was there.
unfoldable pub delete_file : ℕ → SimpleFs → SimpleFs × Bool
delete_file name fs = elim (find name fs.files) [
  | none ↦ (fs, Bool.false)
  | some file ↦ (remove_file name file fs, true)
]
