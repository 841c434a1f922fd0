-- ===== src/SimpleFs/Conserve.antt =====
-- Operations on the files of a volume and the count of each of its blocks.
use viperblock.Prelude.{
  ℕ, zero, suc, ◌+◌, ◌≡◌, refl, ◌&&◌, leb, none, some, List, [], ◌∷◌, ◌++◌, ltb, ◌==◌,
  if◌then◌else◌, take, drop, arith, inl, inr, Option-cases,
}
use viperblock.Dict.{Dict, find, insert, delete, find-insert, find-delete}
use viperblock.Conversions.{safe_uint64_to_int}
use viperblock.SimpleFs.{
  SimpleBlock, SimpleFs, count_up, format_volume, allocate_blocks, free_blocks, drop_file,
  create_file, delete_file, num_blocks, remove_file, place_file,
}

-- how often a block stands in a list

abbrev pub occurs : ℕ → List ℕ → ℕ
occurs b [] = 0
occurs b (x ∷ xs) = (if x == b then 1 else 0) + occurs b xs

-- how often a block stands in files
abbrev pub filed : ℕ → Dict SimpleBlock → ℕ
filed b [] = 0
filed b ((k, file) ∷ m) = occurs b file.blocks + filed b m

-- how often a block is free or in a file
abbrev pub tally : ℕ → SimpleFs → ℕ
tally b fs = occurs b fs.free + filed b fs.files

-- No name stands twice in the list of a map.
abbrev pub IsUnique : Dict SimpleBlock → Type 0
IsUnique [] = Unit {0}
IsUnique ((k, file) ∷ m) = (find k m ≡ none) × IsUnique m

occurs-append : (b : ℕ) (xs ys : List ℕ) → occurs b (xs ++ ys) ≡ occurs b xs + occurs b ys
occurs-append b [] ys = omega arith
occurs-append b (x ∷ xs) ys = omega (arith, occurs-append b xs ys)

occurs-take-drop :
    (b n : ℕ) (xs : List ℕ) → occurs b (take n xs) + occurs b (drop n xs) ≡ occurs b xs
occurs-take-drop b zero xs = omega arith
occurs-take-drop b (suc n) [] = omega arith
occurs-take-drop b (suc n) (x ∷ xs) = omega (arith, occurs-take-drop b n xs)

delete_missing : (k : ℕ) (m : Dict SimpleBlock) → find k m ≡ none → delete k m ≡ m
unfolding find delete
delete_missing k [] h = refl
delete_missing k ((j, file) ∷ m) h = ground (arith, h, delete_missing k m)

filed-delete :
    (b k : ℕ) (file : SimpleBlock) (m : Dict SimpleBlock)
    → IsUnique m
    → find k m ≡ some file
    → filed b m ≡ occurs b file.blocks + filed b (delete k m)
unfolding find delete
filed-delete b k file [] u h = ground arith
filed-delete b k file ((j, x) ∷ m) (new, u) h =
    ground (arith, h, new, delete_missing k m, filed-delete b k file m u)

filed-insert :
    (b k : ℕ) (file : SimpleBlock) (m : Dict SimpleBlock)
    → find k m ≡ none
    → filed b (insert k file m) ≡ occurs b file.blocks + filed b m
unfolding find insert
filed-insert b k file [] h = omega arith
filed-insert b k file ((j, x) ∷ m) h = ground (arith, h, filed-insert b k file m)

delete-IsUnique : (k : ℕ) (m : Dict SimpleBlock) → IsUnique m → IsUnique (delete k m)
unfolding delete
delete-IsUnique k [] u = tt
delete-IsUnique k ((j, x) ∷ m) (new, u) =
    ground (arith, new, find-delete k j m, delete-IsUnique k m u)

insert-IsUnique :
    (k : ℕ) (file : SimpleBlock) (m : Dict SimpleBlock) → IsUnique m → IsUnique (insert k file m)
unfolding insert find
insert-IsUnique k file [] u = (refl, tt)
insert-IsUnique k file ((j, x) ∷ m) (new, u) =
    ground (arith, new, find-insert k j file m, insert-IsUnique k file m u)

-- Freeing adds the blocks to the free list and touches no file.
abbrev Frees : ℕ → List ℕ → SimpleFs → SimpleFs → Type 0
Frees b bs fs next =
    (occurs b next.free ≡ occurs b fs.free + occurs b bs)
    × (next.files ≡ fs.files)
    × (next.size ≡ fs.size)

free_blocks-Frees : (b : ℕ) (bs : List ℕ) (fs : SimpleFs) → Frees b bs fs (free_blocks bs fs)
unfolding free_blocks
free_blocks-Frees b [] fs = (omega arith, refl, refl)
free_blocks-Frees b (x ∷ xs) fs =
    let next = record fs { used = delete x fs.used; free = fs.free ++ (x ∷ []) } in
    ground (arith, occurs-append b fs.free (x ∷ []), free_blocks-Frees b xs next)

-- The operation keeps the count of a block, and the map of files proper.
abbrev pub Keeps : ℕ → SimpleFs → SimpleFs → Type 0
Keeps b fs next = (tally b next ≡ tally b fs) × IsUnique next.files × (next.size ≡ fs.size)

remove_file-Keeps :
    (b name : ℕ) (file : SimpleBlock) (fs : SimpleFs)
    → IsUnique fs.files
    → find name fs.files ≡ some file
    → Keeps b fs (remove_file name file fs) × (find name (remove_file name file fs).files ≡ none)
unfolding remove_file
remove_file-Keeps b name file fs u h =
    let f = free_blocks-Frees b file.blocks fs in
    (
      ground (arith, f, u, filed-delete b name file fs.files u h, delete-IsUnique name fs.files u),
      ground (arith, find-delete name name (free_blocks file.blocks fs).files),
    )

drop_file-Keeps :
    (b name : ℕ) (fs : SimpleFs)
    → IsUnique fs.files
    → Keeps b fs (drop_file name fs) × (find name (drop_file name fs).files ≡ none)
unfolding drop_file
drop_file-Keeps b name fs u = elim (Option-cases (find name fs.files)) [
  | inl e ↦ ground (arith, u, e)
  | inr (file, e) ↦ ground (arith, u, e, remove_file-Keeps b name file fs u e)
]

place_file-Keeps :
    (b name data_len : ℕ) (fs : SimpleFs)
    → IsUnique fs.files
    → find name fs.files ≡ none
    → Keeps b fs (place_file name data_len fs).0
unfolding place_file allocate_blocks
place_file-Keeps b name data_len fs u h =
    let n = safe_uint64_to_int (num_blocks data_len fs) in
    let file : SimpleBlock = record { size = data_len; blocks = take n fs.free } in
    ground (
      arith,
      u,
      occurs-take-drop b n fs.free,
      filed-insert b name file fs.files h,
      insert-IsUnique name file fs.files u,
    )

pub create_file-Keeps :
    (b name data_len : ℕ) (fs : SimpleFs)
    → IsUnique fs.files
    → Keeps b fs (create_file name data_len fs).0
unfolding create_file
create_file-Keeps b name data_len fs u =
    let mid = drop_file-Keeps b name fs u in
    ground (arith, mid, place_file-Keeps b name data_len (drop_file name fs) mid.0.1 mid.1)

pub delete_file-Keeps :
    (b name : ℕ) (fs : SimpleFs) → IsUnique fs.files → Keeps b fs (delete_file name fs).0
unfolding delete_file
delete_file-Keeps b name fs u = elim (Option-cases (find name fs.files)) [
  | inl e ↦ ground (arith, u, e)
  | inr (file, e) ↦ ground (arith, u, e, remove_file-Keeps b name file fs u e)
]

occurs-count_up :
    (b i n : ℕ) → occurs b (count_up i n) ≡ (if leb i b && ltb b (i + n) then 1 else 0)
unfolding count_up
occurs-count_up b i zero = ground arith
occurs-count_up b i (suc n) = ground (arith, occurs-count_up b (suc i) n)

pub data Op : Type 0 where
  formats : Op
  creates : ℕ → ℕ → Op
  deletes : ℕ → Op

unfoldable pub apply : Op → SimpleFs → SimpleFs
apply Op.formats fs = format_volume fs
apply (Op.creates name data_len) fs = (create_file name data_len fs).0
apply (Op.deletes name) fs = (delete_file name fs).0

unfoldable pub run : List Op → SimpleFs → SimpleFs
run [] fs = fs
run (o ∷ os) fs = run os (apply o fs)

-- Every block of the volume is free once or in one file once; no other block is.
abbrev pub IsConserved : ℕ → SimpleFs → Type 0
IsConserved b fs = IsUnique fs.files × (tally b fs ≡ (if ltb b fs.size then 1 else 0))

format_volume-IsConserved : (b : ℕ) (fs : SimpleFs) → IsConserved b (format_volume fs)
unfolding format_volume
format_volume-IsConserved b fs = (tt, ground (arith, occurs-count_up b 0 fs.size))

apply-IsConserved : (b : ℕ) (o : Op) (fs : SimpleFs) → IsConserved b fs → IsConserved b (apply o fs)
unfolding apply
apply-IsConserved b Op.formats fs v = format_volume-IsConserved b fs
apply-IsConserved b (Op.creates name data_len) fs (u, v) =
    ground (arith, u, v, create_file-Keeps b name data_len fs u)
apply-IsConserved b (Op.deletes name) fs (u, v) =
    ground (arith, u, v, delete_file-Keeps b name fs u)

run_conserves :
    (b : ℕ) (os : List Op) (fs : SimpleFs) → IsConserved b fs → IsConserved b (run os fs)
unfolding run
run_conserves b [] fs v = v
run_conserves b (o ∷ os) fs v = run_conserves b os (apply o fs) (apply-IsConserved b o fs v)

-- After a format and any sequence of formats, file creations that succeed or fail, and
-- deletions, every block of the volume is free once or in one file once, and no other block is
-- either.
pub run-IsConserved :
    (b : ℕ) (os : List Op) (fs : SimpleFs) → IsConserved b (run os (format_volume fs))
run-IsConserved b os fs = run_conserves b os (format_volume fs) (format_volume-IsConserved b fs)
