-- ===== src/Store/View/Removal.antt =====
-- `Delete` seen through the view.
use viperblock.Prelude.{
  ℕ, ◌+◌, ◌<◌, ◌≡◌, refl, inl, inr, Bool, true, false, Option, none, some, arith, ◌==◌,
  if◌then◌else◌, Option-cases,
}
use viperblock.Words.{u64}
use viperblock.Block.{BlockEntry}
use viperblock.Extents.{Extent, read_persisted, find_extent, fracture_overlaps}
use viperblock.Extents.Clear.{fracture_overlaps-IsWf, read_persisted-fracture_overlaps}
use viperblock.Store.{Store, entry, remove}
use viperblock.Store.View.{view, IsValid, entry-remove, remove-sharded}
use viperblock.Store.View.Writers.{remove-extents}
use viperblock.Store.Writers.{delete_block}

-- what is left of a block: nothing, or where it had an entry, the extent that covers it

abbrev pub left_of : Store → ℕ → Option BlockEntry
left_of s b = elim (entry s b) [ some _ ↦ read_persisted s.extents b | none ↦ none ]

abbrev pub is_some : Option BlockEntry → Bool
is_some none = false
is_some (some e) = true

-- the outcome `r` of deleting block `b`
abbrev pub IsDeleted : Store → ℕ → Store × Bool → Type 0
IsDeleted s b r =
    IsValid r.0
    × (r.1 ≡ is_some (view s b))
    × ((j : ℕ) → view r.0 j ≡ (if b == j then left_of s b else view s j))

module _ (s : Store) (b : ℕ) (valid : IsValid s) where
  entry_removed : (e : BlockEntry) → entry s b ≡ some e → IsDeleted s b (remove s b, true)
  entry_removed e here = (
    record {
      sharded = remove-sharded s valid.sharded b;
      extents = rw (remove-extents s b) valid.extents;
    },
    ground (arith, here),
    λ j. ground (arith, here, entry-remove s valid.sharded b j, remove-extents s b),
  )

  not_there : entry s b ≡ none → find_extent s.extents b ≡ none → IsDeleted s b (s, false)
  unfolding read_persisted
  not_there missing absent =
      (valid, ground (arith, missing, absent), λ j. ground (arith, missing, absent))

  fractured : Store
  fractured = record s { extents = fracture_overlaps b 1 s.extents }

  extent_cut :
      (pe : Extent)
      → b + 1 < u64
      → entry s b ≡ none
      → find_extent s.extents b ≡ some pe
      → IsDeleted s b (fractured, true)
  unfolding fractured
  extent_cut pe h missing covered = (
    record {
      sharded = valid.sharded;
      extents = fracture_overlaps-IsWf s.extents valid.extents b 1 (omega arith) h;
    },
    unfold read_persisted in ground (arith, missing, covered),
    λ j. ground (
      arith,
      missing,
      entry_fractured j,
      read_persisted-fracture_overlaps s.extents valid.extents b 1 (omega arith) h j,
    ),
  )
    where
      entry_fractured : (j : ℕ) → entry fractured j ≡ entry s j
      entry_fractured j = unfold entry in refl

-- `Delete` reports whether the block was there, and no other block's view changes. The block
-- itself is gone if only the extent index held it. If it had an entry, only that entry goes: an
-- extent that covers the block too, from before it was written again, is not fractured, and the
-- block then reads as Persisted at its superseded place.
pub delete_block-IsDeleted :
    (s : Store) (b : ℕ) → IsValid s → b + 1 < u64 → IsDeleted s b (delete_block s b)
unfolding delete_block fractured
delete_block-IsDeleted s b valid h = elim (Option-cases (entry s b)) [
  | inr (e, here) ↦ rw (here, delete_block) (entry_removed s b valid e here)
  | inl missing ↦ elim (Option-cases (find_extent s.extents b)) [
    | inl absent ↦ rw (missing, absent, delete_block) (not_there s b valid missing absent)
    | inr (pe, covered) ↦
        rw (missing, covered, delete_block) (extent_cut s b valid pe h missing covered)
  ]
]
