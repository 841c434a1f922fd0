-- ===== src/Store/View/Load.antt =====
-- `SetPersistedRange`, which rebuilds the extent index from a checkpoint, seen through the view.
use mathlib.Core.Option.{or_else}
use viperblock.Prelude.{
  ℕ, ◌+◌, ◌≡◌, ◌||◌, refl, false, not, Option, none, some, List, [], ◌∷◌, arith, ◌==◌,
  if◌then◌else◌, length,
}
use viperblock.Block.{BlockEntry}
use viperblock.Extents.{read_persisted}
use viperblock.Runs.{Placement}
use viperblock.Runs.Cut.{placed, placed_entry, Ascends}
use viperblock.Store.{Store, entry}
use viperblock.Store.View.{IsValid}
use viperblock.Store.View.Ranges.{Ascending, publish-entry, publish-IsValid, read_persisted-publish}
use viperblock.Store.Ranges.{publish, all_items, set_persisted_range}

-- what the run of `blocks`, the first of which has index `i`, says of block `j`

abbrev pub loaded_at : Placement → ℕ → List ℕ → List ℕ → ℕ → Option BlockEntry
loaded_at p i [] qs j = none
loaded_at p i (b ∷ bs) [] j = none
loaded_at p i (b ∷ bs) (q ∷ qs) j =
    let rest = loaded_at p (i + 1) bs qs j in if b == j then some (placed_entry p i q) else rest

placed-all_items :
    (p : Placement) (i : ℕ) (bs qs : List ℕ) (j : ℕ)
    → placed p i (all_items bs qs) j ≡ loaded_at p i bs qs j
unfolding all_items
placed-all_items p i [] qs j = refl
placed-all_items p i (b ∷ bs) [] j = refl
placed-all_items p i (b ∷ bs) (q ∷ qs) j = rw (placed-all_items p (i + 1) bs qs j)

all_items-Ascends : (lo : ℕ) (bs qs : List ℕ) → Ascending lo bs → Ascends lo (all_items bs qs)
unfolding all_items
all_items-Ascends lo [] qs a = tt
all_items-Ascends lo (b ∷ bs) [] a = tt
all_items-Ascends lo (b ∷ bs) (q ∷ qs) a = (a.0, a.1, all_items-Ascends (b + 1) bs qs a.2)

-- the outcome `s'` of loading the blocks into `s`
abbrev pub IsLoaded : Store → Placement → List ℕ → List ℕ → Store → Type 0
IsLoaded s p bs qs s' =
    IsValid s'
    × ((j : ℕ)
        → (entry s' j ≡ entry s j)
          × (read_persisted s'.extents j
              ≡ or_else (loaded_at p 0 bs qs j) (read_persisted s.extents j)))

publish-IsLoaded :
    (s : Store) (p : Placement) (lo : ℕ) (bs qs : List ℕ)
    → IsValid s
    → Ascending lo bs
    → IsLoaded s p bs qs (publish p (all_items bs qs) s)
publish-IsLoaded s p lo bs qs valid a =
    let xs = all_items bs qs in
    let asc = all_items-Ascends lo bs qs a in
    (
      publish-IsValid s p lo xs valid asc,
      λ j. (
        publish-entry p xs s j,
        rw (← placed-all_items p 0 bs qs j) (read_persisted-publish s p lo xs j valid asc),
      ),
    )

-- Loading a run of strictly ascending blocks into a valid store, with a number for each: the extent
-- index then reads every block of the run at its place and under its number, and every other block
-- as before; the shards' entries, which go before the index, are not touched; the store stays
-- valid.
pub set_persisted_range-IsLoaded :
    (s : Store) (p : Placement) (lo : ℕ) (bs qs : List ℕ)
    → IsValid s
    → Ascending lo bs
    → length bs ≡ length qs
    → IsLoaded s p bs qs (set_persisted_range s bs p qs)
unfolding set_persisted_range
set_persisted_range-IsLoaded s p lo [] qs valid a l = (valid, λ j. (refl, unfold or_else in refl))
set_persisted_range-IsLoaded s p lo (b ∷ bs) qs valid a l =
    let passed : ((length (b ∷ bs) == 0) || not (length (b ∷ bs) == length qs)) ≡ false =
      ground (arith, l) in
    rw passed (publish-IsLoaded s p lo (b ∷ bs) qs valid a)
