-- ===== src/Store/View/Ranges.antt =====
-- `MarkPersistedRange` and `SetPersistedRange` seen through the view.
use mathlib.Core.Option.{or_else}
use viperblock.Prelude.{
  ℕ, suc, ◌+◌, ◌<◌, ◌≤◌, ◌≡◌, ◌&&◌, ◌||◌, ◌⊎◌, refl, sym, ◌∙◌, inl, inr, Bool, true, false, not,
  Option, none, some, List, [], ◌∷◌, arith, ◌==◌, if◌then◌else◌, Option-cases, Bool-cases, length,
}
use viperblock.Words.{u64}
use viperblock.Block.{BlockEntry, BlockState, same_state}
use viperblock.Extents.{read_persisted}
use viperblock.Runs.{Item, Placement}
use viperblock.Runs.Cut.{placed, placed_entry, Ascends}
use viperblock.Runs.Place.{install_runs_lem}
use viperblock.Store.{Store, entry}
use viperblock.Store.View.{view, IsValid}
use viperblock.Store.View.Readers.{read_persisted_state}
use viperblock.Store.View.Finalize.{
  removed, finalize-sharded, finalize-extents, entry-finalize, count_sealed, finalize-count,
}
use viperblock.Store.Ranges.{
  is_sealed, predict, any_eligible, publish, finalize, seal_items, mark_persisted_range,
}

-- the blocks ascend strictly from `lo` on, and the one behind each is a 64-bit number too

abbrev pub Ascending : ℕ → List ℕ → Type 0
Ascending lo [] = Unit {0}
Ascending lo (b ∷ bs) = (lo ≤ b) × (b + 1 < u64) × Ascending (b + 1) bs

-- the view says that the block is Pending under number `q`
abbrev pub awaits : Store → ℕ → ℕ → Bool
awaits s b q = elim (view s b) [
  | none ↦ false
  | some e ↦ same_state e.state BlockState.pending && (e.seq_num == q)
]

-- what sealing `blocks` from index `i` on, numbered `seqs` and placed by `p`, says of block `j`:
-- each block that is Pending under its number is Persisted at its place
abbrev pub sealed_at : Store → Placement → ℕ → List ℕ → List ℕ → ℕ → Option BlockEntry
sealed_at s p i [] qs j = none
sealed_at s p i (b ∷ bs) [] j = none
sealed_at s p i (b ∷ bs) (q ∷ qs) j =
    let rest = sealed_at s p (i + 1) bs qs j in
    if awaits s b q && (b == j) then some (placed_entry p i q) else rest

-- how many of the blocks are Pending under their number
abbrev pub awaiting : Store → List ℕ → List ℕ → ℕ
awaiting s [] qs = 0
awaiting s (b ∷ bs) [] = 0
awaiting s (b ∷ bs) (q ∷ qs) = if awaits s b q then suc (awaiting s bs qs) else awaiting s bs qs

is_sealed-awaits : (s : Store) (b q : ℕ) → is_sealed s b q ≡ awaits s b q
unfolding is_sealed
is_sealed-awaits s b q = elim (Option-cases (read_persisted s.extents b)) [
  | inl e ↦ ground (arith, e)
  | inr (x, e) ↦ ground (arith, e, read_persisted_state s b x e)
]

placed-predict :
    (s : Store) (p : Placement) (i : ℕ) (bs qs : List ℕ) (j : ℕ)
    → placed p i (predict s bs qs) j ≡ sealed_at s p i bs qs j
unfolding predict
placed-predict s p i [] qs j = refl
placed-predict s p i (b ∷ bs) [] j = refl
placed-predict s p i (b ∷ bs) (q ∷ qs) j =
    rw (is_sealed-awaits s b q, placed-predict s p (i + 1) bs qs j) refl

pub predict-Ascends :
    (s : Store) (lo : ℕ) (bs qs : List ℕ) → Ascending lo bs → Ascends lo (predict s bs qs)
unfolding predict
predict-Ascends s lo [] qs a = tt
predict-Ascends s lo (b ∷ bs) [] a = tt
predict-Ascends s lo (b ∷ bs) (q ∷ qs) a = (a.0, a.1, predict-Ascends s (b + 1) bs qs a.2)

pub publish-entry :
    (p : Placement) (xs : List Item) (s : Store) (j : ℕ) → entry (publish p xs s) j ≡ entry s j
unfolding publish entry
publish-entry p xs s j = refl

-- the items of pass 1, in the store as pass 2 leaves it
removed-predict :
    (s : Store) (p p' : Placement) (xs : List Item) (i : ℕ) (bs qs : List ℕ) (j : ℕ)
    → let gone = removed (predict s bs qs) (publish p xs s) j in
      ((gone ≡ true) × ((e : BlockEntry) × (placed p' i (predict s bs qs) j ≡ some e)))
      ⊎ ((gone ≡ false) × (placed p' i (predict s bs qs) j ≡ none))
unfolding predict is_sealed
removed-predict s p p' xs i [] qs j = inr (refl, refl)
removed-predict s p p' xs i (b ∷ bs) [] j = inr (refl, refl)
removed-predict s p p' xs i (b ∷ bs) (q ∷ qs) j =
    ground (arith, removed-predict s p p' xs (i + 1) bs qs j, publish-entry p xs s b)

is_sealed-publish :
    (s : Store) (p : Placement) (xs : List Item) (b q : ℕ)
    → is_sealed (publish p xs s) b q ≡ is_sealed s b q
unfolding is_sealed
is_sealed-publish s p xs b q = ground (arith, publish-entry p xs s b)

pub publish-IsValid :
    (s : Store) (p : Placement) (lo : ℕ) (xs : List Item)
    → IsValid s
    → Ascends lo xs
    → IsValid (publish p xs s)
unfolding publish
publish-IsValid s p lo xs valid a = record {
  sharded = valid.sharded;
  extents = (install_runs_lem p (length xs) 0 lo xs s.extents (omega arith) valid.extents a).0;
}

pub read_persisted-publish :
    (s : Store) (p : Placement) (lo : ℕ) (xs : List Item) (j : ℕ)
    → IsValid s
    → Ascends lo xs
    → read_persisted (publish p xs s).extents j
      ≡ or_else (placed p 0 xs j) (read_persisted s.extents j)
unfolding publish
read_persisted-publish s p lo xs j valid a =
    (install_runs_lem p (length xs) 0 lo xs s.extents (omega arith) valid.extents a).1 j

view-passes :
    (s : Store) (p : Placement) (lo : ℕ) (bs qs : List ℕ) (j : ℕ)
    → IsValid s
    → Ascending lo bs
    → let xs = predict s bs qs in
      view (finalize xs (publish p xs s)).0 j ≡ or_else (placed p 0 xs j) (view s j)
unfolding or_else
view-passes s p lo bs qs j valid a =
    let xs = predict s bs qs in
    let asc = predict-Ascends s lo bs qs a in
    let s' = publish p xs s in
    let v = publish-IsValid s p lo xs valid asc in
    ground (
      arith,
      entry-finalize xs s' j v.sharded,
      finalize-extents xs s',
      read_persisted-publish s p lo xs j valid asc,
      publish-entry p xs s j,
      removed-predict s p p xs 0 bs qs j,
    )

none_awaiting :
    (s : Store) (bs qs : List ℕ) → any_eligible (predict s bs qs) ≡ false → awaiting s bs qs ≡ 0
unfolding any_eligible predict
none_awaiting s [] qs h = refl
none_awaiting s (b ∷ bs) [] h = refl
none_awaiting s (b ∷ bs) (q ∷ qs) h = ground (arith, none_awaiting s bs qs, is_sealed-awaits s b q)

none_eligible :
    (p : Placement) (i : ℕ) (xs : List Item) (j : ℕ)
    → any_eligible xs ≡ false
    → placed p i xs j ≡ none
unfolding any_eligible
none_eligible p i [] j h = refl
none_eligible p i (x ∷ xs) j h = ground (arith, none_eligible p (i + 1) xs j)

count-publish :
    (s : Store) (p : Placement) (xs : List Item) (bs qs : List ℕ)
    → count_sealed (predict s bs qs) (publish p xs s) ≡ awaiting s bs qs
unfolding predict
count-publish s p xs [] qs = refl
count-publish s p xs (b ∷ bs) [] = refl
count-publish s p xs (b ∷ bs) (q ∷ qs) =
    let same : is_sealed (publish p xs s) b q ≡ awaits s b q =
      rw (is_sealed-publish s p xs b q) (is_sealed-awaits s b q) in
    ground (arith, same, is_sealed-awaits s b q, count-publish s p xs bs qs)

-- the outcome `r` of sealing the blocks
abbrev pub IsSealed : Store → Placement → List ℕ → List ℕ → Store × ℕ → Type 0
IsSealed s p bs qs r =
    IsValid r.0
    × (r.1 ≡ awaiting s bs qs)
    × ((j : ℕ) → view r.0 j ≡ or_else (sealed_at s p 0 bs qs j) (view s j))

seal_items-IsSealed :
    (s : Store) (p : Placement) (lo : ℕ) (bs qs : List ℕ)
    → IsValid s
    → Ascending lo bs
    → IsSealed s p bs qs (seal_items p (predict s bs qs) s)
unfolding seal_items entry
seal_items-IsSealed s p lo bs qs valid a =
    let xs = predict s bs qs in
    let asc = predict-Ascends s lo bs qs a in
    let v = publish-IsValid s p lo xs valid asc in
    (
      record {
        sharded = finalize-sharded xs (publish p xs s) v.sharded;
        extents = rw (finalize-extents xs (publish p xs s)) v.extents;
      },
      finalize-count lo xs (publish p xs s) v.sharded asc ∙ count-publish s p xs bs qs,
      λ j. rw (← placed-predict s p 0 bs qs j) (view-passes s p lo bs qs j valid a),
    )

untouched-IsSealed :
    (s : Store) (p : Placement) (bs qs : List ℕ)
    → IsValid s
    → any_eligible (predict s bs qs) ≡ false
    → IsSealed s p bs qs (s, 0)
unfolding or_else
untouched-IsSealed s p bs qs valid h = (
  valid,
  sym (none_awaiting s bs qs h),
  λ j. rw (← placed-predict s p 0 bs qs j, none_eligible p 0 (predict s bs qs) j h),
)

-- Sealing a run of strictly ascending blocks in a valid store, with a number for each block:
-- every block that is Pending under its number becomes Persisted at its place in the chunk, with
-- no bytes; every other block, listed or not, keeps its view; the store stays valid; and the result
-- is the number of blocks that were so changed.
pub mark_persisted_range-IsSealed :
    (s : Store) (p : Placement) (lo : ℕ) (bs qs : List ℕ)
    → IsValid s
    → Ascending lo bs
    → length bs ≡ length qs
    → IsSealed s p bs qs (mark_persisted_range s bs p qs)
unfolding mark_persisted_range predict any_eligible
mark_persisted_range-IsSealed s p lo [] qs valid a l = untouched-IsSealed s p [] qs valid refl
mark_persisted_range-IsSealed s p lo (b ∷ bs) qs valid a l =
    let passed : ((length (b ∷ bs) == 0) || not (length (b ∷ bs) == length qs)) ≡ false =
      ground (arith, l) in
    elim (Bool-cases (any_eligible (predict s (b ∷ bs) qs))) [
      | inl e ↦ rw (passed, e) (seal_items-IsSealed s p lo (b ∷ bs) qs valid a)
      | inr e ↦ rw (passed, e) (untouched-IsSealed s p (b ∷ bs) qs valid e)
    ]
