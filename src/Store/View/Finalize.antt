-- ===== src/Store/View/Finalize.antt =====
-- Pass 3 of `MarkPersistedRange`: which entries it removes.
use viperblock.Prelude.{
  ℕ, suc, ◌+◌, ◌<◌, ◌≡◌, ◌≢◌, ◌⊎◌, ◌&&◌, ◌||◌, refl, ◌∙◌, ap, inl, inr, Bool, false, none, some,
  List, [], ◌∷◌, arith, ◌==◌, if◌then◌else◌, Bool-cases, length,
}
use viperblock.Block.{BlockEntry, BlockState}
use viperblock.Runs.{Item}
use viperblock.Runs.Cut.{Ascends}
use viperblock.Store.{Store, entry, remove, num_shards}
use viperblock.Store.View.{entry-remove, remove-sharded}
use viperblock.Store.Ranges.{is_sealed, finalize}

-- some item names block `j` and is sealed in `s`

abbrev pub removed : List Item → Store → ℕ → Bool
removed [] s j = false
removed (x ∷ xs) s j =
    (x.eligible && (is_sealed s x.block x.seq && (x.block == j))) || removed xs s j

module _ (s : Store) (sharded : length s.shards ≡ num_shards) (b : ℕ) where
  is_sealed-remove :
      (j q : ℕ) → is_sealed (remove s b) j q ≡ (if b == j then false else is_sealed s j q)
  unfolding is_sealed
  is_sealed-remove j q = ground (arith, entry-remove s sharded b j)

  removed-remove : (xs : List Item) (j : ℕ) → b ≢ j → removed xs (remove s b) j ≡ removed xs s j
  removed-remove [] j h = refl
  removed-remove (x ∷ xs) j h =
      ground (arith, removed-remove xs j h, is_sealed-remove x.block x.seq)

pub finalize-sharded :
    (xs : List Item) (s : Store)
    → length s.shards ≡ num_shards
    → length (finalize xs s).0.shards ≡ num_shards
unfolding finalize
finalize-sharded [] s h = h
finalize-sharded (x ∷ xs) s h = elim (Bool-cases (x.eligible && is_sealed s x.block x.seq)) [
  | inl e ↦ rw e (finalize-sharded xs (remove s x.block) (remove-sharded s h x.block))
  | inr e ↦ rw e (finalize-sharded xs s h)
]

pub finalize-extents : (xs : List Item) (s : Store) → (finalize xs s).0.extents ≡ s.extents
unfolding finalize remove
finalize-extents [] s = refl
finalize-extents (x ∷ xs) s = elim (Bool-cases (x.eligible && is_sealed s x.block x.seq)) [
  | inl e ↦ rw e (finalize-extents xs (remove s x.block))
  | inr e ↦ rw e (finalize-extents xs s)
]

-- Pass 3 on any store, also one that changed since the items were sampled, removes exactly the
-- entries that an item samples as eligible and that are still Pending under the item's number.
pub entry-finalize :
    (xs : List Item) (s : Store) (j : ℕ)
    → length s.shards ≡ num_shards
    → entry (finalize xs s).0 j ≡ (if removed xs s j then none else entry s j)
unfolding finalize
entry-finalize [] s j h = refl
entry-finalize (x ∷ xs) s j h = elim (Bool-cases (x.eligible && is_sealed s x.block x.seq)) [
  | inl e ↦ rw e (
      entry-finalize xs (remove s x.block) j (remove-sharded s h x.block)
      ∙ ground (arith, e, entry-remove s h x.block j, removed-remove s h x.block xs j))
  | inr e ↦ rw e (entry-finalize xs s j h ∙ ground (arith, e))
]

not_sealed :
    (s : Store) (j q : ℕ) (e : BlockEntry)
    → entry s j ≡ some e
    → e.state ≢ BlockState.pending
    → is_sealed s j q ≡ false
unfolding is_sealed
not_sealed s j q e here p = ground (arith, here, p)

-- no item pairs block `b` with number `q`
abbrev pub Lacks : ℕ → ℕ → List Item → Type 0
Lacks b q [] = Unit {0}
Lacks b q (x ∷ xs) = ((x.block ≢ b) ⊎ (x.seq ≢ q)) × Lacks b q xs

-- An entry survives pass 3 if no item pairs its block with its number.
pub finalize_lacking :
    (xs : List Item) (s : Store) (j : ℕ) (e : BlockEntry)
    → length s.shards ≡ num_shards
    → entry s j ≡ some e
    → Lacks j e.seq_num xs
    → entry (finalize xs s).0 j ≡ some e
finalize_lacking xs s j e h here l = entry-finalize xs s j h ∙ rw (none_removed xs l) here
  where
    other : (q : ℕ) → q ≢ e.seq_num → is_sealed s j q ≡ false
    other q n = unfold is_sealed in ground (arith, here)

    none_removed : (xs : List Item) → Lacks j e.seq_num xs → removed xs s j ≡ false
    none_removed [] l = refl
    none_removed (x ∷ xs) l = ground (arith, none_removed xs, other x.seq)

-- An entry that is not Pending survives pass 3, whatever was sampled.
pub finalize_keeps :
    (xs : List Item) (s : Store) (j : ℕ) (e : BlockEntry)
    → length s.shards ≡ num_shards
    → entry s j ≡ some e
    → e.state ≢ BlockState.pending
    → entry (finalize xs s).0 j ≡ some e
finalize_keeps xs s j e h here p = entry-finalize xs s j h ∙ rw (none_removed xs) here
  where
    none_removed : (xs : List Item) → removed xs s j ≡ false
    none_removed [] = refl
    none_removed (x ∷ xs) = ground (arith, none_removed xs, not_sealed s j x.seq e here p)

-- how many items are eligible and sealed in `s`
abbrev pub count_sealed : List Item → Store → ℕ
count_sealed [] s = 0
count_sealed (x ∷ xs) s =
    if x.eligible && is_sealed s x.block x.seq then suc (count_sealed xs s) else count_sealed xs s

count_sealed-remove :
    (s : Store) (b lo : ℕ) (xs : List Item)
    → length s.shards ≡ num_shards
    → b < lo
    → Ascends lo xs
    → count_sealed xs (remove s b) ≡ count_sealed xs s
count_sealed-remove s b lo [] h l a = refl
count_sealed-remove s b lo (x ∷ xs) h l a =
    ground (arith, count_sealed-remove s b (x.block + 1) xs h, is_sealed-remove s h b x.block x.seq)

pub finalize-count :
    (lo : ℕ) (xs : List Item) (s : Store)
    → length s.shards ≡ num_shards
    → Ascends lo xs
    → (finalize xs s).1 ≡ count_sealed xs s
unfolding finalize
finalize-count lo [] s h a = refl
finalize-count lo (x ∷ xs) s h a = elim (Bool-cases (x.eligible && is_sealed s x.block x.seq)) [
  | inl e ↦ rw e (
      ap suc (
        finalize-count (x.block + 1) xs (remove s x.block) (remove-sharded s h x.block) a.2
        ∙ count_sealed-remove s x.block (x.block + 1) xs h (omega arith) a.2))
  | inr e ↦ rw e (finalize-count (x.block + 1) xs s h a.2)
]
