-- ===== src/Extents/Lookup.antt =====
-- Well-formed extent maps, and what a lookup in one finds.
use viperblock.Prelude.{
  ℕ, ◌+◌, ◌≤◌, ◌<◌, ◌≡◌, inl, inr, none, some, List, [], ◌∷◌, arith, length, Option-cases,
}
use viperblock.Words.{u16, u64}
use viperblock.Dict.{Dict, In, find, keys, In-keys_of_find}
use viperblock.Block.{BlockEntry}
use viperblock.Extents.{Extent, scan, find_extent, entry_at, read_persisted}

-- An extent stands under its first block, is not empty, fits its 16-bit count and the 64-bit block
-- numbers, and has a sequence number for each block.
pub record IsKeyed (k : ℕ) (pe : Extent) : Type 0 where
  pub keyed : pe.start_block ≡ k
  pub filled : 0 < pe.num_blocks
  pub counted : pe.num_blocks < u16
  pub fits : k + pe.num_blocks < u64
  pub numbered : length pe.seq_nums ≡ pe.num_blocks

-- Every extent is so, and no two overlap.
pub record IsWf (m : Dict Extent) : Type 0 where
  pub each : (k : ℕ) (pe : Extent) → find k m ≡ some pe → IsKeyed k pe
  pub apart :
      (j k : ℕ) (pe qe : Extent)
      → find j m ≡ some pe
      → find k m ≡ some qe
      → j < k
      → j + pe.num_blocks ≤ k

-- `pe` is an extent of `m` that covers `b`.
pub record Covers (m : Dict Extent) (b : ℕ) (pe : Extent) : Type 0 where
  pub stored : find pe.start_block m ≡ some pe
  pub above : pe.start_block ≤ b
  pub below : b < pe.start_block + pe.num_blocks

module _ (m : Dict Extent) (wf : IsWf m) (b : ℕ) where
  Covers-unique : (pe qe : Extent) → Covers m b pe → Covers m b qe → pe ≡ qe
  Covers-unique pe qe c d = ground (
    arith,
    wf.apart pe.start_block qe.start_block pe qe c.stored d.stored,
    wf.apart qe.start_block pe.start_block qe pe d.stored c.stored,
  )

  scan_sound : (ks : List ℕ) (pe : Extent) → scan ks m b ≡ some pe → Covers m b pe
  unfolding scan
  scan_sound [] pe h = ground arith
  scan_sound (k ∷ ks) pe h = elim (Option-cases (find k m)) [
    | inl e ↦ ground (arith, scan_sound ks pe)
    | inr (qe, e) ↦ ground (arith, wf.each k qe e, scan_sound ks pe)
  ]

  scan_complete :
      (ks : List ℕ) (pe : Extent)
      → Covers m b pe
      → pe.start_block < b
      → In pe.start_block ks
      → scan ks m b ≡ some pe
  unfolding scan
  scan_complete [] pe c l i = absurd i
  scan_complete (k ∷ ks) pe c l i = elim (Option-cases (find k m)) [
    | inl e ↦ ground (arith, scan_complete ks pe c l)
    | inr (qe, e) ↦
        let v = wf.each k qe e in
        ground (
          arith,
          v,
          wf.each pe.start_block pe c.stored,
          Covers-unique qe pe,
          scan_complete ks pe c l,
        )
  ]

  -- A lookup finds an extent exactly when that extent covers the block.
  pub find_extent_sound : (pe : Extent) → find_extent m b ≡ some pe → Covers m b pe
  unfolding find_extent
  find_extent_sound pe h = elim (Option-cases (find b m)) [
    | inl e ↦ scan_sound (keys m) pe (rw (e, find_extent) at h)
    | inr (qe, e) ↦ ground (arith, wf.each b qe e)
  ]

  pub find_extent_complete : (pe : Extent) → Covers m b pe → find_extent m b ≡ some pe
  unfolding find_extent
  find_extent_complete pe c = elim (Option-cases (find b m)) [
    | inl e ↦
        ground (arith, scan_complete (keys m) pe c, In-keys_of_find pe.start_block pe m c.stored)
    | inr (qe, e) ↦ ground (arith, wf.each b qe e, Covers-unique qe pe)
  ]

  pub read_persisted_of_Covers :
      (pe : Extent) → Covers m b pe → read_persisted m b ≡ some (entry_at pe b)
  unfolding read_persisted
  read_persisted_of_Covers pe c = rw (find_extent_complete pe c, read_persisted)

  pub Covers-of_read_persisted :
      (e : BlockEntry)
      → read_persisted m b ≡ some e
      → (pe : Extent) × Covers m b pe × (entry_at pe b ≡ e)
  unfolding read_persisted
  Covers-of_read_persisted e h = elim (Option-cases (find_extent m b)) [
    | inl none_found ↦ ground arith
    | inr (pe, found) ↦ (pe, find_extent_sound pe found, ground arith)
  ]

  pub read_persisted-eq-none : ((pe : Extent) → ¬ Covers m b pe) → read_persisted m b ≡ none
  unfolding read_persisted
  read_persisted-eq-none h = elim (Option-cases (find_extent m b)) [
    | inl none_found ↦ rw (none_found, read_persisted)
    | inr (pe, found) ↦ absurd (h pe (find_extent_sound pe found))
  ]
