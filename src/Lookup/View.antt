-- ===== src/Lookup/View.antt =====
-- Well-formed block-to-object maps, and what a lookup in one finds.
use viperblock.Prelude.{
  ℕ, ◌+◌, ◌-◌, ◌≤◌, ◌<◌, ◌≡◌, inl, inr, Option, none, some, List, [], ◌∷◌, arith, Option-cases,
}
use viperblock.Dict.{Dict, In, find, keys, In-keys_of_find}
use viperblock.Lookup.{BlockLookup, scan, resolve_block_lookup, single_at}
use viperblock.Lookup.Pieces.{IsKeyed}

-- Every run stands well formed under its first block, and no two overlap.

pub record IsWf (m : Dict BlockLookup) : Type 0 where
  pub each : (k : ℕ) (pe : BlockLookup) → find k m ≡ some pe → IsKeyed k pe
  pub apart :
      (j k : ℕ) (pe qe : BlockLookup)
      → find j m ≡ some pe
      → find k m ≡ some qe
      → j < k
      → j + pe.num_blocks ≤ k

-- `pe` is a run of `m` that covers `b`.
pub record Covers (m : Dict BlockLookup) (b : ℕ) (pe : BlockLookup) : Type 0 where
  pub stored : find pe.start_block m ≡ some pe
  pub above : pe.start_block ≤ b
  pub below : b < pe.start_block + pe.num_blocks

-- the block as an entry of its own, placed by a run
abbrev pub place : ℕ → BlockLookup → ℕ → BlockLookup
place stride bl b = single_at bl stride (b - bl.start_block)

-- what a map says of a block, whichever run holds it
unfoldable pub locate : ℕ → Dict BlockLookup → ℕ → Option BlockLookup
locate stride m b = elim (resolve_block_lookup m b) [
  | none ↦ none
  | some (bl, i) ↦ some (single_at bl stride i)
]

module _ (stride : ℕ) (m : Dict BlockLookup) (wf : IsWf m) (b : ℕ) where
  Covers-unique : (pe qe : BlockLookup) → Covers m b pe → Covers m b qe → pe ≡ qe
  Covers-unique pe qe c d = ground (
    arith,
    wf.apart pe.start_block qe.start_block pe qe c.stored d.stored,
    wf.apart qe.start_block pe.start_block qe pe d.stored c.stored,
  )

  scan_sound :
      (ks : List ℕ) (pe : BlockLookup) (i : ℕ)
      → scan ks m b ≡ some (pe, i)
      → Covers m b pe × (i ≡ b - pe.start_block)
  unfolding scan
  scan_sound [] pe i h = ground arith
  scan_sound (k ∷ ks) pe i h = elim (Option-cases (find k m)) [
    | inl e ↦ ground (arith, scan_sound ks pe i)
    | inr (qe, e) ↦ ground (arith, wf.each k qe e, scan_sound ks pe i)
  ]

  scan_complete :
      (ks : List ℕ) (pe : BlockLookup)
      → Covers m b pe
      → pe.start_block < b
      → In pe.start_block ks
      → scan ks m b ≡ some (pe, b - pe.start_block)
  unfolding scan
  scan_complete [] pe c l i = absurd i
  scan_complete (k ∷ ks) pe c l i = elim (Option-cases (find k m)) [
    | inl e ↦ ground (arith, scan_complete ks pe c l)
    | inr (qe, e) ↦
        let v = wf.each k qe e in
        ground (
          arith,
          v,
          wf.each pe.start_block pe c.stored,
          Covers-unique qe pe,
          scan_complete ks pe c l,
        )
  ]

  -- A lookup finds a run exactly when that run covers the block.
  pub resolve_sound :
      (pe : BlockLookup) (i : ℕ)
      → resolve_block_lookup m b ≡ some (pe, i)
      → Covers m b pe × (i ≡ b - pe.start_block)
  unfolding resolve_block_lookup
  resolve_sound pe i h = elim (Option-cases (find b m)) [
    | inl e ↦ scan_sound (keys m) pe i (rw (e, resolve_block_lookup) at h)
    | inr (qe, e) ↦ ground (arith, wf.each b qe e)
  ]

  pub resolve_complete :
      (pe : BlockLookup) → Covers m b pe → resolve_block_lookup m b ≡ some (pe, b - pe.start_block)
  unfolding resolve_block_lookup
  resolve_complete pe c = elim (Option-cases (find b m)) [
    | inl e ↦
        ground (arith, scan_complete (keys m) pe c, In-keys_of_find pe.start_block pe m c.stored)
    | inr (qe, e) ↦ ground (arith, wf.each b qe e, Covers-unique qe pe)
  ]

  pub locate_of_Covers :
      (pe : BlockLookup) → Covers m b pe → locate stride m b ≡ some (place stride pe b)
  unfolding locate
  locate_of_Covers pe c = rw (resolve_complete pe c, locate)

  pub Covers-of_locate :
      (e : BlockLookup)
      → locate stride m b ≡ some e
      → (pe : BlockLookup) × Covers m b pe × (place stride pe b ≡ e)
  unfolding locate
  Covers-of_locate e h = elim (Option-cases (resolve_block_lookup m b)) [
    | inl none_found ↦ ground arith
    | inr ((pe, i), found) ↦ let (c, at) = resolve_sound pe i found in (pe, c, ground (arith, at))
  ]

  pub locate-eq-none : ((pe : BlockLookup) → ¬ Covers m b pe) → locate stride m b ≡ none
  unfolding locate
  locate-eq-none h = elim (Option-cases (resolve_block_lookup m b)) [
    | inl none_found ↦ rw (none_found, locate)
    | inr ((pe, i), found) ↦ absurd (h pe (resolve_sound pe i found).0)
  ]
