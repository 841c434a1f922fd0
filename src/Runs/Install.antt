-- ===== src/Runs/Install.antt =====
-- One run installed in a well-formed extent map.
use viperblock.Prelude.{
  ℕ, ◌+◌, ◌≤◌, ◌≡◌, ◌&&◌, ◌⊎◌, ◌==◌, false, inl, inr, some, arith, Bool-cases, sym, ◌∙◌, ltb, leb,
  if◌then◌else◌, Option-cases,
}
use viperblock.Dict.{Dict, find, find-insert}
use viperblock.Extents.Lookup.{
  IsKeyed, IsWf, Covers, read_persisted_of_Covers, Covers-of_read_persisted,
}
use viperblock.Extents.Clear.{
  fracture_overlaps-IsWf, fracture_overlaps-apart, read_persisted-fracture_overlaps,
}
use viperblock.Extents.{Extent, entry_at, read_persisted, fracture_overlaps}
use viperblock.Runs.{install}

module _ (m : Dict Extent) (wf : IsWf m) (run : Extent) (v : IsKeyed run.start_block run) where
  abbrev rest : Dict Extent
  rest = fracture_overlaps run.start_block run.num_blocks m

  rest-IsWf : IsWf rest
  rest-IsWf = fracture_overlaps-IsWf m wf run.start_block run.num_blocks v.filled v.fits

  rest_apart :
      (j : ℕ) (pe : Extent)
      → find j rest ≡ some pe
      → (pe.start_block + pe.num_blocks ≤ run.start_block)
        ⊎ (run.start_block + run.num_blocks ≤ pe.start_block)
  rest_apart = fracture_overlaps-apart m wf run.start_block run.num_blocks v.filled v.fits

  find-install :
      (j : ℕ) → find j (install run m) ≡ (if run.start_block == j then some run else find j rest)
  unfolding install
  find-install j = find-insert run.start_block j run rest

  pub install-IsWf : IsWf (install run m)
  install-IsWf = record {
    each = λ j pe h. ground (arith, find-install j, v, rest-IsWf.each j pe);
    apart = λ i j pe qe h g l. ground (
      arith,
      find-install i,
      find-install j,
      v,
      rest-IsWf.each i pe,
      rest-IsWf.each j qe,
      rest_apart i pe,
      rest_apart j qe,
      rest-IsWf.apart i j pe qe,
    );
  }

  Covers-old : (b : ℕ) (pe : Extent) → Covers rest b pe → Covers (install run m) b pe
  Covers-old b pe c = ground (
    arith,
    c,
    v,
    find-install pe.start_block,
    rest-IsWf.each pe.start_block pe c.stored,
    rest_apart pe.start_block pe c.stored,
  )

  -- what an installed run covers is read from it, and all else as before
  pub read_persisted-install :
      (b : ℕ)
      → read_persisted (install run m) b ≡ (
          if leb run.start_block b && ltb b (run.start_block + run.num_blocks)
          then some (entry_at run b)
          else read_persisted m b)
  read_persisted-install b =
      elim (Bool-cases (leb run.start_block b && ltb b (run.start_block + run.num_blocks))) [
        | inl inside ↦ rw inside (
            read_persisted_of_Covers _ install-IsWf b run
              (ground (arith, find-install run.start_block)))
        | inr outside ↦ rw outside (
            same outside
            ∙ read_persisted-fracture_overlaps m wf run.start_block run.num_blocks v.filled v.fits b
            ∙ rw outside)
      ]
    where
      same :
          (leb run.start_block b && ltb b (run.start_block + run.num_blocks)) ≡ false
          → read_persisted (install run m) b ≡ read_persisted rest b
      same out = elim (Option-cases (read_persisted rest b)) [
        | inr (e, h) ↦
            let (pe, c, p) = Covers-of_read_persisted rest rest-IsWf b e h in
            read_persisted_of_Covers _ install-IsWf b pe (Covers-old b pe c) ∙ ground (arith, p, h)
        | inl h ↦ elim (Option-cases (read_persisted (install run m) b)) [
          | inl h' ↦ h' ∙ sym h
          | inr (e, h') ↦
              let (qe, d, q) = Covers-of_read_persisted _ install-IsWf b e h' in
              let old : Covers rest b qe = ground (arith, d, out, find-install qe.start_block) in
              cc (read_persisted_of_Covers rest rest-IsWf b qe old)
        ]
      ]
