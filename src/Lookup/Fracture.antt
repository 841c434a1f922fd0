-- ===== src/Lookup/Fracture.antt =====
-- One round of the loop of `insertCoalescedLocked` on a well-formed map.
use viperblock.Prelude.{
  ℕ, ◌+◌, ◌-◌, ◌≤◌, ◌<◌, ◌≡◌, ◌≢◌, refl, sym, ap, ◌∙◌, ◌&&◌, ◌⊎◌, inl, inr, none, some, arith, ltb,
  ◌==◌, if◌then◌else◌,
}
use native.Mathlib.Decide.{ℕ_discrete as dec_eq}
use viperblock.Words.{u64}
use viperblock.Dict.{find, insert, delete, find-insert, find-delete}
use viperblock.Lookup.View.{IsWf, Covers, place}
use viperblock.Lookup.Pieces.{IsKeyed, single_at-head_of, single_at-tail_of}
use viperblock.Lookup.{
  BlockLookup, Index, end, head_of, tail_of, single_at, fracture_one, add_head, add_tail, add_entry,
}

-- a block outside the range [ns, ne)

abbrev pub Outside : ℕ → ℕ → ℕ → Type 0
Outside ns ne b = (b < ns) ⊎ (ne ≤ b)

-- `pe` shares a block with the range
abbrev pub Overlaps : ℕ → ℕ → BlockLookup → Type 0
Overlaps ns ne pe = (ns < pe.start_block + pe.num_blocks) × (pe.start_block < ne)

module _ (ns ne stride : ℕ) (order : ns < ne) (top : ne < u64) where
  pub fracture_one-missing :
      (key : ℕ) (x : Index) → find key x.entries ≡ none → fracture_one ns ne stride key x ≡ x
  unfolding fracture_one add_head add_tail add_entry
  fracture_one-missing key x h = ground arith

  module _ (x : Index) (wf : IsWf x.entries) (key : ℕ) (ex : BlockLookup)
      (here : find key x.entries ≡ some ex) where
    pub v : IsKeyed key ex
    v = wf.each key ex here

    pub fracture_one-apart : ¬ Overlaps ns ne ex → fracture_one ns ne stride key x ≡ x
    unfolding fracture_one add_head add_tail add_entry
    fracture_one-apart h = ground (arith, v, h)

    abbrev After : ℕ → Type 0
    After j = find j (fracture_one ns ne stride key x).entries ≡ (
        if ltb ne (end ex) && (ne == j)
        then some (tail_of ex ne stride)
        else if ltb key ns && (key == j)
        then some (head_of ex ns)
        else if key == j
        then none
        else find j x.entries)

    find-fracture_one : Overlaps ns ne ex → (j : ℕ) → After j
    unfolding fracture_one add_head add_tail add_entry
    find-fracture_one o j = ground (
      arith,
      v,
      find-insert ne j (tail_of ex ne stride) (insert key (head_of ex ns) (delete key x.entries)),
      find-insert ne j (tail_of ex ne stride) (delete key x.entries),
      find-insert key j (head_of ex ns) (delete key x.entries),
      find-delete key j x.entries,
    )

    abbrev pub Keeps : ℕ → BlockLookup → Type 0
    Keeps b pe =
        (qe : BlockLookup) × Covers (fracture_one ns ne stride key x).entries b qe
        × (place stride qe b ≡ place stride pe b)

    kept_head : (b : ℕ) → Overlaps ns ne ex → key ≤ b → b < ns → Keeps b ex
    kept_head b o lo hi = (
      head_of ex ns,
      ground (arith, v, find-fracture_one o key),
      ground (arith, v, single_at-head_of key ex v b stride ns),
    )

    kept_tail : (b : ℕ) → Overlaps ns ne ex → ne ≤ b → b < key + ex.num_blocks → Keeps b ex
    kept_tail b o lo hi = (
      tail_of ex ne stride,
      ground (arith, v, find-fracture_one o ne),
      ground (arith, v, single_at-tail_of key ex v b stride ne),
    )

    kept_other :
        (b : ℕ) (pe : BlockLookup)
        → Overlaps ns ne ex
        → Covers x.entries b pe
        → pe.start_block ≢ key
        → Keeps b pe
    kept_other b pe o c other = (
      pe,
      ground (
        arith,
        v,
        c,
        wf.each pe.start_block pe c.stored,
        wf.apart key pe.start_block ex pe here c.stored,
        wf.apart pe.start_block key pe ex c.stored here,
        find-fracture_one o pe.start_block,
      ),
      refl,
    )

    pub keeps :
        (b : ℕ) (pe : BlockLookup)
        → Overlaps ns ne ex
        → Outside ns ne b
        → Covers x.entries b pe
        → Keeps b pe
    keeps b pe o out c = elim (dec_eq pe.start_block key) [
      | no other ↦ kept_other b pe o c other
      | yes same ↦
          let e : ex ≡ pe = ground (arith, c.stored, same, here) in
          rw (← e) (keeps_own out (ground (arith, e, c, same)) (ground (arith, e, c, same)))
    ]
      where
        keeps_own : Outside ns ne b → key ≤ b → b < key + ex.num_blocks → Keeps b ex
        keeps_own (inl low) lo hi = kept_head b o lo low
        keeps_own (inr high) lo hi = kept_tail b o high hi

    -- the runs of the result: the tail, the head, and what stood elsewhere
    abbrev pub Origin : ℕ → BlockLookup → Type 0
    Origin j qe =
        ((ne < key + ex.num_blocks) × (j ≡ ne) × (qe ≡ tail_of ex ne stride))
        ⊎ ((key < ns) × (j ≡ key) × (qe ≡ head_of ex ns))
        ⊎ ((j ≢ key) × (find j x.entries ≡ some qe))

    pub origin :
        (j : ℕ) (qe : BlockLookup)
        → Overlaps ns ne ex
        → find j (fracture_one ns ne stride key x).entries ≡ some qe
        → Origin j qe
    origin j qe o h = ground (arith, v, find-fracture_one o j)

    pub step_each :
        (j : ℕ) (qe : BlockLookup)
        → Overlaps ns ne ex
        → find j (fracture_one ns ne stride key x).entries ≡ some qe
        → IsKeyed j qe
    step_each j qe o h = ground (arith, v, origin j qe o h, wf.each j qe)

    pub step_apart :
        (i j : ℕ) (pe qe : BlockLookup)
        → Overlaps ns ne ex
        → find i (fracture_one ns ne stride key x).entries ≡ some pe
        → find j (fracture_one ns ne stride key x).entries ≡ some qe
        → i < j
        → i + pe.num_blocks ≤ j
    step_apart i j pe qe o h g l = ground (
      arith,
      v,
      origin i pe o h,
      origin j qe o g,
      wf.each i pe,
      wf.each j qe,
      wf.apart i j pe qe,
      wf.apart key j ex qe here,
      wf.apart key i ex pe here,
      wf.apart i key pe ex,
    )

    pub reflects :
        (b : ℕ) (qe : BlockLookup)
        → Overlaps ns ne ex
        → Covers (fracture_one ns ne stride key x).entries b qe
        → (pe : BlockLookup) × Covers x.entries b pe × (place stride qe b ≡ place stride pe b)
    reflects b qe o c = elim (origin qe.start_block qe o c.stored) [
      | inl (within, at, e) ↦ (
        ex,
        ground (arith, v, c),
        rw e (
            single_at-tail_of key ex v b stride ne (ground (arith, v, o)) (ground (arith, c, at, e))
              (ground (arith, v, c, at, e))
            ∙ ap (λ t. single_at ex stride (b - t)) (sym v.keyed)),
      )
      | inr (inl (within, at, e)) ↦ (
        ex,
        ground (arith, v, c),
        rw e (
            ap (λ t. single_at (head_of ex ns) stride (b - t)) v.keyed
            ∙ single_at-head_of key ex v b stride ns (ground (arith, c, at, e))
                (ground (arith, v, c, at, e)) (ground (arith, v, o))
            ∙ ap (λ t. single_at ex stride (b - t)) (sym v.keyed)),
      )
      | inr (inr (other, old)) ↦ (qe, ground (arith, c, old), refl)
    ]
