-- ===== src/Extents/Fracture.antt =====
-- One round of the loop of `fractureOverlapsLocked` on a well-formed extent map.
use viperblock.Prelude.{
  ℕ, ◌+◌, ◌-◌, ◌≤◌, ◌<◌, ◌≡◌, ◌≢◌, refl, ◌&&◌, ◌⊎◌, inl, inr, none, some, arith, ltb, ◌==◌,
  if◌then◌else◌, length-take, length-drop,
}
use native.Mathlib.Decide.{ℕ_discrete as dec_eq}
use viperblock.Words.{u64}
use viperblock.Dict.{Dict, find, insert, delete, find-insert, find-delete}
use viperblock.Extents.Lookup.{IsKeyed, IsWf, Covers}
use viperblock.Extents.Pieces.{entry_at-head_of, entry_at-tail_of}
use viperblock.Extents.{Extent, end, entry_at, head_of, tail_of, fracture_one}

-- a block outside the range [ns, ne)

abbrev pub Outside : ℕ → ℕ → ℕ → Type 0
Outside ns ne b = (b < ns) ⊎ (ne ≤ b)

-- `pe` shares a block with the range
abbrev pub Overlaps : ℕ → ℕ → Extent → Type 0
Overlaps ns ne pe = (ns < pe.start_block + pe.num_blocks) × (pe.start_block < ne)

module _ (ns ne : ℕ) (order : ns < ne) (top : ne < u64) where
  pub fracture_one-missing :
      (key : ℕ) (m : Dict Extent) → find key m ≡ none → fracture_one ns ne key m ≡ m
  unfolding fracture_one
  fracture_one-missing key m h = ground arith

  module _ (m : Dict Extent) (wf : IsWf m) (key : ℕ) (ex : Extent)
      (here : find key m ≡ some ex) where
    pub v : IsKeyed key ex
    v = wf.each key ex here

    pub fracture_one-apart : ¬ Overlaps ns ne ex → fracture_one ns ne key m ≡ m
    unfolding fracture_one
    fracture_one-apart h = ground (arith, v, h)

    abbrev After : ℕ → Type 0
    After j = find j (fracture_one ns ne key m) ≡ (
        if ltb ne (end ex) && (ne == j)
        then some (tail_of ex ne)
        else if ltb key ns && (key == j)
        then some (head_of ex ns)
        else if key == j
        then none
        else find j m)

    find-fracture_one : Overlaps ns ne ex → (j : ℕ) → After j
    unfolding fracture_one
    find-fracture_one o j = ground (
      arith,
      v,
      find-insert ne j (tail_of ex ne) (insert key (head_of ex ns) (delete key m)),
      find-insert ne j (tail_of ex ne) (delete key m),
      find-insert key j (head_of ex ns) (delete key m),
      find-delete key j m,
    )

    abbrev pub Keeps : ℕ → Extent → Type 0
    Keeps b pe =
        (qe : Extent) × Covers (fracture_one ns ne key m) b qe × (entry_at qe b ≡ entry_at pe b)

    kept_head : (b : ℕ) → Overlaps ns ne ex → key ≤ b → b < ns → Keeps b ex
    kept_head b o lo hi = (
      head_of ex ns,
      ground (arith, v, find-fracture_one o key),
      ground (arith, v, entry_at-head_of key ex v b ns),
    )

    kept_tail : (b : ℕ) → Overlaps ns ne ex → ne ≤ b → b < key + ex.num_blocks → Keeps b ex
    kept_tail b o lo hi = (
      tail_of ex ne,
      ground (arith, v, find-fracture_one o ne),
      ground (arith, v, entry_at-tail_of key ex v b ne),
    )

    kept_other :
        (b : ℕ) (pe : Extent)
        → Overlaps ns ne ex
        → Covers m b pe
        → pe.start_block ≢ key
        → Keeps b pe
    kept_other b pe o c other = (
      pe,
      ground (
        arith,
        v,
        c,
        wf.each pe.start_block pe c.stored,
        wf.apart key pe.start_block ex pe here c.stored,
        wf.apart pe.start_block key pe ex c.stored here,
        find-fracture_one o pe.start_block,
      ),
      refl,
    )

    pub keeps :
        (b : ℕ) (pe : Extent) → Overlaps ns ne ex → Outside ns ne b → Covers m b pe → Keeps b pe
    keeps b pe o out c = elim (dec_eq pe.start_block key) [
      | no other ↦ kept_other b pe o c other
      | yes same ↦
          let e : ex ≡ pe = ground (arith, c.stored, same, here) in
          rw (← e) (keeps_own out (ground (arith, e, c, same)) (ground (arith, e, c, same)))
    ]
      where
        keeps_own : Outside ns ne b → key ≤ b → b < key + ex.num_blocks → Keeps b ex
        keeps_own (inl low) lo hi = kept_head b o lo low
        keeps_own (inr high) lo hi = kept_tail b o high hi

    -- the extents of the result: the tail, the head, and what stood elsewhere
    abbrev pub Origin : ℕ → Extent → Type 0
    Origin j qe =
        ((ne < key + ex.num_blocks) × (j ≡ ne) × (qe ≡ tail_of ex ne))
        ⊎ ((key < ns) × (j ≡ key) × (qe ≡ head_of ex ns))
        ⊎ ((j ≢ key) × (find j m ≡ some qe))

    pub origin :
        (j : ℕ) (qe : Extent)
        → Overlaps ns ne ex
        → find j (fracture_one ns ne key m) ≡ some qe
        → Origin j qe
    origin j qe o h = ground (arith, v, find-fracture_one o j)

    pub step_each :
        (j : ℕ) (qe : Extent)
        → Overlaps ns ne ex
        → find j (fracture_one ns ne key m) ≡ some qe
        → IsKeyed j qe
    step_each j qe o h = ground (
      arith,
      v,
      origin j qe o h,
      wf.each j qe,
      length-take (ns - key) ex.seq_nums,
      length-drop (ne - key) ex.seq_nums,
    )

    pub step_apart :
        (i j : ℕ) (pe qe : Extent)
        → Overlaps ns ne ex
        → find i (fracture_one ns ne key m) ≡ some pe
        → find j (fracture_one ns ne key m) ≡ some qe
        → i < j
        → i + pe.num_blocks ≤ j
    step_apart i j pe qe o h g l = ground (
      arith,
      v,
      origin i pe o h,
      origin j qe o g,
      wf.each i pe,
      wf.each j qe,
      wf.apart i j pe qe,
      wf.apart key j ex qe here,
      wf.apart key i ex pe here,
      wf.apart i key pe ex,
    )

    pub reflects :
        (b : ℕ) (qe : Extent)
        → Overlaps ns ne ex
        → Covers (fracture_one ns ne key m) b qe
        → (pe : Extent) × Covers m b pe × (entry_at qe b ≡ entry_at pe b)
    reflects b qe o c = elim (origin qe.start_block qe o c.stored) [
      | inl (within, at, e) ↦ (
        ex,
        ground (arith, v, c),
        rw e (
            entry_at-tail_of key ex v b ne (ground (arith, v, o)) (ground (arith, c, at, e))
              (ground (arith, v, c, at, e))),
      )
      | inr (inl (within, at, e)) ↦ (
        ex,
        ground (arith, v, c),
        rw e (
            entry_at-head_of key ex v b ns (ground (arith, c, at, e)) (ground (arith, v, c, at, e))
              (ground (arith, v, o))),
      )
      | inr (inr (other, old)) ↦ (qe, ground (arith, c, old), refl)
    ]
