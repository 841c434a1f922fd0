-- ===== src/Drain/Chunk/Step.antt =====
-- Where the block-to-object map finds the blocks of a chunk that `createChunkFile` has registered.
use viperblock.Prelude.{
  ℕ, zero, suc, ◌+◌, ◌*◌, ◌≤◌, ◌<◌, ◌≡◌, ◌≢◌, ◌⊎◌, ◌&&◌, refl, sym, ap, subst, ◌∙◌, inl, inr, some,
  List, ◌∷◌, ◌++◌, arith, length, get_elem?, ltb, leb, if◌then◌else◌, length-append,
}
use viperblock.Words.{u16, u32}
use viperblock.Dict.{Dict}
use viperblock.Lookup.{BlockLookup, Index, insert_coalesced}
use viperblock.Lookup.Pieces.{IsKeyed}
use viperblock.Lookup.View.{IsWf, place, locate}
use viperblock.Lookup.Insert.{insert_coalesced-IsWf, locate-insert_coalesced}
use viperblock.Lookup.Every.{Every, insert_coalesced-Every}
use viperblock.Store.Census.{Block}
use viperblock.Drain.Order.{Each, Each-left, Each-right, Each-map, Each-both, Above, Ascends, Apart}
use viperblock.Drain.Chunk.Runs.{
  Consecutive, AllSmall, after_run, block_of_run, outside_run, run_fits, get_elem?-append,
}
use viperblock.Drain.Chunk.{Upload, new_block}
use viperblock.Drain.Chunk.Place.{
  stored_at, Ours, Ours-IsClosed, Elsewhere, new_block-IsKeyed, place_of_run, mul_mono,
}

module _ (up : Upload) (n : ℕ) where
  -- what the loop over the runs may count on, at position `i`
  pub record IsReady (i : ℕ) (blocks : List Block) (m : Dict BlockLookup) : Type 0 where
    pub wf : IsWf m
    pub all : Every (Ours up n) m
    pub away : Each (λ b. Elsewhere up n m b.block) blocks
    pub newer : Each (λ b. n ≤ b.seq_num) blocks
    pub ascends : Ascends blocks
    pub small : AllSmall blocks
    pub short : length blocks < u16
    pub within : up.header_len + (i + length blocks) * up.stride < u32

  -- what it leaves: its blocks are found where they were stored, and the others where they were
  abbrev pub Registers : ℕ → List Block → Dict BlockLookup → Dict BlockLookup → Type 0
  Registers i blocks m m' =
      ((j : ℕ) (b : Block)
        → get_elem? blocks j ≡ some b
        → locate up.stride m' b.block ≡ some (stored_at up (i + j) b))
      × ((k : ℕ) → Apart k blocks → locate up.stride m' k ≡ locate up.stride m k)

  module _ (i : ℕ) (first : Block) (more rest : List Block) (x : Index)
      (ready : IsReady i (first ∷ (more ++ rest)) x.entries)
      (c : Consecutive first.block more) where
    abbrev pub run_end : ℕ
    run_end = suc (length more)

    abbrev pub x' : Index
    x' = insert_coalesced (new_block up i first more) up.stride x

    size : length (more ++ rest) ≡ length more + length rest
    size = length-append more rest

    keyed : IsKeyed first.block (new_block up i first more)
    unfolding new_block
    keyed =
        new_block-IsKeyed up n i first more c ready.small.0 (Each-left _ more rest ready.small.1)
          (omega (arith, size, ready.short))

    count : (new_block up i first more).num_blocks ≡ run_end
    unfolding new_block
    count = ground (arith, size, ready.short)

    located :
        (k : ℕ)
        → locate up.stride x'.entries k ≡ (
            if leb first.block k && ltb k (first.block + run_end)
            then some (place up.stride (new_block up i first more) k)
            else locate up.stride x.entries k)
    unfolding new_block
    located k =
        locate-insert_coalesced x ready.wf up.stride (new_block up i first more) keyed k
        ∙ ap
            (λ c.
              if leb first.block k && ltb k (first.block + c)
              then some (place up.stride (new_block up i first more) k)
              else locate up.stride x.entries k)
            count

    outside :
        (k : ℕ)
        → (k < first.block) ⊎ (first.block + length more < k)
        → locate up.stride x'.entries k ≡ locate up.stride x.entries k
    outside k out = located k ∙ ground (arith, out)

    after : Above (first.block + length more) rest × Ascends rest
    after = after_run first.block more rest c ready.ascends.0 ready.ascends.1

    pub next : IsReady (i + run_end) rest x'.entries
    unfolding new_block
    next = record {
      wf = insert_coalesced-IsWf x ready.wf up.stride (new_block up i first more) keyed;
      all =
          insert_coalesced-Every (Ours up n) (Ours-IsClosed up n) (new_block up i first more)
            up.stride x (inl refl) ready.all;
      away =
          Each-map (λ b. (first.block + length more < b.block) × Elsewhere up n x.entries b.block)
            (λ b. Elsewhere up n x'.entries b.block) rest
            (λ b h e found. h.1 e (sym (outside b.block (inr h.0)) ∙ found))
            (Each-both _ _ rest after.0 (Each-right _ more rest ready.away.1));
      newer = Each-right _ more rest ready.newer.1;
      ascends = after.1;
      small = Each-right _ more rest ready.small.1;
      short = omega (arith, size, ready.short);
      within =
          let e : i + length (first ∷ (more ++ rest)) ≡ i + run_end + length rest =
            omega (arith, size) in
          subst (λ z. up.header_len + z * up.stride < u32) e ready.within;
    }

    within_run : up.header_len + (i + run_end) * up.stride < u32
    within_run = omega (
      arith,
      ready.within,
      mul_mono (i + run_end) (i + length (first ∷ (more ++ rest))) up.stride (omega (arith, size)),
    )

    -- the blocks of the run, as the next rounds leave them
    in_run :
        (m' : Dict BlockLookup)
        → Registers (i + run_end) rest x'.entries m'
        → (j : ℕ) (b : Block) → get_elem? (first ∷ more) j ≡ some b
        → locate up.stride m' b.block ≡ some (stored_at up (i + j) b)
    in_run m' done j b h =
        let (at, within) = at_run j b h in
        let fits =
          run_fits first.block more c ready.small.0 (Each-left _ more rest ready.small.1) in
        let apart : Apart b.block rest =
          Each-map _ (λ y. y.block ≢ b.block) rest (λ y l e. omega (arith, at, within, l, e))
            after.0 in
        done.1 b.block apart
        ∙ located b.block
        ∙ ground (arith, at, within)
        ∙ ap some (
            place_of_run up n i first more j b h at within (omega (arith, fits))
              (omega (arith, size, ready.short)) within_run)
      where
        at_run :
            (j : ℕ) (b : Block)
            → get_elem? (first ∷ more) j ≡ some b
            → (b.block ≡ first.block + j) × (j < run_end)
        at_run zero b h = (ground (arith, h), omega arith)
        at_run (suc j) b h =
            let r = block_of_run first.block more j b c h in
            (omega (arith, r.0), omega (arith, r.1))

    pub step :
        (m' : Dict BlockLookup)
        → Registers (i + run_end) rest x'.entries m'
        → Registers i (first ∷ (more ++ rest)) x.entries m'
    step m' done = (
      λ j b h. elim (get_elem?-append (first ∷ more) rest j b h) [
        | inl g ↦ in_run m' done j b g
        | inr (d, e, g) ↦
            let pos : i + run_end + d ≡ i + j = omega (arith, e) in
            done.0 d b g ∙ ap (λ p. some (stored_at up p b)) pos
      ],
      λ k apart.
          done.1 k (Each-right _ more rest apart.1)
          ∙ outside k (outside_run first.block more k c apart.0 (Each-left _ more rest apart.1)),
    )
