-- ===== src/Lookup/Insert.antt =====
-- `insertCoalescedLocked`: the loop over the keys, and then the new run.
use viperblock.Prelude.{
  ℕ, ◌+◌, ◌≤◌, ◌<◌, ◌≡◌, ◌≢◌, ◌⊎◌, ◌&&◌, refl, sym, ◌∙◌, inl, inr, ltb, leb, ◌==◌, if◌then◌else◌,
  some, List, [], ◌∷◌, arith, Option-cases,
}
use native.Mathlib.Decide.{dec_lt}
use viperblock.Words.{u64}
use viperblock.Dict.{Dict, In, find, keys, find-insert, In-keys_of_find}
use viperblock.Lookup.View.{IsWf, Covers, place, locate, locate_of_Covers, Covers-of_locate}
use viperblock.Lookup.Pieces.{IsKeyed}
use viperblock.Lookup.Fracture.{
  Outside, Overlaps, fracture_one-missing, fracture_one-apart, v, keeps, origin, step_each,
  step_apart, reflects,
}
use viperblock.Lookup.{
  BlockLookup, Index, end, fracture_one, fracture_all, insert_coalesced, add_entry,
}

-- `m'` is well formed, and outside the range it describes the same blocks as `m`.

pub record Refines (ns ne stride : ℕ) (m m' : Dict BlockLookup) : Type 0 where
  pub valid : IsWf m'
  pub kept :
      (b : ℕ) (pe : BlockLookup)
      → Outside ns ne b
      → Covers m b pe
      → (qe : BlockLookup) × Covers m' b qe × (place stride qe b ≡ place stride pe b)
  pub old :
      (b : ℕ) (qe : BlockLookup)
      → Covers m' b qe
      → (pe : BlockLookup) × Covers m b pe × (place stride qe b ≡ place stride pe b)

Refines-refl : (ns ne stride : ℕ) (m : Dict BlockLookup) → IsWf m → Refines ns ne stride m m
Refines-refl ns ne stride m wf = record {
  valid = wf;
  kept = λ b pe o c. (pe, c, refl);
  old = λ b pe c. (pe, c, refl);
}

Refines-trans :
    (ns ne stride : ℕ) (m n p : Dict BlockLookup)
    → Refines ns ne stride m n
    → Refines ns ne stride n p
    → Refines ns ne stride m p
Refines-trans ns ne stride m n p f g = record {
  valid = g.valid;
  kept = λ b pe o c.
      let (qe, d, e) = f.kept b pe o c in let (re, d', e') = g.kept b qe o d in (re, d', e' ∙ e);
  old = λ b re c.
      let (qe, d, e) = g.old b re c in let (pe, d', e') = f.old b qe d in (pe, d', e ∙ e');
}

module _ (ns ne stride : ℕ) (order : ns < ne) (top : ne < u64) where
  -- after its round, a key no longer holds an extent that overlaps the range
  abbrev pub Clears : ℕ → Dict BlockLookup → Dict BlockLookup → Type 0
  Clears key m m' =
      (j : ℕ) (pe : BlockLookup)
      → find j m' ≡ some pe
      → Overlaps ns ne pe
      → (j ≢ key) × (find j m ≡ some pe)

  pub round :
      (key : ℕ) (x : Index)
      → IsWf x.entries
      → Refines ns ne stride x.entries (fracture_one ns ne stride key x).entries
        × Clears key x.entries (fracture_one ns ne stride key x).entries
  round key x wf = elim (Option-cases (find key x.entries)) [
    | inl missing ↦
        rw (fracture_one-missing ns ne stride order top key x missing)
          (Refines-refl ns ne stride x.entries wf, λ j pe h o. ground (arith, missing, h))
    | inr (ex, here) ↦ elim (dec_lt ns (ex.start_block + ex.num_blocks)) [
      | no before ↦
          rw (fracture_one-apart ns ne stride order top x wf key ex here (λ o. before o.0))
            (Refines-refl ns ne stride x.entries wf, λ j pe h o. ground (arith, here, h, before, o))
      | yes p ↦ elim (dec_lt ex.start_block ne) [
        | no behind ↦
            rw (fracture_one-apart ns ne stride order top x wf key ex here (λ o. behind o.1)) (
              Refines-refl ns ne stride x.entries wf,
              λ j pe h o. ground (arith, here, h, behind, o),
            )
        | yes q ↦ (
          record {
            valid = record {
              each = λ j qe. step_each ns ne stride order top x wf key ex here j qe (p, q);
              apart =
                  λ i j pe qe. step_apart ns ne stride order top x wf key ex here i j pe qe (p, q);
            };
            kept = λ b pe. keeps ns ne stride order top x wf key ex here b pe (p, q);
            old = λ b qe. reflects ns ne stride order top x wf key ex here b qe (p, q);
          },
          λ j pe h o. ground (
            arith,
            v ns ne stride order top x wf key ex here,
            origin ns ne stride order top x wf key ex here j pe (p, q) h,
          ),
        )
      ]
    ]
  ]

  loop :
      (ks : List ℕ) (x : Index)
      → IsWf x.entries
      → ((j : ℕ) (pe : BlockLookup) → find j x.entries ≡ some pe → Overlaps ns ne pe → In j ks)
      → Refines ns ne stride x.entries (fracture_all ns ne stride ks x).entries
        × ((j : ℕ) (pe : BlockLookup)
            → find j (fracture_all ns ne stride ks x).entries ≡ some pe
            → ¬ Overlaps ns ne pe)
  unfolding fracture_all
  loop [] x wf left = (Refines-refl ns ne stride x.entries wf, left)
  loop (k ∷ ks) x wf left =
      let (step, clears) = round k x wf in
      let (rest, none_left) =
        loop ks (fracture_one ns ne stride k x) step.valid
          (λ j pe h o. ground (arith, clears j pe h o, left j pe (clears j pe h o).1 o)) in
      (Refines-trans ns ne stride x.entries _ _ step rest, none_left)

module _ (x : Index) (wf : IsWf x.entries) (stride : ℕ) (e : BlockLookup)
    (v : IsKeyed e.start_block e) where
  abbrev pub fractured : Dict BlockLookup
  fractured = (fracture_all e.start_block (end e) stride (keys x.entries) x).entries

  pub cleared :
      Refines e.start_block (end e) stride x.entries fractured
      × ((j : ℕ) (pe : BlockLookup)
          → find j fractured ≡ some pe
          → ¬ Overlaps e.start_block (end e) pe)
  cleared =
      loop e.start_block (end e) stride (ground (arith, v)) (ground (arith, v)) (keys x.entries) x
        wf (λ j pe h _. In-keys_of_find j pe x.entries h)

  abbrev inserted : Dict BlockLookup
  inserted = (insert_coalesced e stride x).entries

  find-inserted :
      (j : ℕ) → find j inserted ≡ (if e.start_block == j then some e else find j fractured)
  unfolding insert_coalesced add_entry
  find-inserted j = find-insert e.start_block j e fractured

  pub left_apart :
      (j : ℕ) (pe : BlockLookup)
      → find j fractured ≡ some pe
      → (j + pe.num_blocks ≤ e.start_block) ⊎ (e.start_block + e.num_blocks ≤ j)
  left_apart j pe h = elim (dec_lt e.start_block (j + pe.num_blocks)) [
    | no before ↦ inl (omega arith)
    | yes p ↦ elim (dec_lt j (e.start_block + e.num_blocks)) [
      | no behind ↦ inr (omega arith)
      | yes q ↦
          let w = cleared.0.valid.each j pe h in
          absurd (cleared.1 j pe h (ground (arith, w, p), ground (arith, v, w, q)))
    ]
  ]

  -- Inserting a well-formed run keeps a block-to-object map well formed: its runs stand under
  -- their first block and do not overlap.
  pub insert_coalesced-IsWf : IsWf (insert_coalesced e stride x).entries
  insert_coalesced-IsWf = record {
    each = λ j pe h. ground (arith, v, h, find-inserted j, cleared.0.valid.each j pe);
    apart = λ i j pe qe h g l. ground (
      arith,
      v,
      h,
      g,
      l,
      find-inserted i,
      find-inserted j,
      left_apart i pe,
      left_apart j qe,
      cleared.0.valid.apart i j pe qe,
    );
  }

  -- Inserting a well-formed run into a well-formed block-to-object map locates the blocks of the
  -- run as the run does, and every other block, in object, offset and number, as before.
  pub locate-insert_coalesced :
      (b : ℕ)
      → locate stride (insert_coalesced e stride x).entries b ≡ (
          if leb e.start_block b && ltb b (e.start_block + e.num_blocks)
          then some (place stride e b)
          else locate stride x.entries b)
  locate-insert_coalesced b = elim (dec_lt b e.start_block) [
    | yes low ↦ same (inl low) ∙ ground arith
    | no high ↦ elim (dec_lt b (e.start_block + e.num_blocks)) [
      | yes inside ↦
          locate_of_Covers stride _ insert_coalesced-IsWf b e (record {
            stored = ground (arith, find-inserted e.start_block);
            above = omega arith;
            below = inside;
          })
          ∙ ground arith
      | no above ↦ same (inr (ground (arith, v, above))) ∙ ground arith
    ]
  ]
    where
      covers_inserted :
          (qe : BlockLookup)
          → Outside e.start_block (end e) b
          → Covers fractured b qe
          → Covers inserted b qe
      covers_inserted qe out c = record {
        stored =
            ground (
              arith,
              c,
              v,
              out,
              find-inserted qe.start_block,
              left_apart qe.start_block qe c.stored,
            );
        above = c.above;
        below = c.below;
      }

      covers_fractured :
          (qe : BlockLookup)
          → Outside e.start_block (end e) b
          → Covers inserted b qe
          → Covers fractured b qe
      covers_fractured qe out c = record {
        stored = ground (arith, c, v, out, find-inserted qe.start_block);
        above = c.above;
        below = c.below;
      }

      same : Outside e.start_block (end e) b → locate stride inserted b ≡ locate stride x.entries b
      same out = elim (Option-cases (locate stride x.entries b)) [
        | inr (l, h) ↦
            let (pe, c, p) = Covers-of_locate stride x.entries wf b l h in
            let (qe, d, q) = cleared.0.kept b pe out c in
            locate_of_Covers stride _ insert_coalesced-IsWf b qe (covers_inserted qe out d)
            ∙ ground (arith, p, q, h)
        | inl h ↦ elim (Option-cases (locate stride inserted b)) [
          | inl h' ↦ h' ∙ sym h
          | inr (l, h') ↦
              let (qe, d, q) = Covers-of_locate stride _ insert_coalesced-IsWf b l h' in
              let (pe, c, p) = cleared.0.old b qe (covers_fractured qe out d) in
              cc (locate_of_Covers stride x.entries wf b pe c)
        ]
      ]
