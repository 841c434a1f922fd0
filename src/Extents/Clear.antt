-- ===== src/Extents/Clear.antt =====
-- `fractureOverlapsLocked`: the loop over the map's keys clears the new range and nothing else.
use viperblock.Prelude.{
  ℕ, ◌+◌, ◌≤◌, ◌<◌, ◌≡◌, ◌≢◌, ◌⊎◌, ◌&&◌, refl, sym, ◌∙◌, inl, inr, ltb, leb, if◌then◌else◌, none,
  some, List, [], ◌∷◌, arith, Option-cases,
}
use native.Mathlib.Decide.{dec_lt}
use viperblock.Words.{u64, add64}
use viperblock.Dict.{Dict, In, find, keys, In-keys_of_find}
use viperblock.Extents.Lookup.{
  IsWf, Covers, read_persisted_of_Covers, Covers-of_read_persisted, read_persisted-eq-none,
}
use viperblock.Extents.Fracture.{
  Outside, Overlaps, fracture_one-missing, fracture_one-apart, v, keeps, origin, step_each,
  step_apart, reflects,
}
use viperblock.Extents.{
  Extent, entry_at, read_persisted, fracture_one, fracture_all, fracture_overlaps,
}

-- `m'` is well formed, and outside the range it describes the same blocks as `m`.

record Refines (ns ne : ℕ) (m m' : Dict Extent) : Type 0 where
  valid : IsWf m'
  kept :
      (b : ℕ) (pe : Extent)
      → Outside ns ne b
      → Covers m b pe
      → (qe : Extent) × Covers m' b qe × (entry_at qe b ≡ entry_at pe b)
  old :
      (b : ℕ) (qe : Extent)
      → Covers m' b qe
      → (pe : Extent) × Covers m b pe × (entry_at qe b ≡ entry_at pe b)

Refines-refl : (ns ne : ℕ) (m : Dict Extent) → IsWf m → Refines ns ne m m
Refines-refl ns ne m wf = record {
  valid = wf;
  kept = λ b pe o c. (pe, c, refl);
  old = λ b pe c. (pe, c, refl);
}

Refines-trans :
    (ns ne : ℕ) (m n p : Dict Extent) → Refines ns ne m n → Refines ns ne n p → Refines ns ne m p
Refines-trans ns ne m n p f g = record {
  valid = g.valid;
  kept = λ b pe o c.
      let (qe, d, e) = f.kept b pe o c in let (re, d', e') = g.kept b qe o d in (re, d', e' ∙ e);
  old = λ b re c.
      let (qe, d, e) = g.old b re c in let (pe, d', e') = f.old b qe d in (pe, d', e ∙ e');
}

module _ (ns ne : ℕ) (order : ns < ne) (top : ne < u64) where
  -- after its round, a key no longer holds an extent that overlaps the range
  abbrev Clears : ℕ → Dict Extent → Dict Extent → Type 0
  Clears key m m' =
      (j : ℕ) (pe : Extent)
      → find j m' ≡ some pe
      → Overlaps ns ne pe
      → (j ≢ key) × (find j m ≡ some pe)

  round :
      (key : ℕ) (m : Dict Extent)
      → IsWf m
      → Refines ns ne m (fracture_one ns ne key m) × Clears key m (fracture_one ns ne key m)
  round key m wf = elim (Option-cases (find key m)) [
    | inl missing ↦
        rw (fracture_one-missing ns ne order top key m missing)
          (Refines-refl ns ne m wf, λ j pe h o. ground (arith, missing, h))
    | inr (ex, here) ↦ elim (dec_lt ns (ex.start_block + ex.num_blocks)) [
      | no before ↦
          rw (fracture_one-apart ns ne order top m wf key ex here (λ o. before o.0))
            (Refines-refl ns ne m wf, λ j pe h o. ground (arith, here, h, before, o))
      | yes p ↦ elim (dec_lt ex.start_block ne) [
        | no behind ↦
            rw (fracture_one-apart ns ne order top m wf key ex here (λ o. behind o.1))
              (Refines-refl ns ne m wf, λ j pe h o. ground (arith, here, h, behind, o))
        | yes q ↦ (
          record {
            valid = record {
              each = λ j qe. step_each ns ne order top m wf key ex here j qe (p, q);
              apart = λ i j pe qe. step_apart ns ne order top m wf key ex here i j pe qe (p, q);
            };
            kept = λ b pe. keeps ns ne order top m wf key ex here b pe (p, q);
            old = λ b qe. reflects ns ne order top m wf key ex here b qe (p, q);
          },
          λ j pe h o. ground (
            arith,
            v ns ne order top m wf key ex here,
            origin ns ne order top m wf key ex here j pe (p, q) h,
          ),
        )
      ]
    ]
  ]

  loop :
      (ks : List ℕ) (m : Dict Extent)
      → IsWf m
      → ((j : ℕ) (pe : Extent) → find j m ≡ some pe → Overlaps ns ne pe → In j ks)
      → Refines ns ne m (fracture_all ns ne ks m)
        × ((j : ℕ) (pe : Extent) → find j (fracture_all ns ne ks m) ≡ some pe → ¬ Overlaps ns ne pe)
  unfolding fracture_all
  loop [] m wf left = (Refines-refl ns ne m wf, left)
  loop (k ∷ ks) m wf left =
      let (step, clears) = round k m wf in
      let (rest, none_left) =
        loop ks (fracture_one ns ne k m) step.valid
          (λ j pe h o. ground (arith, clears j pe h o, left j pe (clears j pe h o).1 o)) in
      (Refines-trans ns ne m _ _ step rest, none_left)

module _ (m : Dict Extent) (wf : IsWf m) (start n : ℕ) (some_blocks : 0 < n)
    (top : start + n < u64) where
  cleared :
      Refines start (add64 start n) m (fracture_overlaps start n m)
      × ((j : ℕ) (pe : Extent)
          → find j (fracture_overlaps start n m) ≡ some pe
          → ¬ Overlaps start (add64 start n) pe)
  unfolding fracture_overlaps
  cleared =
      loop start (add64 start n) (omega arith) (omega arith) (keys m) m wf
        (λ j pe h _. In-keys_of_find j pe m h)

  -- Fracturing keeps the map well formed: extents stand under their first block, hold a sequence
  -- number for each block, and do not overlap.
  pub fracture_overlaps-IsWf : IsWf (fracture_overlaps start n m)
  fracture_overlaps-IsWf = cleared.0.valid

  -- No extent that is left shares a block with the fractured range.
  pub fracture_overlaps-apart :
      (j : ℕ) (pe : Extent)
      → find j (fracture_overlaps start n m) ≡ some pe
      → (pe.start_block + pe.num_blocks ≤ start) ⊎ (start + n ≤ pe.start_block)
  fracture_overlaps-apart j pe h = elim (dec_lt start (pe.start_block + pe.num_blocks)) [
    | no before ↦ inl (omega arith)
    | yes p ↦ elim (dec_lt pe.start_block (start + n)) [
      | no behind ↦ inr (omega arith)
      | yes q ↦ absurd (cleared.1 j pe h (p, omega arith))
    ]
  ]

  -- Fracturing a range that is not empty and does not wrap removes exactly that range from a
  -- well-formed map: a block inside it is no longer found, and a block outside it is read with the
  -- same sequence number, object and offset as before.
  pub read_persisted-fracture_overlaps :
      (b : ℕ)
      → read_persisted (fracture_overlaps start n m) b
        ≡ (if leb start b && ltb b (start + n) then none else read_persisted m b)
  read_persisted-fracture_overlaps b = elim (dec_lt b start) [
    | yes low ↦ outside (inl low) (ground arith)
    | no high ↦ elim (dec_lt b (start + n)) [
      | yes inside ↦
          read_persisted-eq-none _ fracture_overlaps-IsWf b
            (λ pe c. ground (arith, c, fracture_overlaps-apart pe.start_block pe c.stored))
          ∙ ground arith
      | no above ↦ outside (inr (omega arith)) (ground arith)
    ]
  ]
    where
      same :
          Outside start (add64 start n) b
          → read_persisted (fracture_overlaps start n m) b ≡ read_persisted m b
      same out = elim (Option-cases (read_persisted m b)) [
        | inr (e, h) ↦
            let (pe, c, p) = Covers-of_read_persisted m wf b e h in
            let (qe, d, q) = cleared.0.kept b pe out c in
            read_persisted_of_Covers _ fracture_overlaps-IsWf b qe d ∙ ground (arith, p, q, h)
        | inl h ↦ elim (Option-cases (read_persisted (fracture_overlaps start n m) b)) [
          | inl h' ↦ h' ∙ sym h
          | inr (e, h') ↦
              let (qe, d, q) = Covers-of_read_persisted _ fracture_overlaps-IsWf b e h' in
              let (pe, c, p) = cleared.0.old b qe d in cc (read_persisted_of_Covers m wf b pe c)
        ]
      ]

      outside :
          Outside start (add64 start n) b
          → read_persisted m b
            ≡ (if leb start b && ltb b (start + n) then none else read_persisted m b)
          → read_persisted (fracture_overlaps start n m) b
            ≡ (if leb start b && ltb b (start + n) then none else read_persisted m b)
      outside out e = same out ∙ e
