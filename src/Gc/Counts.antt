-- ===== src/Gc/Counts.antt =====
-- The reference counts that `insertCoalescedLocked` keeps are the numbers of entries.
use viperblock.Prelude.{
  ℕ, suc, ◌+◌, ◌≤◌, ◌<◌, ◌≡◌, ◌≢◌, refl, ap, ◌∙◌, inl, inr, true, none, List, [], ◌∷◌, arith,
  length, Option-cases, Bool-cases, ltb, leb, ◌||◌,
}
use viperblock.Words.{u64}
use viperblock.Dict.{Dict, find, delete, keys, find-insert, find-delete}
use viperblock.Lookup.{
  BlockLookup, Index, end, head_of, tail_of, unrefer, add_entry, add_head, add_tail, fracture_one,
  fracture_all, insert_coalesced,
}
use viperblock.Lookup.Pieces.{IsKeyed}
use viperblock.Lookup.View.{IsWf}
use viperblock.Lookup.Insert.{round, cleared, left_apart, fractured}
use viperblock.Gc.Tally.{
  IsTallied, length-delete, add_entry-IsTallied, drop_entry-IsTallied, length-add_entry,
}

module _ (ns ne stride : ℕ) (order : ns < ne) (top : ne < u64) where
  -- The counts hold, and the map has at most one entry more than before.
  abbrev Steps : Index → Index → Type 0
  Steps x y = IsTallied y × (length y.entries ≤ length x.entries + 1)

  add_head-IsTallied :
      (ex : BlockLookup) (x : Index)
      → find ex.start_block x.entries ≡ none
      → length x.entries + 1 < u64
      → IsTallied x
      → Steps x (add_head ex ns x)
  unfolding add_head
  add_head-IsTallied ex x missing room t = elim (Bool-cases (ltb ex.start_block ns)) [
    | inr e ↦ rw e (t, omega arith)
    | inl e ↦
        rw e
          (add_entry-IsTallied (head_of ex ns) x missing room t, length-add_entry (head_of ex ns) x)
  ]

  add_tail-IsTallied :
      (ex : BlockLookup) (x : Index)
      → (ltb ne (end ex) ≡ true → find ne x.entries ≡ none)
      → length x.entries + 1 < u64
      → IsTallied x
      → Steps x (add_tail ex ne stride x)
  unfolding add_tail
  add_tail-IsTallied ex x missing room t = elim (Bool-cases (ltb ne (end ex))) [
    | inr e ↦ rw e (t, omega arith)
    | inl e ↦ rw e (
      add_entry-IsTallied (tail_of ex ne stride) x (missing e) room t,
      length-add_entry (tail_of ex ne stride) x,
    )
  ]

  find-add_head :
      (ex : BlockLookup) (x : Index) (j : ℕ)
      → ex.start_block ≢ j
      → find j (add_head ex ns x).entries ≡ find j x.entries
  unfolding add_head add_entry
  find-add_head ex x j other =
      ground (arith, other, find-insert ex.start_block j (head_of ex ns) x.entries)

  fracture_one-IsTallied :
      (key : ℕ) (x : Index)
      → IsWf x.entries
      → length x.entries + 1 < u64
      → IsTallied x
      → Steps x (fracture_one ns ne stride key x)
  unfolding fracture_one
  fracture_one-IsTallied key x wf room t = elim (Option-cases (find key x.entries)) [
    | inl e ↦ rw (e, fracture_one) (t, omega arith)
    | inr (ex, e) ↦ elim (Bool-cases (leb (end ex) ns || leb ne ex.start_block)) [
      | inl apart ↦ rw (e, apart, fracture_one) (t, omega arith)
      | inr overlaps ↦
          let y : Index = record {
            entries = delete key x.entries;
            gc_refcount = unrefer ex.object_id x.gc_refcount;
          } in
          let v = wf.each key ex e in
          let shorter = length-delete key ex x.entries t.unique e in
          let head =
            add_head-IsTallied ex y (ground (arith, v, find-delete key ex.start_block x.entries))
              (omega (arith, shorter, room)) (drop_entry-IsTallied key ex x e t) in
          let vacant : ltb ne (end ex) ≡ true → find ne y.entries ≡ none = λ l.
            elim (Option-cases (find ne (delete key x.entries))) [
              | inl none_there ↦ none_there
              | inr (qe, h) ↦ absurd (
                  ground (
                    arith,
                    l,
                    overlaps,
                    v,
                    h,
                    find-delete key ne x.entries,
                    wf.apart key ne ex qe e,
                  ))
            ] in
          let tail =
            add_tail-IsTallied ex (add_head ex ns y)
              (λ l. find-add_head ex y ne (ground (arith, v, l, overlaps, order, top)) ∙ vacant l)
              (omega (arith, shorter, room, head.1)) head.0 in
          rw (e, overlaps, fracture_one) (tail.0, omega (arith, shorter, head.1, tail.1))
    ]
  ]

  fracture_all-IsTallied :
      (ks : List ℕ) (x : Index)
      → IsWf x.entries
      → length x.entries + length ks + 1 < u64
      → IsTallied x
      → IsTallied (fracture_all ns ne stride ks x)
        × (length (fracture_all ns ne stride ks x).entries ≤ length x.entries + length ks)
  unfolding fracture_all
  fracture_all-IsTallied [] x wf room t = (t, omega arith)
  fracture_all-IsTallied (k ∷ ks) x wf room t =
      let y = fracture_one ns ne stride k x in
      let step = fracture_one-IsTallied k x wf (omega (arith, room)) t in
      let rest =
        fracture_all-IsTallied ks y (round ns ne stride order top k x wf).0.valid
          (omega (arith, room, step.1)) step.0 in
      (rest.0, omega (arith, step.1, rest.1))

length-keys : (m : Dict BlockLookup) → length (keys m) ≡ length m
unfolding keys
length-keys [] = refl
length-keys ((k, bl) ∷ m) = ap suc (length-keys m)

-- Where the reference counts are the numbers of entries that lie in each object, they are so
-- after a well-formed run is inserted in a well-formed map, as long as twice the entries and one
-- fit 64 bits.
pub insert_coalesced-IsTallied :
    (x : Index) (wf : IsWf x.entries) (stride : ℕ) (e : BlockLookup) (v : IsKeyed e.start_block e)
    → length x.entries + length x.entries + 1 < u64
    → IsTallied x
    → IsTallied (insert_coalesced e stride x)
unfolding insert_coalesced
insert_coalesced-IsTallied x wf stride e v room t =
    let size = length-keys x.entries in
    let all =
      fracture_all-IsTallied e.start_block (end e) stride (ground (arith, v)) (ground (arith, v))
        (keys x.entries) x wf (omega (arith, size, room)) t in
    let vacant : find e.start_block (fractured x wf stride e v) ≡ none =
      elim (Option-cases (find e.start_block (fractured x wf stride e v))) [
        | inl none_there ↦ none_there
        | inr (qe, h) ↦ absurd (
            ground (
              arith,
              v,
              (cleared x wf stride e v).0.valid.each e.start_block qe h,
              left_apart x wf stride e v e.start_block qe h,
            ))
      ] in
    add_entry-IsTallied e (fracture_all e.start_block (end e) stride (keys x.entries) x) vacant
      (omega (arith, size, room, all.1)) all.0
