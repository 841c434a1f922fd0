-- ===== src/Lookup/Every.antt =====
-- Properties of runs that fracturing keeps, carried through an insertion.
use viperblock.Prelude.{
  ℕ, ◌+◌, ◌<◌, ◌≡◌, some, List, [], ◌∷◌, arith, length, get_or, Option-cases, inl, inr, Bool-cases,
  ltb, leb, ◌||◌, if◌then◌else◌,
}
use viperblock.Dict.{Dict, find, insert, delete, keys, find-insert, find-delete}
use viperblock.Lookup.{
  BlockLookup, Index, end, seq_num_at, slice_seq_nums, slice_from, head_of, tail_of, add_entry,
  add_head, add_tail, fracture_one, fracture_all, insert_coalesced,
}
use viperblock.Lookup.Pieces.{length-slice_from, get_or-slice_from}

-- Every run of a map has a property.

abbrev pub Every : (BlockLookup → Type 0) → Dict BlockLookup → Type 0
Every P m = (k : ℕ) (pe : BlockLookup) → find k m ≡ some pe → P pe

-- The heads and tails of a run with the property have it.
pub record IsClosed (P : BlockLookup → Type 0) : Type 0 where
  pub head : (ex : BlockLookup) (ns : ℕ) → P ex → P (head_of ex ns)
  pub tail : (ex : BlockLookup) (ne stride : ℕ) → P ex → P (tail_of ex ne stride)

module _ (P : BlockLookup → Type 0) where
  Every-insert :
      (j : ℕ) (e : BlockLookup) (m : Dict BlockLookup) → P e → Every P m → Every P (insert j e m)
  Every-insert j e m p all k pe h = ground (arith, find-insert j k e m, p, h, all k pe)

  Every-delete : (j : ℕ) (m : Dict BlockLookup) → Every P m → Every P (delete j m)
  Every-delete j m all k pe h = ground (arith, find-delete j k m, h, all k pe)

module _ (P : BlockLookup → Type 0) (closed : IsClosed P) where
  add_head-Every :
      (ex : BlockLookup) (ns : ℕ) (x : Index)
      → P ex
      → Every P x.entries
      → Every P (add_head ex ns x).entries
  unfolding add_head add_entry
  add_head-Every ex ns x p all = elim (Bool-cases (ltb ex.start_block ns)) [
    | inl e ↦
        rw e (Every-insert P ex.start_block (head_of ex ns) x.entries (closed.head ex ns p) all)
    | inr e ↦ rw e all
  ]

  add_tail-Every :
      (ex : BlockLookup) (ne stride : ℕ) (x : Index)
      → P ex
      → Every P x.entries
      → Every P (add_tail ex ne stride x).entries
  unfolding add_tail add_entry
  add_tail-Every ex ne stride x p all = elim (Bool-cases (ltb ne (end ex))) [
    | inl e ↦
        rw e (Every-insert P ne (tail_of ex ne stride) x.entries (closed.tail ex ne stride p) all)
    | inr e ↦ rw e all
  ]

  fracture_one-Every :
      (ns ne stride k : ℕ) (x : Index)
      → Every P x.entries
      → Every P (fracture_one ns ne stride k x).entries
  unfolding fracture_one
  fracture_one-Every ns ne stride k x all = elim (Option-cases (find k x.entries)) [
    | inl e ↦ rw (e, fracture_one) all
    | inr (ex, e) ↦ elim (Bool-cases (leb (end ex) ns || leb ne ex.start_block)) [
      | inl apart ↦ rw (e, apart, fracture_one) all
      | inr overlaps ↦
          rw (e, overlaps, fracture_one)
            (add_tail-Every ex ne stride _ (all k ex e)
              (add_head-Every ex ns _ (all k ex e) (Every-delete P k x.entries all)))
    ]
  ]

  fracture_all-Every :
      (ns ne stride : ℕ) (ks : List ℕ) (x : Index)
      → Every P x.entries
      → Every P (fracture_all ns ne stride ks x).entries
  unfolding fracture_all
  fracture_all-Every ns ne stride [] x all = all
  fracture_all-Every ns ne stride (k ∷ ks) x all =
      fracture_all-Every ns ne stride ks (fracture_one ns ne stride k x)
        (fracture_one-Every ns ne stride k x all)

  -- A property that the heads and the tails of runs inherit holds of every run after an
  -- insertion, where it held of every run before and of the run that is inserted.
  pub insert_coalesced-Every :
      (e : BlockLookup) (stride : ℕ) (x : Index)
      → P e
      → Every P x.entries
      → Every P (insert_coalesced e stride x).entries
  unfolding insert_coalesced add_entry
  insert_coalesced-Every e stride x p all =
      Every-insert P e.start_block e _ p
        (fracture_all-Every e.start_block (end e) stride (keys x.entries) x all)

-- Every number of a run lies below `n`.
pub record IsOlder (n : ℕ) (bl : BlockLookup) : Type 0 where
  pub first : bl.seq_num < n
  pub each : (i : ℕ) → seq_num_at bl i < n

slice_older :
    (n from len : ℕ) (ex : BlockLookup) (i d : ℕ)
    → IsOlder n ex
    → d < n
    → (if ltb i (length (slice_from ex from len)) then get_or (slice_from ex from len) i 0 else d)
      < n
slice_older n from len ex i d o l =
    ground
      (arith, l, length-slice_from ex from len, get_or-slice_from ex from len i, o.each (from + i))

pub IsOlder-IsClosed : (n : ℕ) → IsClosed (IsOlder n)
unfolding seq_num_at slice_seq_nums
IsOlder-IsClosed n = record {
  head = λ ex ns o. record { first = o.each 0; each = λ i. slice_older n 0 _ ex i _ o (o.each 0) };
  tail = λ ex ne stride o. record {
    first = o.each _;
    each = λ i. slice_older n _ _ ex i _ o (o.each _);
  };
}
