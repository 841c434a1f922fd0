-- ===== src/Drain/Newest.antt =====
-- The newest record of each block, in ascending order.
use viperblock.Prelude.{
  ℕ, zero, suc, ◌+◌, ◌≤◌, ◌≡◌, inl, inr, refl, sym, ap, subst, ◌∙◌, none, some, List, [], ◌∷◌,
  arith, Option-cases, Bool-cases, ltb, ◌==◌, if◌then◌else◌, get_elem?,
}
use viperblock.Dict.{Dict, find, insert, find-insert}
use viperblock.Store.Census.{Block}
use viperblock.Drain.Order.{
  Among, Apart, Ascends, Distinct, Among-sort_blocks, sort_blocks-Among, sort_blocks-Ascends,
}
use viperblock.Drain.{BlockOptimised, supersedes, note, blocks_map, picked, sorted_blocks}

-- Every entry of the map names a block of the list, under its number and its sequence number.

abbrev Names : List Block → ℕ → BlockOptimised → Type 0
Names all k o =
    (b : Block) × (get_elem? all o.index ≡ some b) × (b.block ≡ k) × (b.seq_num ≡ o.seq_num)

abbrev Sound : List Block → Dict BlockOptimised → Type 0
Sound all [] = Unit {0}
Sound all ((k, o) ∷ m) = Names all k o × Sound all m

-- No key stands twice.
abbrev Single : Dict BlockOptimised → Type 0
Single [] = Unit {0}
Single ((k, o) ∷ m) = (find k m ≡ none) × Single m

module _ (all : List Block) where
  insert-Sound :
      (k : ℕ) (o : BlockOptimised) (m : Dict BlockOptimised)
      → Names all k o
      → Sound all m
      → Sound all (insert k o m)
  unfolding insert
  insert-Sound k o [] n s = (n, tt)
  insert-Sound k o ((j, w) ∷ m) n (s, ss) = ground (arith, n, s, ss, insert-Sound k o m n ss)

  insert-Single :
      (k : ℕ) (o : BlockOptimised) (m : Dict BlockOptimised) → Single m → Single (insert k o m)
  unfolding insert find
  insert-Single k o [] s = (refl, tt)
  insert-Single k o ((j, w) ∷ m) (s, ss) =
      ground (arith, s, ss, find-insert k j o m, insert-Single k o m ss)

  -- what a round keeps and adds
  note-Sound :
      (i : ℕ) (b : Block) (m : Dict BlockOptimised)
      → get_elem? all i ≡ some b
      → Sound all m
      → Sound all (note i b m)
  unfolding note
  note-Sound i b m at s = elim (Bool-cases (supersedes b.seq_num (find b.block m))) [
    | inl e ↦ rw e (insert-Sound b.block _ m (b, at, refl, refl) s)
    | inr e ↦ rw e s
  ]

  note-Single : (i : ℕ) (b : Block) (m : Dict BlockOptimised) → Single m → Single (note i b m)
  unfolding note
  note-Single i b m s = elim (Bool-cases (supersedes b.seq_num (find b.block m))) [
    | inl e ↦ rw e (insert-Single b.block _ m s)
    | inr e ↦ rw e s
  ]

-- The map holds a number at least `n` for the block `k`.
abbrev Reaches : ℕ → ℕ → Dict BlockOptimised → Type 0
Reaches k n m = (o : BlockOptimised) × (find k m ≡ some o) × (n ≤ o.seq_num)

-- the entry of a block at an index
abbrev noted : ℕ → Block → BlockOptimised
noted i b = record { seq_num = b.seq_num; index = i }

find-note :
    (i j : ℕ) (b : Block) (m : Dict BlockOptimised)
    → find j (note i b m) ≡ (
        if supersedes b.seq_num (find b.block m)
        then if b.block == j then some (noted i b) else find j m
        else find j m)
unfolding note
find-note i j b m = ground (arith, find-insert b.block j (noted i b) m)

note-Reaches :
    (i : ℕ) (b : Block) (m : Dict BlockOptimised) → Reaches b.block b.seq_num (note i b m)
note-Reaches i b m = elim (Option-cases (find b.block m)) [
  | inl e ↦ (noted i b, find-note i b.block b m ∙ rw e (ground arith), omega arith)
  | inr (o, e) ↦ elim (Bool-cases (ltb o.seq_num b.seq_num)) [
    | inl l ↦ (noted i b, find-note i b.block b m ∙ rw e (rw l (ground arith)), omega arith)
    | inr l ↦ (o, find-note i b.block b m ∙ rw e (rw l refl), ground (arith, l))
  ]
]

note-keeps :
    (i k n : ℕ) (b : Block) (m : Dict BlockOptimised) → Reaches k n m → Reaches k n (note i b m)
note-keeps i k n b m (o, h, l) = elim (Bool-cases (supersedes b.seq_num (find b.block m))) [
  | inr e ↦ (o, find-note i k b m ∙ rw e h, l)
  | inl e ↦ elim (Bool-cases (b.block == k)) [
    | inr other ↦ (o, find-note i k b m ∙ rw (e, other) h, l)
    | inl same ↦ (noted i b, find-note i k b m ∙ rw (e, same) refl, ground (arith, same, e, h, l))
  ]
]

-- what the loop leaves of a map, for the blocks from an index on
module _ (all : List Block) where
  abbrev IsSuffix : ℕ → List Block → Type 0
  IsSuffix i blocks = (j : ℕ) → get_elem? blocks j ≡ get_elem? all (i + j)

  IsSuffix-next : (i : ℕ) (b : Block) (bs : List Block) → IsSuffix i (b ∷ bs) → IsSuffix (suc i) bs
  IsSuffix-next i b bs s j =
      let e : i + suc j ≡ suc i + j = omega arith in s (suc j) ∙ ap (get_elem? all) e

  IsSuffix-first :
      (i : ℕ) (b : Block) (bs : List Block) → IsSuffix i (b ∷ bs) → get_elem? all i ≡ some b
  IsSuffix-first i b bs s = let e : i ≡ i + 0 = omega arith in ap (get_elem? all) e ∙ sym (s 0)

  blocks_map-Sound :
      (i : ℕ) (bs : List Block) (m : Dict BlockOptimised)
      → IsSuffix i bs
      → Sound all m
      → Sound all (blocks_map i bs m)
  unfolding blocks_map
  blocks_map-Sound i [] m f s = s
  blocks_map-Sound i (b ∷ bs) m f s =
      blocks_map-Sound (suc i) bs (note i b m) (IsSuffix-next i b bs f)
        (note-Sound all i b m (IsSuffix-first i b bs f) s)

  blocks_map-Single :
      (i : ℕ) (bs : List Block) (m : Dict BlockOptimised) → Single m → Single (blocks_map i bs m)
  unfolding blocks_map
  blocks_map-Single i [] m s = s
  blocks_map-Single i (b ∷ bs) m s =
      blocks_map-Single (suc i) bs (note i b m) (note-Single all i b m s)

blocks_map-keeps :
    (i k n : ℕ) (bs : List Block) (m : Dict BlockOptimised)
    → Reaches k n m
    → Reaches k n (blocks_map i bs m)
unfolding blocks_map
blocks_map-keeps i k n [] m r = r
blocks_map-keeps i k n (b ∷ bs) m r =
    blocks_map-keeps (suc i) k n bs (note i b m) (note-keeps i k n b m r)

blocks_map-Reaches :
    (i : ℕ) (y : Block) (bs : List Block) (m : Dict BlockOptimised)
    → Among y bs
    → Reaches y.block y.seq_num (blocks_map i bs m)
unfolding blocks_map
blocks_map-Reaches i y [] m h = elim h [ ]
blocks_map-Reaches i y (b ∷ bs) m (inl e) =
    subst (λ z. Reaches z.block z.seq_num (blocks_map (suc i) bs (note i b m))) e
      (blocks_map-keeps (suc i) b.block b.seq_num bs (note i b m) (note-Reaches i b m))
blocks_map-Reaches i y (b ∷ bs) m (inr h) = blocks_map-Reaches (suc i) y bs (note i b m) h

-- what the map picks
module _ (all : List Block) where
  get-Among : (i : ℕ) (y : Block) (bs : List Block) → get_elem? bs i ≡ some y → Among y bs
  get-Among i y [] h = ground arith
  get-Among zero y (b ∷ bs) h = ground (arith, h)
  get-Among (suc i) y (b ∷ bs) h = inr (get-Among i y bs h)

  picked-cons :
      (k : ℕ) (o : BlockOptimised) (m : Dict BlockOptimised) (b : Block)
      → get_elem? all o.index ≡ some b
      → b ∷ picked all m ≡ picked all ((k, o) ∷ m)
  unfolding picked
  picked-cons k o m b at = rw (at, picked) refl

  Among-picked :
      (y : Block) (m : Dict BlockOptimised) → Sound all m → Among y (picked all m) → Among y all
  unfolding picked
  Among-picked y [] s h = elim h [ ]
  Among-picked y ((k, o) ∷ m) ((b, at, _, _), ss) h =
      ground (arith, at, h, get-Among o.index b all at, Among-picked y m ss)

  picked-Apart :
      (k : ℕ) (m : Dict BlockOptimised) → Sound all m → find k m ≡ none → Apart k (picked all m)
  unfolding picked find
  picked-Apart k [] s h = tt
  picked-Apart k ((j, o) ∷ m) ((b, at, num, _), ss) h =
      subst (Apart k) (picked-cons j o m b at)
        (ground (arith, num, h), picked-Apart k m ss (ground (arith, h)))

  picked-Distinct : (m : Dict BlockOptimised) → Sound all m → Single m → Distinct (picked all m)
  unfolding picked
  picked-Distinct [] s u = tt
  picked-Distinct ((j, o) ∷ m) ((b, at, num, _), ss) (u, us) =
      subst Distinct (picked-cons j o m b at) (
        subst (λ t. Apart t (picked all m)) (sym num) (picked-Apart j m ss u),
        picked-Distinct m ss us,
      )

  -- A block of the map's number is picked, under the map's sequence number.
  abbrev Picked : ℕ → ℕ → List Block → Type 0
  Picked k n bs = (x : Block) × Among x bs × (x.block ≡ k) × (n ≤ x.seq_num)

  picked-Picked :
      (k n : ℕ) (m : Dict BlockOptimised) → Sound all m → Reaches k n m → Picked k n (picked all m)
  unfolding picked find
  picked-Picked k n [] s (o, h, l) = ground arith
  picked-Picked k n ((j, w) ∷ m) ((b, at, num, seq), ss) (o, h, l) = elim (Bool-cases (j == k)) [
    | inl same ↦
        subst (Picked k n) (picked-cons j w m b at)
          (b, inl refl, ground (arith, num, same), ground (arith, same, h, l, seq))
    | inr other ↦
        let (x, among, e, g) = picked-Picked k n m ss (o, ground (arith, other, h), l) in
        subst (Picked k n) (picked-cons j w m b at) (x, inr among, e, g)
  ]

-- `sorted` is an ascending list of blocks of `all`, with a newest block for each.
pub record IsNewest (all sorted : List Block) : Type 0 where
  pub ascends : Ascends sorted
  pub among : (y : Block) → Among y sorted → Among y all
  pub newest :
      (y : Block)
      → Among y all
      → (x : Block) × Among x sorted × (x.block ≡ y.block) × (y.seq_num ≤ x.seq_num)

-- The blocks that a drain or a recovery uploads ascend strictly by number, are records that were
-- read, and hold for every record that was read one of the same block that is at least as new.
pub sorted_blocks-IsNewest : (all : List Block) → IsNewest all (sorted_blocks all)
unfolding sorted_blocks
sorted_blocks-IsNewest all =
    let m = blocks_map 0 all [] in
    let sound =
      blocks_map-Sound all 0 all [] (λ j. let e : j ≡ 0 + j = omega arith in ap (get_elem? all) e)
        tt in
    let single = blocks_map-Single all 0 all [] tt in
    record {
      ascends = sort_blocks-Ascends (picked all m) (picked-Distinct all m sound single);
      among = λ y h. Among-picked all y m sound (Among-sort_blocks y (picked all m) h);
      newest = λ y h.
          let (x, among, e, l) =
            picked-Picked all y.block y.seq_num m sound (blocks_map-Reaches 0 y all [] h) in
          (x, sort_blocks-Among x (picked all m) among, e, l);
    }
