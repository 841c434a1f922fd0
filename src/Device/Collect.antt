-- ===== src/Device/Collect.antt =====
-- What the loop of `readBlockStore` collects before it fetches anything.
use viperblock.Prelude.{
  ℕ, zero, suc, ◌+◌, ◌≤◌, ◌<◌, ◌≡◌, refl, sym, ap, ◌∙◌, ◌&&◌, none, some, Option, List, [], ◌∷◌,
  arith, ltb, leb, ◌==◌, if◌then◌else◌, Bool-cases, inl, inr,
}
use viperblock.Store.{Store}
use viperblock.Store.View.{view}
use viperblock.Device.{ConsecutiveBlock}
use viperblock.Device.Runs.{wanted_at, Placed, Packed}
use viperblock.Device.Read.{Volume, Location, Found, find_block, block_at}

-- the location that a block has in one kind of chunk

abbrev pub own_location : Found → Option Location
own_location (Found.own_chunk l) = some l
own_location (Found.in_memory b) = none
own_location (Found.in_base l) = none
own_location (Found.in_ancestor ai l) = none
own_location Found.nowhere = none

abbrev pub base_location : Found → Option Location
base_location (Found.in_base l) = some l
base_location (Found.in_memory b) = none
base_location (Found.own_chunk l) = none
base_location (Found.in_ancestor ai l) = none
base_location Found.nowhere = none

abbrev pub ancestor_location : ℕ → Found → Option Location
ancestor_location j (Found.in_ancestor ai l) = if j == ai then some l else none
ancestor_location j (Found.in_memory b) = none
ancestor_location j (Found.own_chunk l) = none
ancestor_location j (Found.in_base l) = none
ancestor_location j Found.nowhere = none

-- where a block is found
abbrev pub found_of : Volume → Store → ℕ → Found
found_of vb s b = find_block vb b (view s b)

abbrev pub put_one : ℕ → ℕ → Option Location → List ConsecutiveBlock → List ConsecutiveBlock
put_one i b none cs = cs
put_one i b (some l) cs = block_at i b l ∷ cs

-- the blocks from position `i` that have a location
unfoldable pub located : (ℕ → Option Location) → ℕ → ℕ → ℕ → List ConsecutiveBlock
located g block i zero = []
located g block i (suc n) = put_one i (block + i) (g (block + i)) (located g block (suc i) n)

-- Neighbours in one object lie one stride apart.
abbrev pub IsPacked : ℕ → (ℕ → Option Location) → Type 0
IsPacked stride g =
    (b : ℕ) (l l' : Location)
    → g b ≡ some l
    → g (suc b) ≡ some l'
    → l'.object_id ≡ l.object_id
    → l'.object_offset ≡ l.object_offset + stride

-- what the block at position `p` is wanted as
abbrev pub wanted_of : ℕ → ℕ → Option Location → Option ConsecutiveBlock
wanted_of p b none = none
wanted_of p b (some l) = some (block_at p b l)

-- A first block stands where its number says.
abbrev First : (ℕ → Option Location) → List ConsecutiveBlock → Type 0
First g [] = Unit {0}
First g (d ∷ ds) =
    (l : Location) × (g d.start_block ≡ some l)
    × (l.object_id ≡ d.object_id)
    × (l.object_offset ≡ d.object_offset)

Placed-lower :
    (base lo lo' hi : ℕ) (cs : List ConsecutiveBlock)
    → lo ≤ lo'
    → Placed base lo' hi cs
    → Placed base lo hi cs
Placed-lower base lo lo' hi [] l h = tt
Placed-lower base lo lo' hi (c ∷ cs) l (a, b, e, h) = (omega arith, b, e, h)

module _ (g : ℕ → Option Location) (block : ℕ) where
  put-Placed :
      (i hi : ℕ) (o : Option Location) (cs : List ConsecutiveBlock)
      → i < hi
      → Placed block (suc i) hi cs
      → Placed block i hi (put_one i (block + i) o cs)
  put-Placed i hi none cs l h = Placed-lower block i (suc i) hi cs (omega arith) h
  put-Placed i hi (some x) cs l h = (omega arith, l, refl, h)

  pub located-Placed : (i n hi : ℕ) → i + n ≤ hi → Placed block i hi (located g block i n)
  unfolding located
  located-Placed i zero hi l = tt
  located-Placed i (suc n) hi l =
      put-Placed i hi (g (block + i)) (located g block (suc i) n) (omega arith)
        (located-Placed (suc i) n hi (omega arith))

  put-First :
      (i : ℕ) (o : Option Location) (cs : List ConsecutiveBlock)
      → g (block + i) ≡ o
      → First g cs
      → First g (put_one i (block + i) o cs)
  put-First i none cs e h = h
  put-First i (some x) cs e h = (x, e, refl, refl)

  located-First : (i n : ℕ) → First g (located g block i n)
  unfolding located
  located-First i zero = tt
  located-First i (suc n) =
      put-First i (g (block + i)) (located g block (suc i) n) refl (located-First (suc i) n)

  put-Packed :
      (stride i : ℕ) (o : Option Location) (cs : List ConsecutiveBlock)
      → IsPacked stride g
      → g (block + i) ≡ o
      → First g cs
      → Packed stride cs
      → Packed stride (put_one i (block + i) o cs)
  put-Packed stride i none cs p e f h = h
  put-Packed stride i (some x) [] p e f h = (tt, h)
  put-Packed stride i (some x) (d ∷ ds) p e (l, at, id, offset) h =
      (λ next same. sym offset ∙ p (block + i) x l e (sym (ap g next) ∙ at) (id ∙ same), h)

  pub located-Packed : (stride i n : ℕ) → IsPacked stride g → Packed stride (located g block i n)
  unfolding located
  located-Packed stride i zero p = tt
  located-Packed stride i (suc n) p =
      put-Packed stride i (g (block + i)) (located g block (suc i) n) p refl
        (located-First (suc i) n) (located-Packed stride (suc i) n p)

  put-wanted :
      (i n p : ℕ) (o : Option Location) (cs : List ConsecutiveBlock)
      → g (block + i) ≡ o
      → wanted_at p cs ≡ (
          if leb (suc i) p && ltb p (suc i + n)
          then wanted_of p (block + p) (g (block + p))
          else none)
      → wanted_at p (put_one i (block + i) o cs)
        ≡ (if leb i p && ltb p (i + suc n) then wanted_of p (block + p) (g (block + p)) else none)
  unfolding wanted_at
  put-wanted i n p none cs e h = elim (Bool-cases (i == p)) [
    | inl same ↦
        let q : i ≡ p = ground (arith, same) in
        let gone : g (block + p) ≡ none = ap (λ j. g (block + j)) (sym q) ∙ e in
        h ∙ ground (arith, q, gone)
    | inr other ↦ h ∙ ground (arith, other)
  ]
  put-wanted i n p (some x) cs e h = elim (Bool-cases (i == p)) [
    | inl same ↦
        let q : i ≡ p = ground (arith, same) in
        let here : g (block + p) ≡ some x = ap (λ j. g (block + j)) (sym q) ∙ e in
        ground (arith, q, here)
    | inr other ↦ ground (arith, other, h)
  ]

  pub wanted_at-located :
      (i n p : ℕ)
      → wanted_at p (located g block i n)
        ≡ (if leb i p && ltb p (i + n) then wanted_of p (block + p) (g (block + p)) else none)
  unfolding wanted_at located
  wanted_at-located i zero p = ground arith
  wanted_at-located i (suc n) p =
      put-wanted i n p (g (block + i)) (located g block (suc i) n) refl
        (wanted_at-located (suc i) n p)
