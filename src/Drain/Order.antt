-- ===== src/Drain/Order.antt =====
-- Lists of blocks sorted by their numbers.
use viperblock.Prelude.{
  ℕ, ◌≤◌, ◌<◌, ◌≡◌, ◌≢◌, ◌⊎◌, inl, inr, List, [], ◌∷◌, ◌++◌, arith, Bool-cases, leb,
}
use viperblock.Store.Census.{Block}
use viperblock.Drain.{insert_block, sort_blocks}

-- `b` stands in the list.

abbrev pub Among : Block → List Block → Type 0
Among b [] = ⊥
Among b (x ∷ xs) = (x ≡ b) ⊎ Among b xs

-- Every block of the list has a property.
abbrev pub Each : (Block → Type 0) → List Block → Type 0
Each P [] = Unit {0}
Each P (x ∷ xs) = P x × Each P xs

module _ (P : Block → Type 0) where
  pub Each-left : (xs ys : List Block) → Each P (xs ++ ys) → Each P xs
  Each-left [] ys h = tt
  Each-left (x ∷ xs) ys (h, hs) = (h, Each-left xs ys hs)

  pub Each-right : (xs ys : List Block) → Each P (xs ++ ys) → Each P ys
  Each-right [] ys h = h
  Each-right (x ∷ xs) ys (h, hs) = Each-right xs ys hs

  pub Each-both :
      (Q : Block → Type 0) (xs : List Block) → Each P xs → Each Q xs → Each (λ x. P x × Q x) xs
  Each-both Q [] h g = tt
  Each-both Q (x ∷ xs) (h, hs) (g, gs) = ((h, g), Each-both Q xs hs gs)

  pub Each-map :
      (Q : Block → Type 0) (xs : List Block) → ((x : Block) → P x → Q x) → Each P xs → Each Q xs
  Each-map Q [] f h = tt
  Each-map Q (x ∷ xs) f (h, hs) = (f x h, Each-map Q xs f hs)

-- Every block number is above `n`.
abbrev pub Above : ℕ → List Block → Type 0
Above n xs = Each (λ x. n < x.block) xs

-- The block numbers ascend.
abbrev pub Ascends : List Block → Type 0
Ascends [] = Unit {0}
Ascends (x ∷ xs) = Above x.block xs × Ascends xs

-- No block has the number `k`.
abbrev pub Apart : ℕ → List Block → Type 0
Apart k xs = Each (λ x. x.block ≢ k) xs

abbrev pub Distinct : List Block → Type 0
Distinct [] = Unit {0}
Distinct (x ∷ xs) = Apart x.block xs × Distinct xs

Above-weaken : (m n : ℕ) (xs : List Block) → m ≤ n → Above n xs → Above m xs
Above-weaken m n [] l h = tt
Above-weaken m n (x ∷ xs) l (h, hs) = (omega arith, Above-weaken m n xs l hs)

insert_block-Above :
    (n : ℕ) (b : Block) (xs : List Block) → n < b.block → Above n xs → Above n (insert_block b xs)
unfolding insert_block
insert_block-Above n b [] l h = (l, tt)
insert_block-Above n b (x ∷ xs) l (h, hs) = ground (arith, l, h, hs, insert_block-Above n b xs l hs)

insert_block-Apart :
    (k : ℕ) (b : Block) (xs : List Block) → b.block ≢ k → Apart k xs → Apart k (insert_block b xs)
unfolding insert_block
insert_block-Apart k b [] l h = (l, tt)
insert_block-Apart k b (x ∷ xs) l (h, hs) = ground (arith, l, h, hs, insert_block-Apart k b xs l hs)

insert_block-Ascends :
    (b : Block) (xs : List Block) → Apart b.block xs → Ascends xs → Ascends (insert_block b xs)
unfolding insert_block
insert_block-Ascends b [] a h = (tt, tt)
insert_block-Ascends b (x ∷ xs) (a, rest) (h, hs) = elim (Bool-cases (leb b.block x.block)) [
  | inl e ↦
      rw e ((ground (arith, a, e), Above-weaken b.block x.block xs (ground (arith, e)) h), (h, hs))
  | inr e ↦
      rw e
        (insert_block-Above x.block b xs (ground (arith, e)) h, insert_block-Ascends b xs rest hs)
]

sort_blocks-Apart : (k : ℕ) (xs : List Block) → Apart k xs → Apart k (sort_blocks xs)
unfolding sort_blocks
sort_blocks-Apart k [] a = tt
sort_blocks-Apart k (x ∷ xs) (a, rest) =
    insert_block-Apart k x (sort_blocks xs) a (sort_blocks-Apart k xs rest)

pub sort_blocks-Ascends : (xs : List Block) → Distinct xs → Ascends (sort_blocks xs)
unfolding sort_blocks
sort_blocks-Ascends [] d = tt
sort_blocks-Ascends (x ∷ xs) (d, ds) =
    insert_block-Ascends x (sort_blocks xs) (sort_blocks-Apart x.block xs d)
      (sort_blocks-Ascends xs ds)

Among-insert_block :
    (y b : Block) (xs : List Block) → Among y (insert_block b xs) → Among y (b ∷ xs)
unfolding insert_block
Among-insert_block y b [] h = h
Among-insert_block y b (x ∷ xs) h = ground (arith, h, Among-insert_block y b xs)

insert_block-Among :
    (y b : Block) (xs : List Block) → Among y (b ∷ xs) → Among y (insert_block b xs)
unfolding insert_block
insert_block-Among y b [] h = h
insert_block-Among y b (x ∷ xs) h = ground (arith, h, insert_block-Among y b xs)

pub Among-sort_blocks : (y : Block) (xs : List Block) → Among y (sort_blocks xs) → Among y xs
unfolding sort_blocks
Among-sort_blocks y [] h = elim h [ ]
Among-sort_blocks y (x ∷ xs) h =
    ground (arith, Among-insert_block y x (sort_blocks xs) h, Among-sort_blocks y xs)

pub sort_blocks-Among : (y : Block) (xs : List Block) → Among y xs → Among y (sort_blocks xs)
unfolding sort_blocks
sort_blocks-Among y [] h = elim h [ ]
sort_blocks-Among y (x ∷ xs) h =
    insert_block-Among y x (sort_blocks xs) (ground (arith, h, sort_blocks-Among y xs))
