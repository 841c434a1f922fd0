-- ===== src/Drain/Chunk/Runs.antt =====
-- The runs of an ascending list of blocks.
use viperblock.Prelude.{
  ℕ, zero, suc, ◌+◌, ◌<◌, ◌≡◌, ◌≢◌, ◌⊎◌, refl, subst, inl, inr, some, List, [], ◌∷◌, ◌++◌, arith,
  length, get_elem?, ◌==◌, Bool-cases, ap,
}
use viperblock.Words.{u64, add64}
use viperblock.Store.Census.{Block}
use viperblock.Drain.Order.{Each, Above, Ascends, Apart}
use viperblock.Drain.Chunk.{take_run}

-- The numbers go on from `p` one by one.

abbrev pub Consecutive : ℕ → List Block → Type 0
Consecutive p [] = Unit {0}
Consecutive p (b ∷ bs) = (b.block ≡ p + 1) × Consecutive b.block bs

-- Every number is so small that the one after it fits.
abbrev pub AllSmall : List Block → Type 0
AllSmall bs = Each (λ b. b.block + 1 < u64) bs

-- What `take_run` makes of the blocks after `prev`.
pub record IsRun (prev : Block) (blocks : List Block) (cut : List Block × List Block) : Type 0 where
  pub parts : cut.0 ++ cut.1 ≡ blocks
  pub follows : Consecutive prev.block cut.0

pub take_run-IsRun :
    (prev : Block) (blocks : List Block)
    → prev.block + 1 < u64
    → AllSmall blocks
    → IsRun prev blocks (take_run prev blocks)
unfolding take_run
take_run-IsRun prev [] s small = record { parts = refl; follows = tt }
take_run-IsRun prev (b ∷ bs) s (t, small) =
    let r = take_run-IsRun b bs t small in
    elim (Bool-cases (b.block == add64 prev.block 1)) [
      | inl e ↦
          rw e (record {
            parts = ap (λ z. b ∷ z) r.parts;
            follows = (ground (arith, e, s), r.follows);
          })
      | inr e ↦ rw e (record { parts = refl; follows = tt })
    ]

pub after_run :
    (p : ℕ) (more rest : List Block)
    → Consecutive p more
    → Above p (more ++ rest)
    → Ascends (more ++ rest)
    → Above (p + length more) rest × Ascends rest
after_run p [] rest c above up =
    let e : p ≡ p + 0 = omega arith in (subst (λ n. Above n rest) e above, up)
after_run p (b ∷ more) rest (e, c) (a, above) (first, up) =
    let next = after_run b.block more rest c first up in
    let e' : b.block + length more ≡ p + suc (length more) = omega (arith, e) in
    (subst (λ n. Above n rest) e' next.0, next.1)

pub block_of_run :
    (p : ℕ) (more : List Block) (j : ℕ) (b : Block)
    → Consecutive p more
    → get_elem? more j ≡ some b
    → (b.block ≡ p + 1 + j) × (j < length more)
block_of_run p [] j b c h = ground arith
block_of_run p (x ∷ more) zero b (e, c) h = (ground (arith, h, e), omega arith)
block_of_run p (x ∷ more) (suc j) b (e, c) h =
    let r = block_of_run x.block more j b c h in (omega (arith, r.0, e), omega (arith, r.1))

pub outside_run :
    (p : ℕ) (more : List Block) (k : ℕ)
    → Consecutive p more
    → p ≢ k
    → Apart k more
    → (k < p) ⊎ (p + length more < k)
outside_run p [] k c d a = ground (arith, d)
outside_run p (b ∷ more) k (e, c) d (d', a) =
    ground (arith, e, d, outside_run b.block more k c d' a)

pub run_fits :
    (p : ℕ) (more : List Block)
    → Consecutive p more
    → p + 1 < u64
    → AllSmall more
    → p + length more + 1 < u64
run_fits p [] c s small = omega arith
run_fits p (b ∷ more) (e, c) s (t, small) = omega (arith, e, run_fits b.block more c t small)

pub get_elem?-append :
    (xs ys : List Block) (j : ℕ) (b : Block)
    → get_elem? (xs ++ ys) j ≡ some b
    → (get_elem? xs j ≡ some b) ⊎ ((i : ℕ) × (j ≡ length xs + i) × (get_elem? ys i ≡ some b))
get_elem?-append [] ys j b h = inr (j, omega arith, h)
get_elem?-append (x ∷ xs) ys zero b h = inl h
get_elem?-append (x ∷ xs) ys (suc j) b h = elim (get_elem?-append xs ys j b h) [
  | inl g ↦ inl g
  | inr (i, e, g) ↦ inr (i, omega (arith, e), g)
]

pub Each-get :
    (P : Block → Type 0) (xs : List Block) (j : ℕ) (b : Block)
    → get_elem? xs j ≡ some b
    → Each P xs
    → P b
Each-get P [] j b h all = ground arith
Each-get P (x ∷ xs) zero b h (p, all) = let e : x ≡ b = ground (arith, h) in subst P e p
Each-get P (x ∷ xs) (suc j) b h (p, all) = Each-get P xs j b h all
