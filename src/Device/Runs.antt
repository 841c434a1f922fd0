-- ===== src/Device/Runs.antt =====
-- The runs that a fetch makes of the blocks it is asked for.
use viperblock.Prelude.{
  ℕ, zero, suc, ◌+◌, ◌-◌, ◌≤◌, ◌<◌, ◌≡◌, refl, sym, ◌&&◌, ◌∙◌, ap, subst, true, false, none, some,
  Option, List, [], ◌∷◌, ◌++◌, map, arith, ltb, ◌==◌, if◌then◌else◌, length, get_elem?, Bool-cases,
  inl, inr,
}
use viperblock.Words.{u64}
use viperblock.Device.{Codec, ConsecutiveBlock, run_after, run_of, was_read, blocks_to_read}

-- the block that is wanted at position `p`

unfoldable pub wanted_at : ℕ → List ConsecutiveBlock → Option ConsecutiveBlock
wanted_at p [] = none
wanted_at p (c ∷ cs) = if c.block_position == p then some c else wanted_at p cs

-- The positions ascend from `lo` up to below `hi`, and the numbers go with them.
abbrev pub Placed : ℕ → ℕ → ℕ → List ConsecutiveBlock → Type 0
Placed base lo hi [] = Unit {0}
Placed base lo hi (c ∷ cs) =
    (lo ≤ c.block_position)
    × (c.block_position < hi)
    × (c.start_block ≡ base + c.block_position)
    × Placed base (suc c.block_position) hi cs

-- A block right after `c` in the same object lies one stride behind it.
abbrev pub IsNext : ℕ → ConsecutiveBlock → List ConsecutiveBlock → Type 0
IsNext stride c [] = Unit {0}
IsNext stride c (d ∷ ds) =
    d.start_block ≡ suc c.start_block
    → d.object_id ≡ c.object_id
    → d.object_offset ≡ c.object_offset + stride

abbrev pub Packed : ℕ → List ConsecutiveBlock → Type 0
Packed stride [] = Unit {0}
Packed stride (c ∷ cs) = IsNext stride c cs × Packed stride cs

-- Each block follows on the one before it, in the volume and in its object.
abbrev pub Chain : ℕ → ConsecutiveBlock → List ConsecutiveBlock → Type 0
Chain stride c [] = Unit {0}
Chain stride c (d ∷ ds) =
    (d.block_position ≡ suc c.block_position)
    × (d.start_block ≡ suc c.start_block)
    × (d.object_id ≡ c.object_id)
    × (d.object_offset ≡ c.object_offset + stride)
    × Chain stride d ds

-- the blocks after a run
unfoldable pub rest_after : ConsecutiveBlock → List ConsecutiveBlock → List ConsecutiveBlock
rest_after c [] = []
rest_after c (d ∷ ds) =
    let rest = rest_after d ds in
    if (d.start_block == (c.start_block + 1)) && (d.object_id == c.object_id) then rest else d ∷ ds

pub get_elem?_cons {ℓ} :
    {A : Type ℓ} (d : A) (ds : List A) (j : ℕ)
    → get_elem? (d ∷ ds) j ≡ (if j == 0 then some d else get_elem? ds (j - 1))
get_elem?_cons d ds zero = refl
get_elem?_cons d ds (suc j) = ground arith

-- one more block before a run
select :
    (a b n p : ℕ) (d : ConsecutiveBlock) (run : List ConsecutiveBlock)
    (w v : Option ConsecutiveBlock)
    → b ≡ suc a
    → w ≡ (if ltb b p && ltb p (suc (b + n)) then get_elem? run (p - suc b) else v)
    → (if b == p then some d else w)
      ≡ (if ltb a p && ltb p (suc (a + suc n)) then get_elem? (d ∷ run) (p - suc a) else v)
select a b n p d run w v e h =
    let split = get_elem?_cons d run (p - suc a) in
    let back : p - suc a - 1 ≡ p - suc b = omega (arith, e) in ground (arith, e, h, split, back)

abbrev Goes : ConsecutiveBlock → ConsecutiveBlock → Type 0
Goes c d = ((d.start_block == (c.start_block + 1)) && (d.object_id == c.object_id)) ≡ true

run-Goes :
    (c d : ConsecutiveBlock) (ds : List ConsecutiveBlock)
    → c.start_block + 1 < u64
    → Goes c d
    → (run_after c (d ∷ ds) ≡ d ∷ run_after d ds) × (rest_after c (d ∷ ds) ≡ rest_after d ds)
unfolding run_after rest_after
run-Goes c d ds h e = (ground (arith, h, e), ground (arith, h, e))

run_stops :
    (c d : ConsecutiveBlock) (ds : List ConsecutiveBlock)
    → c.start_block + 1 < u64
    → ((d.start_block == (c.start_block + 1)) && (d.object_id == c.object_id)) ≡ false
    → (run_after c (d ∷ ds) ≡ []) × (rest_after c (d ∷ ds) ≡ d ∷ ds)
unfolding run_after rest_after
run_stops c d ds h e = (ground (arith, h, e), ground (arith, h, e))

module _ (base hi stride : ℕ) (top : base + hi < u64) where
  -- what the run after `c` is
  pub record IsRun (c : ConsecutiveBlock) (cs run rest : List ConsecutiveBlock) : Type 0 where
    pub whole : run ++ rest ≡ cs
    pub chain : Chain stride c run
    pub within : c.block_position + length run < hi
    pub placed : Placed base (suc (c.block_position + length run)) hi rest
    pub packed : Packed stride rest
    pub wanted :
        (p : ℕ)
        → wanted_at p cs ≡ (
            if ltb c.block_position p && ltb p (suc (c.block_position + length run))
            then get_elem? run (p - suc c.block_position)
            else wanted_at p rest)

  pub absent :
      (lo p : ℕ) (cs : List ConsecutiveBlock)
      → Placed base lo hi cs
      → p < lo
      → wanted_at p cs ≡ none
  unfolding wanted_at
  absent lo p [] h l = refl
  absent lo p (c ∷ cs) h l = ground (arith, h, l, absent (suc c.block_position) p cs h.3)

  pub run_after-IsRun :
      (c : ConsecutiveBlock) (cs : List ConsecutiveBlock)
      → c.block_position < hi
      → c.start_block ≡ base + c.block_position
      → Placed base (suc c.block_position) hi cs
      → IsNext stride c cs
      → Packed stride cs
      → IsRun c cs (run_after c cs) (rest_after c cs)
  unfolding run_after rest_after wanted_at
  run_after-IsRun c [] l e h next packed = record {
    whole = refl;
    chain = tt;
    within = omega arith;
    placed = tt;
    packed = tt;
    wanted = λ p. ground arith;
  }
  run_after-IsRun c (d ∷ ds) l e (lo, up, at, h) next (packed, more) =
      elim (Bool-cases ((d.start_block == (c.start_block + 1)) && (d.object_id == c.object_id))) [
        | inr stop ↦
            let (r, t) = run_stops c d ds (omega (arith, top, l, e)) stop in
            stopped (run_after c (d ∷ ds)) (rest_after c (d ∷ ds)) r t
        | inl go ↦
            let (r, t) = run-Goes c d ds (omega (arith, top, l, e)) go in
            let found : (d.start_block ≡ suc c.start_block) × (d.object_id ≡ c.object_id) =
              ground (arith, go) in
            went (run_after c (d ∷ ds)) (rest_after c (d ∷ ds)) r t found
              (run_after-IsRun d ds up at h packed more)
      ]
    where
      stopped :
          (run rest : List ConsecutiveBlock) → run ≡ [] → rest ≡ d ∷ ds → IsRun c (d ∷ ds) run rest
      stopped run rest r t =
          rw (r, t)
            (record {
              whole = refl;
              chain = tt;
              within = omega (arith, l);
              placed = (omega (arith, lo), up, at, h);
              packed = (packed, more);
              wanted = λ p. ground arith;
            })

      went :
          (run rest : List ConsecutiveBlock)
          → run ≡ d ∷ run_after d ds
          → rest ≡ rest_after d ds
          → (d.start_block ≡ suc c.start_block) × (d.object_id ≡ c.object_id)
          → IsRun d ds (run_after d ds) (rest_after d ds)
          → IsRun c (d ∷ ds) run rest
      went run rest r t found v =
          let n = length (run_after d ds) in
          let p' : d.block_position ≡ suc c.block_position = omega (arith, at, e, found.0) in
          let q : d.block_position + n ≡ c.block_position + suc n = omega (arith, p') in
          rw (r, t)
            (record {
              whole = ap (λ l. d ∷ l) v.whole;
              chain = (p', found.0, found.1, next found.0 found.1, v.chain);
              within = omega (arith, v.within, q);
              placed = subst (λ m. Placed base (suc m) hi (rest_after d ds)) q v.placed;
              packed = v.packed;
              wanted = λ p.
                  select c.block_position d.block_position n p d (run_after d ds) (wanted_at p ds)
                    (wanted_at p (rest_after d ds)) p' (v.wanted p);
            })

-- Every number is below `n`.
abbrev pub AllBelow : ℕ → List ℕ → Type 0
AllBelow n [] = Unit {0}
AllBelow n (b ∷ read) = (b < n) × AllBelow n read

abbrev AllRead : List ℕ → List ConsecutiveBlock → Type 0
AllRead read [] = Unit {0}
AllRead read (d ∷ ds) = (was_read d.start_block read ≡ true) × AllRead read ds

pub AllBelow-weaken : (n m : ℕ) (read : List ℕ) → n ≤ m → AllBelow n read → AllBelow m read
AllBelow-weaken n m [] l h = tt
AllBelow-weaken n m (b ∷ read) l (h, hs) = (omega arith, AllBelow-weaken n m read l hs)

not_read : (n b : ℕ) (read : List ℕ) → AllBelow n read → n ≤ b → was_read b read ≡ false
unfolding was_read
not_read n b [] h l = refl
not_read n b (x ∷ read) (h, hs) l = ground (arith, h, l, not_read n b read hs l)

AllRead-more :
    (x : ℕ) (read : List ℕ) (ds : List ConsecutiveBlock) → AllRead read ds → AllRead (x ∷ read) ds
unfolding was_read
AllRead-more x read [] h = tt
AllRead-more x read (d ∷ ds) (h, hs) = (ground (arith, h), AllRead-more x read ds hs)

AllRead-self :
    (read : List ℕ) (ds : List ConsecutiveBlock) → AllRead (map (λ c. c.start_block) ds ++ read) ds
unfolding was_read
AllRead-self read [] = tt
AllRead-self read (d ∷ ds) = (ground arith, AllRead-more d.start_block _ ds (AllRead-self read ds))

blocks_to_read_skip :
    (vb : Codec) (read : List ℕ) (run rest : List ConsecutiveBlock)
    → AllRead read run
    → blocks_to_read vb read (run ++ rest) ≡ blocks_to_read vb read rest
unfolding blocks_to_read
blocks_to_read_skip vb read [] rest h = refl
blocks_to_read_skip vb read (d ∷ ds) rest (h, hs) =
    rw (h, blocks_to_read) (blocks_to_read_skip vb read ds rest hs)

-- what has been read once the run after `c` has been
abbrev pub seen_after : ConsecutiveBlock → List ConsecutiveBlock → List ℕ → List ℕ
seen_after c cs read = map (λ c. c.start_block) (run_after c cs) ++ read

AllBelow-Chain :
    (stride : ℕ) (c : ConsecutiveBlock) (run : List ConsecutiveBlock) (read : List ℕ)
    → Chain stride c run
    → AllBelow c.start_block read
    → AllBelow (suc (c.start_block + length run)) (map (λ c. c.start_block) run ++ read)
AllBelow-Chain stride c [] read ch h = AllBelow-weaken _ _ read (omega arith) h
AllBelow-Chain stride c (d ∷ ds) read (p, s, o, f, ch) h = (
  omega (arith, s),
  AllBelow-weaken (suc (d.start_block + length ds)) (suc (c.start_block + suc (length ds))) _
      (omega (arith, s))
      (AllBelow-Chain stride d ds read ch (AllBelow-weaken _ _ read (omega (arith, s)) h)),
)

module _ (vb : Codec) (base hi stride : ℕ) (top : base + hi < u64) (c : ConsecutiveBlock)
    (cs : List ConsecutiveBlock) (read : List ℕ) (new : AllBelow c.start_block read) where
  pub blocks_to_read_run :
      IsRun base hi stride top c cs (run_after c cs) (rest_after c cs)
      → (blocks_to_read vb read (c ∷ cs)
          ≡ run_of vb c (run_after c cs)
            ∷ blocks_to_read vb (seen_after c cs read) (rest_after c cs))
        × AllBelow (suc (c.start_block + length (run_after c cs))) (seen_after c cs read)
  unfolding blocks_to_read
  blocks_to_read_run v =
      let first : was_read c.start_block read ≡ false =
        not_read c.start_block c.start_block read new (omega arith) in
      let skip =
        blocks_to_read_skip vb (seen_after c cs read) (run_after c cs) (rest_after c cs)
          (AllRead-self read (run_after c cs)) in
      let whole = ap (blocks_to_read vb (seen_after c cs read)) v.whole in
      (
        rw (first, blocks_to_read) (ap (λ l. run_of vb c (run_after c cs) ∷ l) (sym whole ∙ skip)),
        AllBelow-Chain stride c (run_after c cs) read v.chain new,
      )
