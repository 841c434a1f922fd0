-- ===== src/Device/Cached.antt =====
-- What `ReadAtCtx` leaves in memory.
use viperblock.Prelude.{
  ℕ, zero, suc, ◌+◌, ◌*◌, ◌≤◌, ◌<◌, ◌≡◌, ◌⊎◌, refl, sym, ap, subst, ◌∙◌, true, false, some, List,
  [], ◌∷◌, ◌++◌, map, arith, ◌==◌, ◌&&◌, length, Bool-cases, Option-cases, inl, inr,
}
use viperblock.Words.{u16, u64, add64, mul32}
use viperblock.Lookup.{block_stride}
use viperblock.Bytes.{Bytes, slice}
use viperblock.Block.{BlockEntry, BlockState, same_state}
use viperblock.Store.{Store, entry, put}
use viperblock.Store.Writers.{cache}
use viperblock.Store.View.{IsValid, entry-put}
use viperblock.Store.View.Writers.{put-IsValid}
use viperblock.Device.{
  ok, Codec, Source, Reader, Memory, ConsecutiveBlock, ConsecutiveRun, run_of, run_after, was_read,
  cache_blocks, check_chunk_magic, place_run, remember, decode_run, fetch_run, fetch_runs,
  blocks_to_read,
}
use viperblock.Device.Decode.{Result-cases}
use viperblock.Device.Remember.{magic_store}

-- No entry of the block waits on a chunk.
abbrev pub IsAtHand : Store → ℕ → Type 0
IsAtHand s b =
    (e : BlockEntry) → entry s b ≡ some e → same_state e.state BlockState.persisted ≡ false

-- A well-formed store, at hand where `t` is
pub record IsAbove (t s : Store) : Type 0 where
  pub valid : IsValid s
  pub keeps : (b : ℕ) → IsAtHand t b → IsAtHand s b

pub IsAbove-trans : (t s u : Store) → IsAbove t s → IsAbove s u → IsAbove t u
IsAbove-trans t s u f g = record { valid = g.valid; keeps = λ b h. g.keeps b (f.keeps b h) }

module _ (s : Store) (b : ℕ) (bytes : Bytes) (v : IsValid s) where
  copied : BlockEntry → BlockEntry
  copied e = record e { state = BlockState.cached; bytes = bytes }

  cache_steps :
      ((cache s b bytes).0 ≡ s) × IsAtHand s b
      ⊎ ((e : BlockEntry) × ((cache s b bytes).0 ≡ put s b (copied e)))
  unfolding cache copied
  cache_steps = elim (Option-cases (entry s b)) [
    | inl e ↦ inl (ground (arith, e), λ x h. absurd (ground (arith, e, h)))
    | inr (e, here) ↦ elim (Bool-cases (same_state e.state BlockState.persisted)) [
      | inl st ↦ inr (e, ground (arith, here, st))
      | inr st ↦ inl (ground (arith, here, st), λ x h. ground (arith, here, st, h))
    ]
  ]

  put-AtHand : (e : BlockEntry) (j : ℕ) → IsAtHand s j ⊎ (b ≡ j) → IsAtHand (put s b (copied e)) j
  unfolding copied
  put-AtHand e j (inl h) x here = ground (arith, entry-put s v.sharded b (copied e) j, here, h x)
  put-AtHand e j (inr q) x here = ground (arith, entry-put s v.sharded b (copied e) j, here, q)

  cache-IsAbove : IsAbove s (cache s b bytes).0 × IsAtHand (cache s b bytes).0 b
  cache-IsAbove = elim cache_steps [
    | inl (q, h) ↦
        subst (λ t. IsAbove s t × IsAtHand t b) (sym q) (record { valid = v; keeps = λ j k. k }, h)
    | inr (e, q) ↦
        subst (λ t. IsAbove s t × IsAtHand t b) (sym q)
          (
            record { valid = put-IsValid s v b (copied e); keeps = λ j k. put-AtHand e j (inl k) },
            put-AtHand e b (inr refl),
          )
  ]

cache_blocks-IsAbove :
    (vb : Codec) (start : ℕ) (run : Bytes) (i n : ℕ) (s : Store)
    → IsValid s
    → IsAbove s (cache_blocks vb start run i n s)
      × ((j : ℕ) → i ≤ j → j < i + n → IsAtHand (cache_blocks vb start run i n s) (start + j))
unfolding cache_blocks
cache_blocks-IsAbove vb start run i zero s v =
    (record { valid = v; keeps = λ b h. h }, λ j l u. absurd (omega (arith, l, u)))
cache_blocks-IsAbove vb start run i (suc n) s v =
    let bytes = slice (i * vb.block_size) vb.block_size run in
    let one = cache-IsAbove s (start + i) bytes v in
    let rest =
      cache_blocks-IsAbove vb start run (suc i) n (cache s (start + i) bytes).0 one.0.valid in
    (
      IsAbove-trans s _ _ one.0 rest.0,
      λ j l u. elim (Bool-cases (i == j)) [
        | inl it ↦
            let q : i ≡ j = ground (arith, it) in
            subst
              (λ k.
                IsAtHand (cache_blocks vb start run (suc i) n (cache s (start + i) bytes).0)
                  (start + k))
              q (rest.0.keeps (start + i) one.1)
        | inr other ↦ rest.1 j (ground (arith, other, l)) (omega (arith, u))
      ],
    )

abbrev pub starts : List ConsecutiveBlock → List ℕ
starts cs = map (λ c. c.start_block) cs

-- No number in a run wraps.
abbrev pub Fits : List ConsecutiveBlock → Type 0
Fits [] = Unit {0}
Fits (c ∷ cs) = (c.start_block + length (c ∷ cs) < u64) × Fits cs

length-run_after :
    (c : ConsecutiveBlock) (cs : List ConsecutiveBlock) → length (run_after c cs) ≤ length cs
unfolding run_after
length-run_after c [] = omega arith
length-run_after c (d ∷ ds) = ground (arith, length-run_after d ds)

run_member :
    (c : ConsecutiveBlock) (cs : List ConsecutiveBlock) (b : ℕ)
    → c.start_block + suc (length cs) < u64
    → was_read b (starts (run_after c cs)) ≡ true
    → (j : ℕ) × (j < length (run_after c cs)) × (b ≡ c.start_block + suc j)
unfolding run_after was_read
run_member c [] b top h = absurd (ground (arith, h))
run_member c (d ∷ ds) b top h =
    elim (Bool-cases ((d.start_block == add64 c.start_block 1) && (d.object_id == c.object_id))) [
      | inr apart ↦ absurd (ground (arith, apart, h))
      | inl follows ↦
          let q : d.start_block ≡ c.start_block + 1 = ground (arith, follows, top) in
          elim (Bool-cases (d.start_block == b)) [
            | inl here ↦ (0, ground (arith, follows), ground (arith, here, q))
            | inr other ↦
                let (j, l, e) =
                  run_member d ds b (omega (arith, q, top)) (ground (arith, follows, other, h)) in
                (suc j, ground (arith, follows, l), omega (arith, e, q))
          ]
    ]

was_read-append :
    (b : ℕ) (xs ys : List ℕ)
    → was_read b (xs ++ ys) ≡ true
    → (was_read b xs ≡ true) ⊎ (was_read b ys ≡ true)
unfolding was_read
was_read-append b [] ys h = inr h
was_read-append b (x ∷ xs) ys h = elim (Bool-cases (x == b)) [
  | inl e ↦ inl (ground (arith, e))
  | inr e ↦ elim (was_read-append b xs ys (ground (arith, e, h))) [
    | inl k ↦ inl (ground (arith, k))
    | inr k ↦ inr k
  ]
]

module _ (vb : Codec) (volume : Source) (read : Reader) where
  fetch_run_parts :
      (cb : ConsecutiveRun) (state next : Bytes × Memory)
      → fetch_run vb volume read cb state ≡ ok next
      → (m' : Memory) × (out : Bytes) × (m'.store ≡ state.1.store)
        × (next ≡ place_run vb cb out (state.0, m'))
  unfolding fetch_run
  fetch_run_parts cb (buf, m) next h =
      elim (Result-cases (check_chunk_magic vb volume.name cb.object_id read m)) [
        | inr (x, e) ↦ absurd (ground (arith, e, h))
        | inl (m', e) ↦
            elim (Option-cases (
              read cb.object_id cb.object_offset
                (mul32 cb.num_blocks (block_stride vb.block_size vb.encryption_enabled)))) [
                  | inl none_read ↦ absurd (ground (arith, e, none_read, h))
                  | inr (bytes, there) ↦ elim (Result-cases (decode_run vb volume cb bytes)) [
                    | inr (x, bad) ↦ absurd (ground (arith, e, there, bad, h))
                    | inl (out, good) ↦ (
                      m',
                      out,
                      magic_store vb volume.name cb.object_id read m m' e,
                      ground (arith, e, there, good, h),
                    )
                  ]
                ]
      ]

  fetch_run-IsAbove :
      (cb : ConsecutiveRun) (state next : Bytes × Memory)
      → IsValid state.1.store
      → fetch_run vb volume read cb state ≡ ok next
      → IsAbove state.1.store next.1.store
        × ((j : ℕ) → j < cb.num_blocks → IsAtHand next.1.store (cb.start_block + j))
  unfolding place_run remember
  fetch_run-IsAbove cb state next v h =
      let (m', out, same, e) = fetch_run_parts cb state next h in
      let piece =
        slice (cb.block_position * vb.block_size) (cb.num_blocks * vb.block_size)
          (place_run vb cb out (state.0, m')).0 in
      let stored : next.1.store
          ≡ cache_blocks vb cb.start_block piece 0 cb.num_blocks state.1.store =
        ap (λ t. t.1.store) e ∙ ap (cache_blocks vb cb.start_block piece 0 cb.num_blocks) same in
      let done = cache_blocks-IsAbove vb cb.start_block piece 0 cb.num_blocks state.1.store v in
      (
        subst (IsAbove state.1.store) (sym stored) done.0,
        λ j l.
            subst (λ t. IsAtHand t (cb.start_block + j)) (sym stored)
              (done.1 j (omega arith) (omega (arith, l))),
      )

  num_blocks_of :
      (c : ConsecutiveBlock) (run : List ConsecutiveBlock)
      → suc (length run) < u16
      → ((run_of vb c run).num_blocks ≡ suc (length run))
        × ((run_of vb c run).start_block ≡ c.start_block)
  unfolding run_of
  num_blocks_of c run h = (ground (arith, h), refl)

  -- where one block of the list is after its run was read, or before
  abbrev pub Settles : List ConsecutiveBlock → List ℕ → Bytes × Memory → Bytes × Memory → Type 0
  Settles cs seen state final =
      IsAbove state.1.store final.1.store
      × ((b : ℕ)
          → was_read b (starts cs) ≡ true
          → (was_read b seen ≡ true) ⊎ IsAtHand final.1.store b)

  fetch_runs_cons :
      (cb : ConsecutiveRun) (cbs : List ConsecutiveRun) (state final : Bytes × Memory)
      → fetch_runs vb volume read (cb ∷ cbs) state ≡ ok final
      → (next : Bytes × Memory) × (fetch_run vb volume read cb state ≡ ok next)
        × (fetch_runs vb volume read cbs next ≡ ok final)
  unfolding fetch_runs
  fetch_runs_cons cb cbs state final h = elim (Result-cases (fetch_run vb volume read cb state)) [
    | inr (x, e) ↦ absurd (ground (arith, e, h))
    | inl (next, e) ↦ (next, e, ground (arith, e, h))
  ]

  pub fetch_loop-Settles :
      (cs : List ConsecutiveBlock) (seen : List ℕ) (state final : Bytes × Memory)
      → IsValid state.1.store
      → length cs < u16
      → Fits cs
      → fetch_runs vb volume read (blocks_to_read vb seen cs) state ≡ ok final
      → Settles cs seen state final
  unfolding blocks_to_read fetch_runs was_read
  fetch_loop-Settles [] seen state final v short fits h =
      let same : state ≡ final = ground (arith, h) in
      (
        subst (λ t. IsAbove state.1.store t.1.store) same (record { valid = v; keeps = λ b k. k }),
        λ b k. absurd (ground (arith, k)),
      )
  fetch_loop-Settles (c ∷ cs) seen state final v short (top, fits) h =
      let run = run_after c cs in
      elim (Bool-cases (was_read c.start_block seen)) [
        | inl before ↦
            let rest =
              fetch_loop-Settles cs seen state final v (omega (arith, short)) fits
                (ground (arith, before, h)) in
            (
              rest.0,
              λ b k. elim (Bool-cases (c.start_block == b)) [
                | inl here ↦ inl (ground (arith, here, before))
                | inr other ↦ rest.1 b (ground (arith, other, k))
              ],
            )
        | inr new ↦
            let (next, first, others) =
              fetch_runs_cons (run_of vb c run)
                (blocks_to_read vb (map (λ c. c.start_block) run ++ seen) cs) state final
                (ground (arith, new, h)) in
            let (count, start) =
              num_blocks_of c run (omega (arith, length-run_after c cs, short)) in
            let one = fetch_run-IsAbove (run_of vb c run) state next v first in
            let rest =
              fetch_loop-Settles cs (map (λ c. c.start_block) run ++ seen) next final one.0.valid
                (omega (arith, short)) fits others in
            let in_run = λ (j : ℕ) (l : j < suc (length run)). rest.0.keeps (c.start_block + j) (
              subst (λ x. IsAtHand next.1.store (x + j)) start
                (one.1 j (omega (arith, l, count)))) in
            (
              IsAbove-trans _ _ _ one.0 rest.0,
              λ b k. elim (Bool-cases (c.start_block == b)) [
                | inl here ↦
                    let q : c.start_block + 0 ≡ b = ground (arith, here) in
                    inr (subst (IsAtHand final.1.store) q (in_run 0 (omega arith)))
                | inr other ↦ elim (rest.1 b (ground (arith, other, k))) [
                  | inr hand ↦ inr hand
                  | inl read_before ↦
                      elim (was_read-append b (map (λ c. c.start_block) run) seen read_before) [
                        | inr old ↦ inl old
                        | inl mine ↦
                            let (j, l, e) = run_member c cs b (omega (arith, top)) mine in
                            inr (
                              subst (IsAtHand final.1.store) (sym e)
                                (in_run (suc j) (omega (arith, l))))
                      ]
                ]
              ],
            )
      ]
