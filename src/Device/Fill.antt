-- ===== src/Device/Fill.antt =====
-- What all the runs of a fetch leave in the buffer, at every byte of it.
use viperblock.Prelude.{
  ℕ, zero, suc, ◌+◌, ◌-◌, ◌*◌, ◌≤◌, ◌<◌, ◌≡◌, sym, ap, ◌∙◌, ◌&&◌, none, some, Option, List, [], ◌∷◌,
  arith, ltb, leb, ◌==◌, if◌then◌else◌, length, get_or, get_elem?, length-append, Bool-cases, inl,
  inr,
}
use viperblock.Words.{u16, u32, u64, mul32}
use viperblock.Bytes.{Bytes}
use viperblock.Device.{
  ok, copy_into, Codec, Source, Reader, Memory, ConsecutiveBlock, ConsecutiveRun, run_of, run_after,
  check_chunk_magic, place_run, fetch_run, fetch_runs, blocks_to_read, fetch_consecutive_blocks,
  fetch_base_blocks,
}
use viperblock.Device.Runs.{
  wanted_at, Placed, Packed, Chain, rest_after, run_after-IsRun, AllBelow, AllBelow-weaken,
  seen_after, blocks_to_read_run, absent, get_elem?_cons,
}
use viperblock.Device.Decode.{IsCodec, Decoded, Result-cases}
use viperblock.Device.Buffer.{passed, mul_le}
use viperblock.Device.Fetch.{
  IsServed, stride_of, or_content, IsFilled, placed_run, fetch_run_ok, run-Decoded,
}

module _ (vb : Codec) (volume : Source) (objects : ℕ → Bytes) (read : Reader) (codec : IsCodec vb)
    (source : IsServed volume objects read) where
  -- a later run does not touch what an earlier one has left
  combine :
      (a n p k old : ℕ) (c : ConsecutiveBlock) (run : List ConsecutiveBlock)
      (r w : Option ConsecutiveBlock)
      → w ≡ (if ltb a p && ltb p (suc (a + n)) then get_elem? run (p - suc a) else r)
      → (p < suc (a + n) → r ≡ none)
      → or_content vb volume objects k r (
          or_content vb volume objects k
            (if leb a p && ltb p (a + suc n) then get_elem? (c ∷ run) (p - a) else none)
            old)
        ≡ or_content vb volume objects k (if a == p then some c else w) old
  combine a n p k old c run r w h none_there = elim (Bool-cases (leb a p && ltb p (a + suc n))) [
    | inl e ↦
        let gone : r ≡ none = none_there (ground (arith, e)) in
        let back : p - a - 1 ≡ p - suc a = omega arith in
        let cons = get_elem?_cons c run (p - a) in
        let same : (if leb a p && ltb p (a + suc n) then get_elem? (c ∷ run) (p - a) else none)
            ≡ (if a == p then some c else w) =
          ground (arith, e, h, cons, back) in
        let old' =
          or_content vb volume objects k
            (if leb a p && ltb p (a + suc n) then get_elem? (c ∷ run) (p - a) else none) old in
        ap (λ o. or_content vb volume objects k o old') gone
        ∙ ap (λ o. or_content vb volume objects k o old) same
    | inr e ↦
        let same : (if a == p then some c else w) ≡ r = ground (arith, e, h) in
        ap (λ o. or_content vb volume objects k r (or_content vb volume objects k o old))
          (passed _ _ _ e)
        ∙ sym (ap (λ o. or_content vb volume objects k o old) same)
  ]

  pub num_blocks_of :
      (c : ConsecutiveBlock) (run : List ConsecutiveBlock)
      → suc (length run) < u16
      → (run_of vb c run).num_blocks ≡ suc (length run)
  unfolding run_of
  num_blocks_of c run h = ground (arith, h)

  placed_at :
      (c : ConsecutiveBlock) (run : List ConsecutiveBlock) (out buf : Bytes) (m : Memory)
      → (run_of vb c run).num_blocks ≡ suc (length run)
      → (place_run vb (run_of vb c run) out (buf, m)).0
        ≡ copy_into (c.block_position * vb.block_size) (suc (length run) * vb.block_size) out buf
  unfolding run_of place_run
  placed_at c run out buf m e =
      ap (λ n. copy_into (c.block_position * vb.block_size) (n * vb.block_size) out buf) e

  module _ (c : ConsecutiveBlock) (run : List ConsecutiveBlock) (buf : Bytes) (m : Memory)
      (next : Bytes × Memory) (chain : Chain (stride_of vb) c run) (short : suc (length run) < u16)
      (fits : suc (length run) * stride_of vb < u32) (top : c.start_block + suc (length run) ≤ u64)
      (h : fetch_run vb volume read (run_of vb c run) (buf, m) ≡ ok next) where
    -- what one run of a fetch that succeeds went through
    pub run_parts :
        (m' : Memory) × (out : Bytes) × (check_chunk_magic vb volume.name c.object_id read m
          ≡ ok m')
        × Decoded vb volume objects (c ∷ run) out
        × (next ≡ place_run vb (run_of vb c run) out (buf, m'))
    unfolding run_of
    run_parts =
        let (m', bytes, out, magic, there, decoded, e) =
          fetch_run_ok vb volume objects read codec source (run_of vb c run) buf m next h in
        let asked : mul32 (run_of vb c run).num_blocks (stride_of vb)
            ≡ suc (length run) * stride_of vb =
          ap (λ n. mul32 n (stride_of vb)) (num_blocks_of c run short) ∙ omega (arith, fits) in
        let d =
          run-Decoded vb volume objects read codec source c run bytes out chain short fits top
            (ap (read c.object_id c.object_offset) (sym asked) ∙ there) decoded in
        (m', out, magic, d, e)

    -- and what it leaves in the buffer
    pub filled_run :
        (c.block_position + suc (length run)) * vb.block_size ≤ length buf
        → (length next.0 ≡ length buf)
          × ((p k : ℕ)
              → k < vb.block_size
              → get_or next.0 (p * vb.block_size + k) 0
                ≡ or_content vb volume objects k
                    (if leb c.block_position p && ltb p (c.block_position + suc (length run))
                      then get_elem? (c ∷ run) (p - c.block_position)
                      else none)
                    (get_or buf (p * vb.block_size + k) 0))
    filled_run room =
        let (m', out, magic, d, e) = run_parts in
        let here = placed_run vb volume objects read codec source c run out buf in
        let same : next.0
            ≡ copy_into (c.block_position * vb.block_size) (suc (length run) * vb.block_size) out
                buf =
          ap (λ s. s.0) e ∙ placed_at c run out buf m' (num_blocks_of c run short) in
        (
          ap length same ∙ (here 0 0 d room codec.positive).0,
          λ p k l. ap (λ b. get_or b (p * vb.block_size + k) 0) same ∙ (here p k d room l).1,
        )

  pub fetch_runs_ok :
      (cb : ConsecutiveRun) (cbs : List ConsecutiveRun) (state final : Bytes × Memory)
      → fetch_runs vb volume read (cb ∷ cbs) state ≡ ok final
      → (next : Bytes × Memory) × (fetch_run vb volume read cb state ≡ ok next)
        × (fetch_runs vb volume read cbs next ≡ ok final)
  unfolding fetch_runs
  fetch_runs_ok cb cbs state final h = elim (Result-cases (fetch_run vb volume read cb state)) [
    | inr (x, e) ↦ absurd (ground (arith, e, h))
    | inl (next, e) ↦ (next, e, ground (arith, e, h))
  ]

  module _ (base hi : ℕ) (top : base + hi < u64) (short : hi < u16)
      (fits : hi * stride_of vb < u32) where
    fetch_loop :
        (fuel lo : ℕ) (cs : List ConsecutiveBlock) (seen : List ℕ) (buf : Bytes) (m : Memory)
        (final : Bytes × Memory)
        → length cs ≤ fuel
        → Placed base lo hi cs
        → Packed (stride_of vb) cs
        → AllBelow (base + lo) seen
        → hi * vb.block_size ≤ length buf
        → fetch_runs vb volume read (blocks_to_read vb seen cs) (buf, m) ≡ ok final
        → IsFilled vb volume objects cs buf final.0
    unfolding blocks_to_read fetch_runs wanted_at
    fetch_loop fuel lo [] seen buf m final enough placed packed below room h =
        let same : buf ≡ final.0 = ground (arith, h) in
        (ap length (sym same), λ p k l. ap (λ b. get_or b (p * vb.block_size + k) 0) (sym same))
    fetch_loop zero lo (c ∷ cs) seen buf m final enough placed packed below room h =
        absurd (omega arith)
    fetch_loop (suc fuel) lo (c ∷ cs) seen buf m final enough (low, up, at, placed)
          (next_to, packed) below room h =
        let stride = stride_of vb in
        let run = run_after c cs in
        let rest = rest_after c cs in
        let n = suc (length run) in
        let v = run_after-IsRun base hi stride top c cs up at placed next_to packed in
        let (made, below') =
          blocks_to_read_run vb base hi stride top c cs seen
            (AllBelow-weaken _ _ seen (omega (arith, low, at)) below) v in
        let (next, first, others) =
          fetch_runs_ok (run_of vb c run) (blocks_to_read vb (seen_after c cs seen) rest) (buf, m)
            final (ap (λ l. fetch_runs vb volume read l (buf, m)) (sym made) ∙ h) in
        let rows = mul_le (c.block_position + n) hi vb.block_size (omega (arith, v.within)) in
        let strides = mul_le n hi stride (omega (arith, v.within)) in
        let one =
          filled_run c run buf m next v.chain (omega (arith, v.within, short))
            (omega (arith, strides, fits)) (omega (arith, at, v.within, top)) first
            (omega (arith, rows, room)) in
        let more =
          fetch_loop fuel (suc (c.block_position + length run)) rest (seen_after c cs seen) next.0
            next.1 final (omega (arith, enough, ap length v.whole, length-append run rest)) v.placed
            v.packed (AllBelow-weaken _ _ _ (omega (arith, at)) below') (omega (arith, one.0, room))
            others in
        (
          more.0 ∙ one.0,
          λ p k l.
              more.1 p k l
              ∙ ap (or_content vb volume objects k (wanted_at p rest)) (one.1 p k l)
              ∙ combine c.block_position (length run) p k _ c run (wanted_at p rest)
                  (wanted_at p cs) (v.wanted p)
                  (λ early. absent base hi stride top _ p rest v.placed early),
        )

    pub fetch_consecutive_blocks-IsFilled :
        (cs : List ConsecutiveBlock) (buf : Bytes) (m : Memory) (final : Bytes × Memory)
        → Placed base 0 hi cs
        → Packed (stride_of vb) cs
        → hi * vb.block_size ≤ length buf
        → fetch_consecutive_blocks vb volume read cs (buf, m) ≡ ok final
        → IsFilled vb volume objects cs buf final.0
    unfolding fetch_consecutive_blocks
    fetch_consecutive_blocks-IsFilled cs buf m final placed packed room h =
        fetch_loop (length cs) 0 cs [] buf m final (omega arith) placed packed tt room h

    pub fetch_base_blocks-IsFilled :
        (cs : List ConsecutiveBlock) (buf : Bytes) (m : Memory) (final : Bytes × Memory)
        → Placed base 0 hi cs
        → Packed (stride_of vb) cs
        → hi * vb.block_size ≤ length buf
        → fetch_base_blocks vb volume read cs (buf, m) ≡ ok final
        → IsFilled vb volume objects cs buf final.0
    unfolding fetch_base_blocks
    fetch_base_blocks-IsFilled cs buf m final placed packed room h =
        elim (Bool-cases (length volume.name == 0)) [
          | inl e ↦ absurd (ground (arith, e, h))
          | inr e ↦
              fetch_loop (length cs) 0 cs [] buf m final (omega arith) placed packed tt room
                (ground (arith, e, h))
        ]
