-- ===== src/Device/Remember.antt =====
-- A read leaves every byte of the volume as it was.
use viperblock.Prelude.{
  ℕ, zero, suc, ◌+◌, ◌-◌, ◌*◌, ◌≤◌, ◌<◌, ◌≡◌, sym, ap, subst, ◌∙◌, ◌&&◌, none, some, List, [], ◌∷◌,
  ◌++◌, arith, ltb, leb, if◌then◌else◌, length, get_or, get_elem?, length-append, Bool-cases,
  Option-cases, inl, inr,
}
use viperblock.Words.{u16, u32, u64}
use viperblock.Bytes.{Bytes, slice}
use viperblock.Store.{Store}
use viperblock.Device.{
  ok, Codec, Source, Reader, Memory, ConsecutiveBlock, run_of, run_after, cache_blocks,
  check_chunk_magic, note_checked, is_checked, check_header, place_run, remember, fetch_run,
  fetch_runs, blocks_to_read,
}
use viperblock.Device.Runs.{
  Placed, Packed, Chain, rest_after, run_after-IsRun, AllBelow, AllBelow-weaken, seen_after,
  blocks_to_read_run,
}
use viperblock.Device.Buffer.{mul_le, length-slice, get_or-slice, add_rows, rows_below}
use viperblock.Device.Decode.{IsCodec, content}
use viperblock.Device.Fetch.{IsServed, stride_of, or_content, get_elem?-lt}
use viperblock.Device.Fill.{run_parts, filled_run, num_blocks_of, fetch_runs_ok}
use viperblock.Device.Read.{Volume, Location, Found}
use viperblock.Device.Collect.{found_of}
use viperblock.Device.Layers.{World, image}
use viperblock.Device.Cache.{IsCopy, Kept, cache_blocks-Kept}

-- The check of a chunk's magic does not touch the store.

pub magic_store :
    (vb : Codec) (name : Bytes) (id : ℕ) (read : Reader) (m m' : Memory)
    → check_chunk_magic vb name id read m ≡ ok m'
    → m'.store ≡ m.store
unfolding check_chunk_magic note_checked
magic_store vb name id read m m' h = elim (Bool-cases vb.encryption_enabled) [
  | inr off ↦ ground (arith, off, h)
  | inl on ↦ elim (Bool-cases (is_checked name id m.checked)) [
    | inl before ↦ ground (arith, on, before, h)
    | inr first ↦ elim (Option-cases (read id 0 4)) [
      | inl failed ↦ absurd (ground (arith, on, first, failed, h))
      | inr (header, there) ↦ elim (Option-cases (check_header header)) [
        | inl good ↦ ground (arith, on, first, there, good, h)
        | inr (e, bad) ↦ absurd (ground (arith, on, first, there, bad, h))
      ]
    ]
  ]
]

module _ (vb : Volume) (world : World) (s₀ : Store) (last : ℕ) (volume : Source)
    (objects : ℕ → Bytes) (read : Reader) (codec : IsCodec vb.codec)
    (source : IsServed volume objects read) where
  -- Where a block of the list is on the volume's own chunk, its content is the volume's.
  abbrev pub Owned : List ConsecutiveBlock → Type 0
  Owned [] = Unit {0}
  Owned (c ∷ cs) =
      ((l : Location)
        → found_of vb s₀ c.start_block ≡ Found.own_chunk l
        → (k : ℕ)
        → get_or (content vb.codec volume objects c) k 0 ≡ image vb world s₀ c.start_block k)
      × Owned cs

  Owned-split : (run rest : List ConsecutiveBlock) → Owned (run ++ rest) → Owned run × Owned rest
  Owned-split [] rest h = (tt, h)
  Owned-split (c ∷ cs) rest (h, hs) = let (a, b) = Owned-split cs rest hs in ((h, a), b)

  Owned-at :
      (cs : List ConsecutiveBlock) (j : ℕ) (d : ConsecutiveBlock) (l : Location) (k : ℕ)
      → Owned cs
      → get_elem? cs j ≡ some d
      → found_of vb s₀ d.start_block ≡ Found.own_chunk l
      → get_or (content vb.codec volume objects d) k 0 ≡ image vb world s₀ d.start_block k
  Owned-at [] j d l k h e at = absurd (ground (arith, e))
  Owned-at (c ∷ cs) zero d l k (h, hs) e at =
      let same : c ≡ d = ground (arith, e) in
      ap (λ x. get_or (content vb.codec volume objects x) k 0) (sym same)
      ∙ h l (ap (λ x. found_of vb s₀ x.start_block) same ∙ at) k
      ∙ ap (λ x. image vb world s₀ x.start_block k) same
  Owned-at (c ∷ cs) (suc j) d l k (h, hs) e at = Owned-at cs j d l k hs e at

  Chain-at :
      (stride : ℕ) (c : ConsecutiveBlock) (run : List ConsecutiveBlock) (j : ℕ)
      (d : ConsecutiveBlock)
      → Chain stride c run
      → get_elem? (c ∷ run) j ≡ some d
      → d.start_block ≡ c.start_block + j
  Chain-at stride c run zero d h e = ground (arith, e)
  Chain-at stride c [] (suc j) d h e = absurd (ground (arith, e))
  Chain-at stride c (x ∷ xs) (suc j) d (p, s, o, f, h) e =
      omega (arith, s, Chain-at stride x xs j d h e)

  placed_store :
      (c : ConsecutiveBlock) (run : List ConsecutiveBlock) (out buf : Bytes) (m : Memory) (n : ℕ)
      → (run_of vb.codec c run).num_blocks ≡ n
      → (place_run vb.codec (run_of vb.codec c run) out (buf, m)).1.store
        ≡ cache_blocks vb.codec c.start_block
            (slice
              (c.block_position * vb.codec.block_size)
              (n * vb.codec.block_size)
              (place_run vb.codec (run_of vb.codec c run) out (buf, m)).0)
            0
            n
            m.store
  unfolding place_run remember run_of
  placed_store c run out buf m n e =
      ap
        (λ x.
          cache_blocks vb.codec c.start_block
            (slice (c.block_position * vb.codec.block_size) (x * vb.codec.block_size)
              (place_run vb.codec (run_of vb.codec c run) out (buf, m)).0)
            0 x m.store)
        e

  module _ (c : ConsecutiveBlock) (run : List ConsecutiveBlock) (buf : Bytes) (m : Memory)
      (next : Bytes × Memory) (chain : Chain (stride_of vb.codec) c run)
      (short : suc (length run) < u16) (fits : suc (length run) * stride_of vb.codec < u32)
      (top : c.start_block + suc (length run) ≤ u64)
      (h : fetch_run vb.codec volume read (run_of vb.codec c run) (buf, m) ≡ ok next)
      (room : (c.block_position + suc (length run)) * vb.codec.block_size ≤ length buf) where
    abbrev piece : ℕ → Bytes
    piece j = slice (j * vb.codec.block_size) vb.codec.block_size (
        slice (c.block_position * vb.codec.block_size) (suc (length run) * vb.codec.block_size)
          next.0)

    piece-IsCopy :
        (j : ℕ) (l : Location)
        → Owned (c ∷ run)
        → j < suc (length run)
        → found_of vb s₀ (c.start_block + j) ≡ Found.own_chunk l
        → IsCopy vb world s₀ (c.start_block + j) (piece j)
    piece-IsCopy j l owned low at =
        let size = vb.codec.block_size in
        let n = suc (length run) in
        let a = c.block_position in
        let filled =
          filled_run vb.codec volume objects read codec source c run buf m next chain short fits top
            h room in
        let (d, e) = get_elem?-lt (c ∷ run) j low in
        let number = Chain-at (stride_of vb.codec) c run j d chain e in
        let rows = add_rows a n size in
        let below = rows_below j n size low in
        (
          length-slice (j * size) size (slice (a * size) (n * size) next.0) (
              omega (
                arith,
                below,
                length-slice (a * size) (n * size) next.0 (omega (arith, filled.0, room, rows)),
              )),
          λ k u.
              let at_row : a * size + (j * size + k) ≡ (a + j) * size + k =
                omega (arith, add_rows a j size) in
              let back : a + j - a ≡ j = omega arith in
              let here = filled.1 (a + j) k u in
              let wanted : (if leb a (a + j) && ltb (a + j) (a + n)
                    then get_elem? (c ∷ run) (a + j - a)
                    else none)
                  ≡ some d =
                ground (arith, low, back, e) in
              get_or-slice (j * size) size k (slice (a * size) (n * size) next.0)
              ∙ ground (arith, u, below, get_or-slice (a * size) (n * size) (j * size + k) next.0)
              ∙ ap (λ i. get_or next.0 i 0) at_row
              ∙ here
              ∙ ap (λ o. or_content vb.codec volume objects k o (get_or buf ((a + j) * size + k) 0))
                  wanted
              ∙ Owned-at (c ∷ run) j d l k owned e (ap (found_of vb s₀) number ∙ at)
              ∙ ap (λ b. image vb world s₀ b k) number,
        )

    run-Kept : Owned (c ∷ run) → Kept vb world s₀ last m.store → Kept vb world s₀ last next.1.store
    run-Kept owned kept =
        let (m', out, magic, d, e) =
          run_parts vb.codec volume objects read codec source c run buf m next chain short fits top
            h in
        let start = magic_store vb.codec volume.name c.object_id read m m' magic in
        let n = suc (length run) in
        let stored : next.1.store
            ≡ cache_blocks vb.codec c.start_block
                (slice (c.block_position * vb.codec.block_size) (n * vb.codec.block_size) next.0) 0
                n m'.store =
          ap (λ t. t.1.store) e
          ∙ placed_store c run out buf m' n
              (num_blocks_of vb.codec volume objects read codec source c run short)
          ∙ ap
              (λ t.
                cache_blocks vb.codec c.start_block
                  (slice (c.block_position * vb.codec.block_size) (n * vb.codec.block_size) t.0) 0 n
                  m'.store)
              (sym e) in
        subst (Kept vb world s₀ last) (sym stored) (
          cache_blocks-Kept vb world s₀ last c.start_block 0 n _ m'.store
            (subst (Kept vb world s₀ last) (sym start) kept)
            (λ j l low high at. piece-IsCopy j l owned (omega (arith, high)) at))

  module _ (base hi : ℕ) (top : base + hi < u64) (short : hi < u16)
      (fits : hi * stride_of vb.codec < u32) where
    pub fetch_loop-Kept :
        (fuel lo : ℕ) (cs : List ConsecutiveBlock) (seen : List ℕ) (buf : Bytes) (m : Memory)
        (final : Bytes × Memory)
        → length cs ≤ fuel
        → Placed base lo hi cs
        → Packed (stride_of vb.codec) cs
        → Owned cs
        → AllBelow (base + lo) seen
        → hi * vb.codec.block_size ≤ length buf
        → fetch_runs vb.codec volume read (blocks_to_read vb.codec seen cs) (buf, m) ≡ ok final
        → Kept vb world s₀ last m.store
        → Kept vb world s₀ last final.1.store
    unfolding blocks_to_read fetch_runs
    fetch_loop-Kept fuel lo [] seen buf m final enough placed packed owned below room h kept =
        subst (Kept vb world s₀ last) (ground (arith, h)) kept
    fetch_loop-Kept zero lo (c ∷ cs) seen buf m final enough placed packed owned below room h kept =
        absurd (omega arith)
    fetch_loop-Kept (suc fuel) lo (c ∷ cs) seen buf m final enough (low, up, at, placed)
          (next_to, packed) owned below room h kept =
        let stride = stride_of vb.codec in
        let run = run_after c cs in
        let rest = rest_after c cs in
        let n = suc (length run) in
        let v = run_after-IsRun base hi stride top c cs up at placed next_to packed in
        let (made, below') =
          blocks_to_read_run vb.codec base hi stride top c cs seen
            (AllBelow-weaken _ _ seen (omega (arith, low, at)) below) v in
        let (next, first, others) =
          fetch_runs_ok vb.codec volume objects read codec source (run_of vb.codec c run)
            (blocks_to_read vb.codec (seen_after c cs seen) rest) (buf, m) final
            (ap (λ l. fetch_runs vb.codec volume read l (buf, m)) (sym made) ∙ h) in
        let rows = mul_le (c.block_position + n) hi vb.codec.block_size (omega (arith, v.within)) in
        let strides = mul_le n hi stride (omega (arith, v.within)) in
        let room' : (c.block_position + n) * vb.codec.block_size ≤ length buf =
          omega (arith, rows, room) in
        let short' : n < u16 = omega (arith, v.within, short) in
        let fits' : n * stride < u32 = omega (arith, strides, fits) in
        let top' : c.start_block + n ≤ u64 = omega (arith, at, v.within, top) in
        let (owned_run, owned_rest) = Owned-split run rest (subst Owned (sym v.whole) owned.1) in
        let one =
          filled_run vb.codec volume objects read codec source c run buf m next v.chain short' fits'
            top' first room' in
        fetch_loop-Kept fuel (suc (c.block_position + length run)) rest (seen_after c cs seen)
          next.0 next.1 final (omega (arith, enough, ap length v.whole, length-append run rest))
          v.placed v.packed owned_rest (AllBelow-weaken _ _ _ (omega (arith, at)) below')
          (omega (arith, one.0, room)) others
          (run-Kept c run buf m next v.chain short' fits' top' first room' (owned.0, owned_run)
            kept)
