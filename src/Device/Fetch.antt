-- ===== src/Device/Fetch.antt =====
-- What a fetch from chunk objects leaves in the buffer.
use viperblock.Prelude.{
  ℕ, zero, suc, ◌+◌, ◌-◌, ◌*◌, ◌≤◌, ◌<◌, ◌≡◌, refl, sym, ap, subst, ◌∙◌, ◌&&◌, true, false, none,
  some, Option, List, [], ◌∷◌, map, arith, ltb, leb, if◌then◌else◌, length, take, get_or, replicate,
  get_elem?, take-append, Bool-cases, Option-cases, inl, inr,
}
use viperblock.Words.{u16, u32, u64, mul32}
use viperblock.Bytes.{Bytes, slice}
use viperblock.Crypto.{init_aad}
use viperblock.Lookup.{block_stride}
use viperblock.Device.{
  ok, Codec, Source, Reader, Memory, ConsecutiveBlock, ConsecutiveRun, copy_into, open_blocks,
  open_chunk_run, run_of, decode_run, place_run, fetch_run, check_chunk_magic,
}
use viperblock.Device.Runs.{wanted_at, Chain}
use viperblock.Device.Decode.{
  IsCodec, content, Decoded, Chain-AllAt, plain-Decoded, sealed-Decoded, get_or-Decoded,
  length-Decoded, Result-cases,
}
use viperblock.Device.Buffer.{
  add_rows, row_in, row_outside, chosen, passed, length-copy_into, get_or-copy_into,
}

-- What the backend's reads of one volume's chunks give, where they give all bytes that were asked for:
-- those of the object. An encrypted volume's name has a hash of 32 bytes.

pub record IsServed (volume : Source) (objects : ℕ → Bytes) (read : Reader) : Type 0 where
  pub hashed : length volume.name_hash ≡ 32
  pub served :
      (id offset n : ℕ) (b : Bytes)
      → read id offset n ≡ some b
      → length b ≡ n
      → b ≡ slice offset n (objects id)

pub get_elem?-lt {ℓ} :
    {A : Type ℓ} (xs : List A) (j : ℕ) → j < length xs → (x : A) × (get_elem? xs j ≡ some x)
get_elem?-lt [] j h = absurd (omega arith)
get_elem?-lt (x ∷ xs) zero h = (x, refl)
get_elem?-lt (x ∷ xs) (suc j) h = get_elem?-lt xs j (omega arith)

abbrev pub stride_of : Codec → ℕ
stride_of vb = block_stride vb.block_size vb.encryption_enabled

module _ (vb : Codec) (volume : Source) (c : ConsecutiveBlock) (run : List ConsecutiveBlock)
    (bytes out : Bytes) (short : suc (length run) < u16)
    (decoded : decode_run vb volume (run_of vb c run) bytes ≡ ok out) where
  sealed_run :
      vb.encryption_enabled ≡ true
      → (length bytes ≡ suc (length run) * (vb.block_size + 16))
        × (open_blocks vb volume c.start_block 0
              (init_aad (replicate 48 0) volume.name_hash)
              bytes
              (map (λ c. c.seq_num) (c ∷ run))
            ≡ ok out)
  unfolding decode_run open_chunk_run run_of
  sealed_run on = ground (arith, on, short, decoded)

  plain_run :
      vb.encryption_enabled ≡ false
      → suc (length run) * vb.block_size < u32
      → (length bytes ≡ suc (length run) * vb.block_size) × (bytes ≡ out)
  unfolding decode_run run_of block_stride
  plain_run off fits = ground (arith, off, short, fits, decoded)

module _ (vb : Codec) (volume : Source) (objects : ℕ → Bytes) where
  -- byte `k` of the block that is wanted, or what was there
  abbrev pub or_content : ℕ → Option ConsecutiveBlock → ℕ → ℕ
  or_content k none old = old
  or_content k (some c) old = get_or (content vb volume objects c) k 0

  -- What a fetch of the blocks `cs` leaves.
  abbrev pub IsFilled : List ConsecutiveBlock → Bytes → Bytes → Type 0
  IsFilled cs old new =
      (length new ≡ length old)
      × ((p k : ℕ)
          → k < vb.block_size
          → get_or new (p * vb.block_size + k) 0
            ≡ or_content k (wanted_at p cs) (get_or old (p * vb.block_size + k) 0))

module _ (vb : Codec) (volume : Source) (objects : ℕ → Bytes) (read : Reader) (codec : IsCodec vb)
    (source : IsServed volume objects read) where
  init_primed : take 32 (init_aad (replicate 48 0) volume.name_hash) ≡ volume.name_hash
  unfolding init_aad
  init_primed = take-append 32 volume.name_hash _ source.hashed

  one_stride : (offset : ℕ) → offset ≡ offset + 0 * stride_of vb
  one_stride offset = omega arith

  pub run-Decoded :
      (c : ConsecutiveBlock) (run : List ConsecutiveBlock) (bytes out : Bytes)
      → Chain (stride_of vb) c run
      → suc (length run) < u16
      → suc (length run) * stride_of vb < u32
      → c.start_block + suc (length run) ≤ u64
      → read c.object_id c.object_offset (suc (length run) * stride_of vb) ≡ some bytes
      → decode_run vb volume (run_of vb c run) bytes ≡ ok out
      → Decoded vb volume objects (c ∷ run) out
  unfolding block_stride
  run-Decoded c run bytes out chain short fits top there decoded =
      elim (Bool-cases vb.encryption_enabled) [
        | inl on ↦
            let stride : stride_of vb ≡ vb.block_size + 16 = ground (arith, on, codec) in
            let (size, opened) = sealed_run vb volume c run bytes out short decoded on in
            let there' : read c.object_id c.object_offset (suc (length run) * (vb.block_size + 16))
                ≡ some bytes =
              subst (λ t. read c.object_id c.object_offset (suc (length run) * t) ≡ some bytes)
                stride there in
            sealed-Decoded vb volume objects c.start_block c.object_id c.object_offset
              (suc (length run)) 0 (c ∷ run) (init_aad (replicate 48 0) volume.name_hash) bytes out
              on codec source.hashed top init_primed
              (Chain-AllAt _ _ _ (vb.block_size + 16) 0 c run (omega arith) refl (omega arith)
                (subst (λ t. Chain t c run) stride chain))
              (source.served _ _ _ bytes there' size) size (omega arith) opened
        | inr off ↦
            let stride : stride_of vb ≡ vb.block_size = ground (arith, off) in
            let (size, same) =
              plain_run vb volume c run bytes out short decoded off
                (subst (λ t. suc (length run) * t < u32) stride fits) in
            let there' : read c.object_id c.object_offset (suc (length run) * vb.block_size)
                ≡ some bytes =
              subst (λ t. read c.object_id c.object_offset (suc (length run) * t) ≡ some bytes)
                stride there in
            let at : c.object_offset + 0 * vb.block_size ≡ c.object_offset = omega arith in
            plain-Decoded vb volume objects c.start_block c.object_id c.object_offset 0 (c ∷ run)
              out off
              (Chain-AllAt _ _ _ vb.block_size 0 c run (omega arith) refl (omega arith)
                (subst (λ t. Chain t c run) stride chain))
              (sym same ∙ source.served _ _ _ bytes there' size ∙ rw at refl)
              (ap length (sym same) ∙ size)
      ]

  pub fetch_run_ok :
      (cb : ConsecutiveRun) (buf : Bytes) (m : Memory) (next : Bytes × Memory)
      → fetch_run vb volume read cb (buf, m) ≡ ok next
      → (m' : Memory) × (bytes out : Bytes) × (check_chunk_magic vb volume.name cb.object_id read m
          ≡ ok m')
        × (read cb.object_id cb.object_offset (mul32 cb.num_blocks (stride_of vb)) ≡ some bytes)
        × (decode_run vb volume cb bytes ≡ ok out)
        × (next ≡ place_run vb cb out (buf, m'))
  unfolding fetch_run
  fetch_run_ok cb buf m next h =
      elim (Result-cases (check_chunk_magic vb volume.name cb.object_id read m)) [
        | inr (x, e) ↦ absurd (ground (arith, e, h))
        | inl (m', e) ↦
            elim (Option-cases
              (read cb.object_id cb.object_offset (mul32 cb.num_blocks (stride_of vb)))) [
                | inl f ↦ absurd (ground (arith, e, f, h))
                | inr (bytes, f) ↦ elim (Result-cases (decode_run vb volume cb bytes)) [
                  | inr (x, g) ↦ absurd (ground (arith, e, f, g, h))
                  | inl (out, g) ↦ (m', bytes, out, e, f, g, ground (arith, e, f, g, h))
                ]
              ]
      ]

  pub placed_run :
      (c : ConsecutiveBlock) (run : List ConsecutiveBlock) (out buf : Bytes) (p k : ℕ)
      → Decoded vb volume objects (c ∷ run) out
      → (c.block_position + suc (length run)) * vb.block_size ≤ length buf
      → k < vb.block_size
      → let n = suc (length run) in
        let filled = copy_into (c.block_position * vb.block_size) (n * vb.block_size) out buf in
        (length filled ≡ length buf)
        × (get_or filled (p * vb.block_size + k) 0
            ≡ or_content vb volume objects k
                (if leb c.block_position p && ltb p (c.block_position + n)
                  then get_elem? (c ∷ run) (p - c.block_position)
                  else none)
                (get_or buf (p * vb.block_size + k) 0))
  placed_run c run out buf p k decoded fits l =
      let n = suc (length run) in
      let s = vb.block_size in
      let a = c.block_position in
      let wide : a * s + n * s ≤ length buf = rw (sym (add_rows a n s)) fits in
      let whole = length-Decoded vb volume objects (c ∷ run) out decoded in
      (
        length-copy_into (a * s) (n * s) out buf wide,
        get_or-copy_into (a * s) (n * s) out buf wide (p * s + k) (omega (arith, whole))
            ∙ elim (Bool-cases (leb a p && ltb p (a + n))) [
              | inl e ↦
                  let lo : a ≤ p = ground (arith, e) in
                  let hi : p < a + n = ground (arith, e) in
                  let (x, y, z) = row_in a p n s k l lo hi in
                  let (d, g) = get_elem?-lt (c ∷ run) (p - a) (omega (arith, lo, hi)) in
                  chosen (leb (a * s) (p * s + k) && ltb (p * s + k) (a * s + n * s)) _ _
                    (ground (arith, x, y))
                  ∙ ap (λ i. get_or out i 0) z
                  ∙ get_or-Decoded vb volume objects (c ∷ run) out (p - a) k d decoded g l
                  ∙ sym (
                      ap (λ o. or_content vb volume objects k o (get_or buf (p * s + k) 0))
                        (chosen _ _ _ e ∙ g))
              | inr e ↦
                  passed (leb (a * s) (p * s + k) && ltb (p * s + k) (a * s + n * s)) _ _
                    (row_outside a p n s k l e)
                  ∙ sym (
                      ap (λ o. or_content vb volume objects k o (get_or buf (p * s + k) 0))
                        (passed _ _ _ e))
            ],
      )
