-- ===== src/Device/Decode.antt =====
-- What the bytes of a run decode to, with and without encryption.
use viperblock.Prelude.{
  ℕ, zero, suc, ◌+◌, ◌-◌, ◌*◌, ◌%◌, ◌⊎◌, ◌≤◌, ◌<◌, ◌≡◌, refl, sym, ap, subst, ◌∙◌, true, false,
  none, some, Option, List, [], ◌∷◌, ◌++◌, map, arith, if◌then◌else◌, length, take, drop, get_or,
  get_or-drop, get_elem?, take-append, drop-append, length-take, length-drop, Option-cases, inl,
  inr,
}
use viperblock.Words.{u32, u64, add64}
use viperblock.Bytes.{Bytes, slice}
use viperblock.Crypto.{make_nonce, make_aad, update_aad, domain_chunk}
use viperblock.Lookup.{block_stride}
use viperblock.Wal.{Aead}
use viperblock.Device.{Result, ok, err, ReadError, Codec, Source, ConsecutiveBlock, open_blocks}
use viperblock.Device.Runs.{Chain}
use viperblock.Device.Buffer.{take-take, slice-slice, drop-slice, length-slice, get_or-take_all}

-- What is documented of a cipher with a 16-byte tag: a text that it opens has the tag's length less.

pub record IsOpener (aead : Aead) : Type 0 where
  pub length-unseal : (n c a p : Bytes) → aead.unseal n c a ≡ some p → length c ≡ length p + 16

pub record IsCodec (vb : Codec) : Type 0 where
  pub positive : 0 < vb.block_size
  pub small : vb.block_size + 16 < u32
  pub cipher : IsOpener vb.aead

-- bytes of a block on a chunk, by the objects of its volume
unfoldable pub plain_of : Option Bytes → Bytes
plain_of none = []
plain_of (some p) = p

unfoldable pub content : Codec → Source → (ℕ → Bytes) → ConsecutiveBlock → Bytes
content vb volume objects c =
    let raw =
      slice c.object_offset (block_stride vb.block_size vb.encryption_enabled)
        (objects c.object_id) in
    if vb.encryption_enabled
    then plain_of (
        vb.aead.unseal (make_nonce c.seq_num volume.uuid domain_chunk) raw
          (make_aad volume.name_hash c.start_block c.seq_num))
    else raw

-- The blocks lie one after the other from index `k` of a run.
abbrev pub AllAt : ℕ → ℕ → ℕ → ℕ → ℕ → List ConsecutiveBlock → Type 0
AllAt start id offset stride k [] = Unit {0}
AllAt start id offset stride k (c ∷ cs) =
    (c.start_block ≡ start + k)
    × (c.object_id ≡ id)
    × (c.object_offset ≡ offset + k * stride)
    × AllAt start id offset stride (suc k) cs

pub Result-cases {ℓ} :
    {A : Type ℓ} (r : Result A) → ((a : A) × (r ≡ ok a)) ⊎ ((e : ReadError) × (r ≡ err e))
Result-cases (ok a) = inl (a, refl)
Result-cases (err e) = inr (e, refl)

fits_in : (k m count s : ℕ) → k + suc m ≡ count → k * s + s ≤ count * s
fits_in k m count s z = rw (sym z) (grind arith)

plain_some : (p : Bytes) → plain_of (some p) ≡ p
unfolding plain_of
plain_some p = refl

mul_suc : (k s : ℕ) → suc k * s ≡ k * s + s
mul_suc k s = grind arith

pub Chain-AllAt :
    (start id offset stride k : ℕ) (c : ConsecutiveBlock) (cs : List ConsecutiveBlock)
    → c.start_block ≡ start + k
    → c.object_id ≡ id
    → c.object_offset ≡ offset + k * stride
    → Chain stride c cs
    → AllAt start id offset stride k (c ∷ cs)
Chain-AllAt start id offset stride k c [] s o f h = (s, o, f, tt)
Chain-AllAt start id offset stride k c (d ∷ ds) s o f (p, s', o', f', h) = (
  s,
  o,
  f,
  Chain-AllAt start id offset stride (suc k) d ds (omega (arith, s, s')) (o' ∙ o)
      (omega (arith, f, f', mul_suc k stride)) h,
)

module _ (vb : Codec) (volume : Source) (objects : ℕ → Bytes) where
  -- `out` is the blocks' bytes, one block after the other.
  abbrev pub Decoded : List ConsecutiveBlock → Bytes → Type 0
  Decoded [] out = out ≡ []
  Decoded (c ∷ cs) out =
      (length (content vb volume objects c) ≡ vb.block_size)
      × (take vb.block_size out ≡ content vb volume objects c)
      × Decoded cs (drop vb.block_size out)

  nothing : (out : Bytes) → length out ≡ 0 → out ≡ []
  nothing [] h = refl
  nothing (x ∷ xs) h = absurd (omega (arith, h))

  pub get_or-Decoded :
      (cs : List ConsecutiveBlock) (out : Bytes) (j k : ℕ) (c : ConsecutiveBlock)
      → Decoded cs out
      → get_elem? cs j ≡ some c
      → k < vb.block_size
      → get_or out (j * vb.block_size + k) 0 ≡ get_or (content vb volume objects c) k 0
  get_or-Decoded [] out j k c h e l = absurd (ground (arith, e))
  get_or-Decoded (d ∷ cs) out zero k c (n, t, h) e l =
      let first : 0 * vb.block_size + k ≡ k = omega arith in
      let same : d ≡ c = ground (arith, e) in
      ap (λ i. get_or out i 0) first
      ∙ ground (arith, l, get_or-take_all vb.block_size k out)
      ∙ ap (λ b. get_or b k 0) t
      ∙ ap (λ x. get_or (content vb volume objects x) k 0) same
  get_or-Decoded (d ∷ cs) out (suc j) k c (n, t, h) e l =
      let later : suc j * vb.block_size + k ≡ vb.block_size + (j * vb.block_size + k) =
        omega (arith, mul_suc j vb.block_size) in
      ap (λ i. get_or out i 0) later
      ∙ sym (get_or-drop vb.block_size (j * vb.block_size + k) out 0)
      ∙ get_or-Decoded cs (drop vb.block_size out) j k c h e l

  pub length-Decoded :
      (cs : List ConsecutiveBlock) (out : Bytes)
      → Decoded cs out
      → length out ≡ length cs * vb.block_size
  length-Decoded [] out h = omega (arith, ap length h)
  length-Decoded (c ∷ cs) out (n, t, h) = omega (
    arith,
    n,
    ap length t,
    length-take vb.block_size out,
    length-drop vb.block_size out,
    length-Decoded cs (drop vb.block_size out) h,
    mul_suc (length cs) vb.block_size,
  )

  content_plain :
      (c : ConsecutiveBlock)
      → vb.encryption_enabled ≡ false
      → content vb volume objects c ≡ slice c.object_offset vb.block_size (objects c.object_id)
  unfolding content block_stride
  content_plain c e = rw e refl

  pub plain-Decoded :
      (start id offset k : ℕ) (cs : List ConsecutiveBlock) (out : Bytes)
      → vb.encryption_enabled ≡ false
      → AllAt start id offset vb.block_size k cs
      → out ≡ slice (offset + k * vb.block_size) (length cs * vb.block_size) (objects id)
      → length out ≡ length cs * vb.block_size
      → Decoded cs out
  plain-Decoded start id offset k [] out plain h e n = nothing out (omega (arith, n))
  plain-Decoded start id offset k (c ∷ cs) out plain (s, o, f, h) e n =
      let size = vb.block_size in
      let from = offset + k * size in
      let all = mul_suc (length cs) size in
      let first : take size out ≡ slice from size (objects id) =
        ap (take size) e ∙ take-take size (suc (length cs) * size) _ (omega (arith, all)) in
      let same : content vb volume objects c ≡ slice from size (objects id) =
        content_plain c plain ∙ rw (f, o) refl in
      let rest : suc (length cs) * size - size ≡ length cs * size = omega (arith, all) in
      let next : from + size ≡ offset + suc k * size = omega (arith, mul_suc k size) in
      (
        ap length same ∙ sym (ap length first) ∙ omega (arith, length-take size out, n, all),
        first ∙ sym same,
        plain-Decoded start id offset (suc k) cs (drop size out) plain h
            (ap (drop size) e
              ∙ drop-slice size from (suc (length cs) * size) (objects id)
              ∙ rw (rest, next) refl)
            (omega (arith, length-drop size out, n, all)),
      )

  content_sealed :
      (c : ConsecutiveBlock)
      → vb.encryption_enabled ≡ true
      → vb.block_size + 16 < u32
      → content vb volume objects c
        ≡ plain_of (
            vb.aead.unseal
              (make_nonce c.seq_num volume.uuid domain_chunk)
              (slice c.object_offset (vb.block_size + 16) (objects c.object_id))
              (make_aad volume.name_hash c.start_block c.seq_num))
  unfolding content block_stride
  content_sealed c e small =
      let wide : (vb.block_size + 16) % u32 ≡ vb.block_size + 16 = omega arith in rw (e, wide) refl

  -- The buffer of associated data holds the hash of the volume's name.
  abbrev Primed : Bytes → Type 0
  Primed aad = take 32 aad ≡ volume.name_hash

  filled : (aad : Bytes) (b n : ℕ) → Primed aad → update_aad aad b n ≡ make_aad volume.name_hash b n
  unfolding update_aad make_aad
  filled aad b n h = rw h refl

  primed :
      (aad : Bytes) (b n : ℕ)
      → length volume.name_hash ≡ 32
      → Primed aad
      → Primed (update_aad aad b n)
  unfolding update_aad
  primed aad b n l h = rw h (take-append 32 volume.name_hash _ l)

  -- what a loop that succeeds went through
  open_one :
      (start k : ℕ) (aad ciphertext : Bytes) (seq_num : ℕ) (seq_nums : List ℕ) (out : Bytes)
      → open_blocks vb volume start k aad ciphertext (seq_num ∷ seq_nums) ≡ ok out
      → (p more : Bytes) × (vb.aead.unseal
            (make_nonce seq_num volume.uuid domain_chunk)
            (slice (k * (vb.block_size + 16)) (vb.block_size + 16) ciphertext)
            (update_aad aad (add64 start k) seq_num)
          ≡ some p)
        × (open_blocks vb volume start
              (suc k)
              (update_aad aad (add64 start k) seq_num)
              ciphertext
              seq_nums
            ≡ ok more)
        × (out ≡ p ++ more)
  unfolding open_blocks
  open_one start k aad ciphertext seq_num seq_nums out h =
      let aad' = update_aad aad (add64 start k) seq_num in
      let sealed = slice (k * (vb.block_size + 16)) (vb.block_size + 16) ciphertext in
      elim (Option-cases
        (vb.aead.unseal (make_nonce seq_num volume.uuid domain_chunk) sealed aad')) [
          | inl e ↦ absurd (ground (arith, e, h))
          | inr (p, e) ↦
              elim (Result-cases (open_blocks vb volume start (suc k) aad' ciphertext seq_nums)) [
                | inr (x, r) ↦ absurd (ground (arith, e, r, h))
                | inl (more, r) ↦ (p, more, e, r, ground (arith, e, r, h))
              ]
        ]

  pub sealed-Decoded :
      (start id offset count k : ℕ) (cs : List ConsecutiveBlock) (aad ciphertext out : Bytes)
      → vb.encryption_enabled ≡ true
      → IsCodec vb
      → length volume.name_hash ≡ 32
      → start + count ≤ u64
      → Primed aad
      → AllAt start id offset (vb.block_size + 16) k cs
      → ciphertext ≡ slice offset (count * (vb.block_size + 16)) (objects id)
      → length ciphertext ≡ count * (vb.block_size + 16)
      → k + length cs ≡ count
      → open_blocks vb volume start k aad ciphertext (map (λ c. c.seq_num) cs) ≡ ok out
      → Decoded cs out
  unfolding open_blocks
  sealed-Decoded start id offset count k [] aad ciphertext out on v l top p h e n z r =
      ground (arith, r)
  sealed-Decoded start id offset count k (c ∷ cs) aad ciphertext out on v l top p (s, o, f, h) e n z
        r =
      let size = vb.block_size + 16 in
      let (plain, more, opened, rest, whole) =
        open_one start k aad ciphertext c.seq_num (map (λ c. c.seq_num) cs) out r in
      let number : add64 start k ≡ c.start_block = omega (arith, s, top, z) in
      let fits : k * size + size ≤ count * size = fits_in k (length cs) count size z in
      let raw : slice (k * size) size ciphertext
          ≡ slice c.object_offset size (objects c.object_id) =
        ap (slice (k * size) size) e
        ∙ slice-slice (k * size) size offset (count * size) (objects id) fits
        ∙ rw (f, o) refl in
      let aad' = make_aad volume.name_hash c.start_block c.seq_num in
      let same_aad : update_aad aad (add64 start k) c.seq_num ≡ aad' =
        filled aad (add64 start k) c.seq_num p
        ∙ ap (λ b. make_aad volume.name_hash b c.seq_num) number in
      let good : content vb volume objects c ≡ plain =
        content_sealed c on v.small
        ∙ ap plain_of (
            ap (λ x. vb.aead.unseal (make_nonce c.seq_num volume.uuid domain_chunk) x aad')
              (sym raw)
            ∙ ap
                (λ a.
                  vb.aead.unseal (make_nonce c.seq_num volume.uuid domain_chunk)
                    (slice (k * size) size ciphertext) a)
                (sym same_aad)
            ∙ opened)
        ∙ plain_some plain in
      let wide : length plain ≡ vb.block_size = omega (
        arith,
        v.cipher.length-unseal _ _ _ plain opened,
        length-slice (k * size) size ciphertext (omega (arith, fits, n)),
      ) in
      (
        ap length good ∙ wide,
        ap (take vb.block_size) whole ∙ take-append vb.block_size plain more wide ∙ sym good,
        subst (Decoded cs)
            (sym (ap (drop vb.block_size) whole ∙ drop-append vb.block_size plain more wide))
            (sealed-Decoded start id offset count (suc k) cs
              (update_aad aad (add64 start k) c.seq_num) ciphertext more on v l top
              (primed aad (add64 start k) c.seq_num l p) h e n (omega (arith, z)) rest),
      )
