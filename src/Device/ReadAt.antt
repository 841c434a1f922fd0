-- ===== src/Device/ReadAt.antt =====
-- What `ReadAtCtx` returns, byte by byte.
use viperblock.Prelude.{
  ℕ, suc, ◌+◌, ◌-◌, ◌*◌, ◌/◌, ◌%◌, ◌≤◌, ◌<◌, ◌≡◌, sym, ap, subst, ◌∙◌, arith, ltb, length, get_or,
  Bool-cases, inl, inr,
}
use native.Mathlib.Nat.{div-add-mod', mod-lt, div-le_self}
use viperblock.Words.{u16, u32, u64, add64, sub64}
use viperblock.Bytes.{slice}
use viperblock.Lookup.{block_stride}
use viperblock.Device.{ok, Memory}
use viperblock.Device.Buffer.{get_or-slice, length-slice, mul_le, rows_below, add_rows}
use viperblock.Device.Decode.{IsCodec, Result-cases}
use viperblock.Device.Fetch.{stride_of}
use viperblock.Device.Read.{Volume, Backend, Answer, read_block_store, cut_answer, read_at}
use viperblock.Device.Layers.{World, IsBacked, IsSound, image}
use viperblock.Device.Reads.{read_block_store_ok, read_block_store-IsImage}
use viperblock.Device.Cache.{Kept}
use viperblock.Store.View.{IsValid}
use viperblock.Device.Cached.{IsAtHand}
use viperblock.Device.AtHand.{fetch_all-IsAtHand}
use viperblock.Device.Transparent.{fetch_all-Kept}

-- how many blocks a request of `len` bytes touches, where there are some

abbrev pub blocks_of : ℕ → ℕ → ℕ → ℕ
blocks_of block_size offset len = suc ((offset + len - 1) / block_size - offset / block_size)

-- The request lies in a volume of less than 2 ^ 64 bytes, and the blocks that it touches are fewer than
-- 65,536 and have less than 4 GiB on a chunk.
pub record IsRequest (vb : Volume) (offset len : ℕ) : Type 0 where
  pub inside : offset + len < u64
  pub some_bytes : 0 < len
  pub few : blocks_of vb.codec.block_size offset len < u16
  pub small : blocks_of vb.codec.block_size offset len * stride_of vb.codec < u32

pub mul_le_right : (n a b : ℕ) → a ≤ b → n * a ≤ n * b
mul_le_right n a b h = grind arith

pub rows_of :
    (s offset len : ℕ)
    → 0 < s
    → 0 < len
    → offset + len < u64
    → let first = offset / s in
      let n = blocks_of s offset len in
      (first * s + offset % s ≡ offset)
      × (offset % s < s)
      × (first ≤ (offset + len - 1) / s)
      × (offset + len ≤ (first + n) * s)
      × (first + n < u64)
rows_of s offset len positive some_bytes inside =
    let q = offset / s in
    let r = offset % s in
    let q' = (offset + len - 1) / s in
    let split : q * s + r ≡ offset = div-add-mod' offset s in
    let low : r < s = mod-lt offset positive in
    let split' : q' * s + (offset + len - 1) % s ≡ offset + len - 1 =
      div-add-mod' (offset + len - 1) s in
    let low' : (offset + len - 1) % s < s = mod-lt (offset + len - 1) positive in
    let order : q ≤ q' = elim (Bool-cases (ltb q' q)) [
      | inr no_less ↦ ground (arith, no_less)
      | inl less ↦
          absurd (omega (arith, rows_below q' q s (ground (arith, less)), split, split', low'))
    ] in
    let last : q + suc (q' - q) ≡ suc q' = omega (arith, order) in
    let size : suc q' * s ≡ q' * s + s = grind arith in
    (
      split,
      low,
      order,
      rw last (omega (arith, size, split', low')),
      rw last (omega (arith, inside, div-le_self (offset + len - 1) s)),
    )

module _ (vb : Volume) (world : World) (backend : Backend) (m : Memory) (codec : IsCodec vb.codec)
    (offset len : ℕ) (request : IsRequest vb offset len) where
  abbrev first : ℕ
  first = offset / vb.codec.block_size

  abbrev n : ℕ
  n = blocks_of vb.codec.block_size offset len

  -- the first and the last byte lie in the blocks that are read
  bounds :
      (first * vb.codec.block_size + offset % vb.codec.block_size ≡ offset)
      × (offset % vb.codec.block_size < vb.codec.block_size)
      × (first ≤ (offset + len - 1) / vb.codec.block_size)
      × (offset + len ≤ (first + n) * vb.codec.block_size)
      × (first + n < u64)
  bounds = rows_of vb.codec.block_size offset len codec.positive request.some_bytes request.inside

  -- the row of byte `j` of the request, in what is read
  row_of :
      (j b k : ℕ)
      → j < len
      → k < vb.codec.block_size
      → offset + j ≡ b * vb.codec.block_size + k
      → (first ≤ b)
        × (b - first < n)
        × (offset % vb.codec.block_size + j ≡ (b - first) * vb.codec.block_size + k)
  row_of j b k l u at =
      let size = vb.codec.block_size in
      let (split, low, order, over, top) = bounds in
      let up : first ≤ b = elim (Bool-cases (ltb b first)) [
        | inr no_less ↦ ground (arith, no_less)
        | inl less ↦
            absurd (omega (arith, rows_below b first size (ground (arith, less)), split, at, u))
      ] in
      let below : b < first + n = elim (Bool-cases (ltb b (first + n))) [
        | inl less ↦ ground (arith, less)
        | inr past ↦
            absurd (omega (arith, mul_le (first + n) b size (ground (arith, past)), over, at, l))
      ] in
      let e : first + (b - first) ≡ b = omega (arith, up) in
      let parts : b * size ≡ first * size + (b - first) * size =
        ap (λ x. x * size) (sym e) ∙ add_rows first (b - first) size in
      (up, omega (arith, up, below), omega (arith, parts, split, at))

  read_at_inner :
      (a : Answer)
      → read_at vb backend offset len m ≡ ok a
      → (b : Answer) × (read_block_store vb backend first
            ((add64 (sub64 (sub64 (add64 offset len) 1 / vb.codec.block_size) first) 1
                * vb.codec.block_size)
              % u64)
            m
          ≡ ok b)
        × (cut_answer (offset % vb.codec.block_size) len b ≡ ok a)
  unfolding read_at
  read_at_inner a h =
      elim (Result-cases (
        read_block_store vb backend first
          ((add64 (sub64 (sub64 (add64 offset len) 1 / vb.codec.block_size) first) 1
              * vb.codec.block_size)
            % u64)
          m)) [
            | inr (x, e) ↦ absurd (ground (arith, e, h))
            | inl (b, e) ↦ (b, e, ground (arith, e, h))
          ]

  cut_parts :
      (a b : Answer) (inner : ℕ)
      → cut_answer inner len b ≡ ok a
      → (a.bytes ≡ slice inner len b.bytes) × (a.memory ≡ b.memory)
  unfolding cut_answer
  cut_parts a b inner h = (ground (arith, h), ground (arith, h))

  wide : vb.codec.block_size ≤ stride_of vb.codec
  unfolding block_stride
  wide = elim (Bool-cases vb.codec.encryption_enabled) [
    | inl e ↦ ground (arith, e, codec)
    | inr e ↦ ground (arith, e)
  ]

  -- what is asked of `readBlockStore`
  asked_bytes :
      (add64 (sub64 (sub64 (add64 offset len) 1 / vb.codec.block_size) first) 1
          * vb.codec.block_size)
        % u64
      ≡ n * vb.codec.block_size
  asked_bytes =
      let size = vb.codec.block_size in
      let (split, low, order, over, top) = bounds in
      let end : add64 offset len ≡ offset + len = omega (arith, request) in
      let final : sub64 (add64 offset len) 1 ≡ offset + len - 1 = omega (arith, request, end) in
      let count : add64 (sub64 (sub64 (add64 offset len) 1 / size) first) 1 ≡ n =
        ap (λ x. add64 (sub64 (x / size) first) 1) final ∙ omega (arith, order, top) in
      let width : n * size < u64 =
        omega (arith, request, mul_le_right n size (stride_of vb.codec) wide) in
      ap (λ x. (x * size) % u64) count ∙ omega (arith, width)

  read_at_ok :
      (a : Answer)
      → read_at vb backend offset len m ≡ ok a
      → (b : Answer) × (read_block_store vb backend first (n * vb.codec.block_size) m ≡ ok b)
        × (a.bytes ≡ slice (offset % vb.codec.block_size) len b.bytes)
        × (a.memory ≡ b.memory)
  read_at_ok a h =
      let (b, e, cut) = read_at_inner a h in
      let (bytes, memory) = cut_parts a b (offset % vb.codec.block_size) cut in
      (b, ap (λ x. read_block_store vb backend first x m) (sym asked_bytes) ∙ e, bytes, memory)

  -- A request within the volume succeeds where its blocks can be read.
  pub read_at_done :
      (b : Answer)
      → offset + len ≤ vb.size
      → read_block_store vb backend first (n * vb.codec.block_size) m ≡ ok b
      → length b.bytes ≡ n * vb.codec.block_size
      → read_at vb backend offset len m
        ≡ ok (record b { bytes = slice (offset % vb.codec.block_size) len b.bytes })
  unfolding read_at cut_answer
  read_at_done b within e whole =
      let size = vb.codec.block_size in
      let inner = offset % size in
      let (split, low, order, over, top) = bounds in
      let end : add64 offset len ≡ offset + len = omega (arith, request) in
      let read = ap (λ x. read_block_store vb backend first x m) asked_bytes ∙ e in
      let rows = add_rows first n size in
      let fits : inner + len ≤ n * size = omega (arith, rows, over, split) in
      let sum : add64 inner len ≡ inner + len = omega (arith, split, request) in
      let cut : cut_answer inner len b ≡ ok (record b { bytes = slice inner len b.bytes }) =
        ground (arith, sum, fits, whole) in
      ground (arith, end, within, read, cut)

  -- What ReadAtCtx returns without an error is as long as was asked for, and byte j of it is the
  -- volume's byte at offset + j: that of the block in memory, of its chunk as decrypted, of the
  -- base snapshot, of the first ancestor that has the block, or zero. The backend serves the bytes
  -- of the chunk objects or fails, blocks with neighbouring numbers in one object lie one stride
  -- apart, and the request is not empty and has fewer than 65,536 blocks and less than 4 GiB on a
  -- chunk.
  pub read_at-IsImage :
      (a : Answer)
      → IsBacked vb world backend
      → IsSound vb m.store
      → read_at vb backend offset len m ≡ ok a
      → (length a.bytes ≡ len)
        × ((j b k : ℕ)
            → j < len
            → k < vb.codec.block_size
            → offset + j ≡ b * vb.codec.block_size + k
            → get_or a.bytes j 0 ≡ image vb world m.store b k)
  read_at-IsImage a backed sound h =
      let size = vb.codec.block_size in
      let (answer, e, bytes, memory) = read_at_ok a h in
      let (split, low, order, over, top) = bounds in
      let read =
        read_block_store-IsImage vb world backend first n m answer codec backed sound top
          request.few request.small e in
      let whole : offset % size + len ≤ length answer.bytes =
        omega (arith, read.0, over, split, add_rows first n size) in
      (
        ap length bytes ∙ length-slice (offset % size) len answer.bytes whole,
        λ j b k l u at.
            let (up, below, row) = row_of j b k l u at in
            ap (λ x. get_or x j 0) bytes
            ∙ get_or-slice (offset % size) len j answer.bytes
            ∙ ground (arith, l)
            ∙ ap (λ i. get_or answer.bytes i 0) row
            ∙ read.1 (b - first) k below u
            ∙ ap (λ x. image vb world m.store x k) (omega (arith, up)),
      )

  pub read_at-Kept :
      (a : Answer) (last : ℕ)
      → IsBacked vb world backend
      → IsSound vb m.store
      → read_at vb backend offset len m ≡ ok a
      → Kept vb world m.store last m.store
      → Kept vb world m.store last a.memory.store
  read_at-Kept a last backed sound h held =
      let (b, e, bytes, memory) = read_at_ok a h in
      let (split, low, order, over, top) = bounds in
      let (final, f, same) = read_block_store_ok vb backend first n m b codec.positive e in
      subst (Kept vb world m.store last) (ap (λ t. t.1.store) same ∙ ap (λ t. t.store) (sym memory))
        (fetch_all-Kept vb world backend m.store codec backed sound first n top request.few
          request.small last m final f held)

  pub read_at-IsAtHand :
      (a : Answer) (p : ℕ)
      → IsBacked vb world backend
      → IsSound vb m.store
      → IsValid m.store
      → read_at vb backend offset len m ≡ ok a
      → first ≤ p
      → p < first + n
      → IsAtHand a.memory.store p
  read_at-IsAtHand a p backed sound valid h low high =
      let (b, e, bytes, memory) = read_at_ok a h in
      let (split, below, order, over, top) = bounds in
      let (final, f, same) = read_block_store_ok vb backend first n m b codec.positive e in
      let at : first + (p - first) ≡ p = omega (arith, low) in
      subst (λ t. IsAtHand t p) (ap (λ t. t.1.store) same ∙ ap (λ t. t.store) (sym memory))
        (subst (IsAtHand final.1.store) at (
          fetch_all-IsAtHand vb world backend m.store codec backed sound first n top request.few
            request.small m final (p - first) valid f (omega (arith, low, high))))
