-- ===== src/Lookup/Pieces.antt =====
-- The head and the tail that survive an insertion describe their blocks as the whole run did.
use viperblock.Prelude.{ℕ, zero, suc, ◌+◌, ◌-◌, ◌≤◌, ◌<◌, ◌≡◌, refl, ap, arith, length, get_or}
use viperblock.Words.{u16, u64, add32, mul32}
use viperblock.Lookup.{
  BlockLookup, seq_num_at, offset_at, slice_from, slice_seq_nums, single_at, head_of, tail_of,
}

-- A run stands under its first block, is not empty, and fits its count and the block numbers.

pub record IsKeyed (k : ℕ) (bl : BlockLookup) : Type 0 where
  pub keyed : bl.start_block ≡ k
  pub filled : 0 < bl.num_blocks
  pub counted : bl.num_blocks < u16
  pub fits : k + bl.num_blocks < u64

pub length-slice_from : (bl : BlockLookup) (from n : ℕ) → length (slice_from bl from n) ≡ n
unfolding slice_from
length-slice_from bl from zero = refl
length-slice_from bl from (suc n) = ap suc (length-slice_from bl (suc from) n)

pub get_or-slice_from :
    (bl : BlockLookup) (from n i : ℕ)
    → i < n
    → get_or (slice_from bl from n) i 0 ≡ seq_num_at bl (from + i)
unfolding slice_from
get_or-slice_from bl from zero i h = absurd (omega arith)
get_or-slice_from bl from (suc n) zero h = let e : from + 0 ≡ from = omega arith in rw e refl
get_or-slice_from bl from (suc n) (suc i) h =
    let e : from + suc i ≡ suc from + i = omega arith in
    rw e (get_or-slice_from bl (suc from) n i (omega arith))

offset_split : (o d i s : ℕ) → add32 (add32 o (mul32 d s)) (mul32 i s) ≡ add32 o (mul32 (d + i) s)
offset_split o d i s = omega arith

module _ (k : ℕ) (bl : BlockLookup) (v : IsKeyed k bl) (b stride : ℕ) where
  -- The head that insertCoalescedLocked leaves of a well-formed run locates each of its blocks, in
  -- object, offset and number, as the whole run did.
  pub single_at-head_of :
      (ns : ℕ)
      → k ≤ b
      → b < ns
      → ns < k + bl.num_blocks
      → single_at (head_of bl ns) stride (b - k) ≡ single_at bl stride (b - k)
  unfolding single_at slice_seq_nums seq_num_at offset_at
  single_at-head_of ns lo hi within =
      ground (arith, v, length-slice_from bl 0 (ns - k), get_or-slice_from bl 0 (ns - k) (b - k))

  -- The tail that insertCoalescedLocked leaves of a well-formed run locates each of its blocks, in
  -- object, offset and number, as the whole run did.
  pub single_at-tail_of :
      (ne : ℕ)
      → k < ne
      → ne ≤ b
      → b < k + bl.num_blocks
      → single_at (tail_of bl ne stride) stride (b - ne) ≡ single_at bl stride (b - k)
  unfolding single_at slice_seq_nums seq_num_at offset_at
  single_at-tail_of ne start lo hi = ground (
    arith,
    v,
    length-slice_from bl (ne - k) (k + bl.num_blocks - ne),
    get_or-slice_from bl (ne - k) (k + bl.num_blocks - ne) (b - ne),
    offset_split bl.object_offset (ne - k) (b - ne) stride,
  )
