-- ===== src/Device/Patch.antt =====
-- The block that `writeOneBlockLocked` builds: the bytes as they were, and the caller's.
use viperblock.Prelude.{
  ℕ, ◌+◌, ◌-◌, ◌*◌, ◌/◌, ◌≤◌, ◌<◌, ◌≡◌, refl, ◌∙◌, ◌&&◌, arith, ltb, leb, if◌then◌else◌, length,
  get_or, replicate, length-replicate, Bool-cases, inl, inr,
}
use native.Mathlib.Nat.{mul-div_cancel, div-eq_of_lt-le}
use viperblock.Words.{u64}
use viperblock.Bytes.{Bytes}
use viperblock.Lookup.{block_stride}
use viperblock.Device.{copy_into}
use viperblock.Device.Buffer.{get_or-copy_into, length-copy_into}
use viperblock.Device.Decode.{IsCodec}
use viperblock.Device.Read.{Volume}
use viperblock.Device.ReadAt.{IsRequest, blocks_of}
use viperblock.Device.Write.{spliced}

-- the request for one whole block

pub whole_block :
    (vb : Volume) (b : ℕ)
    → IsCodec vb.codec
    → b * vb.codec.block_size + vb.codec.block_size < u64
    → IsRequest vb (b * vb.codec.block_size) vb.codec.block_size
unfolding block_stride
whole_block vb b codec inside =
    let size = vb.codec.block_size in
    let start : b * size / size ≡ b = mul-div_cancel b codec.positive in
    let next : (b + 1) * size ≡ b * size + size = grind arith in
    let end : (b * size + size - 1) / size ≡ b =
      div-eq_of_lt-le size (omega (arith, codec)) (omega (arith, next, codec)) in
    let one : blocks_of size (b * size) size ≡ 1 = rw (start, end) (omega arith) in
    record {
      inside = inside;
      some_bytes = codec.positive;
      few = omega (arith, one);
      small = rw one (elim (Bool-cases vb.codec.encryption_enabled) [
        | inl e ↦ ground (arith, e, codec)
        | inr e ↦ ground (arith, e, codec)
      ]);
    }

-- Byte `k` of a spliced block.
module _ (size start end : ℕ) (patch existing : Bytes) (l : start ≤ end) (u : end ≤ size)
    (w : length patch ≡ end - start) where
  abbrev pub base : Bytes
  base = copy_into 0 size existing (replicate size 0)

  length-base : length base ≡ size
  length-base =
      length-copy_into 0 size existing (replicate size 0)
        (omega (arith, length-replicate {A = ℕ} size 0))
      ∙ length-replicate size 0

  pub length-spliced : length (spliced size start end patch existing) ≡ size
  length-spliced =
      length-copy_into start (end - start) patch base (omega (arith, length-base, l, u))
      ∙ length-base

  pub get_or-spliced :
      (k : ℕ)
      → get_or (spliced size start end patch existing) k 0
        ≡ (if leb start k && ltb k end then get_or patch (k - start) 0 else get_or base k 0)
  get_or-spliced k =
      let e : start + (end - start) ≡ end = omega (arith, l) in
      get_or-copy_into start (end - start) patch base (omega (arith, length-base, l, u)) k
        (omega (arith, w))
      ∙ rw e refl

  pub get_or-base :
      (k : ℕ) → size ≤ length existing → k < size → get_or base k 0 ≡ get_or existing k 0
  get_or-base k full h =
      let e : k - 0 ≡ k = omega arith in
      get_or-copy_into 0 size existing (replicate size 0)
        (omega (arith, length-replicate {A = ℕ} size 0)) k full
      ∙ ground (arith, h, e)
