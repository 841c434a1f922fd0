-- ===== src/Drain/Cut.antt =====
-- The cut of sorted blocks into chunks.
use viperblock.Prelude.{
  ℕ, ◌+◌, ◌*◌, ◌<◌, ◌≡◌, refl, sym, ap, subst, ◌∙◌, inl, inr, true, false, List, [], ◌∷◌, ◌++◌, map,
  arith, Bool-cases, leb, length, length-append, append_assoc, append_nil,
}
use viperblock.Bytes.{Bytes}
use viperblock.Store.Census.{Block}
use viperblock.Drain.{ChunkJob, matched, cut_chunks}

-- Every block has the data of one block.

abbrev pub AllFull : ℕ → List Block → Type 0
AllFull block_size [] = Unit {0}
AllFull block_size (b ∷ bs) = (length b.bytes ≡ block_size) × AllFull block_size bs

-- the data of some blocks, and those of some chunks, one after the other
unfoldable pub all_bytes : List Block → Bytes
all_bytes [] = []
all_bytes (b ∷ bs) = b.bytes ++ all_bytes bs

unfoldable pub all_bufs : List ChunkJob → Bytes
all_bufs [] = []
all_bufs (job ∷ jobs) = job.buf ++ all_bufs jobs

unfoldable pub all_blocks : List ChunkJob → List Block
all_blocks [] = []
all_blocks (job ∷ jobs) = job.blocks ++ all_blocks jobs

-- A chunk holds the data of each of its blocks, and less than one block more than the size.
abbrev pub AllFit : ℕ → ℕ → List ChunkJob → Type 0
AllFit block_size size [] = Unit {0}
AllFit block_size size (job ∷ jobs) =
    (length job.buf ≡ length job.blocks * block_size)
    × (0 < length job.blocks)
    × (length job.buf < size + block_size)
    × AllFit block_size size jobs

-- The chunks hold the blocks and the data, in order.
abbrev pub Holds : ℕ → ℕ → List Block → Bytes → List ChunkJob → Type 0
Holds block_size size blocks bytes jobs =
    (all_blocks jobs ≡ blocks) × (all_bufs jobs ≡ bytes) × AllFit block_size size jobs

module _ (block_size size : ℕ) (filled : 0 < block_size) where
  cut_full :
      (buf : Bytes) (blocks : List Block) (b : Block) (bs : List Block)
      → leb size (length (buf ++ b.bytes)) ≡ true
      → cut_chunks size buf blocks (b ∷ bs)
        ≡ record { buf = buf ++ b.bytes; blocks = blocks ++ (matched b ∷ []) }
          ∷ cut_chunks size [] [] bs
  unfolding cut_chunks
  cut_full buf blocks b bs e = rw (e, cut_chunks) refl

  cut_more :
      (buf : Bytes) (blocks : List Block) (b : Block) (bs : List Block)
      → leb size (length (buf ++ b.bytes)) ≡ false
      → cut_chunks size buf blocks (b ∷ bs)
        ≡ cut_chunks size (buf ++ b.bytes) (blocks ++ (matched b ∷ [])) bs
  unfolding cut_chunks
  cut_more buf blocks b bs e = rw (e, cut_chunks) refl

  length-added :
      (buf : Bytes) (blocks : List Block) (b : Block)
      → length buf ≡ length blocks * block_size
      → length b.bytes ≡ block_size
      → length (buf ++ b.bytes) ≡ length (blocks ++ (matched b ∷ [])) * block_size
  length-added buf blocks b h e =
      let n : length (blocks ++ (matched b ∷ [])) ≡ length blocks + 1 =
        length-append blocks (matched b ∷ []) in
      rw (n, length-append buf b.bytes, h, e) (grind arith)

  blocks_of_empty : (blocks : List Block) → 0 ≡ length blocks * block_size → blocks ≡ []
  blocks_of_empty [] h = refl
  blocks_of_empty (b ∷ blocks) h = absurd (grind arith)

  blocks_of_buf :
      (buf : Bytes) (blocks : List Block)
      → length buf ≡ length blocks * block_size
      → 0 < length buf
      → 0 < length blocks
  blocks_of_buf buf [] h l = absurd (omega (arith, h, l))
  blocks_of_buf buf (b ∷ blocks) h l = omega arith

  cut_last :
      (buf : Bytes) (blocks : List Block)
      → 0 < length buf
      → cut_chunks size buf blocks [] ≡ record { buf = buf; blocks = blocks } ∷ []
  unfolding cut_chunks
  cut_last buf blocks l = ground (arith, l)

  cut_end :
      (buf : Bytes) (blocks : List Block)
      → length buf ≡ length blocks * block_size
      → length buf < size
      → Holds block_size size blocks buf (cut_chunks size buf blocks [])
  unfolding cut_chunks all_blocks all_bufs
  cut_end [] blocks h small = (sym (blocks_of_empty blocks h), refl, tt)
  cut_end (x ∷ buf) blocks h small =
      subst (Holds block_size size blocks (x ∷ buf)) (sym (cut_last (x ∷ buf) blocks (omega arith)))
        (
          append_nil blocks,
          append_nil (x ∷ buf),
          (h, blocks_of_buf (x ∷ buf) blocks h (omega arith), omega (arith, small, filled), tt),
        )

  Holds-cons :
      (blocks more : List Block) (bytes rest : Bytes) (jobs : List ChunkJob)
      → length bytes ≡ length blocks * block_size
      → 0 < length bytes
      → length bytes < size + block_size
      → Holds block_size size more rest jobs
      → Holds block_size size
          (blocks ++ more)
          (bytes ++ rest)
          (record { buf = bytes; blocks = blocks } ∷ jobs)
  unfolding all_blocks all_bufs
  Holds-cons blocks more bytes rest jobs h l small (p, q, fit) = (
    ap (λ z. blocks ++ z) p,
    ap (λ z. bytes ++ z) q,
    (h, blocks_of_buf bytes blocks h l, small, fit),
  )

  cut_Holds :
      (buf : Bytes) (blocks bs : List Block)
      → 0 < size
      → AllFull block_size bs
      → length buf ≡ length blocks * block_size
      → length buf < size
      → Holds block_size size
          (blocks ++ map matched bs)
          (buf ++ all_bytes bs)
          (cut_chunks size buf blocks bs)
  unfolding all_bytes
  cut_Holds buf blocks [] pos full h small =
      subst (λ z. Holds block_size size z (buf ++ []) (cut_chunks size buf blocks []))
        (sym (append_nil blocks))
        (subst (λ z. Holds block_size size blocks z (cut_chunks size buf blocks []))
          (sym (append_nil buf)) (cut_end buf blocks h small))
  cut_Holds buf blocks (b ∷ bs) pos (f, fs) h small =
      let grown = length-added buf blocks b h f in
      let size_of = length-append buf b.bytes in
      let blocks' = append_assoc blocks (matched b ∷ []) (map matched bs) in
      let bytes' = append_assoc buf b.bytes (all_bytes bs) in
      let recast : (jobs : List ChunkJob)
          → Holds block_size size ((blocks ++ (matched b ∷ [])) ++ map matched bs)
              ((buf ++ b.bytes) ++ all_bytes bs) jobs
          → Holds block_size size (blocks ++ map matched (b ∷ bs)) (buf ++ all_bytes (b ∷ bs))
              jobs =
        λ jobs holds. (holds.0 ∙ blocks', holds.1 ∙ bytes', holds.2) in
      elim (Bool-cases (leb size (length (buf ++ b.bytes)))) [
        | inl e ↦
            subst
              (Holds block_size size (blocks ++ map matched (b ∷ bs)) (buf ++ all_bytes (b ∷ bs)))
              (sym (cut_full buf blocks b bs e))
              (recast _ (
                Holds-cons (blocks ++ (matched b ∷ [])) (map matched bs) (buf ++ b.bytes)
                  (all_bytes bs) _ grown (omega (arith, size_of, f, filled))
                  (omega (arith, size_of, f, small)) (cut_Holds [] [] bs pos fs (omega arith) pos)))
        | inr e ↦
            subst
              (Holds block_size size (blocks ++ map matched (b ∷ bs)) (buf ++ all_bytes (b ∷ bs)))
              (sym (cut_more buf blocks b bs e))
              (recast _ (
                cut_Holds (buf ++ b.bytes) (blocks ++ (matched b ∷ [])) bs pos fs grown
                  (ground (arith, e))))
      ]

  -- Blocks that each have the data of one block are cut into chunks which hold them, and their
  -- data, in order. No chunk is empty, each holds as many bytes as its blocks have, and less than
  -- one block more than the size of an object, where both sizes are positive.
  pub cut_chunks-Holds :
      (bs : List Block)
      → 0 < size
      → AllFull block_size bs
      → Holds block_size size (map matched bs) (all_bytes bs) (cut_chunks size [] [] bs)
  cut_chunks-Holds bs pos full = cut_Holds [] [] bs pos full (omega arith) pos
