-- ===== src/Drain/Chunk/Place.antt =====
-- Where the entry of one run of a chunk, as `createChunkFile` makes it, places its blocks.
use viperblock.Prelude.{
  ℕ, zero, suc, ◌+◌, ◌-◌, ◌*◌, ◌≤◌, ◌<◌, ◌≡◌, ◌≢◌, ◌⊎◌, refl, inl, inr, false, some, List, [], ◌∷◌,
  map, arith, length, get_elem?, get_or, Option-cases, length-map,
}
use viperblock.Words.{u16, u32, u64}
use viperblock.Dict.{Dict}
use viperblock.Lookup.{BlockLookup, seq_num_at, offset_at, single_at, resolve_block_lookup}
use viperblock.Lookup.Pieces.{IsKeyed}
use viperblock.Lookup.View.{IsWf, place, locate, resolve_sound}
use viperblock.Lookup.Every.{Every, IsOlder, IsClosed, IsOlder-IsClosed}
use viperblock.Store.Census.{Block}
use viperblock.Drain.Chunk.Runs.{Consecutive, AllSmall, run_fits}
use viperblock.Drain.Chunk.{Upload, new_block, is_stale}

pub mul_mono : (a b s : ℕ) → a ≤ b → a * s ≤ b * s
mul_mono a b s h = grind arith

-- the block at position `pos` of a chunk, as an entry of its own
abbrev pub stored_at : Upload → ℕ → Block → BlockLookup
stored_at up pos b = record {
  seq_nums = [];
  start_block = b.block;
  object_id = up.chunk_index;
  seq_num = b.seq_num;
  object_offset = up.header_len + pos * up.stride;
  num_blocks = 1;
}

-- A run lies in another object, and every number of it is below `n`.
abbrev pub IsForeign : Upload → ℕ → BlockLookup → Type 0
IsForeign up n bl = (bl.object_id ≢ up.chunk_index) × IsOlder n bl

-- A run lies in this object, or every number of it is below `n`.
abbrev pub Ours : Upload → ℕ → BlockLookup → Type 0
Ours up n bl = (bl.object_id ≡ up.chunk_index) ⊎ IsOlder n bl

pub Ours-IsClosed : (up : Upload) (n : ℕ) → IsClosed (Ours up n)
Ours-IsClosed up n =
    let older = IsOlder-IsClosed n in
    record {
      head = λ ex ns p. elim p [ inl e ↦ inl e | inr o ↦ inr (older.head ex ns o) ];
      tail = λ ex ne stride p. elim p [ inl e ↦ inl e | inr o ↦ inr (older.tail ex ne stride o) ];
    }

module _ (up : Upload) (n : ℕ) where
  -- The map finds a block in another object, or nowhere.
  abbrev pub Elsewhere : Dict BlockLookup → ℕ → Type 0
  Elsewhere m k = (e : BlockLookup) → locate up.stride m k ≡ some e → e.object_id ≢ up.chunk_index

  pub not_stale :
      (m : Dict BlockLookup) (new : BlockLookup)
      → IsWf m
      → Every (Ours up n) m
      → Elsewhere m new.start_block
      → n ≤ new.seq_num
      → is_stale (resolve_block_lookup m new.start_block) new ≡ false
  unfolding is_stale locate single_at
  not_stale m new wf all away newer = elim (Option-cases (resolve_block_lookup m new.start_block)) [
    | inl e ↦ rw e refl
    | inr ((old, i), e) ↦
        let (c, at) = resolve_sound up.stride m wf new.start_block old i e in
        elim (all old.start_block old c.stored) [
          | inl same ↦ absurd (away (single_at old up.stride i) (rw (e, locate) refl) same)
          | inr older ↦ rw e (ground (arith, newer, older.first))
        ]
  ]

  module _ (i : ℕ) (first : Block) (more : List Block) where
    abbrev e : BlockLookup
    e = new_block up i first more

    pub new_block-IsKeyed :
        Consecutive first.block more
        → first.block + 1 < u64
        → AllSmall more
        → suc (length more) < u16
        → IsKeyed e.start_block e
    unfolding new_block
    new_block-IsKeyed c s small short = record {
      keyed = refl;
      filled = ground (arith, short);
      counted = ground (arith, short);
      fits = ground (arith, short, run_fits first.block more c s small);
    }

    seq_of_run :
        (bs : List Block) (j : ℕ) (b : Block)
        → get_elem? bs j ≡ some b
        → get_or (map (λ b. b.seq_num) bs) j 0 ≡ b.seq_num
    seq_of_run [] j b h = ground arith
    seq_of_run (x ∷ bs) zero b h = ground (arith, h)
    seq_of_run (x ∷ bs) (suc j) b h = seq_of_run bs j b h

    pub place_of_run :
        (j : ℕ) (b : Block)
        → get_elem? (first ∷ more) j ≡ some b
        → b.block ≡ first.block + j
        → j < suc (length more)
        → first.block + suc (length more) < u64
        → suc (length more) < u16
        → up.header_len + (i + suc (length more)) * up.stride < u32
        → place up.stride e b.block ≡ stored_at up (i + j) b
    unfolding new_block single_at seq_num_at offset_at
    place_of_run j b h at within fits short small =
        let j' : b.block - first.block ≡ j = omega (arith, at) in
        let split : (i + j) * up.stride ≡ i * up.stride + j * up.stride = grind arith in
        let bounded : (i + j) * up.stride ≤ (i + suc (length more)) * up.stride =
          mul_mono (i + j) (i + suc (length more)) up.stride (omega (arith, within)) in
        rw j' (
          ground (
            arith,
            at,
            within,
            fits,
            small,
            split,
            bounded,
            length-map more (λ b. b.seq_num),
            seq_of_run (first ∷ more) j b h,
          ))
