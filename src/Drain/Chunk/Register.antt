-- ===== src/Drain/Chunk/Register.antt =====
-- The outcome of `createChunkFile`, and the map that it leaves.
use viperblock.Prelude.{
  ℕ, zero, suc, ◌+◌, ◌*◌, ◌≤◌, ◌<◌, ◌≡◌, ◌≢◌, refl, sym, ap, subst, ◌∙◌, inl, inr, Bool, true, none,
  Option, List, [], ◌∷◌, ◌++◌, arith, length, Option-cases, replicate, length-append,
}
use viperblock.Words.{u16, u32, add64}
use viperblock.Bytes.{Bytes}
use viperblock.Dict.{Dict}
use viperblock.Crypto.{init_aad, update_aad}
use viperblock.Lookup.{BlockLookup, Index, block_stride, insert_coalesced, single_at}
use viperblock.Lookup.View.{IsWf, Covers-of_locate}
use viperblock.Lookup.Every.{Every}
use viperblock.Store.{Store}
use viperblock.Store.Census.{Block}
use viperblock.Wal.{Config}
use viperblock.Drain.Order.{Each, Ascends}
use viperblock.Drain.Chunk.Runs.{AllSmall, take_run-IsRun}
use viperblock.Drain.Chunk.Place.{IsForeign, Elsewhere, not_stale}
use viperblock.Drain.Chunk.Step.{IsReady, Registers, step, next}
use viperblock.Drain.Chunk.{
  Upload, Volume, ChunkResult, filter_pending, chunk_header, seal_blocks, body_buffer, take_run,
  new_block, place_run, store_run, place_runs, register_chunk, release_pending, upload_chunk,
  create_chunk_file,
}

module _ (up : Upload) (n : ℕ) where
  place_run_fresh :
      (i : ℕ) (first : Block) (more blocks : List Block) (x : Index)
      → IsReady up n i (first ∷ blocks) x.entries
      → place_run up (new_block up i first more) x
        ≡ insert_coalesced (new_block up i first more) up.stride x
  unfolding place_run new_block
  place_run_fresh i first more blocks x ready =
      rw
        (not_stale up n x.entries (new_block up i first more) ready.wf ready.all ready.away.0
          ready.newer.0)
        refl

  place_runs-Registers :
      (fuel i : ℕ) (blocks : List Block) (x : Index) (store : Option Store)
      → length blocks ≤ fuel
      → IsReady up n i blocks x.entries
      → Registers up n i blocks x.entries (place_runs up fuel i blocks (x, store)).0.entries
  unfolding place_runs
  place_runs-Registers zero i [] x store enough ready = (λ j b h. ground arith, λ k a. refl)
  place_runs-Registers (suc fuel) i [] x store enough ready = (λ j b h. ground arith, λ k a. refl)
  place_runs-Registers zero i (first ∷ blocks) x store enough ready = absurd (omega arith)
  place_runs-Registers (suc fuel) i (first ∷ blocks) x store enough ready =
      let cut = take_run first blocks in
      let run = take_run-IsRun first blocks ready.small.0 ready.small.1 in
      let whole = subst (λ z. IsReady up n i (first ∷ z) x.entries) (sym run.parts) ready in
      let new = new_block up i first cut.0 in
      let m = suc (length cut.0) in
      let inserted = insert_coalesced new up.stride x in
      let later = store_run up new m x store in
      let shorter : length cut.1 ≤ fuel =
        omega (arith, enough, ap length run.parts, length-append cut.0 cut.1) in
      let rest =
        place_runs-Registers fuel (i + m) cut.1 inserted later shorter
          (next up n i first cut.0 cut.1 x whole run.follows) in
      let done =
        step up n i first cut.0 cut.1 x whole run.follows
          (place_runs up fuel (i + m) cut.1 (inserted, later)).0.entries rest in
      subst
        (λ z.
          Registers up n i (first ∷ z) x.entries
            (place_runs up fuel (i + m) cut.1 (place_run up new x, later)).0.entries)
        run.parts
        (subst
          (λ y.
            Registers up n i (first ∷ (cut.0 ++ cut.1)) x.entries
              (place_runs up fuel (i + m) cut.1 (y, later)).0.entries)
          (sym (place_run_fresh i first cut.0 blocks x ready)) done)

  -- no block lies in the object yet
  elsewhere :
      (m : Dict BlockLookup) (k : ℕ) → IsWf m → Every (IsForeign up n) m → Elsewhere up n m k
  unfolding single_at
  elsewhere m k wf all e h same =
      let (pe, c, p) = Covers-of_locate up.stride m wf k e h in
      (all pe.start_block pe c.stored).0 (ap (λ l. l.object_id) p ∙ same)

Each_of : {P : Block → Type 0} (f : (b : Block) → P b) (xs : List Block) → Each P xs
Each_of f [] = tt
Each_of f (x ∷ xs) = (f x, Each_of f xs)

module _ (vb : Config) where
  seal_blocks_some :
      (buf : Bytes) (i : ℕ) (aad : Bytes) (bs : List Block)
      → (i + length bs) * vb.block_size ≤ length buf
      → seal_blocks vb buf i aad bs ≢ none
  unfolding seal_blocks
  seal_blocks_some buf i aad [] room h = ground (arith, h)
  seal_blocks_some buf i aad (b ∷ bs) room h =
      let e : i + suc (length bs) ≡ suc i + length bs = omega arith in
      let more =
        seal_blocks_some buf (suc i) (update_aad aad b.block b.seq_num) bs
          (subst (λ z. z * vb.block_size ≤ length buf) e room) in
      let first : i * vb.block_size + vb.block_size ≤ (i + suc (length bs)) * vb.block_size =
        grind arith in
      elim (Option-cases (seal_blocks vb buf (suc i) (update_aad aad b.block b.seq_num) bs)) [
        | inl missing ↦ more missing
        | inr (body, sealed) ↦ ground (arith, h, room, first, sealed)
      ]

  body_buffer_some :
      (buf : Bytes) (bs : List Block)
      → length bs * vb.block_size ≤ length buf
      → body_buffer vb buf bs ≢ none
  unfolding body_buffer
  body_buffer_some buf bs room =
      let e : length bs ≡ 0 + length bs = omega arith in
      let sealed =
        seal_blocks_some buf 0 (init_aad (replicate 48 0) vb.volume_name_hash) bs
          (subst (λ z. z * vb.block_size ≤ length buf) e room) in
      λ h. ground (arith, h, sealed)

  -- A backend that takes every chunk.
  abbrev pub Takes : (ℕ → Bytes → Dict Bytes → Dict Bytes × Bool) → Type 0
  Takes write_ctx =
      (id : ℕ) (body : Bytes) (objects : Dict Bytes) → (write_ctx id body objects).1 ≡ true

  module _ (write_ctx : ℕ → Bytes → Dict Bytes → Dict Bytes × Bool) (magic buf : Bytes)
      (blocks : List Block) (v : Volume) where
    -- where this chunk lies
    abbrev pub upload_of : Upload
    upload_of = record {
      chunk_index = v.object_num;
      header_len = length (chunk_header magic vb);
      stride = block_stride vb.block_size vb.encryption_enabled;
    }

    abbrev pub outcome : Volume × ChunkResult
    outcome = create_chunk_file vb write_ctx magic buf blocks v

    pub created :
        Takes write_ctx
        → length blocks * vb.block_size ≤ length buf
        → (outcome.1 ≡ ChunkResult.created)
          × ((place_runs upload_of (length blocks) 0 blocks (v.index, v.store)).0 ≡ outcome.0.index)
          × ((place_runs upload_of (length blocks) 0 blocks (v.index, v.store)).1 ≡ outcome.0.store)
          × ((filter_pending blocks v.pending).0 ≡ outcome.0.pending)
    unfolding create_chunk_file upload_chunk register_chunk release_pending
    created takes room = elim (Option-cases (body_buffer vb buf blocks)) [
      | inl missing ↦ absurd (body_buffer_some buf blocks room missing)
      | inr (body, h) ↦
          rw (h, create_chunk_file, takes v.object_num (chunk_header magic vb ++ body) v.objects)
            (refl, refl, refl, refl)
    ]

    -- A chunk of ascending blocks, newer than everything in a well-formed map that does not name the
    -- chunk's number, is created by a backend that takes it. Each block is then found in the chunk,
    -- behind the header and the blocks before it, under its own sequence number, and every other
    -- block where it was, where counts and offsets fit their fields.
    pub create_chunk_file-Registers :
        (n : ℕ)
        → Takes write_ctx
        → length blocks * vb.block_size ≤ length buf
        → IsWf v.index.entries
        → Every (IsForeign upload_of n) v.index.entries
        → Each (λ b. n ≤ b.seq_num) blocks
        → Ascends blocks
        → AllSmall blocks
        → length blocks < u16
        → upload_of.header_len + length blocks * upload_of.stride < u32
        → (outcome.1 ≡ ChunkResult.created)
          × Registers upload_of n 0 blocks v.index.entries outcome.0.index.entries
    create_chunk_file-Registers n takes room wf foreign newer ascends small short within =
        let (made, registered, _, _) = created takes room in
        let none_before : length blocks ≡ 0 + length blocks = omega arith in
        let ready : IsReady upload_of n 0 blocks v.index.entries = record {
          wf = wf;
          all = λ k pe h. inr (foreign k pe h).1;
          away = Each_of (λ b. elsewhere upload_of n v.index.entries b.block wf foreign) blocks;
          newer = newer;
          ascends = ascends;
          small = small;
          short = short;
          within =
              subst (λ z. upload_of.header_len + z * upload_of.stride < u32) none_before within;
        } in
        (
          made,
          subst (λ x. Registers upload_of n 0 blocks v.index.entries x.entries) registered
              (place_runs-Registers upload_of n (length blocks) 0 blocks v.index v.store
                (omega arith) ready),
        )

    -- Where createChunkFile does not create the chunk, it changes nothing but ObjectNum and what the
    -- backend holds: the pending writes, the map, its dirty flag and the block store are as before.
    pub create_chunk_file-failed :
        outcome.1 ≢ ChunkResult.created
        → outcome.0 ≡ record v { object_num = add64 v.object_num 1; objects = outcome.0.objects }
    unfolding create_chunk_file upload_chunk
    create_chunk_file-failed failed = elim (Option-cases (body_buffer vb buf blocks)) [
      | inl missing ↦ rw (missing, create_chunk_file) refl
      | inr (body, h) ↦ ground (arith, h, failed)
    ]
