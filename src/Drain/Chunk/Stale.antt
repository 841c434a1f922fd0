-- ===== src/Drain/Chunk/Stale.antt =====
-- Runs that `createChunkFile` takes for stale: the guard looks at the first block of a run only.
use viperblock.Prelude.{
  ℕ, zero, suc, ◌+◌, ◌*◌, ◌≤◌, ◌<◌, ◌≡◌, refl, sym, ap, subst, ◌∙◌, Bool, false, true, some, none,
  Option, List, [], ◌∷◌, arith, length, Bool-cases, inl, inr, ◌==◌,
}
use viperblock.Words.{u64, add64}
use viperblock.Bytes.{Bytes}
use viperblock.Dict.{Dict}
use viperblock.Lookup.{BlockLookup, Index, resolve_block_lookup}
use viperblock.Store.{Store}
use viperblock.Store.Census.{Block}
use viperblock.Wal.{Config}
use viperblock.Drain.Order.{Each}
use viperblock.Drain.Chunk.Runs.{Consecutive, AllSmall}
use viperblock.Drain.Chunk.Register.{Takes, upload_of, created}
use viperblock.Drain.Chunk.{
  Upload, Volume, ChunkResult, take_run, new_block, is_stale, place_run, store_run, place_runs,
  is_matched, filter_pending, create_chunk_file,
}

take_run_whole :
    (prev : Block) (more : List Block)
    → prev.block + 1 < u64
    → AllSmall more
    → Consecutive prev.block more
    → take_run prev more ≡ (more, [])
unfolding take_run
take_run_whole prev [] s small c = refl
take_run_whole prev (b ∷ bs) s (t, small) (e, c) =
    let rest = take_run_whole b bs t small c in
    let next : (b.block == add64 prev.block 1) ≡ true = ground (arith, e, s) in rw (rest, next) refl

place_runs_end :
    (up : Upload) (fuel i : ℕ) (state : Index × Option Store)
    → place_runs up fuel i [] state ≡ state
unfolding place_runs
place_runs_end up zero i state = refl
place_runs_end up (suc fuel) i state = refl

module _ (up : Upload) (x : Index) (store : Option Store) (first : Block) (more : List Block)
    (old : BlockLookup) (k : ℕ) (found : resolve_block_lookup x.entries first.block ≡ some (old, k))
    (covered : first.seq_num ≤ old.seq_num) where
  stale : is_stale (resolve_block_lookup x.entries first.block) (new_block up 0 first more) ≡ true
  unfolding is_stale new_block
  stale = rw found (ground (arith, covered))

  place_run_stale : (place_run up (new_block up 0 first more) x).entries ≡ x.entries
  unfolding place_run new_block
  place_run_stale = rw stale refl

  store_run_stale : (s : Option Store) (n : ℕ) → store_run up (new_block up 0 first more) n x s ≡ s
  unfolding store_run new_block
  store_run_stale none n = refl
  store_run_stale (some s) n = rw stale refl

  place_runs_stale :
      first.block + 1 < u64
      → AllSmall more
      → Consecutive first.block more
      → let after = place_runs up (length (first ∷ more)) 0 (first ∷ more) (x, store) in
        (after.0.entries ≡ x.entries) × (after.1 ≡ store)
  unfolding place_runs
  place_runs_stale s small c =
      let n = suc (length more) in
      let new = new_block up 0 first more in
      rw (take_run_whole first more s small c, place_runs)
        (
          ap (λ st. st.0.entries)
                (place_runs_end up (length more) (0 + n)
                  (place_run up new x, store_run up new n x store))
              ∙ place_run_stale,
          ap (λ st. st.1)
                (place_runs_end up (length more) (0 + n)
                  (place_run up new x, store_run up new n x store))
              ∙ store_run_stale store n,
        )

filter_pending-unmatched :
    (blocks pending : List Block)
    → Each (λ p. is_matched p.block blocks ≡ false) (filter_pending blocks pending).0
unfolding filter_pending
filter_pending-unmatched blocks [] = tt
filter_pending-unmatched blocks (p ∷ pending) = elim (Bool-cases (is_matched p.block blocks)) [
  | inl e ↦ rw e (filter_pending-unmatched blocks pending)
  | inr e ↦ rw e (e, filter_pending-unmatched blocks pending)
]

-- Where the blocks of a chunk are one run, and the entry that covers its first block has a
-- number at least that block's, a chunk that the backend takes is created, and neither the
-- entries of the map nor the block store changes, whatever the numbers of the other blocks are.
-- The pending writes of all of the run's blocks are dropped nevertheless.
pub create_chunk_file-stale :
    (vb : Config) (write_ctx : ℕ → Bytes → Dict Bytes → Dict Bytes × Bool) (magic buf : Bytes)
    (v : Volume) (first : Block) (more : List Block) (old : BlockLookup) (k : ℕ)
    → Takes vb write_ctx
    → length (first ∷ more) * vb.block_size ≤ length buf
    → first.block + 1 < u64
    → AllSmall more
    → Consecutive first.block more
    → resolve_block_lookup v.index.entries first.block ≡ some (old, k)
    → first.seq_num ≤ old.seq_num
    → let (w, result) = create_chunk_file vb write_ctx magic buf (first ∷ more) v in
      (result ≡ ChunkResult.created)
      × (w.index.entries ≡ v.index.entries)
      × (w.store ≡ v.store)
      × Each (λ p. is_matched p.block (first ∷ more) ≡ false) w.pending
create_chunk_file-stale vb write_ctx magic buf v first more old k takes room s small c found
      covered =
    let up = upload_of vb write_ctx magic buf (first ∷ more) v in
    let (made, x, store, pending) = created vb write_ctx magic buf (first ∷ more) v takes room in
    let (entries, kept) =
      place_runs_stale up v.index v.store first more old k found covered s small c in
    (
      made,
      ap (λ y. y.entries) (sym x) ∙ entries,
      sym store ∙ kept,
      subst (Each (λ p. is_matched p.block (first ∷ more) ≡ false)) pending
          (filter_pending-unmatched (first ∷ more) v.pending),
    )
