-- ===== src/Replay/Files.antt =====
-- Which files a recovery removes.
use viperblock.Prelude.{
  ℕ, ◌≡◌, ◌⊎◌, refl, sym, subst, inl, inr, Bool, true, false, Option, none, some, List, [], ◌∷◌,
  if◌then◌else◌,
}
use viperblock.Bytes.{Bytes}
use viperblock.Dict.{Dict}
use viperblock.Store.Census.{Block}
use viperblock.Wal.{Config, Recovered, RecoveryError}
use viperblock.Drain.Chunk.{Volume}
use viperblock.Replay.{
  File, read_file, Gathered, after_refusal, gather_one, gather, ReplayResult, Replayed, save_replay,
  replay_blocks, replay_gathered, recover_local_wals,
}

-- A file of this name is read: its blocks are among `blocks`.

abbrev pub IsRead : Config → List File → Bytes → Type 0
IsRead vb [] name = ⊥
IsRead vb (file ∷ files) name =
    ((file.name ≡ name)
      × (blocks : List Block) × (m : ℕ) × (read_file vb file ≡ Recovered.recovered blocks m))
    ⊎ IsRead vb files name

abbrev pub AllRead : Config → List File → List Bytes → Type 0
AllRead vb files [] = Unit {0}
AllRead vb files (name ∷ names) = IsRead vb files name × AllRead vb files names

AllRead-later :
    (vb : Config) (file : File) (files : List File) (names : List Bytes)
    → AllRead vb files names
    → AllRead vb (file ∷ files) names
AllRead-later vb file files [] all = tt
AllRead-later vb file files (name ∷ names) (r, all) = (inr r, AllRead-later vb file files names all)

-- The names gathered are those of files that were read.
abbrev NamesRead : Config → List File → Option Gathered → Type 0
NamesRead vb files none = Unit {0}
NamesRead vb files (some g) = AllRead vb files g.names

after_refusal-NamesRead :
    (vb : Config) (files : List File) (e : RecoveryError) (rest : Option Gathered)
    → NamesRead vb files rest
    → NamesRead vb files (after_refusal e rest)
unfolding after_refusal
after_refusal-NamesRead vb files RecoveryError.integrity rest all = tt
after_refusal-NamesRead vb files RecoveryError.short_header rest all = all
after_refusal-NamesRead vb files RecoveryError.pre_encryption rest all = all
after_refusal-NamesRead vb files RecoveryError.bad_magic rest all = all
after_refusal-NamesRead vb files RecoveryError.bad_version rest all = all
after_refusal-NamesRead vb files RecoveryError.bad_block_size rest all = all
after_refusal-NamesRead vb files RecoveryError.io_error rest all = all

NamesRead-later :
    (vb : Config) (file : File) (files : List File) (g : Option Gathered)
    → NamesRead vb files g
    → NamesRead vb (file ∷ files) g
NamesRead-later vb file files none all = tt
NamesRead-later vb file files (some g) all = AllRead-later vb file files g.names all

gather_one-NamesRead :
    (vb : Config) (file : File) (files : List File) (r : Recovered) (rest : Option Gathered)
    → read_file vb file ≡ r
    → NamesRead vb files rest
    → NamesRead vb (file ∷ files) (gather_one file.name r rest)
unfolding gather_one
gather_one-NamesRead vb file files (Recovered.recovered blocks m) none e all = tt
gather_one-NamesRead vb file files (Recovered.recovered blocks m) (some g) e all =
    (inl (refl, blocks, m, e), AllRead-later vb file files g.names all)
gather_one-NamesRead vb file files (Recovered.refused f) rest e all =
    after_refusal-NamesRead vb (file ∷ files) f rest (NamesRead-later vb file files rest all)

gather-NamesRead : (vb : Config) (files : List File) → NamesRead vb files (gather vb files)
unfolding gather
gather-NamesRead vb [] = tt
gather-NamesRead vb (file ∷ files) =
    gather_one-NamesRead vb file files (read_file vb file) (gather vb files) refl
      (gather-NamesRead vb files)

-- Files are removed only at the end of a recovery that succeeds, and only these.
abbrev Removes : List Bytes → Replayed × ReplayResult → Type 0
Removes names out = (out.0.removed ≡ []) ⊎ ((out.1 ≡ ReplayResult.done) × (out.0.removed ≡ names))

save_replay-Removes :
    (state_saved blocks_saved : Bool) (names : List Bytes) (r : Replayed)
    → r.removed ≡ []
    → Removes names (save_replay state_saved blocks_saved names r)
unfolding save_replay
save_replay-Removes false blocks_saved names r e = inl e
save_replay-Removes true false names r e = inl e
save_replay-Removes true true names r e = inr (refl, refl)

Removes-if :
    (names : List Bytes) (b : Bool) (x y : Replayed × ReplayResult)
    → Removes names x
    → Removes names y
    → Removes names (if b then x else y)
Removes-if names true x y f g = f
Removes-if names false x y f g = g

module _ (vb : Config) (write_ctx : ℕ → Bytes → Dict Bytes → Dict Bytes × Bool)
    (chunk_magic : Bytes) (obj_block_size : ℕ) (state_saved blocks_saved : Bool) where
  replay_blocks-Removes :
      (g : Gathered) (r : Replayed)
      → r.removed ≡ []
      → Removes g.names
          (replay_blocks vb write_ctx chunk_magic obj_block_size state_saved blocks_saved g r)
  unfolding replay_blocks
  replay_blocks-Removes g r e =
      Removes-if g.names _ _ _ (save_replay-Removes state_saved blocks_saved g.names _ e) (inl e)

  -- What a recovery may do, from what was gathered.
  abbrev IsCautious : List File → Replayed × ReplayResult → Type 0
  IsCautious files out =
      ((out.1 ≡ ReplayResult.done) ⊎ (out.0.removed ≡ [])) × AllRead vb files out.0.removed

  Removes-IsCautious :
      (files : List File) (names : List Bytes) (out : Replayed × ReplayResult)
      → AllRead vb files names
      → Removes names out
      → IsCautious files out
  Removes-IsCautious files names out all (inl e) = (inr e, subst (AllRead vb files) (sym e) tt)
  Removes-IsCautious files names out all (inr (d, e)) =
      (inl d, subst (AllRead vb files) (sym e) all)

  replay_gathered-IsCautious :
      (files : List File) (g : Option Gathered) (r : Replayed)
      → NamesRead vb files g
      → r.removed ≡ []
      → IsCautious files
          (replay_gathered vb write_ctx chunk_magic obj_block_size state_saved blocks_saved g r)
  unfolding replay_gathered
  replay_gathered-IsCautious files none r all e = (inr e, subst (AllRead vb files) (sym e) tt)
  replay_gathered-IsCautious files (some g) r all e =
      Removes-IsCautious files g.names
        (replay_gathered vb write_ctx chunk_magic obj_block_size state_saved blocks_saved (some g)
          r)
        all (by_blocks g.blocks)
    where
      by_blocks :
          (bs : List Block)
          → Removes g.names (elim bs [
            | [] ↦ (record r { removed = g.names }, ReplayResult.done)
            | ◌∷◌ b bs ↦
                replay_blocks vb write_ctx chunk_magic obj_block_size state_saved blocks_saved g r
          ])
      by_blocks [] = inr (refl, refl)
      by_blocks (b ∷ bs) = replay_blocks-Removes g r e

  -- RecoverLocalWALs removes a segment only where it succeeds, and then only segments that were
  -- read without an error.
  pub recover_local_wals-IsCautious :
      (files : List File) (v : Volume) (seq_num : ℕ)
      → let (r, result) =
          recover_local_wals vb write_ctx chunk_magic obj_block_size state_saved blocks_saved files
            v seq_num in
        ((result ≡ ReplayResult.done) ⊎ (r.removed ≡ [])) × AllRead vb files r.removed
  unfolding recover_local_wals
  recover_local_wals-IsCautious files v seq_num =
      replay_gathered-IsCautious files (gather vb files) _ (gather-NamesRead vb files) refl
