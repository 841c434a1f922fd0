-- ===== src/Tests/Chunks.antt =====
-- Blocks of two bytes drained into chunks.
use viperblock.Prelude.{
  ℕ, ◌≡◌, refl, subst, Bool, true, false, none, some, List, [], ◌∷◌, map, arith,
}
use viperblock.Bytes.{Bytes}
use viperblock.Dict.{Dict, find, insert}
use viperblock.Lookup.{BlockLookup, resolve_block_lookup, seq_num_at, block_stride}
use viperblock.Lookup.Every.{IsOlder}
use viperblock.Lookup.View.{IsWf}
use viperblock.Lookup.Pieces.{IsKeyed}
use viperblock.Store.Census.{Block}
use viperblock.Wal.{Config}
use viperblock.Tests.Logs.{plain_aead}
use viperblock.Drain.{
  matched, blocks_map, note, picked, insert_block, sort_blocks, sorted_blocks, cut_chunks,
}
use viperblock.Drain.Order.{Each}
use viperblock.Drain.Newest.{IsNewest, sorted_blocks-IsNewest}
use viperblock.Drain.Cut.{Holds, all_bytes, cut_chunks-Holds}
use viperblock.Drain.Chunk.{
  Volume, ChunkResult, chunk_header, create_chunk_file, is_matched, body_buffer, upload_chunk,
  seal_blocks,
}
use viperblock.Drain.Chunk.Place.{IsForeign}
use viperblock.Drain.Chunk.Step.{Registers}
use viperblock.Drain.Chunk.Register.{
  upload_of, create_chunk_file-Registers, create_chunk_file-failed,
}
use viperblock.Drain.Chunk.Stale.{create_chunk_file-stale}

abbrev logged : ℕ → ℕ → Block
logged n b = record { seq_num = n; block = b; len = 2; bytes = n ∷ b ∷ [] }

abbrev records : List Block
records = logged 5 21 ∷ logged 6 20 ∷ logged 7 21 ∷ logged 4 30 ∷ []

abbrev newest : List Block
newest = logged 6 20 ∷ logged 7 21 ∷ logged 4 30 ∷ []

sorted_records : sorted_blocks records ≡ newest
unfolding sorted_blocks sort_blocks insert_block picked blocks_map note find insert
sorted_records = refl

sorted_blocks-IsNewest_example : IsNewest records (sorted_blocks records)
sorted_blocks-IsNewest_example = sorted_blocks-IsNewest records

cut_chunks-Holds_example :
    Holds 2 4 (map matched newest) (all_bytes newest) (cut_chunks 4 [] [] newest)
cut_chunks-Holds_example =
    cut_chunks-Holds 2 4 (omega arith) newest (omega arith) (refl, (refl, (refl, tt)))

abbrev config : Config
config = record {
  wal_magic = 86 ∷ 66 ∷ 87 ∷ 69 ∷ [];
  version = 1;
  block_size = 2;
  encryption_enabled = true;
  volume_uuid = 1 ∷ 2 ∷ 3 ∷ 4 ∷ [];
  volume_name_hash = [];
  aead = plain_aead;
}

abbrev chunk_magic : Bytes
chunk_magic = 86 ∷ 66 ∷ 67 ∷ 69 ∷ []

-- a backend that takes every chunk, and one that takes none
abbrev taking : ℕ → Bytes → Dict Bytes → Dict Bytes × Bool
taking id body objects = ((id, body) ∷ objects, true)

abbrev refusing : ℕ → Bytes → Dict Bytes → Dict Bytes × Bool
refusing id body objects = (objects, false)

-- block 20 lies in chunk 3, under the number 3
abbrev older : BlockLookup
older = record {
  seq_nums = [];
  start_block = 20;
  object_id = 3;
  seq_num = 3;
  object_offset = 10;
  num_blocks = 1;
}

abbrev volume : Volume
volume = record {
  object_num = 4;
  objects = [];
  pending = newest;
  pending_bytes = 6;
  cached = some [];
  index = record { entries = (20, older) ∷ []; gc_refcount = some ((3, 1) ∷ []) };
  dirty = false;
  store = none;
}

older-IsKeyed : IsKeyed 20 older
older-IsKeyed = record {
  keyed = refl;
  filled = omega arith;
  counted = omega arith;
  fits = omega arith;
}

volume-IsWf : IsWf volume.index.entries
unfolding find
volume-IsWf = record {
  each = λ k bl h. ground (arith, h, older-IsKeyed);
  apart = λ j k pe qe h g l. ground (arith, h, g, l);
}

older-IsOlder : IsOlder 4 older
unfolding seq_num_at
older-IsOlder = record { first = omega arith; each = λ i. ground arith }

older_foreign : (k : ℕ) (pe : BlockLookup) → find k volume.index.entries ≡ some pe → older ≡ pe
unfolding find
older_foreign k pe h = ground (arith, h)

create_chunk_file-Registers_example :
    ((create_chunk_file config taking chunk_magic (all_bytes newest) newest volume).1
      ≡ ChunkResult.created)
    × Registers
        (upload_of config taking chunk_magic (all_bytes newest) newest volume)
        4
        0
        newest
        volume.index.entries
        (create_chunk_file config taking chunk_magic
          (all_bytes newest)
          newest
          volume).0.index.entries
unfolding all_bytes chunk_header block_stride
create_chunk_file-Registers_example =
    create_chunk_file-Registers config taking chunk_magic (all_bytes newest) newest volume 4
      (λ id body objects. refl) (omega arith) volume-IsWf
      (λ k pe h.
        subst (IsForeign (upload_of config taking chunk_magic (all_bytes newest) newest volume) 4)
          (older_foreign k pe h) (ground arith, older-IsOlder))
      (omega arith, (omega arith, (omega arith, tt)))
      ((omega arith, (omega arith, tt)), ((omega arith, tt), (tt, tt)))
      (omega arith, (omega arith, (omega arith, tt))) (omega arith) (omega arith)

refused_chunk :
    (create_chunk_file config refusing chunk_magic (all_bytes newest) newest volume).1
    ≡ ChunkResult.write_failed
unfolding create_chunk_file upload_chunk body_buffer seal_blocks all_bytes
refused_chunk = refl

create_chunk_file-failed_example :
    (create_chunk_file config refusing chunk_magic (all_bytes newest) newest volume).0
    ≡ record volume {
      object_num = 5;
      objects =
          (create_chunk_file config refusing chunk_magic
            (all_bytes newest)
            newest
            volume).0.objects;
    }
create_chunk_file-failed_example =
    create_chunk_file-failed config refusing chunk_magic (all_bytes newest) newest volume
      (λ made. ground (arith, refused_chunk, made))

-- The entry of block 20 is as new as the run's first block, and block 21 is in no entry.
create_chunk_file-stale_example :
    let (w, result) =
      create_chunk_file config taking chunk_magic
        (3 ∷ 20 ∷ 9 ∷ 21 ∷ [])
        (logged 3 20 ∷ logged 9 21 ∷ [])
        volume in
    (result ≡ ChunkResult.created)
    × (w.index.entries ≡ volume.index.entries)
    × (w.store ≡ volume.store)
    × Each (λ p. is_matched p.block (logged 3 20 ∷ logged 9 21 ∷ []) ≡ false) w.pending
unfolding resolve_block_lookup find
create_chunk_file-stale_example =
    create_chunk_file-stale config taking chunk_magic (3 ∷ 20 ∷ 9 ∷ 21 ∷ []) volume (logged 3 20)
      (logged 9 21 ∷ []) older 0 (λ id body objects. refl) (omega arith) (omega arith)
      (omega arith, tt) (refl, tt) refl (omega arith)
