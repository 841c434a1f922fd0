-- ===== src/Tests/Lookups.antt =====
-- A run of four blocks that a newer write of one block splits.
use viperblock.Prelude.{◌≡◌, refl, arith, [], ◌∷◌, some}
use viperblock.Dict.{find, insert, delete, keys}
use viperblock.Lookup.{
  BlockLookup, Index, seq_num_at, offset_at, slice_from, slice_seq_nums, refer, unrefer, add_entry,
  add_head, add_tail, fracture_one, fracture_all, insert_coalesced,
}
use viperblock.Lookup.Pieces.{IsKeyed}
use viperblock.Gc.Tally.{IsTallied, refs}
use viperblock.Gc.Counts.{insert_coalesced-IsTallied}
use viperblock.Lookup.View.{IsWf, locate}
use viperblock.Lookup.Insert.{insert_coalesced-IsWf, locate-insert_coalesced}

abbrev run_of_four : BlockLookup
run_of_four = record {
  seq_nums = 5 ∷ 6 ∷ 7 ∷ 8 ∷ [];
  start_block = 20;
  object_id = 3;
  seq_num = 5;
  object_offset = 10;
  num_blocks = 4;
}

abbrev newer : BlockLookup
newer = record {
  seq_nums = 9 ∷ [];
  start_block = 21;
  object_id = 4;
  seq_num = 9;
  object_offset = 10;
  num_blocks = 1;
}

run_of_four-IsKeyed : IsKeyed 20 run_of_four
run_of_four-IsKeyed = record {
  keyed = refl;
  filled = omega arith;
  counted = omega arith;
  fits = omega arith;
}

abbrev index : Index
index = record { entries = (20, run_of_four) ∷ []; gc_refcount = some ((3, 1) ∷ []) }

-- The split run counts twice, and the new one once.
counts_after_split : (insert_coalesced newer 4096 index).gc_refcount ≡ some ((3, 2) ∷ (4, 1) ∷ [])
unfolding find insert delete keys insert_coalesced fracture_all fracture_one add_head add_tail
    add_entry refer unrefer slice_seq_nums slice_from seq_num_at offset_at
counts_after_split = refl

index-IsWf : IsWf index.entries
unfolding find
index-IsWf = record {
  each = λ k bl h. ground (arith, h, run_of_four-IsKeyed);
  apart = λ j k pe qe h g l. ground (arith, h, g, l);
}

newer-IsKeyed : IsKeyed 21 newer
newer-IsKeyed = record {
  keyed = refl;
  filled = omega arith;
  counted = omega arith;
  fits = omega arith;
}

insert_coalesced-IsWf_example : IsWf (insert_coalesced newer 4096 index).entries
insert_coalesced-IsWf_example = insert_coalesced-IsWf index index-IsWf 4096 newer newer-IsKeyed

locate-insert_coalesced_example :
    locate 4096 (insert_coalesced newer 4096 index).entries 22 ≡ locate 4096 index.entries 22
locate-insert_coalesced_example =
    locate-insert_coalesced index index-IsWf 4096 newer newer-IsKeyed 22

index-IsTallied : IsTallied index
unfolding find refs
index-IsTallied = record {
  unique = (refl, tt);
  counts = (3, 1) ∷ [];
  kept = refl;
  counted = λ id. ground arith;
}

insert_coalesced-IsTallied_example : IsTallied (insert_coalesced newer 4096 index)
insert_coalesced-IsTallied_example =
    insert_coalesced-IsTallied index index-IsWf 4096 newer newer-IsKeyed (omega arith)
      index-IsTallied
