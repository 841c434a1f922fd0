-- ===== src/Tests/Allocators.antt =====
-- The two allocators at small histories.
use viperblock.Prelude.{List, [], ◌∷◌, arith}
use viperblock.Conversions.{ℤ}
use viperblock.Arena.{Arena, new_arena_with_slab_size}
use viperblock.Arena.Disjoint.{IsSound, Event, spans, Pairwise, spans-Pairwise}
use viperblock.SimpleFs.{SimpleFs, format_volume}
use viperblock.SimpleFs.Conserve.{Op, run, IsConserved, run-IsConserved}

-- slabs of three blocks

abbrev arena : Arena
unfolding new_arena_with_slab_size
arena = new_arena_with_slab_size 4096 12288

arena-IsSound : IsSound arena
unfolding arena
arena-IsSound = record {
  block_fits = omega arith;
  used = omega arith;
  small = omega arith;
  named = omega arith;
}

abbrev history : List Event
history =
    Event.allocates
    ∷ Event.allocates_n (ℤ.pos 2)
    ∷ Event.allocates
    ∷ Event.compacts
    ∷ Event.allocates_n (ℤ.pos 5)
    ∷ Event.resets
    ∷ Event.allocates
    ∷ []

spans-Pairwise_example : Pairwise (spans history arena)
spans-Pairwise_example = spans-Pairwise history arena arena-IsSound

abbrev volume : SimpleFs
volume = record { used = []; free = []; size = 6; files = []; block_size = 4096 }

run-IsConserved_example : IsConserved 2 (
    run
      (Op.creates 1 9000 ∷ Op.creates 2 4096 ∷ Op.creates 1 20000 ∷ Op.deletes 2 ∷ [])
      (format_volume volume))
run-IsConserved_example =
    run-IsConserved 2
      (Op.creates 1 9000 ∷ Op.creates 2 4096 ∷ Op.creates 1 20000 ∷ Op.deletes 2 ∷ []) volume
