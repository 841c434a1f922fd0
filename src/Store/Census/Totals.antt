-- ===== src/Store/Census/Totals.antt =====
-- The counts and lists of blocks that a store gives.
use viperblock.Prelude.{ℕ, ◌+◌, ◌≡◌, refl, List, [], ◌∷◌, arith, length}
use viperblock.Dict.{Dict}
use viperblock.Block.{BlockEntry, BlockState}
use viperblock.Store.{Store}
use viperblock.Store.Census.{entries_total, count, tally, tally_all, count_by_state}

abbrev pub state_total : (BlockState → ℕ) → ℕ
state_total f =
    f BlockState.empty
    + f BlockState.hot
    + f BlockState.pending
    + f BlockState.persisted
    + f BlockState.cached

tally_total : (m : Dict BlockEntry) → state_total (λ st. tally st m) ≡ length m
unfolding tally
tally_total [] = refl
tally_total ((b, e) ∷ m) = ground (arith, tally_total m)

tally_all_total :
    (ms : List (Dict BlockEntry)) → state_total (λ st. tally_all st ms) ≡ entries_total ms
unfolding tally_all entries_total
tally_all_total [] = refl
tally_all_total (m ∷ ms) = omega (arith, tally_total m, tally_all_total ms)

-- The counts that `CountByState` gives the five states add up to `Count`.
pub count_by_state_total : (s : Store) → state_total (count_by_state s) ≡ count s
unfolding count_by_state count
count_by_state_total s = omega (arith, tally_all_total s.shards)
