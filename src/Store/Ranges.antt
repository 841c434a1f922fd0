-- ===== src/Store/Ranges.antt =====
-- `MarkPersistedRange`, pass by pass, and `SetPersistedRange`. What they do to the extent index is
-- modelled in `Runs`.
use viperblock.Prelude.{
  ℕ, suc, Bool, true, false, not, ◌&&◌, ◌||◌, none, some, List, [], ◌∷◌, length, ◌==◌,
  if◌then◌else◌,
}
use viperblock.Words.{add64}
use viperblock.Block.{BlockState, same_state}
use viperblock.Runs.{Item, Placement, install_runs}
use viperblock.Store.{Store, entry, remove}

-- still Pending, under the sequence number that the chunk sealed
unfoldable pub is_sealed : Store → ℕ → ℕ → Bool
is_sealed s b seq = elim (entry s b) [
  | none ↦ false
  | some e ↦ same_state e.state BlockState.pending && (e.seq_num == seq)
]

-- pass 1
unfoldable pub predict : Store → List ℕ → List ℕ → List Item
predict s [] seqs = []
predict s (b ∷ bs) [] = []
predict s (b ∷ bs) (q ∷ qs) =
    record { block = b; seq = q; eligible = is_sealed s b q } ∷ predict s bs qs

unfoldable pub any_eligible : List Item → Bool
any_eligible [] = false
any_eligible (x ∷ xs) = x.eligible || any_eligible xs

-- pass 2
unfoldable pub publish : Placement → List Item → Store → Store
publish p items s = record s { extents = install_runs p (length items) 0 items s.extents }

-- pass 3, with the number of entries removed
unfoldable pub finalize : List Item → Store → Store × ℕ
finalize [] s = (s, 0)
finalize (x ∷ xs) s =
    let hit = x.eligible && is_sealed s x.block x.seq in
    let (s', transitioned) = finalize xs (if hit then remove s x.block else s) in
    (s', if hit then suc transitioned else transitioned)

-- passes 2 and 3, and the statistics
unfoldable pub seal_items : Placement → List Item → Store → Store × ℕ
seal_items p items s =
    let (s', transitioned) = finalize items (publish p items s) in
    let c = s'.stats in
    (record s' { stats = record c { writes = add64 c.writes transitioned } }, transitioned)

-- `MarkPersistedRange`
unfoldable pub mark_persisted_range : Store → List ℕ → Placement → List ℕ → Store × ℕ
mark_persisted_range s blocks p seqs =
    let items = predict s blocks seqs in
    let sealed = seal_items p items s in
    if (length blocks == 0) || not (length blocks == length seqs)
    then (s, 0)
    else if any_eligible items
    then sealed
    else (s, 0)

unfoldable pub all_items : List ℕ → List ℕ → List Item
all_items [] seqs = []
all_items (b ∷ bs) [] = []
all_items (b ∷ bs) (q ∷ qs) = record { block = b; seq = q; eligible = true } ∷ all_items bs qs

-- `SetPersistedRange`
unfoldable pub set_persisted_range : Store → List ℕ → Placement → List ℕ → Store
set_persisted_range s blocks p seqs =
    if (length blocks == 0) || not (length blocks == length seqs)
    then s
    else publish p (all_items blocks seqs) s
