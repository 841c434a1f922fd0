-- ===== src/Store/View/Readers.antt =====
-- `ReadEntry` and the view of a block.
use viperblock.Prelude.{ℕ, ◌≡◌, [], inl, inr, some, arith, Option-cases}
use viperblock.Block.{BlockEntry, BlockState}
use viperblock.Extents.{read_persisted, entry_at}
use viperblock.Store.{Store, entry}
use viperblock.Store.View.{view}
use viperblock.Store.Readers.{read_entry}

-- an entry read from an extent has no bytes and is Persisted

pub read_persisted_state :
    (s : Store) (b : ℕ) (e : BlockEntry)
    → read_persisted s.extents b ≡ some e
    → (e.state ≡ BlockState.persisted) × (e.bytes ≡ [])
unfolding read_persisted entry_at
read_persisted_state s b e h = ground arith

-- what `ReadEntry` finds
pub read_entry-view : (s : Store) (b : ℕ) → (read_entry s b).1 ≡ view s b
unfolding read_entry
read_entry-view s b = elim (Option-cases (read_persisted s.extents b)) [
  | inl e ↦ ground (arith, e)
  | inr (x, e) ↦ ground (arith, e)
]

pub view-read_entry : (s : Store) (b j : ℕ) → view (read_entry s b).0 j ≡ view s j
unfolding read_entry entry
view-read_entry s b j = ground arith
