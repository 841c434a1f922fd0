-- ===== src/Block.antt =====
-- The block entry of viperblock/blockstore.go and its lifecycle states.
use viperblock.Prelude.{ℕ, Bool, true, false, List, []}

-- `BlockState`
pub data BlockState : Type 0 where
  empty hot pending persisted cached : BlockState

-- `a == b` on states
abbrev pub same_state : BlockState → BlockState → Bool
same_state BlockState.empty BlockState.empty = true
same_state BlockState.hot BlockState.hot = true
same_state BlockState.pending BlockState.pending = true
same_state BlockState.persisted BlockState.persisted = true
same_state BlockState.cached BlockState.cached = true
same_state _ _ = false

-- `BlockEntry`; a nil and an empty data slice are both `[]`.
pub record BlockEntry : Type 0 where
  pub bytes : List ℕ
  pub seq_num : ℕ
  pub object_id : ℕ
  pub object_offset : ℕ
  pub state : BlockState

-- `BlockEntry{}`
abbrev pub zero_entry : BlockEntry
zero_entry = record {
  bytes = [];
  seq_num = 0;
  object_id = 0;
  object_offset = 0;
  state = BlockState.empty;
}
