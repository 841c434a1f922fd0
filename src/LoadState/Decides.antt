-- ===== src/LoadState/Decides.antt =====
-- A state is either refused, and the volume left alone, or it is the newest one and checked.
use viperblock.Prelude.{◌≤◌, ◌<◌, ◌≡◌, ◌≢◌, ◌⊎◌, true, false, ◌&&◌, Option, none, ◌==◌}
use viperblock.LoadState.{
  State, Volume, ReadError, LoadError, refuses, is_error, choose_state, has_key,
}

-- Neither read was refused, and one of them has a block size.

pub record IsReadable (local backend : State × Option ReadError) : Type 0 where
  pub local_ok : refuses local.1 ≡ false
  pub backend_ok : refuses backend.1 ≡ false
  pub present : ((backend.0.block_size == 0) && (local.0.block_size == 0)) ≡ false

-- `s` is the backend's copy, where the local read failed or is older, or else the local one.
abbrev pub IsChosen : State × Option ReadError → State × Option ReadError → State → Type 0
IsChosen local backend s =
    ((s ≡ backend.0)
      × ((is_error local.1 ≡ true) ⊎ (local.0.state_seq_num < backend.0.state_seq_num)))
    ⊎ ((s ≡ local.0)
        × (is_error local.1 ≡ false)
        × (backend.0.state_seq_num ≤ local.0.state_seq_num))

-- The checks passed, under the flag and the key of the volume.
abbrev pub IsAccepted : Volume → State → Type 0
IsAccepted v s =
    (v.counter.encryption_enabled ≡ s.encryption_enabled)
    × ((v.counter.encryption_enabled ≡ false) ⊎ (has_key v.master_key s.key_fingerprint ≡ true))

-- The volume has the fields of the state, and is no smaller than the state says.
pub record IsLoaded (s : State) (w : Volume) : Type 0 where
  pub name : w.volume_name ≡ s.volume_name
  pub sizes : (w.block_size ≡ s.block_size) × (w.obj_block_size ≡ s.obj_block_size)
  pub size : s.volume_size ≤ w.volume_size
  pub object : w.object_num ≡ s.object_num
  pub wal : (w.wal_num ≡ s.wal_num) × (w.block_to_object_wal_num ≡ s.block_to_object_wal_num)
  pub generation : w.next_state_seq_num ≡ s.state_seq_num

-- the two outcomes
abbrev pub Decides :
    State × Option ReadError
    → State × Option ReadError
    → Volume
    → Volume × Option LoadError
    → Type 0
Decides local backend v out =
    ((out.0 ≡ v) × (out.1 ≢ none))
    ⊎ (IsReadable local backend
        × IsChosen local backend (choose_state local backend)
        × IsAccepted v (choose_state local backend)
        × IsLoaded (choose_state local backend) out.0)
