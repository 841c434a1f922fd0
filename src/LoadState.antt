-- ===== src/LoadState.antt =====
-- `LoadStateCtx` of viperblock/viperblock.go: the choice between the local and the backend copy of a
-- volume's state, the checks on the chosen copy, and what it sets. The two reads are arguments, each
-- with the state that it decoded and its error; so is the outcome of `OpenFromSnapshot`, whose own
-- fields are left out.
pub mod Decides
use viperblock.Prelude.{
  ℕ, ◌*◌, ◌%◌, Bool, true, false, ◌&&◌, ◌||◌, not, Option, none, some, List, [], ltb, leb, ◌==◌,
  if◌then◌else◌,
}
use viperblock.Words.{u64}
use viperblock.Bytes.{Bytes}
use viperblock.Checkpoint.{equal}
use viperblock.Numbering.{Counter, Persist, bump_seq_num_high_water}

-- the fields of `VBState` that are read back; `size_gib` is that of its `VolumeConfig`.
pub record State : Type 0 where
  pub volume_name : Bytes
  pub volume_size : ℕ
  pub block_size : ℕ
  pub obj_block_size : ℕ
  pub seq_num : ℕ
  pub object_num : ℕ
  pub wal_num : ℕ
  pub block_to_object_wal_num : ℕ
  pub version : ℕ
  pub size_gib : ℕ
  pub sharded_wal : Bool
  pub snapshot_id : Bytes
  pub encryption_enabled : Bool
  pub volume_uuid : List ℕ
  pub key_fingerprint : Bytes
  pub state_seq_num : ℕ
  pub seq_num_high_water : ℕ

-- The fields of `VB` that are set, and those that the checks read. `counter` holds the numbering,
-- with the encryption flag; `sharded_wal` is the number of the sharded log, where there is one.
pub record Volume : Type 0 where
  pub volume_name : Bytes
  pub volume_size : ℕ
  pub block_size : ℕ
  pub obj_block_size : ℕ
  pub object_num : ℕ
  pub wal_num : ℕ
  pub block_to_object_wal_num : ℕ
  pub use_sharded_wal : Bool
  pub sharded_wal : Option ℕ
  pub version : ℕ
  pub size_gib : ℕ
  pub next_state_seq_num : ℕ
  pub master_key : Option Bytes
  pub counter : Counter

-- the errors of `LoadStateRequestCtx` that are told apart
pub data ReadError : Type 0 where
  not_exist integrity mismatch other : ReadError

pub data LoadError : Type 0 where
  local_refused backend_refused not_found backend_unavailable encryption_mismatch : LoadError
  snapshot_failed reserve_failed : LoadError

-- `errors.Is(err, ErrIntegrity) || errors.Is(err, ErrEncryptionMismatch)`
abbrev pub refuses : Option ReadError → Bool
refuses none = false
refuses (some ReadError.not_exist) = false
refuses (some ReadError.integrity) = true
refuses (some ReadError.mismatch) = true
refuses (some ReadError.other) = false

-- `err != nil`
abbrev pub is_error : Option ReadError → Bool
is_error none = false
is_error (some e) = true

-- `classifyStateLoad`; its last two returns are the same error.
unfoldable pub classify_state_load : Option ReadError → Option ReadError → LoadError
classify_state_load local_err none = LoadError.not_found
classify_state_load local_err (some ReadError.not_exist) = LoadError.not_found
classify_state_load local_err (some ReadError.integrity) = LoadError.backend_unavailable
classify_state_load local_err (some ReadError.mismatch) = LoadError.backend_unavailable
classify_state_load local_err (some ReadError.other) = LoadError.backend_unavailable

-- step 3: the authoritative copy
unfoldable pub choose_state : State × Option ReadError → State × Option ReadError → State
choose_state local backend =
    if is_error local.1 || ltb local.0.state_seq_num backend.0.state_seq_num
    then backend.0
    else local.0

abbrev pub same_flag : Bool → Bool → Bool
same_flag true b = b
same_flag false b = not b

-- `state.KeyFingerprint == vb.MasterKey.Fingerprint`, with a key
abbrev pub has_key : Option Bytes → Bytes → Bool
has_key none fingerprint = false
has_key (some key) fingerprint = equal fingerprint key

-- step 4: the checks before any field is set
unfoldable pub accepts : Volume → State → Bool
accepts v s =
    same_flag v.counter.encryption_enabled s.encryption_enabled
    && (not v.counter.encryption_enabled || has_key v.master_key s.key_fingerprint)

-- the size, reconciled with that of the `VolumeConfig`
unfoldable pub reconciled_size : State → ℕ
reconciled_size s =
    let config_size_bytes = (s.size_gib * 1073741824) % u64 in
    if ltb 0 config_size_bytes && ltb s.volume_size config_size_bytes
    then config_size_bytes
    else s.volume_size

-- the fields that are set from the chosen copy
unfoldable pub apply_state : State → Volume → Volume
apply_state s v =
    let c = v.counter in
    record {
      volume_name = s.volume_name;
      volume_size = reconciled_size s;
      block_size = s.block_size;
      obj_block_size = s.obj_block_size;
      object_num = s.object_num;
      wal_num = s.wal_num;
      block_to_object_wal_num = s.block_to_object_wal_num;
      use_sharded_wal = v.use_sharded_wal || s.sharded_wal;
      sharded_wal = if s.sharded_wal then some s.wal_num else v.sharded_wal;
      version = s.version;
      size_gib = s.size_gib;
      next_state_seq_num = s.state_seq_num;
      master_key = v.master_key;
      counter = record c { seq_num = s.seq_num };
    }

-- the bootstrap of an encrypted volume's numbers
unfoldable pub bootstrap : Persist → State → Volume → Volume × Option LoadError
bootstrap disk s v =
    let c = v.counter in
    let restarted : Counter = record c {
      volume_uuid = s.volume_uuid;
      seq_num = s.seq_num_high_water;
      seq_num_high_water = s.seq_num_high_water;
    } in
    let (bumped, ok) = bump_seq_num_high_water disk restarted in
    (record v { counter = bumped }, if ok then none else some LoadError.reserve_failed)

-- the part after the fields are set
unfoldable pub finish_load : Bool → Persist → State → Volume → Volume × Option LoadError
finish_load snapshot_ok disk s v =
    let started = bootstrap disk s v in
    if not (equal s.snapshot_id []) && not snapshot_ok
    then (v, some LoadError.snapshot_failed)
    else if v.counter.encryption_enabled
    then started
    else (v, none)

-- `LoadStateCtx`
unfoldable pub load_state :
    Bool
    → Persist
    → State × Option ReadError
    → State × Option ReadError
    → Volume
    → Volume × Option LoadError
load_state snapshot_ok disk local backend v =
    let s = choose_state local backend in
    if refuses local.1
    then (v, some LoadError.local_refused)
    else if refuses backend.1
    then (v, some LoadError.backend_refused)
    else if (backend.0.block_size == 0) && (local.0.block_size == 0)
    then (v, some (classify_state_load local.1 backend.1))
    else if not (accepts v s)
    then (v, some LoadError.encryption_mismatch)
    else finish_load snapshot_ok disk s (apply_state s v)
