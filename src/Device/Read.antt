-- ===== src/Device/Read.antt =====
-- The read path of viperblock/viperblock.go on a volume with a block store: `readBlockStore` and
-- `ReadAtCtx`, with `LookupBaseBlockToObject` of viperblock/snapshot.go.
use viperblock.Prelude.{
  ℕ, zero, suc, ◌+◌, ◌*◌, ◌/◌, ◌%◌, Bool, true, false, not, Option, none, some, List, [], ◌∷◌, ltb,
  ◌==◌, if◌then◌else◌, length, replicate,
}
use viperblock.Words.{u64, add64, sub64}
use viperblock.Bytes.{Bytes, slice}
use viperblock.Dict.{Dict, find}
use viperblock.Block.{BlockEntry, BlockState}
use viperblock.Lookup.{BlockLookup}
use viperblock.Store.{Store}
use viperblock.Store.Readers.{read_entry}
use viperblock.Device.{
  ReadError, Result, ok, err, Codec, Source, Reader, Memory, ConsecutiveBlock, copy_into,
  fetch_consecutive_blocks, fetch_base_blocks,
}

-- a snapshot that a volume was cloned from: its source and its map, which has an entry for each block
pub record Layer : Type 0 where
  pub source : Source
  pub blocks : Dict BlockLookup

-- the fields of `VB` that a read needs and does not change
pub record Volume : Type 0 where
  pub size : ℕ
  pub codec : Codec
  pub own : Source
  pub base : Option Layer
  pub ancestors : List Layer

-- the backend's reads: `ReadCtx`, and `ReadFromCtx` by the volume's name
pub record Backend : Type 0 where
  pub read : Reader
  pub read_from : Bytes → Reader

-- where a block lies in a chunk
pub record Location : Type 0 where
  pub object_id : ℕ
  pub object_offset : ℕ
  pub seq_num : ℕ

-- where the loop of `readBlockStore` finds a block
pub data Found : Type 0 where
  in_memory : Bytes → Found
  own_chunk in_base : Location → Found
  in_ancestor : ℕ → Location → Found
  nowhere : Found

abbrev pub location_of : BlockLookup → Location
location_of l = record {
  object_id = l.object_id;
  object_offset = l.object_offset;
  seq_num = l.seq_num;
}

-- `LookupBaseBlockToObject`; none stands for `ErrZeroBlock`.
unfoldable pub lookup_base_block_to_object : Option Layer → ℕ → Option Location
lookup_base_block_to_object none block = none
lookup_base_block_to_object (some layer) block = elim (find block layer.blocks) [
  | none ↦ none
  | some l ↦ some (location_of l)
]

-- the loop over the ancestors, from the one at index `ai`
unfoldable pub find_ancestor : ℕ → List Layer → ℕ → Found
find_ancestor ai [] block = Found.nowhere
find_ancestor ai (layer ∷ layers) block =
    let rest = find_ancestor (suc ai) layers block in
    elim (find block layer.blocks) [ some l ↦ Found.in_ancestor ai (location_of l) | none ↦ rest ]

-- the case of `BlockStateEmpty`
unfoldable pub find_below : Volume → ℕ → Found
find_below vb block = elim (lookup_base_block_to_object vb.base block) [
  | some l ↦ Found.in_base l
  | none ↦ find_ancestor 0 vb.ancestors block
]

-- the `switch` on the state of an entry
unfoldable pub find_entry : Volume → ℕ → BlockEntry → BlockState → Found
find_entry vb block e BlockState.hot = Found.in_memory e.bytes
find_entry vb block e BlockState.pending = Found.in_memory e.bytes
find_entry vb block e BlockState.cached = Found.in_memory e.bytes
find_entry vb block e BlockState.persisted =
    Found.own_chunk
      (record { object_id = e.object_id; object_offset = e.object_offset; seq_num = e.seq_num })
find_entry vb block e BlockState.empty = find_below vb block

unfoldable pub find_block : Volume → ℕ → Option BlockEntry → Found
find_block vb block none = find_below vb block
find_block vb block (some e) = find_entry vb block e e.state

-- what the loop collects
pub record Collected : Type 0 where
  pub buf : Bytes
  pub own : List ConsecutiveBlock
  pub base : List ConsecutiveBlock
  pub ancestors : ℕ → List ConsecutiveBlock
  pub zero_block : Bool
  pub store : Store

abbrev pub block_at : ℕ → ℕ → Location → ConsecutiveBlock
block_at i block l = record {
  block_position = i;
  start_block = block;
  object_id = l.object_id;
  object_offset = l.object_offset;
  seq_num = l.seq_num;
}

-- what block `block`, at position `i`, adds to what the later ones give
unfoldable pub add_found : ℕ → ℕ → ℕ → Found → Collected → Collected
add_found block_size i block (Found.in_memory bytes) c = record c {
  buf = copy_into (i * block_size) block_size bytes c.buf;
}
add_found block_size i block (Found.own_chunk l) c = record c { own = block_at i block l ∷ c.own }
add_found block_size i block (Found.in_base l) c = record c { base = block_at i block l ∷ c.base }
add_found block_size i block (Found.in_ancestor ai l) c = record c {
  ancestors = λ j. if j == ai then block_at i block l ∷ c.ancestors j else c.ancestors j;
}
add_found block_size i block Found.nowhere c = record c { zero_block = true }

-- The loop over `n` blocks from position `i`; each goes before those that follow it.
unfoldable pub collect : Volume → ℕ → ℕ → ℕ → ℕ → Store → Collected
collect vb len block i zero s = record {
  buf = replicate len 0;
  own = [];
  base = [];
  ancestors = λ ai. [];
  zero_block = false;
  store = s;
}
collect vb len block i (suc n) s =
    let (s', e) = read_entry s (block + i) in
    add_found vb.codec.block_size i (block + i) (find_block vb (block + i) e)
      (collect vb len block (suc i) n s')

-- `ReadFromCtx` for the ancestors, from the one at index `ai`
unfoldable pub fetch_ancestors :
    Codec
    → Backend
    → ℕ
    → List Layer
    → (ℕ → List ConsecutiveBlock)
    → Bytes × Memory
    → Result (Bytes × Memory)
fetch_ancestors vb backend ai [] cbs state = ok state
fetch_ancestors vb backend ai (layer ∷ layers) cbs state =
    let fetched =
      if length (cbs ai) == 0
      then ok state
      else fetch_base_blocks vb layer.source (backend.read_from layer.source.name) (cbs ai) state in
    elim fetched [ err e ↦ err e | ok next ↦ fetch_ancestors vb backend (suc ai) layers cbs next ]

-- the blocks of the snapshot that the volume was cloned from
unfoldable pub fetch_base :
    Codec
    → Backend
    → Option Layer
    → List ConsecutiveBlock
    → Bytes × Memory
    → Result (Bytes × Memory)
fetch_base vb backend none cbs state = ok state
fetch_base vb backend (some layer) cbs state =
    fetch_base_blocks vb layer.source (backend.read_from layer.source.name) cbs state

-- the three fetches
unfoldable pub fetch_all : Volume → Backend → Collected → Memory → Result (Bytes × Memory)
fetch_all vb backend c m =
    elim (fetch_consecutive_blocks vb.codec vb.own backend.read c.own
      (c.buf, record m { store = c.store })) [
        | err e ↦ err e
        | ok own ↦
            elim (if length c.base == 0
              then ok own
              else fetch_base vb.codec backend vb.base c.base own) [
                | err e ↦ err e
                | ok base ↦ fetch_ancestors vb.codec backend 0 vb.ancestors c.ancestors base
              ]
      ]

-- The bytes, whether `ErrZeroBlock` comes with them, and what the read has changed.
pub record Answer : Type 0 where
  pub bytes : Bytes
  pub zero_block : Bool
  pub memory : Memory

-- `readBlockStore`
unfoldable pub read_block_store : Volume → Backend → ℕ → ℕ → Memory → Result Answer
read_block_store vb backend block block_len m =
    let c = collect vb block_len block 0 (block_len / vb.codec.block_size) m.store in
    if not (block_len % vb.codec.block_size == 0)
    then err ReadError.bad_block_size
    else elim (fetch_all vb backend c m) [
      | err e ↦ err e
      | ok (buf, m') ↦ ok (record { bytes = buf; zero_block = c.zero_block; memory = m' })
    ]

-- `fullData[innerOffset : innerOffset+length]`
unfoldable pub cut_answer : ℕ → ℕ → Answer → Result Answer
cut_answer inner len a =
    if ltb (length a.bytes) (add64 inner len)
    then err ReadError.panicked
    else if ltb (add64 inner len) inner
    then err ReadError.panicked
    else ok (record a { bytes = slice inner len a.bytes })

-- `ReadAtCtx`
unfoldable pub read_at : Volume → Backend → ℕ → ℕ → Memory → Result Answer
read_at vb backend offset len m =
    let block_size = vb.codec.block_size in
    let first_block = offset / block_size in
    let last_block = sub64 (add64 offset len) 1 / block_size in
    let block_count = add64 (sub64 last_block first_block) 1 in
    if ltb vb.size offset
    then err ReadError.too_large
    else if ltb vb.size (add64 offset len)
    then err ReadError.out_of_range
    else elim (read_block_store vb backend first_block ((block_count * block_size) % u64) m) [
      | err e ↦ err e
      | ok a ↦ cut_answer (offset % block_size) len a
    ]
