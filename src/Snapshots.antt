-- ===== src/Snapshots.antt =====
-- The flat section of viperblock/snapshot.go: the blocks that a snapshot inherits, layer by layer, as
-- `buildFlatSection` writes them and `parseFlatSection` reads them.
pub mod Flat
use viperblock.Prelude.{
  ℕ, zero, suc, ◌+◌, Bool, true, false, ◌||◌, not, Option, none, some, List, [], ◌∷◌, ◌++◌, ltb,
  ◌==◌, if◌then◌else◌, length, take, drop,
}
use viperblock.Words.{u16, u32}
use viperblock.Bytes.{Bytes, slice, put_be, get_be}
use viperblock.Dict.{Dict, insert}
use viperblock.Lookup.{BlockLookup}
use viperblock.Reload.{run_blocks}
use viperblock.Checkpoint.{
  Decoded, block_wal_chunk_size, decode_block_wal_chunk, write_block_wal_chunk, write_records,
  equal,
}

-- `sourceGroup`
pub record SourceGroup : Type 0 where
  pub name : Bytes
  pub uuid : Bytes
  pub name_hash : Bytes
  pub blocks : List BlockLookup

-- `InheritedLayer`
pub record InheritedLayer : Type 0 where
  pub blocks : Dict BlockLookup
  pub source_volume_name : Bytes
  pub source_volume_uuid : Bytes
  pub source_volume_name_hash : Bytes

-- `_, exists := seen[k]`
unfoldable pub is_seen : ℕ → List ℕ → Bool
is_seen k [] = false
is_seen k (x ∷ xs) = (x == k) || is_seen k xs

-- the blocks of the volume's own runs
unfoldable pub own_blocks : Dict BlockLookup → List ℕ
own_blocks [] = []
own_blocks ((k, bl) ∷ m) = run_blocks bl 0 bl.num_blocks ++ own_blocks m

-- the entries of one map that are not seen yet, and what is seen after it
unfoldable pub take_unseen : List ℕ → Dict BlockLookup → List BlockLookup × List ℕ
take_unseen seen [] = ([], seen)
take_unseen seen ((k, v) ∷ m) =
    let known = is_seen k seen in
    let (blocks, all) = take_unseen (if known then seen else k ∷ seen) m in
    (if known then blocks else v ∷ blocks, all)

-- the layers in their order of priority, the base map first
unfoldable pub collect_sources : List ℕ → List InheritedLayer → List SourceGroup
collect_sources seen [] = []
collect_sources seen (layer ∷ layers) =
    let (blocks, all) = take_unseen seen layer.blocks in
    record {
      name = layer.source_volume_name;
      uuid = layer.source_volume_uuid;
      name_hash = layer.source_volume_name_hash;
      blocks = blocks;
    }
    ∷ collect_sources all layers

-- `flatSectionMagic`, "FLAT"
abbrev pub flat_section_magic : Bytes
flat_section_magic = 70 ∷ 76 ∷ 65 ∷ 84 ∷ []

-- one source
unfoldable pub write_source : SourceGroup → Bytes
write_source src =
    put_be 2 (length src.name)
    ++ (src.name
        ++ (src.uuid
            ++ (src.name_hash ++ (put_be 4 (length src.blocks) ++ write_records src.blocks))))

-- the sources, with the limits on their names and their blocks
unfoldable pub write_sources : List SourceGroup → Option Bytes
write_sources [] = some []
write_sources (src ∷ sources) =
    let rest = write_sources sources in
    if ltb 65535 (length src.name) || ltb 4294967295 (length src.blocks)
    then none
    else elim rest [ none ↦ none | some more ↦ some (write_source src ++ more) ]

-- `buildFlatSection`, from the sources on
unfoldable pub write_section : List SourceGroup → Option Bytes
write_section sources =
    let rest = write_sources sources in
    if ltb 255 (length sources) then none else elim rest [
      | none ↦ none
      | some more ↦ some (flat_section_magic ++ (1 ∷ length sources ∷ more))
    ]

-- `buildFlatSection`
unfoldable pub build_flat_section : Dict BlockLookup → List InheritedLayer → Option Bytes
build_flat_section own layers = write_section (collect_sources (own_blocks own) layers)

-- the loop over the blocks of a source, with the bytes after them
unfoldable pub parse_blocks : ℕ → Bytes → Dict BlockLookup → Option (Dict BlockLookup × Bytes)
parse_blocks zero raw m = some (m, raw)
parse_blocks (suc n) raw m =
    if ltb (length raw) block_wal_chunk_size
    then none
    else elim (decode_block_wal_chunk (take block_wal_chunk_size raw)) [
      | Decoded.refused e ↦ none
      | Decoded.decoded block ↦
          parse_blocks n (drop block_wal_chunk_size raw) (insert block.start_block block m)
    ]

-- a layer before those after it
abbrev pub add_layer : InheritedLayer → Option (List InheritedLayer) → Option (List InheritedLayer)
add_layer layer none = none
add_layer layer (some layers) = some (layer ∷ layers)

-- One source from its identity on, `name` being read; `rest` parses the sources after it.
unfoldable pub parse_identity :
    (Bytes → Option (List InheritedLayer)) → Bytes → Bytes → Option (List InheritedLayer)
parse_identity rest name raw =
    if ltb (length raw) 40
    then none
    else elim (parse_blocks (get_be (slice 36 4 raw)) (drop 40 raw) []) [
      | none ↦ none
      | some (m, after) ↦
          add_layer
            (record {
              blocks = m;
              source_volume_name = name;
              source_volume_uuid = take 4 raw;
              source_volume_name_hash = slice 4 32 raw;
            })
            (rest after)
    ]

-- one source from its start on
unfoldable pub parse_source :
    (Bytes → Option (List InheritedLayer)) → Bytes → Option (List InheritedLayer)
parse_source rest raw =
    let name_len = get_be (take 2 raw) in
    if ltb (length raw) 2
    then none
    else if ltb (length (drop 2 raw)) name_len
    then none
    else parse_identity rest (take name_len (drop 2 raw)) (drop name_len (drop 2 raw))

unfoldable pub parse_sources : ℕ → Bytes → Option (List InheritedLayer)
parse_sources zero raw = some []
parse_sources (suc n) raw = parse_source (parse_sources n) raw

-- `parseFlatSection`; the version byte is not looked at.
unfoldable pub parse_flat_section : Bytes → Option (List InheritedLayer)
parse_flat_section raw =
    if ltb (length raw) 6
    then none
    else if not (equal (take 4 raw) flat_section_magic)
    then none
    else parse_sources (get_be (slice 5 1 raw)) (drop 6 raw)
