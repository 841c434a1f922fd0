-- ===== src/Snapshots/Flat.antt =====
-- Flat sections written and read back.
use viperblock.Prelude.{
  ℕ, zero, suc, ◌+◌, ◌≤◌, ◌<◌, ◌≡◌, refl, sym, ap, ◌∙◌, Option, some, List, [], ◌∷◌, ◌++◌, map,
  arith, length, take, drop, length-append, take-append, drop-append, append_assoc,
}
use viperblock.Words.{u16, u32}
use viperblock.Bytes.{Bytes, slice, put_be, get_be, get_be-put_be}
use viperblock.Dict.{Dict, insert}
use viperblock.Lookup.{BlockLookup}
use viperblock.Checkpoint.{
  Decoded, block_wal_chunk_size, decode_block_wal_chunk, write_block_wal_chunk, write_records,
  collect,
}
use viperblock.Checkpoint.RoundTrip.{
  AllSingle, decode-write, take-write_first, drop-write_first, length-write_block_wal_chunk,
}
use viperblock.Snapshots.{
  SourceGroup, InheritedLayer, flat_section_magic, write_source, write_sources, write_section,
  parse_blocks, add_layer, parse_identity, parse_source, parse_sources, parse_flat_section,
}

-- the layer that a source is read back as

abbrev pub layer_of : SourceGroup → InheritedLayer
layer_of src = record {
  blocks = collect src.blocks [];
  source_volume_name = src.name;
  source_volume_uuid = src.uuid;
  source_volume_name_hash = src.name_hash;
}

-- A source fits its fields: its identity has its sizes, and its blocks are single.
pub record IsSource (src : SourceGroup) : Type 0 where
  pub name_fits : length src.name < u16
  pub uuid_fits : length src.uuid ≡ 4
  pub hash_fits : length src.name_hash ≡ 32
  pub count_fits : length src.blocks < u32
  pub single : AllSingle src.blocks

abbrev pub AllSources : List SourceGroup → Type 0
AllSources [] = Unit {0}
AllSources (src ∷ sources) = IsSource src × AllSources sources

parse_blocks_step :
    (n : ℕ) (raw rest : Bytes) (block : BlockLookup) (m : Dict BlockLookup)
    → block_wal_chunk_size ≤ length raw
    → decode_block_wal_chunk (take block_wal_chunk_size raw) ≡ Decoded.decoded block
    → drop block_wal_chunk_size raw ≡ rest
    → parse_blocks (suc n) raw m ≡ parse_blocks n rest (insert block.start_block block m)
unfolding parse_blocks
parse_blocks_step n raw rest block m long first after = rw (first, after) (ground (arith, long))

parse_blocks-write_records :
    (blocks : List BlockLookup) (rest : Bytes) (m : Dict BlockLookup)
    → AllSingle blocks
    → parse_blocks (length blocks) (write_records blocks ++ rest) m ≡ some (collect blocks m, rest)
unfolding parse_blocks write_records collect
parse_blocks-write_records [] rest m v = refl
parse_blocks-write_records (block ∷ blocks) rest m (v, vs) =
    let first = write_block_wal_chunk block in
    let more = write_records blocks ++ rest in
    ap (λ raw. parse_blocks (suc (length blocks)) raw m)
      (append_assoc first (write_records blocks) rest)
    ∙ parse_blocks_step (length blocks) (first ++ more) more block m
        (omega (arith, length-append first more, length-write_block_wal_chunk block))
        (ap decode_block_wal_chunk (take-write_first block more) ∙ decode-write block v)
        (drop-write_first block more)
    ∙ parse_blocks-write_records blocks rest (insert block.start_block block m) vs

drop-nil : (n : ℕ) → drop {A = ℕ} n [] ≡ []
drop-nil zero = refl
drop-nil (suc n) = refl

drop_add : (m n : ℕ) (xs : Bytes) → drop (m + n) xs ≡ drop n (drop m xs)
drop_add zero n xs = let e : zero + n ≡ n = omega arith in ap (λ k. drop k xs) e
drop_add (suc m) n [] =
    let e : suc m + n ≡ suc (m + n) = omega arith in
    ap (λ k. drop {A = ℕ} k []) e ∙ sym (drop-nil n)
drop_add (suc m) n (x ∷ xs) =
    let e : suc m + n ≡ suc (m + n) = omega arith in ap (λ k. drop k (x ∷ xs)) e ∙ drop_add m n xs

identity_accepted :
    (rest : Bytes → Option (List InheritedLayer)) (name raw after : Bytes) (m : Dict BlockLookup)
    → 40 ≤ length raw
    → parse_blocks (get_be (slice 36 4 raw)) (drop 40 raw) [] ≡ some (m, after)
    → parse_identity rest name raw
      ≡ add_layer
          (record {
            blocks = m;
            source_volume_name = name;
            source_volume_uuid = take 4 raw;
            source_volume_name_hash = slice 4 32 raw;
          })
          (rest after)
unfolding parse_identity
identity_accepted rest name raw after m long p = rw (p, parse_identity) (ground (arith, long))

parse_identity_lem :
    (rest : Bytes → Option (List InheritedLayer)) (src : SourceGroup) (more : Bytes)
    → IsSource src
    → parse_identity rest src.name (
        src.uuid
        ++ (src.name_hash ++ (put_be 4 (length src.blocks) ++ (write_records src.blocks ++ more))))
      ≡ add_layer (layer_of src) (rest more)
parse_identity_lem rest src more v =
    let count = put_be 4 (length src.blocks) in
    let body = write_records src.blocks ++ more in
    let tail = src.name_hash ++ (count ++ body) in
    let raw = src.uuid ++ tail in
    let uuid = drop-append 4 src.uuid tail v.uuid_fits in
    let both : length (src.uuid ++ src.name_hash) ≡ 36 =
      omega (arith, length-append src.uuid src.name_hash, v.uuid_fits, v.hash_fits) in
    let past : drop 36 raw ≡ count ++ body =
      ap (drop 36) (sym (append_assoc src.uuid src.name_hash (count ++ body)))
      ∙ drop-append 36 (src.uuid ++ src.name_hash) (count ++ body) both in
    let uuid_at = take-append 4 src.uuid tail v.uuid_fits in
    let hash_at = ap (take 32) uuid ∙ take-append 32 src.name_hash (count ++ body) v.hash_fits in
    let count_at : get_be (slice 36 4 raw) ≡ length src.blocks =
      ap (λ r. get_be (take 4 r)) past ∙ get_be-put_be 4 (length src.blocks) v.count_fits in
    let body_at : drop 40 raw ≡ body = drop_add 36 4 raw ∙ ap (drop 4) past in
    let parsed =
      ap (λ n. parse_blocks n (drop 40 raw) []) count_at
      ∙ ap (λ r. parse_blocks (length src.blocks) r []) body_at
      ∙ parse_blocks-write_records src.blocks more [] v.single in
    let layer : Bytes → Bytes → InheritedLayer = λ u h. record {
      blocks = collect src.blocks [];
      source_volume_name = src.name;
      source_volume_uuid = u;
      source_volume_name_hash = h;
    } in
    identity_accepted rest src.name raw more (collect src.blocks [])
      (omega (
        arith,
        length-append src.uuid tail,
        length-append src.name_hash (count ++ body),
        v.uuid_fits,
        v.hash_fits,
      ))
      parsed
    ∙ ap (λ u. add_layer (layer u (slice 4 32 raw)) (rest more)) uuid_at
    ∙ ap (λ h. add_layer (layer src.uuid h) (rest more)) hash_at

source_split :
    (src : SourceGroup) (more : Bytes)
    → write_source src ++ more
      ≡ put_be 2 (length src.name)
        ++ (src.name
            ++ (src.uuid
                ++ (src.name_hash
                    ++ (put_be 4 (length src.blocks) ++ (write_records src.blocks ++ more)))))
unfolding write_source
source_split src more =
    let count = put_be 4 (length src.blocks) in
    let records = write_records src.blocks in
    let name_len = put_be 2 (length src.name) in
    ap (λ r. name_len ++ r)
      (append_assoc src.name (src.uuid ++ (src.name_hash ++ (count ++ records))) more
        ∙ ap (λ r. src.name ++ r)
            (append_assoc src.uuid (src.name_hash ++ (count ++ records)) more
              ∙ ap (λ r. src.uuid ++ r) (append_assoc src.name_hash (count ++ records) more)))

source_accepted :
    (rest : Bytes → Option (List InheritedLayer)) (raw name after : Bytes)
    → 2 ≤ length raw
    → get_be (take 2 raw) ≡ length name
    → drop 2 raw ≡ name ++ after
    → parse_source rest raw ≡ parse_identity rest name after
unfolding parse_source
source_accepted rest raw name after long n d =
    rw (n, d, take-append (length name) name after refl, drop-append (length name) name after refl)
      (ground (arith, long, length-append name after))

parse_source-write_source :
    (rest : Bytes → Option (List InheritedLayer)) (src : SourceGroup) (more : Bytes)
    → IsSource src
    → parse_source rest (write_source src ++ more) ≡ add_layer (layer_of src) (rest more)
parse_source-write_source rest src more v =
    let name_len = put_be 2 (length src.name) in
    let after =
      src.uuid
      ++ (src.name_hash ++ (put_be 4 (length src.blocks) ++ (write_records src.blocks ++ more))) in
    ap (parse_source rest) (source_split src more)
    ∙ source_accepted rest (name_len ++ (src.name ++ after)) src.name after (omega arith)
        (get_be-put_be 2 (length src.name) v.name_fits) refl
    ∙ parse_identity_lem rest src more v

parse_sources-write_sources :
    (sources : List SourceGroup)
    → AllSources sources
    → (raw : Bytes) × (write_sources sources ≡ some raw)
      × (parse_sources (length sources) raw ≡ some (map layer_of sources))
unfolding write_sources parse_sources
parse_sources-write_sources [] v = ([], refl, refl)
parse_sources-write_sources (src ∷ sources) (v, vs) =
    let (more, w, p) = parse_sources-write_sources sources vs in
    (
      write_source src ++ more,
      rw w (ground (arith, v.name_fits, v.count_fits)),
      parse_source-write_source (parse_sources (length sources)) src more v
          ∙ ap (add_layer (layer_of src)) p,
    )

section_accepted :
    (n : ℕ) (raw : Bytes)
    → n ≤ 255
    → parse_flat_section (flat_section_magic ++ (1 ∷ n ∷ raw)) ≡ parse_sources n raw
unfolding parse_flat_section
section_accepted n raw small = let e : get_be (n ∷ []) ≡ n = omega arith in rw e (ground arith)

-- A flat section of at most 255 sources that fit their fields is written, and read back as the
-- layers of those sources, in their order, each with its blocks by their first block.
pub parse-write_section :
    (sources : List SourceGroup)
    → AllSources sources
    → length sources ≤ 255
    → (raw : Bytes) × (write_section sources ≡ some raw)
      × (parse_flat_section raw ≡ some (map layer_of sources))
unfolding write_section
parse-write_section sources v few =
    let (more, w, p) = parse_sources-write_sources sources v in
    (
      flat_section_magic ++ (1 ∷ length sources ∷ more),
      rw w (ground (arith, few)),
      section_accepted (length sources) more few ∙ p,
    )
