-- ===== src/Device/Cache.antt =====
-- The bytes of the volume after a block that was read is cached.
use viperblock.Prelude.{
  ℕ, zero, suc, ◌+◌, ◌*◌, ◌≤◌, ◌<◌, ◌≡◌, ◌⊎◌, refl, sym, ap, subst, ◌∙◌, true, none, some, Option,
  arith, ◌==◌, if◌then◌else◌, length, get_or, Bool-cases, Option-cases, inl, inr,
}
use viperblock.Bytes.{Bytes, slice}
use viperblock.Block.{BlockEntry, BlockState, same_state}
use viperblock.Store.{Store, entry, put}
use viperblock.Store.Writers.{cache}
use viperblock.Store.View.{view, IsValid, entry-put}
use viperblock.Store.View.Writers.{put-IsValid, view-put}
use viperblock.Device.{cache_blocks}
use viperblock.Device.Read.{Volume, Location, Found, find_block, find_entry}
use viperblock.Device.Collect.{own_location, base_location, ancestor_location, found_of, IsPacked}
use viperblock.Device.Layers.{World, image, found_byte, IsSound}

-- These bytes are those of block `b`.

abbrev pub IsCopy : Volume → World → Store → ℕ → Bytes → Type 0
IsCopy vb world s b bytes =
    (length bytes ≡ vb.codec.block_size)
    × ((k : ℕ) → k < vb.codec.block_size → get_or bytes k 0 ≡ image vb world s b k)

-- A block is found where it was, or a copy of it has been taken from the volume's own chunk.
abbrev pub IsKept : Volume → World → Store → Store → ℕ → Type 0
IsKept vb world s₀ s b =
    (found_of vb s b ≡ found_of vb s₀ b)
    ⊎ ((l : Location) × (bytes : Bytes) × (found_of vb s₀ b ≡ Found.own_chunk l)
        × (found_of vb s b ≡ Found.in_memory bytes)
        × IsCopy vb world s₀ b bytes)

-- what a read may make of the store `s₀`, whose entries have numbers up to `last`
pub record Kept (vb : Volume) (world : World) (s₀ : Store) (last : ℕ) (s : Store) : Type 0 where
  pub valid : IsValid s
  pub bounded : (b : ℕ) (e : BlockEntry) → entry s b ≡ some e → e.seq_num ≤ last
  pub kept : (b : ℕ) → IsKept vb world s₀ s b

is_persisted :
    (st : BlockState) → same_state st BlockState.persisted ≡ true → st ≡ BlockState.persisted
is_persisted BlockState.empty h = cc
is_persisted BlockState.hot h = cc
is_persisted BlockState.pending h = cc
is_persisted BlockState.persisted h = refl
is_persisted BlockState.cached h = cc

module _ (vb : Volume) (world : World) (s₀ : Store) (last : ℕ) where
  -- an entry that caching changes is found on the volume's own chunk
  pub persisted_found :
      (s : Store) (b : ℕ) (e : BlockEntry)
      → entry s b ≡ some e
      → same_state e.state BlockState.persisted ≡ true
      → found_of vb s b
        ≡ Found.own_chunk (record {
          object_id = e.object_id;
          object_offset = e.object_offset;
          seq_num = e.seq_num;
        })
  unfolding find_block find_entry
  persisted_found s b e here st =
      let seen : view s b ≡ some e = ground (arith, here) in
      ap (find_block vb b) seen ∙ ap (find_entry vb b e) (is_persisted e.state st)

  abbrev with_copy : BlockEntry → Bytes → BlockEntry
  with_copy e bytes = record e { state = BlockState.cached; bytes = bytes }

  cached_found :
      (s : Store) (b j : ℕ) (e : BlockEntry) (bytes : Bytes)
      → IsValid s
      → found_of vb (put s b (with_copy e bytes)) j
        ≡ (if b == j then Found.in_memory bytes else found_of vb s j)
  unfolding find_block find_entry
  cached_found s b j e bytes v =
      ap (find_block vb j) (view-put s v b (with_copy e bytes) j) ∙ ground arith

  put-IsKept :
      (s : Store) (b j : ℕ) (e : BlockEntry) (bytes : Bytes) (l : Location)
      → IsValid s
      → found_of vb s b ≡ Found.own_chunk l
      → ((x : Location) → found_of vb s₀ b ≡ Found.own_chunk x → IsCopy vb world s₀ b bytes)
      → IsKept vb world s₀ s b
      → IsKept vb world s₀ s j
      → IsKept vb world s₀ (put s b (with_copy e bytes)) j
  put-IsKept s b j e bytes l v here copy old kept = elim (Bool-cases (b == j)) [
    | inr other ↦
        let same : found_of vb (put s b (with_copy e bytes)) j ≡ found_of vb s j =
          cached_found s b j e bytes v ∙ ground (arith, other) in
        elim kept [
          | inl k ↦ inl (same ∙ k)
          | inr (x, c, at, mem, good) ↦ inr (x, c, at, same ∙ mem, good)
        ]
    | inl it ↦
        let q : b ≡ j = ground (arith, it) in
        let now : found_of vb (put s b (with_copy e bytes)) j ≡ Found.in_memory bytes =
          cached_found s b j e bytes v ∙ ground (arith, it) in
        elim old [
          | inl k ↦
              let at = sym k ∙ here in
              inr (
                l,
                bytes,
                subst (λ t. found_of vb s₀ t ≡ Found.own_chunk l) q at,
                now,
                subst (λ t. IsCopy vb world s₀ t bytes) q (copy l at),
              )
          | inr (x, c, at, mem, good) ↦ absurd (not_both (sym mem ∙ here))
        ]
  ]
    where
      not_both : {c : Bytes} {x : Location} → Found.in_memory c ≡ Found.own_chunk x → ⊥
      not_both h = cc

  pub cache-Kept :
      (s : Store) (b : ℕ) (bytes : Bytes)
      → Kept vb world s₀ last s
      → ((l : Location) → found_of vb s₀ b ≡ Found.own_chunk l → IsCopy vb world s₀ b bytes)
      → Kept vb world s₀ last (cache s b bytes).0
  unfolding cache
  cache-Kept s b bytes h copy = elim (Option-cases (entry s b)) [
    | inl e ↦
        let q : (cache s b bytes).0 ≡ s = ground (arith, e) in
        subst (Kept vb world s₀ last) (sym q) h
    | inr (e, here) ↦ elim (Bool-cases (same_state e.state BlockState.persisted)) [
      | inr no_place ↦
          let q : (cache s b bytes).0 ≡ s = ground (arith, here, no_place) in
          subst (Kept vb world s₀ last) (sym q) h
      | inl st ↦
          let q : (cache s b bytes).0 ≡ put s b (with_copy e bytes) = ground (arith, here, st) in
          subst (Kept vb world s₀ last) (sym q) (record {
            valid = put-IsValid s h.valid b (with_copy e bytes);
            bounded = λ j x there. ground (
              arith,
              entry-put s h.valid.sharded b (with_copy e bytes) j,
              there,
              h.bounded b e here,
              h.bounded j x,
            );
            kept = λ j.
                put-IsKept s b j e bytes _ h.valid (persisted_found s b e here st) copy (h.kept b)
                  (h.kept j);
          })
    ]
  ]

  pub cache_blocks-Kept :
      (start i n : ℕ) (run : Bytes) (s : Store)
      → Kept vb world s₀ last s
      → ((j : ℕ) (l : Location)
          → i ≤ j
          → j < i + n
          → found_of vb s₀ (start + j) ≡ Found.own_chunk l
          → IsCopy vb world s₀
              (start + j)
              (slice (j * vb.codec.block_size) vb.codec.block_size run))
      → Kept vb world s₀ last (cache_blocks vb.codec start run i n s)
  unfolding cache_blocks
  cache_blocks-Kept start i zero run s h copies = h
  cache_blocks-Kept start i (suc n) run s h copies =
      cache_blocks-Kept start (suc i) n run _
        (cache-Kept s (start + i) (slice (i * vb.codec.block_size) vb.codec.block_size run) h
          (λ l at. copies i l (omega arith) (omega arith) at))
        (λ j l low high at. copies j l (omega arith) (omega arith) at)

module _ (vb : Volume) (world : World) (s₀ : Store) (last : ℕ) (s : Store)
    (h : Kept vb world s₀ last s) where
  pub Kept-image :
      (b k : ℕ) → k < vb.codec.block_size → image vb world s b k ≡ image vb world s₀ b k
  Kept-image b k l = elim (h.kept b) [
    | inl same ↦ ap (found_byte vb world b k) same
    | inr (x, c, at, mem, good) ↦ ap (found_byte vb world b k) mem ∙ good.1 k l
  ]

  -- a location that is found now was found before
  pub was_located :
      (place : Found → Option Location) (b : ℕ) (l : Location)
      → ((bytes : Bytes) → place (Found.in_memory bytes) ≡ none)
      → place (found_of vb s b) ≡ some l
      → place (found_of vb s₀ b) ≡ some l
  was_located place b l never there = elim (h.kept b) [
    | inl same ↦ ap place (sym same) ∙ there
    | inr (x, c, at, mem, good) ↦ absurd (clash (sym (never c) ∙ ap place (sym mem) ∙ there))
  ]
    where
      clash : {x : Location} → none ≡ some x → ⊥
      clash e = cc

  packed_before :
      (stride : ℕ) (place : Found → Option Location)
      → ((bytes : Bytes) → place (Found.in_memory bytes) ≡ none)
      → IsPacked stride (λ b. place (found_of vb s₀ b))
      → IsPacked stride (λ b. place (found_of vb s b))
  packed_before stride place never p b l l' e e' =
      p b l l' (was_located place b l never e) (was_located place (suc b) l' never e')

  pub Kept-IsSound : IsSound vb s₀ → IsSound vb s
  Kept-IsSound sound = record {
    full = λ b bytes e. elim (h.kept b) [
      | inl same ↦ sound.full b bytes (sym same ∙ e)
      | inr (x, c, at, mem, good) ↦ ap length (same_bytes (sym e ∙ mem)) ∙ good.0
    ];
    own = packed_before _ own_location (λ bytes. refl) sound.own;
    base = packed_before _ base_location (λ bytes. refl) sound.base;
    ancestors = λ ai. packed_before _ (ancestor_location ai) (λ bytes. refl) (sound.ancestors ai);
  }
    where
      same_bytes : {x y : Bytes} → Found.in_memory x ≡ Found.in_memory y → x ≡ y
      same_bytes e = cc
