-- ===== src/Device/Reads.antt =====
-- What `readBlockStore` returns, at every byte.
use viperblock.Prelude.{
  ℕ, suc, ◌+◌, ◌-◌, ◌*◌, ◌/◌, ◌%◌, ◌≤◌, ◌<◌, ◌≡◌, refl, sym, ap, subst, ◌∙◌, Bool, true, false,
  none, some, Option, List, [], ◌∷◌, arith, ◌==◌, if◌then◌else◌, length, get_or, get_elem?,
  Option-cases, inl, inr,
}
use native.Mathlib.Nat.{mul-div_cancel, mul-mod_left}
use viperblock.Words.{u16, u32, u64}
use viperblock.Bytes.{Bytes}
use viperblock.Dict.{find}
use viperblock.Block.{BlockEntry, BlockState}
use viperblock.Store.{Store}
use viperblock.Store.View.{view}
use viperblock.Device.{Result, ok, Memory, fetch_consecutive_blocks}
use viperblock.Device.Runs.{Placed, Packed}
use viperblock.Device.Decode.{IsCodec, content, Result-cases}
use viperblock.Device.Fetch.{stride_of}
use viperblock.Device.Fill.{fetch_consecutive_blocks-IsFilled}
use viperblock.Device.Read.{
  find_block, find_entry, find_below, find_ancestor, lookup_base_block_to_object, Volume, Backend,
  Layer, Found, Collected, Answer, block_at, collect, fetch_all, fetch_base, fetch_ancestors,
  read_block_store,
}
use viperblock.Device.Collect.{
  own_location, base_location, found_of, located, located-Placed, located-Packed,
}
use viperblock.Device.Gather.{memory_byte, collect_lists, collect_buffer}
use viperblock.Device.Layers.{
  World, IsBacked, IsSound, IsImage, layer_byte, found_byte, ancestor_byte, listed, one_fetch,
  fetch_ancestors-fills,
}

module _ (vb : Volume) (world : World) (backend : Backend) (s : Store) (codec : IsCodec vb.codec)
    (backed : IsBacked vb world backend) (sound : IsSound vb s) (block n : ℕ)
    (top : block + n < u64) (short : n < u16) (fits : n * stride_of vb.codec < u32) where
  abbrev f : ℕ → Found
  f p = found_of vb s (block + p)

  abbrev cell : Bytes → ℕ → ℕ → ℕ
  cell buf p k = get_or buf (p * vb.codec.block_size + k) 0

  -- what the three fetches went through
  pub fetch_all_ok :
      (c : Collected) (m : Memory) (final : Bytes × Memory)
      → fetch_all vb backend c m ≡ ok final
      → (own base : Bytes × Memory) × (fetch_consecutive_blocks vb.codec vb.own backend.read c.own
            (c.buf, record m { store = c.store })
          ≡ ok own)
        × ((if length c.base == 0 then ok own else fetch_base vb.codec backend vb.base c.base own)
            ≡ ok base)
        × (fetch_ancestors vb.codec backend 0 vb.ancestors c.ancestors base ≡ ok final)
  unfolding fetch_all
  fetch_all_ok c m final h =
      elim (Result-cases (
        fetch_consecutive_blocks vb.codec vb.own backend.read c.own
          (c.buf, record m { store = c.store }))) [
            | inr (x, e) ↦ absurd (ground (arith, e, h))
            | inl (own, e) ↦
                elim (Result-cases (
                  if length c.base == 0
                  then ok own
                  else fetch_base vb.codec backend vb.base c.base own)) [
                    | inr (x, g) ↦ absurd (ground (arith, e, g, h))
                    | inl (base, g) ↦ (own, base, e, g, ground (arith, e, g, h))
                  ]
          ]

  pub settled :
      (b : Bool) (r : Result (Bytes × Memory)) {x y : Bytes × Memory}
      → r ≡ ok x
      → (if b then ok x else r) ≡ ok y
      → x ≡ y
  settled true r e h = ground (arith, h)
  settled false r e h = ground (arith, e, h)

  pub fetch_none :
      (c : Collected) (own : Bytes × Memory) → fetch_base vb.codec backend none c.base own ≡ ok own
  unfolding fetch_base
  fetch_none c own = refl

  ancestor_no_base :
      (ai : ℕ) (layers : List Layer) (b : ℕ) → base_location (find_ancestor ai layers b) ≡ none
  unfolding find_ancestor
  ancestor_no_base ai [] b = refl
  ancestor_no_base ai (layer ∷ layers) b = elim (Option-cases (find b layer.blocks)) [
    | inl e ↦ ground (arith, e, ancestor_no_base (suc ai) layers b)
    | inr (x, e) ↦ ground (arith, e)
  ]

  below_no_base : (b : ℕ) → vb.base ≡ none → base_location (find_below vb b) ≡ none
  unfolding find_below lookup_base_block_to_object
  below_no_base b e =
      let gone : lookup_base_block_to_object vb.base b ≡ none =
        ap (λ o. lookup_base_block_to_object o b) e in
      ground (arith, gone, ancestor_no_base 0 vb.ancestors b)

  entry_no_base :
      (b : ℕ) (e : BlockEntry) (st : BlockState)
      → vb.base ≡ none
      → base_location (find_entry vb b e st) ≡ none
  unfolding find_entry
  entry_no_base b e BlockState.hot h = refl
  entry_no_base b e BlockState.pending h = refl
  entry_no_base b e BlockState.cached h = refl
  entry_no_base b e BlockState.persisted h = refl
  entry_no_base b e BlockState.empty h = below_no_base b h

  found_no_base :
      (b : ℕ) (o : Option BlockEntry) → vb.base ≡ none → base_location (find_block vb b o) ≡ none
  unfolding find_block
  found_no_base b none h = below_no_base b h
  found_no_base b (some e) h = entry_no_base b e e.state h

  -- the fetch from the base
  pub base_fills :
      (c : Collected) (own base : Bytes × Memory)
      → c.base ≡ located (λ b. base_location (found_of vb s b)) block 0 n
      → n * vb.codec.block_size ≤ length own.0
      → (if length c.base == 0 then ok own else fetch_base vb.codec backend vb.base c.base own)
        ≡ ok base
      → (length base.0 ≡ length own.0)
        × ((p k : ℕ)
            → p < n
            → k < vb.codec.block_size
            → cell base.0 p k ≡ elim (base_location (f p)) [
              | none ↦ cell own.0 p k
              | some l ↦ layer_byte vb world vb.base (block + p) k l
            ])
  unfolding fetch_base
  base_fills c own base e room h = elim (Option-cases vb.base) [
    | inl no_layer ↦
        let same : own ≡ base =
          settled (length c.base == 0) (fetch_base vb.codec backend vb.base c.base own)
            (ap (λ o. fetch_base vb.codec backend o c.base own) no_layer ∙ fetch_none c own) h in
        (
          ap (λ t. length t.0) (sym same),
          λ p k l u.
              let gone = found_no_base (block + p) (view s (block + p)) no_layer in
              ap (λ t. cell t.0 p k) (sym same) ∙ rw gone refl,
        )
    | inr (layer, it) ↦
        let g = λ (b : ℕ). base_location (found_of vb s b) in
        let one =
          one_fetch vb world backend s codec backed sound block n top short fits layer g c.base own
            base (backed.base layer it) sound.base e room
            (ap
                (λ o.
                  if length c.base == 0 then ok own else fetch_base vb.codec backend o c.base own)
                (sym it)
              ∙ h) in
        (
          one.0,
          λ p k l u.
              one.1 p k u
              ∙ listed vb world backend s codec backed sound block n top short fits layer.source
                  (world.from layer.source.name) g c.base p k (cell own.0 p k) e l
              ∙ ap
                  (λ o. elim (g (block + p)) [
                    | none ↦ cell own.0 p k
                    | some x ↦ layer_byte vb world o (block + p) k x
                  ])
                  (sym it),
        )
  ]

  -- the byte that the three fetches leave, one after the other
  last_byte :
      (b k : ℕ) (x : Found)
      → ancestor_byte vb world 0 vb.ancestors b k x (elim (base_location x) [
        | none ↦ elim (own_location x) [
          | none ↦ memory_byte k x
          | some l ↦ get_or (content vb.codec vb.own world.own (block_at 0 b l)) k 0
        ]
        | some l ↦ layer_byte vb world vb.base b k l
      ])
        ≡ found_byte vb world b k x
  last_byte b k (Found.in_memory bytes) = refl
  last_byte b k (Found.own_chunk l) = refl
  last_byte b k (Found.in_base l) = refl
  last_byte b k (Found.in_ancestor ai l) =
      let e : ai - 0 ≡ ai = omega arith in
      elim (Option-cases (get_elem? vb.ancestors ai)) [
        | inl h ↦ ground (arith, e, h)
        | inr (y, h) ↦ ground (arith, e, h)
      ]
  last_byte b k Found.nowhere = refl

  pub fetch_all-IsImage :
      (m : Memory) (final : Bytes × Memory)
      → fetch_all vb backend (collect vb (n * vb.codec.block_size) block 0 n s) m ≡ ok final
      → IsImage vb world s block n final.0
  fetch_all-IsImage m final h =
      let size = vb.codec.block_size in
      let c = collect vb (n * size) block 0 n s in
      let (own, base, e₁, e₂, e₃) = fetch_all_ok c m final h in
      let lists = λ (ai : ℕ). collect_lists vb s (n * size) block 0 n ai s (λ j. refl) in
      let buffer = λ (p k : ℕ).
        collect_buffer vb s sound.full (n * size) block 0 n p k s (λ j. refl) (omega arith) in
      let width : length c.buf ≡ n * size = (buffer 0 0 codec.positive).0 in
      let g = λ (b : ℕ). own_location (found_of vb s b) in
      let first =
        fetch_consecutive_blocks-IsFilled vb.codec vb.own world.own backend.read codec backed.own
          block n top short fits c.own c.buf _ own
          (subst (Placed block 0 n) (sym (lists 0).0) (located-Placed g block 0 n n (omega arith)))
          (subst (Packed (stride_of vb.codec)) (sym (lists 0).0)
            (located-Packed g block (stride_of vb.codec) 0 n sound.own))
          (omega (arith, width)) e₁ in
      let second = base_fills c own base (lists 0).1 (omega (arith, first.0, width)) e₂ in
      let third =
        fetch_ancestors-fills vb world backend s codec backed sound block n top short fits 0
          vb.ancestors c.ancestors base final backed.ancestors (λ ai. (lists ai).2)
          (omega (arith, second.0, first.0, width)) e₃ in
      (
        third.0 ∙ second.0 ∙ first.0 ∙ width,
        λ p k l u.
            let in_buffer : cell c.buf p k ≡ memory_byte k (f p) =
              (buffer p k u).1 ∙ ground (arith, l) in
            let in_own =
              first.1 p k u
              ∙ listed vb world backend s codec backed sound block n top short fits vb.own world.own
                  g c.own p k (cell c.buf p k) (lists 0).0 l
              ∙ ap
                  (λ o. elim (own_location (f p)) [
                    | none ↦ o
                    | some x ↦
                        get_or (content vb.codec vb.own world.own (block_at 0 (block + p) x)) k 0
                  ])
                  in_buffer in
            third.1 p k l u
            ∙ ap (ancestor_byte vb world 0 vb.ancestors (block + p) k (f p)) (
                second.1 p k l u
                ∙ ap
                    (λ o. elim (base_location (f p)) [
                      | none ↦ o
                      | some x ↦ layer_byte vb world vb.base (block + p) k x
                    ])
                    in_own)
            ∙ last_byte (block + p) k (f p),
      )

pub read_block_store_ok :
    (vb : Volume) (backend : Backend) (block n : ℕ) (m : Memory) (a : Answer)
    → 0 < vb.codec.block_size
    → read_block_store vb backend block (n * vb.codec.block_size) m ≡ ok a
    → (final : Bytes × Memory) × (fetch_all vb backend
          (collect vb (n * vb.codec.block_size) block 0 n m.store)
          m
        ≡ ok final)
      × (final ≡ (a.bytes, a.memory))
unfolding read_block_store
read_block_store_ok vb backend block n m a positive h =
    let size = vb.codec.block_size in
    let rows : n * size / size ≡ n = mul-div_cancel n positive in
    let none_over : (n * size % size == 0) ≡ true = rw (mul-mod_left n size) refl in
    elim (Result-cases
      (fetch_all vb backend (collect vb (n * size) block 0 (n * size / size) m.store) m)) [
        | inr (x, e) ↦ absurd (ground (arith, none_over, e, h))
        | inl (final, e) ↦ (
          final,
          ap (λ r. fetch_all vb backend (collect vb (n * size) block 0 r m.store) m) (sym rows) ∙ e,
          ground (arith, none_over, e, h),
        )
      ]

-- Where `readBlockStore` succeeds, on a backend whose full reads are the objects' bytes, its buffer
-- holds the bytes of the blocks that were asked for.
pub read_block_store-IsImage :
    (vb : Volume) (world : World) (backend : Backend) (block n : ℕ) (m : Memory) (a : Answer)
    → IsCodec vb.codec
    → IsBacked vb world backend
    → IsSound vb m.store
    → block + n < u64
    → n < u16
    → n * stride_of vb.codec < u32
    → read_block_store vb backend block (n * vb.codec.block_size) m ≡ ok a
    → IsImage vb world m.store block n a.bytes
read_block_store-IsImage vb world backend block n m a codec backed sound top short fits h =
    let (final, e, same) = read_block_store_ok vb backend block n m a codec.positive h in
    subst (IsImage vb world m.store block n) (ap (λ t. t.0) same) (
      fetch_all-IsImage vb world backend m.store codec backed sound block n top short fits m final
        e)
