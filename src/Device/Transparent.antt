-- ===== src/Device/Transparent.antt =====
-- The bytes of the volume after `readBlockStore`.
use viperblock.Prelude.{
  ℕ, suc, ◌+◌, ◌*◌, ◌≤◌, ◌<◌, ◌≡◌, refl, sym, ap, subst, ◌∙◌, none, some, Option, List, [], ◌∷◌,
  arith, ◌==◌, if◌then◌else◌, length, get_or, Bool-cases, Option-cases, inl, inr,
}
use viperblock.Words.{u16, u32, u64}
use viperblock.Bytes.{Bytes}
use viperblock.Store.{Store}
use viperblock.Device.{
  ok, Source, Reader, Memory, ConsecutiveBlock, fetch_consecutive_blocks, fetch_base_blocks,
  fetch_runs, blocks_to_read,
}
use viperblock.Device.Runs.{Placed, Packed}
use viperblock.Device.Decode.{IsCodec, content, Result-cases}
use viperblock.Device.Fetch.{IsServed, stride_of}
use viperblock.Device.Fill.{fetch_consecutive_blocks-IsFilled}
use viperblock.Device.Read.{
  Volume, Backend, Layer, Location, Found, Collected, block_at, collect, fetch_all, fetch_base,
  fetch_ancestors,
}
use viperblock.Device.Collect.{
  own_location, base_location, ancestor_location, found_of, located, located-Placed, located-Packed,
  IsPacked,
}
use viperblock.Device.Gather.{collect_lists, collect_buffer}
use viperblock.Device.Layers.{World, AllServed, IsBacked, IsSound, image, one_fetch}
use viperblock.Device.Reads.{fetch_all_ok, base_fills, settled}
use viperblock.Device.Cache.{Kept}
use viperblock.Device.Remember.{Owned, fetch_loop-Kept}
use viperblock.Device.Keeps.{collect_parts, Kept-parts, located-Owned, elsewhere_owned, own_owned}

module _ (vb : Volume) (world : World) (backend : Backend) (s : Store) (codec : IsCodec vb.codec)
    (backed : IsBacked vb world backend) (sound : IsSound vb s) (block n : ℕ)
    (top : block + n < u64) (short : n < u16) (fits : n * stride_of vb.codec < u32) (last : ℕ) where
  abbrev Held : Bytes × Memory → Type 0
  Held state = Kept vb world s last state.1.store

  listed_kept :
      (volume : Source) (objects : ℕ → Bytes) (read : Reader) (g : ℕ → Option Location)
      (cs : List ConsecutiveBlock) (state final : Bytes × Memory)
      → IsServed volume objects read
      → IsPacked (stride_of vb.codec) g
      → ((j b : ℕ) (l l' : Location)
          → g b ≡ some l
          → found_of vb s b ≡ Found.own_chunk l'
          → (k : ℕ)
          → get_or (content vb.codec volume objects (block_at j b l)) k 0 ≡ image vb world s b k)
      → cs ≡ located g block 0 n
      → n * vb.codec.block_size ≤ length state.0
      → fetch_runs vb.codec volume read (blocks_to_read vb.codec [] cs) state ≡ ok final
      → Held state
      → Held final
  listed_kept volume objects read g cs (buf, m) final served packed own e room h held =
      fetch_loop-Kept vb world s last volume objects read codec served block n top short fits
        (length cs) 0 cs [] buf m final (omega arith)
        (subst (Placed block 0 n) (sym e) (located-Placed g block 0 n n (omega arith)))
        (subst (Packed (stride_of vb.codec)) (sym e)
          (located-Packed g block (stride_of vb.codec) 0 n packed))
        (subst (Owned vb world s last volume objects read codec served) (sym e)
          (located-Owned vb world s last volume objects read codec served g block 0 n own))
        tt room h held

  layer_kept :
      (layer : Layer) (place : Found → Option Location) (cs : List ConsecutiveBlock)
      (state final : Bytes × Memory)
      → IsServed layer.source (world.from layer.source.name) (backend.read_from layer.source.name)
      → IsPacked (stride_of vb.codec) (λ b. place (found_of vb s b))
      → ((l : Location) → place (Found.own_chunk l) ≡ none)
      → cs ≡ located (λ b. place (found_of vb s b)) block 0 n
      → n * vb.codec.block_size ≤ length state.0
      → (if length cs == 0
          then ok state
          else fetch_base_blocks vb.codec layer.source
              (backend.read_from layer.source.name)
              cs
              state)
        ≡ ok final
      → Held state
      → Held final
  unfolding fetch_base_blocks
  layer_kept layer place cs state final served packed never e room h held =
      elim (Bool-cases (length cs == 0)) [
        | inl empty ↦ let same : state ≡ final = ground (arith, empty, h) in subst Held same held
        | inr some_wanted ↦ elim (Bool-cases (length layer.source.name == 0)) [
          | inl bad ↦ absurd (ground (arith, some_wanted, bad, h))
          | inr named ↦
              listed_kept layer.source (world.from layer.source.name)
                (backend.read_from layer.source.name) (λ b. place (found_of vb s b)) cs state final
                served packed
                (elsewhere_owned vb world s last place never layer.source
                  (world.from layer.source.name))
                e room (ground (arith, some_wanted, named, h)) held
        ]
      ]

  ancestors_kept :
      (ai : ℕ) (layers : List Layer) (cbs : ℕ → List ConsecutiveBlock)
      (state final : Bytes × Memory)
      → AllServed world backend layers
      → ((aj : ℕ) → cbs aj ≡ located (λ b. ancestor_location aj (found_of vb s b)) block 0 n)
      → n * vb.codec.block_size ≤ length state.0
      → fetch_ancestors vb.codec backend ai layers cbs state ≡ ok final
      → Held state
      → Held final
  unfolding fetch_ancestors
  ancestors_kept ai [] cbs state final served e room h held =
      let same : state ≡ final = ground (arith, h) in subst Held same held
  ancestors_kept ai (layer ∷ layers) cbs state final (served, more) e room h held =
      let fetched =
        if length (cbs ai) == 0
        then ok state
        else fetch_base_blocks vb.codec layer.source (backend.read_from layer.source.name) (cbs ai)
            state in
      elim (Result-cases fetched) [
        | inr (x, r) ↦ absurd (ground (arith, r, h))
        | inl (next, r) ↦
            let one =
              one_fetch vb world backend s codec backed sound block n top short fits layer
                (λ b. ancestor_location ai (found_of vb s b)) (cbs ai) state next served
                (sound.ancestors ai) (e ai) room r in
            ancestors_kept (suc ai) layers cbs next final more e (omega (arith, one.0, room))
              (ground (arith, r, h))
              (layer_kept layer (ancestor_location ai) (cbs ai) state next served
                (sound.ancestors ai) (λ l. refl) (e ai) room r held)
      ]

  base_kept :
      (c : Collected) (own base : Bytes × Memory)
      → c.base ≡ located (λ b. base_location (found_of vb s b)) block 0 n
      → n * vb.codec.block_size ≤ length own.0
      → (if length c.base == 0 then ok own else fetch_base vb.codec backend vb.base c.base own)
        ≡ ok base
      → Held own
      → Held base
  unfolding fetch_base
  base_kept c own base e room h held = elim (Option-cases vb.base) [
    | inl no_layer ↦
        let same : own ≡ base =
          settled vb world backend s codec backed sound block n top short fits (length c.base == 0)
            (fetch_base vb.codec backend vb.base c.base own)
            (ap (λ o. fetch_base vb.codec backend o c.base own) no_layer) h in
        subst Held same held
    | inr (layer, it) ↦
        layer_kept layer base_location c.base own base (backed.base layer it) sound.base (λ l. refl)
          e room
          (ap (λ o. if length c.base == 0 then ok own else fetch_base vb.codec backend o c.base own)
              (sym it)
            ∙ h)
          held
  ]

  pub fetch_all-Kept :
      (m : Memory) (final : Bytes × Memory)
      → fetch_all vb backend (collect vb (n * vb.codec.block_size) block 0 n s) m ≡ ok final
      → Kept vb world s last s
      → Held final
  unfolding fetch_consecutive_blocks
  fetch_all-Kept m final h held =
      let size = vb.codec.block_size in
      let c = collect vb (n * size) block 0 n s in
      let (own, base, e₁, e₂, e₃) =
        fetch_all_ok vb world backend s codec backed sound block n top short fits c m final h in
      let lists = λ (ai : ℕ). collect_lists vb s (n * size) block 0 n ai s (λ j. refl) in
      let width : length c.buf ≡ n * size =
        (collect_buffer vb s sound.full (n * size) block 0 n 0 0 s (λ j. refl) (omega arith)
          codec.positive).0 in
      let g = λ (b : ℕ). own_location (found_of vb s b) in
      let parts = collect_parts vb (n * size) block 0 n s in
      let start = Kept-parts vb world s last s c.store parts.0 parts.1 held in
      let first =
        fetch_consecutive_blocks-IsFilled vb.codec vb.own world.own backend.read codec backed.own
          block n top short fits c.own c.buf _ own
          (subst (Placed block 0 n) (sym (lists 0).0) (located-Placed g block 0 n n (omega arith)))
          (subst (Packed (stride_of vb.codec)) (sym (lists 0).0)
            (located-Packed g block (stride_of vb.codec) 0 n sound.own))
          (omega (arith, width)) e₁ in
      let held_own : Held own =
        listed_kept vb.own world.own backend.read g c.own _ own backed.own sound.own
          (own_owned vb world s last) (lists 0).0 (omega (arith, width)) e₁ start in
      let second =
        base_fills vb world backend s codec backed sound block n top short fits c own base
          (lists 0).1 (omega (arith, first.0, width)) e₂ in
      ancestors_kept 0 vb.ancestors c.ancestors base final backed.ancestors (λ ai. (lists ai).2)
        (omega (arith, second.0, first.0, width)) e₃
        (base_kept c own base (lists 0).1 (omega (arith, first.0, width)) e₂ held_own)
