-- ===== src/Device/Layers.antt =====
-- What the fetches from the chunks of other volumes leave in the buffer of `readBlockStore`.
use viperblock.Prelude.{
  ℕ, suc, ◌+◌, ◌-◌, ◌*◌, ◌≤◌, ◌<◌, ◌≡◌, refl, sym, ap, subst, ◌∙◌, true, none, some, Option, List,
  [], ◌∷◌, arith, leb, ◌==◌, if◌then◌else◌, length, get_or, get_elem?, Bool-cases, Option-cases,
  inl, inr,
}
use viperblock.Words.{u16, u32, u64}
use viperblock.Bytes.{Bytes}
use viperblock.Store.{Store}
use viperblock.Device.{ok, Codec, Source, Memory, ConsecutiveBlock, fetch_base_blocks}
use viperblock.Device.Runs.{wanted_at, get_elem?_cons, Placed, Packed}
use viperblock.Device.Decode.{IsCodec, content, Result-cases}
use viperblock.Device.Fetch.{IsServed, stride_of, or_content, IsFilled}
use viperblock.Device.Fill.{fetch_base_blocks-IsFilled}
use viperblock.Device.Read.{Volume, Backend, Layer, Location, Found, block_at, fetch_ancestors}
use viperblock.Device.Collect.{
  own_location, base_location, ancestor_location, found_of, located, located-Placed, located-Packed,
  wanted_at-located, wanted_of, IsPacked,
}

-- the chunk objects of the volume, and of other volumes by their names

pub record World : Type 0 where
  pub own : ℕ → Bytes
  pub from : Bytes → ℕ → Bytes

abbrev pub AllServed : World → Backend → List Layer → Type 0
AllServed world backend [] = Unit {0}
AllServed world backend (layer ∷ layers) =
    IsServed layer.source (world.from layer.source.name) (backend.read_from layer.source.name)
    × AllServed world backend layers

-- the backend serves every volume that is read
pub record IsBacked (vb : Volume) (world : World) (backend : Backend) : Type 0 where
  pub own : IsServed vb.own world.own backend.read
  pub base :
      (layer : Layer)
      → vb.base ≡ some layer
      → IsServed layer.source (world.from layer.source.name) (backend.read_from layer.source.name)
  pub ancestors : AllServed world backend vb.ancestors

-- Blocks in memory are whole, and neighbours in one object lie one stride apart.
pub record IsSound (vb : Volume) (s : Store) : Type 0 where
  pub full :
      (b : ℕ) (bytes : Bytes)
      → found_of vb s b ≡ Found.in_memory bytes
      → length bytes ≡ vb.codec.block_size
  pub own : IsPacked (stride_of vb.codec) (λ b. own_location (found_of vb s b))
  pub base : IsPacked (stride_of vb.codec) (λ b. base_location (found_of vb s b))
  pub ancestors :
      (ai : ℕ) → IsPacked (stride_of vb.codec) (λ b. ancestor_location ai (found_of vb s b))

-- byte `k` of block `b`, on a chunk of a layer
abbrev pub layer_byte : Volume → World → Option Layer → ℕ → ℕ → Location → ℕ
layer_byte vb world none b k l = 0
layer_byte vb world (some layer) b k l =
    get_or (content vb.codec layer.source (world.from layer.source.name) (block_at 0 b l)) k 0

-- byte `k` of block `b`, by where the block is found
abbrev pub found_byte : Volume → World → ℕ → ℕ → Found → ℕ
found_byte vb world b k (Found.in_memory bytes) = get_or bytes k 0
found_byte vb world b k (Found.own_chunk l) =
    get_or (content vb.codec vb.own world.own (block_at 0 b l)) k 0
found_byte vb world b k (Found.in_base l) = layer_byte vb world vb.base b k l
found_byte vb world b k (Found.in_ancestor ai l) =
    layer_byte vb world (get_elem? vb.ancestors ai) b k l
found_byte vb world b k Found.nowhere = 0

-- byte `k` of block `b` of the volume
abbrev pub image : Volume → World → Store → ℕ → ℕ → ℕ
image vb world s b k = found_byte vb world b k (found_of vb s b)

-- The bytes of the `n` blocks from `block` on.
abbrev pub IsImage : Volume → World → Store → ℕ → ℕ → Bytes → Type 0
IsImage vb world s block n bytes =
    (length bytes ≡ n * vb.codec.block_size)
    × ((p k : ℕ)
        → p < n
        → k < vb.codec.block_size
        → get_or bytes (p * vb.codec.block_size + k) 0 ≡ image vb world s (block + p) k)

pub content_at :
    (vb : Codec) (volume : Source) (objects : ℕ → Bytes) (p b : ℕ) (l : Location)
    → content vb volume objects (block_at p b l) ≡ content vb volume objects (block_at 0 b l)
unfolding content
content_at vb volume objects p b l = refl

-- after the ancestors from index `ai` are fetched
abbrev pub ancestor_byte : Volume → World → ℕ → List Layer → ℕ → ℕ → Found → ℕ → ℕ
ancestor_byte vb world ai layers b k (Found.in_ancestor aj l) old =
    if leb ai aj
    then elim (get_elem? layers (aj - ai)) [
      | none ↦ old
      | some layer ↦ layer_byte vb world (some layer) b k l
    ]
    else old
ancestor_byte vb world ai layers b k (Found.in_memory bytes) old = old
ancestor_byte vb world ai layers b k (Found.own_chunk l) old = old
ancestor_byte vb world ai layers b k (Found.in_base l) old = old
ancestor_byte vb world ai layers b k Found.nowhere old = old

module _ (vb : Volume) (world : World) (backend : Backend) (s : Store) (codec : IsCodec vb.codec)
    (backed : IsBacked vb world backend) (sound : IsSound vb s) (block n : ℕ)
    (top : block + n < u64) (short : n < u16) (fits : n * stride_of vb.codec < u32) where
  abbrev pub f : ℕ → Found
  f p = found_of vb s (block + p)

  abbrev pub cell : Bytes → ℕ → ℕ → ℕ
  cell buf p k = get_or buf (p * vb.codec.block_size + k) 0

  -- one list of blocks fetched
  pub listed :
      (volume : Source) (objects : ℕ → Bytes) (g : ℕ → Option Location) (cs : List ConsecutiveBlock)
      (p k old : ℕ)
      → cs ≡ located g block 0 n
      → p < n
      → or_content vb.codec volume objects k (wanted_at p cs) old ≡ elim (g (block + p)) [
        | none ↦ old
        | some l ↦ get_or (content vb.codec volume objects (block_at 0 (block + p) l)) k 0
      ]
  listed volume objects g cs p k old e l =
      ap (λ c. or_content vb.codec volume objects k (wanted_at p c) old) e
      ∙ ap (λ o. or_content vb.codec volume objects k o old)
          (wanted_at-located g block 0 n p ∙ ground (arith, l))
      ∙ by_location (g (block + p))
    where
      by_location :
          (o : Option Location)
          → or_content vb.codec volume objects k (wanted_of p (block + p) o) old ≡ elim o [
            | none ↦ old
            | some l ↦ get_or (content vb.codec volume objects (block_at 0 (block + p) l)) k 0
          ]
      by_location none = refl
      by_location (some x) =
          ap (λ c. get_or c k 0) (content_at vb.codec volume objects p (block + p) x)

  pub nothing : (cs : List ConsecutiveBlock) → (length cs == 0) ≡ true → cs ≡ []
  nothing [] e = refl
  nothing (c ∷ cs) e = absurd (ground (arith, e))

  pub one_fetch :
      (layer : Layer) (g : ℕ → Option Location) (cs : List ConsecutiveBlock)
      (state final : Bytes × Memory)
      → IsServed layer.source (world.from layer.source.name) (backend.read_from layer.source.name)
      → IsPacked (stride_of vb.codec) g
      → cs ≡ located g block 0 n
      → n * vb.codec.block_size ≤ length state.0
      → (if length cs == 0
          then ok state
          else fetch_base_blocks vb.codec layer.source
              (backend.read_from layer.source.name)
              cs
              state)
        ≡ ok final
      → IsFilled vb.codec layer.source (world.from layer.source.name) cs state.0 final.0
  unfolding wanted_at
  one_fetch layer g cs (buf, m) final served packed e room h = elim (Bool-cases (length cs == 0)) [
    | inl empty ↦
        let none_wanted : cs ≡ [] = nothing cs empty in
        let same : (buf, m) ≡ final = ground (arith, empty, h) in
        (
          ap (λ t. length t.0) (sym same),
          λ p k l.
              ap (λ t. cell t.0 p k) (sym same)
              ∙ sym (
                  ap
                    (λ c.
                      or_content vb.codec layer.source (world.from layer.source.name) k
                        (wanted_at p c) (cell buf p k))
                    none_wanted),
        )
    | inr some_wanted ↦
        fetch_base_blocks-IsFilled vb.codec layer.source (world.from layer.source.name)
          (backend.read_from layer.source.name) codec served block n top short fits cs buf m final
          (subst (Placed block 0 n) (sym e) (located-Placed g block 0 n n (omega arith)))
          (subst (Packed (stride_of vb.codec)) (sym e)
            (located-Packed g block (stride_of vb.codec) 0 n packed))
          room (ground (arith, some_wanted, h))
  ]

  no_layer : (ai b k : ℕ) (x : Found) (old : ℕ) → old ≡ ancestor_byte vb world ai [] b k x old
  no_layer ai b k (Found.in_ancestor aj l) old = ground arith
  no_layer ai b k (Found.in_memory bytes) old = refl
  no_layer ai b k (Found.own_chunk l) old = refl
  no_layer ai b k (Found.in_base l) old = refl
  no_layer ai b k Found.nowhere old = refl

  one_layer :
      (ai : ℕ) (layer : Layer) (layers : List Layer) (b k : ℕ) (x : Found) (old : ℕ)
      → ancestor_byte vb world (suc ai) layers b k x (elim (ancestor_location ai x) [
        | none ↦ old
        | some l ↦ layer_byte vb world (some layer) b k l
      ])
        ≡ ancestor_byte vb world ai (layer ∷ layers) b k x old
  one_layer ai layer layers b k (Found.in_ancestor aj l) old =
      let cons = get_elem?_cons layer layers (aj - ai) in
      let back : aj - ai - 1 ≡ aj - suc ai = omega arith in
      elim (Option-cases (get_elem? layers (aj - suc ai))) [
        | inl e ↦ ground (arith, cons, back, e)
        | inr (y, e) ↦ ground (arith, cons, back, e)
      ]
  one_layer ai layer layers b k (Found.in_memory bytes) old = refl
  one_layer ai layer layers b k (Found.own_chunk l) old = refl
  one_layer ai layer layers b k (Found.in_base l) old = refl
  one_layer ai layer layers b k Found.nowhere old = refl

  pub fetch_ancestors-fills :
      (ai : ℕ) (layers : List Layer) (cbs : ℕ → List ConsecutiveBlock)
      (state final : Bytes × Memory)
      → AllServed world backend layers
      → ((aj : ℕ) → cbs aj ≡ located (λ b. ancestor_location aj (found_of vb s b)) block 0 n)
      → n * vb.codec.block_size ≤ length state.0
      → fetch_ancestors vb.codec backend ai layers cbs state ≡ ok final
      → (length final.0 ≡ length state.0)
        × ((p k : ℕ)
            → p < n
            → k < vb.codec.block_size
            → cell final.0 p k
              ≡ ancestor_byte vb world ai layers (block + p) k (f p) (cell state.0 p k))
  unfolding fetch_ancestors
  fetch_ancestors-fills ai [] cbs state final served e room h =
      let same : state ≡ final = ground (arith, h) in
      (
        ap (λ t. length t.0) (sym same),
        λ p k l u.
            ap (λ t. cell t.0 p k) (sym same) ∙ no_layer ai (block + p) k (f p) (cell state.0 p k),
      )
  fetch_ancestors-fills ai (layer ∷ layers) cbs state final (served, more) e room h =
      let g = λ (b : ℕ). ancestor_location ai (found_of vb s b) in
      let fetched =
        if length (cbs ai) == 0
        then ok state
        else fetch_base_blocks vb.codec layer.source (backend.read_from layer.source.name) (cbs ai)
            state in
      elim (Result-cases fetched) [
        | inr (x, r) ↦ absurd (ground (arith, r, h))
        | inl (next, r) ↦
            let one =
              one_fetch layer g (cbs ai) state next served (sound.ancestors ai) (e ai) room r in
            let rest =
              fetch_ancestors-fills (suc ai) layers cbs next final more e
                (omega (arith, one.0, room)) (ground (arith, r, h)) in
            (
              rest.0 ∙ one.0,
              λ p k l u.
                  rest.1 p k l u
                  ∙ ap (ancestor_byte vb world (suc ai) layers (block + p) k (f p)) (
                      one.1 p k u
                      ∙ listed layer.source (world.from layer.source.name) g (cbs ai) p k
                          (cell state.0 p k) (e ai) l)
                  ∙ one_layer ai layer layers (block + p) k (f p) (cell state.0 p k),
            )
      ]
