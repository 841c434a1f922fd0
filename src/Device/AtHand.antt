-- ===== src/Device/AtHand.antt =====
-- The three fetches of `readBlockStore`, and what they leave in memory.
use viperblock.Prelude.{
  ℕ, zero, suc, ◌+◌, ◌-◌, ◌*◌, ◌≤◌, ◌<◌, ◌≡◌, refl, sym, ap, subst, ◌∙◌, Bool, true, false, none,
  some, Option, List, [], ◌∷◌, arith, leb, ltb, ◌==◌, ◌||◌, if◌then◌else◌, length, Bool-cases,
  Option-cases, inl, inr,
}
use viperblock.Words.{u16, u32, u64}
use viperblock.Bytes.{Bytes}
use viperblock.Block.{BlockState, same_state}
use viperblock.Store.{Store, entry, get_shard}
use viperblock.Store.View.{IsValid}
use viperblock.Device.{
  ok, Memory, ConsecutiveBlock, was_read, fetch_consecutive_blocks, fetch_base_blocks,
}
use viperblock.Device.Decode.{IsCodec, Result-cases}
use viperblock.Device.Fetch.{stride_of}
use viperblock.Device.Read.{
  Volume, Backend, Layer, Location, collect, fetch_all, fetch_base, fetch_ancestors,
}
use viperblock.Device.Collect.{
  own_location, base_location, ancestor_location, found_of, put_one, located,
}
use viperblock.Device.Gather.{collect_lists}
use viperblock.Device.Layers.{World, IsBacked, IsSound}
use viperblock.Device.Reads.{fetch_all_ok}
use viperblock.Device.Cache.{persisted_found}
use viperblock.Device.Keeps.{collect_parts}
use viperblock.Device.Cached.{IsAtHand, IsAbove, IsAbove-trans, starts, Fits, fetch_loop-Settles}

put-Fits :
    (b n : ℕ) (o : Option Location) (i : ℕ) (cs : List ConsecutiveBlock)
    → b + suc n < u64
    → length cs ≤ n
    → Fits cs
    → Fits (put_one i b o cs) × (length (put_one i b o cs) ≤ suc n)
put-Fits b n none i cs top l f = (f, omega (arith, l))
put-Fits b n (some x) i cs top l f = ((omega (arith, top, l), f), omega (arith, l))

module _ (g : ℕ → Option Location) (block : ℕ) where
  located-Fits :
      (i n : ℕ)
      → block + i + n < u64
      → Fits (located g block i n) × (length (located g block i n) ≤ n)
  unfolding located
  located-Fits i zero top = (tt, omega arith)
  located-Fits i (suc n) top =
      let rest = located-Fits (suc i) n (omega (arith, top)) in
      put-Fits (block + i) n (g (block + i)) i (located g block (suc i) n) (omega (arith, top))
        rest.1 rest.0

  put-member :
      (b j i : ℕ) (o : Option Location) (cs : List ConsecutiveBlock)
      → was_read j (starts cs) ≡ true
      → was_read j (starts (put_one i b o cs)) ≡ true
  unfolding was_read
  put-member b j i none cs h = h
  put-member b j i (some x) cs h = ground (arith, h)

  put-first :
      (b i : ℕ) (o : Option Location) (l : Location) (cs : List ConsecutiveBlock)
      → o ≡ some l
      → was_read b (starts (put_one i b o cs)) ≡ true
  unfolding was_read
  put-first b i none l cs h = cc
  put-first b i (some x) l cs h = ground arith

  located-member :
      (i n p : ℕ) (l : Location)
      → i ≤ p
      → p < i + n
      → g (block + p) ≡ some l
      → was_read (block + p) (starts (located g block i n)) ≡ true
  unfolding located
  located-member i zero p l low high at = absurd (omega (arith, low, high))
  located-member i (suc n) p l low high at = elim (Bool-cases (i == p)) [
    | inl here ↦
        let q : i ≡ p = ground (arith, here) in
        subst (λ x. was_read (block + x) (starts (located g block i (suc n))) ≡ true) q
          (put-first (block + i) i (g (block + i)) l (located g block (suc i) n)
            (ap (λ x. g (block + x)) q ∙ at))
    | inr other ↦
        put-member (block + i) (block + p) i (g (block + i)) (located g block (suc i) n)
          (located-member (suc i) n p l (ground (arith, other, low)) (omega (arith, high)) at)
  ]

module _ (vb : Volume) (world : World) (backend : Backend) (s : Store) (codec : IsCodec vb.codec)
    (backed : IsBacked vb world backend) (sound : IsSound vb s) (block n : ℕ)
    (top : block + n < u64) (short : n < u16) (fits : n * stride_of vb.codec < u32) where
  -- a layer's fetch keeps what is at hand
  layer-IsAbove :
      (layer : Layer) (g : ℕ → Option Location) (cs : List ConsecutiveBlock)
      (state final : Bytes × Memory)
      → cs ≡ located g block 0 n
      → (if length cs == 0
          then ok state
          else fetch_base_blocks vb.codec layer.source
              (backend.read_from layer.source.name)
              cs
              state)
        ≡ ok final
      → IsValid state.1.store
      → IsAbove state.1.store final.1.store
  unfolding fetch_base_blocks
  layer-IsAbove layer g cs state final e h v =
      let room = located-Fits g block 0 n (omega (arith, top)) in
      elim (Bool-cases (length cs == 0)) [
        | inl empty ↦
            let same : state ≡ final = ground (arith, empty, h) in
            subst (λ t. IsAbove state.1.store t.1.store) same
              (record { valid = v; keeps = λ b k. k })
        | inr some_wanted ↦ elim (Bool-cases (length layer.source.name == 0)) [
          | inl bad ↦ absurd (ground (arith, some_wanted, bad, h))
          | inr name_given ↦
              (fetch_loop-Settles vb.codec layer.source (backend.read_from layer.source.name) cs []
                state final v (subst (λ x. length x < u16) (sym e) (omega (arith, room.1, short)))
                (subst Fits (sym e) room.0) (ground (arith, some_wanted, name_given, h))).0
        ]
      ]

  ancestors-IsAbove :
      (ai : ℕ) (layers : List Layer) (cbs : ℕ → List ConsecutiveBlock)
      (state final : Bytes × Memory)
      → ((aj : ℕ) → cbs aj ≡ located (λ b. ancestor_location aj (found_of vb s b)) block 0 n)
      → fetch_ancestors vb.codec backend ai layers cbs state ≡ ok final
      → IsValid state.1.store
      → IsAbove state.1.store final.1.store
  unfolding fetch_ancestors
  ancestors-IsAbove ai [] cbs state final e h v =
      let same : state ≡ final = ground (arith, h) in
      subst (λ t. IsAbove state.1.store t.1.store) same (record { valid = v; keeps = λ b k. k })
  ancestors-IsAbove ai (layer ∷ layers) cbs state final e h v =
      let fetched =
        if length (cbs ai) == 0
        then ok state
        else fetch_base_blocks vb.codec layer.source (backend.read_from layer.source.name) (cbs ai)
            state in
      elim (Result-cases fetched) [
        | inr (x, r) ↦ absurd (ground (arith, r, h))
        | inl (next, r) ↦
            let one =
              layer-IsAbove layer (λ b. ancestor_location ai (found_of vb s b)) (cbs ai) state next
                (e ai) r v in
            IsAbove-trans _ _ _ one
              (ancestors-IsAbove (suc ai) layers cbs next final e (ground (arith, r, h)) one.valid)
      ]

  base-IsAbove :
      (cs : List ConsecutiveBlock) (state final : Bytes × Memory)
      → cs ≡ located (λ b. base_location (found_of vb s b)) block 0 n
      → (if length cs == 0 then ok state else fetch_base vb.codec backend vb.base cs state)
        ≡ ok final
      → IsValid state.1.store
      → IsAbove state.1.store final.1.store
  unfolding fetch_base
  base-IsAbove cs state final e h v = elim (Option-cases vb.base) [
    | inl no_layer ↦
        let same : state ≡ final = ground (arith, no_layer, h) in
        subst (λ t. IsAbove state.1.store t.1.store) same (record { valid = v; keeps = λ b k. k })
    | inr (layer, it) ↦
        layer-IsAbove layer (λ b. base_location (found_of vb s b)) cs state final e
          (ap (λ o. if length cs == 0 then ok state else fetch_base vb.codec backend o cs state)
              (sym it)
            ∙ h)
          v
  ]

  collected-IsAbove :
      (t : Store) → t.shards ≡ s.shards → t.extents ≡ s.extents → IsValid s → IsAbove s t
  unfolding entry get_shard
  collected-IsAbove t e f v = record {
    valid = record { sharded = ap length e ∙ v.sharded; extents = rw f v.extents };
    keeps = λ b h x here. h x (
        ap
          (λ z.
            viperblock.Dict.find b
              (viperblock.Prelude.get_or z (viperblock.Store.shard_index b) []))
          (sym e)
        ∙ here);
  }

  not_own : (b : ℕ) → own_location (found_of vb s b) ≡ none → IsAtHand s b
  not_own b none_own e here = elim (Bool-cases (same_state e.state BlockState.persisted)) [
    | inr st ↦ st
    | inl st ↦
        absurd (clash (sym none_own ∙ ap own_location (persisted_found vb world s 0 s b e here st)))
  ]
    where
      clash : {x : Location} → none ≡ some x → ⊥
      clash h = cc

  pub fetch_all-IsAtHand :
      (m : Memory) (final : Bytes × Memory) (p : ℕ)
      → IsValid s
      → fetch_all vb backend (collect vb (n * vb.codec.block_size) block 0 n s) m ≡ ok final
      → p < n
      → IsAtHand final.1.store (block + p)
  unfolding fetch_consecutive_blocks was_read
  fetch_all-IsAtHand m final p v h l =
      let c = collect vb (n * vb.codec.block_size) block 0 n s in
      let (own, base, e₁, e₂, e₃) =
        fetch_all_ok vb world backend s codec backed sound block n top short fits c m final h in
      let lists =
        λ (ai : ℕ). collect_lists vb s (n * vb.codec.block_size) block 0 n ai s (λ j. refl) in
      let parts = collect_parts vb (n * vb.codec.block_size) block 0 n s in
      let start = collected-IsAbove c.store parts.0 parts.1 v in
      let g = λ (b : ℕ). own_location (found_of vb s b) in
      let room = located-Fits g block 0 n (omega (arith, top)) in
      let first =
        fetch_loop-Settles vb.codec vb.own backend.read c.own []
          (c.buf, record m { store = c.store }) own start.valid
          (subst (λ x. length x < u16) (sym (lists 0).0) (omega (arith, room.1, short)))
          (subst Fits (sym (lists 0).0) room.0) e₁ in
      let second = base-IsAbove c.base own base (lists 0).1 e₂ first.0.valid in
      let third =
        ancestors-IsAbove 0 vb.ancestors c.ancestors base final (λ ai. (lists ai).2) e₃
          second.valid in
      let later = λ (b : ℕ) (k : IsAtHand own.1.store b). third.keeps b (second.keeps b k) in
      elim (Option-cases (g (block + p))) [
        | inl none_own ↦
            later (block + p)
              (first.0.keeps (block + p) (start.keeps (block + p) (not_own (block + p) none_own)))
        | inr (x, at) ↦
            elim (first.1 (block + p) (
              subst (λ cs. was_read (block + p) (starts cs) ≡ true) (sym (lists 0).0)
                (located-member g block 0 n p x (omega arith) (omega (arith, l)) at))) [
                  | inl before ↦ absurd (ground (arith, before))
                  | inr hand ↦ later (block + p) hand
                ]
      ]
