-- ===== src/Device/Keeps.antt =====
-- `readBlockStore` leaves every byte of the volume as it was.
use viperblock.Prelude.{
  ℕ, zero, suc, ◌+◌, ◌≡◌, refl, sym, ap, subst, ◌∙◌, none, some, Option, [], arith, length, get_or,
  inl, inr,
}
use viperblock.Bytes.{Bytes}
use viperblock.Block.{BlockEntry}
use viperblock.Dict.{find}
use viperblock.Extents.{read_persisted}
use viperblock.Extents.Lookup.{IsWf}
use viperblock.Store.{Store, entry, get_shard, shard_index}
use viperblock.Store.View.{view}
use viperblock.Store.Readers.{read_entry}
use viperblock.Device.{Source, Reader}
use viperblock.Device.Decode.{IsCodec, content}
use viperblock.Device.Fetch.{IsServed}
use viperblock.Device.Read.{
  Volume, Location, Found, Collected, block_at, find_block, add_found, collect,
}
use viperblock.Device.Collect.{own_location, found_of, put_one, located}
use viperblock.Device.Layers.{World, image, found_byte, content_at}
use viperblock.Device.Cache.{Kept}
use viperblock.Device.Remember.{Owned}

-- Reading an entry touches nothing but the statistics.

read_entry_parts :
    (s : Store) (b : ℕ)
    → ((read_entry s b).0.shards ≡ s.shards) × ((read_entry s b).0.extents ≡ s.extents)
unfolding read_entry
read_entry_parts s b = (ground arith, ground arith)

add_found_store :
    (size i b : ℕ) (x : Found) (c : Collected) → (add_found size i b x c).store ≡ c.store
unfolding add_found
add_found_store size i b (Found.in_memory bytes) c = refl
add_found_store size i b (Found.own_chunk l) c = refl
add_found_store size i b (Found.in_base l) c = refl
add_found_store size i b (Found.in_ancestor ai l) c = refl
add_found_store size i b Found.nowhere c = refl

pub collect_parts :
    (vb : Volume) (len block i n : ℕ) (s : Store)
    → ((collect vb len block i n s).store.shards ≡ s.shards)
      × ((collect vb len block i n s).store.extents ≡ s.extents)
unfolding collect
collect_parts vb len block i zero s = (refl, refl)
collect_parts vb len block i (suc n) s =
    let (s', e) = read_entry s (block + i) in
    let rest = collect_parts vb len block (suc i) n s' in
    let now = read_entry_parts s (block + i) in
    let same =
      add_found_store vb.codec.block_size i (block + i) (find_block vb (block + i) e)
        (collect vb len block (suc i) n s') in
    (ap (λ t. t.shards) same ∙ rest.0 ∙ now.0, ap (λ t. t.extents) same ∙ rest.1 ∙ now.1)

module _ (vb : Volume) (world : World) (s₀ : Store) (last : ℕ) where
  same_view :
      (s t : Store) (b : ℕ)
      → t.shards ≡ s.shards
      → t.extents ≡ s.extents
      → (entry t b ≡ entry s b) × (view t b ≡ view s b)
  unfolding entry get_shard
  same_view s t b e e' =
      let here : entry t b ≡ entry s b = ap (λ x. find b (get_or x (shard_index b) [])) e in
      (
        here,
        ap
              (λ (o : Option BlockEntry). elim o [
                | some x ↦ some x
                | none ↦ read_persisted t.extents b
              ])
              here
            ∙ ap (λ x. elim (entry s b) [ some y ↦ some y | none ↦ read_persisted x b ]) e',
      )

  pub Kept-parts :
      (s t : Store)
      → t.shards ≡ s.shards
      → t.extents ≡ s.extents
      → Kept vb world s₀ last s
      → Kept vb world s₀ last t
  Kept-parts s t e e' h = record {
    valid = record {
      sharded = ap length e ∙ h.valid.sharded;
      extents = subst IsWf (sym e') h.valid.extents;
    };
    bounded = λ b x there. h.bounded b x (sym (same_view s t b e e').0 ∙ there);
    kept = λ b.
        let same = ap (find_block vb b) (same_view s t b e e').1 in
        elim (h.kept b) [
          | inl old ↦ inl (same ∙ old)
          | inr (l, c, at, mem, good) ↦ inr (l, c, at, same ∙ mem, good)
        ];
  }

  -- A list of blocks that are not on the volume's own chunks has nothing to be cached.
  pub located-Owned :
      (volume : Source) (objects : ℕ → Bytes) (read : Reader) (codec : IsCodec vb.codec)
      (source : IsServed volume objects read) (g : ℕ → Option Location) (block i n : ℕ)
      → ((j b : ℕ) (l l' : Location)
          → g b ≡ some l
          → found_of vb s₀ b ≡ Found.own_chunk l'
          → (k : ℕ)
          → get_or (content vb.codec volume objects (block_at j b l)) k 0 ≡ image vb world s₀ b k)
      → Owned vb world s₀ last volume objects read codec source (located g block i n)
  unfolding located
  located-Owned volume objects read codec source g block i zero own = tt
  located-Owned volume objects read codec source g block i (suc n) own =
      put_owned (g (block + i)) refl
        (located-Owned volume objects read codec source g block (suc i) n own)
    where
      put_owned :
          (o : Option Location)
          → g (block + i) ≡ o
          → Owned vb world s₀ last volume objects read codec source (located g block (suc i) n)
          → Owned vb world s₀ last volume objects read codec source
              (put_one i (block + i) o (located g block (suc i) n))
      put_owned none e h = h
      put_owned (some l) e h = (λ l' at k. own i (block + i) l l' e at k, h)

  -- A block in another volume's chunk is not in the volume's own.
  pub elsewhere_owned :
      (place : Found → Option Location)
      → ((l : Location) → place (Found.own_chunk l) ≡ none)
      → (volume : Source) (objects : ℕ → Bytes) (j b : ℕ) (l l' : Location)
      → place (found_of vb s₀ b) ≡ some l
      → found_of vb s₀ b ≡ Found.own_chunk l'
      → (k : ℕ)
      → get_or (content vb.codec volume objects (block_at j b l)) k 0 ≡ image vb world s₀ b k
  elsewhere_owned place never volume objects j b l l' e at k =
      absurd (clash (sym (never l') ∙ ap place (sym at) ∙ e))
    where
      clash : {x : Location} → none ≡ some x → ⊥
      clash h = cc

  pub own_owned :
      (j b : ℕ) (l l' : Location)
      → own_location (found_of vb s₀ b) ≡ some l
      → found_of vb s₀ b ≡ Found.own_chunk l'
      → (k : ℕ)
      → get_or (content vb.codec vb.own world.own (block_at j b l)) k 0 ≡ image vb world s₀ b k
  own_owned j b l l' e at k =
      let same : l ≡ l' = same_location (sym e ∙ ap own_location at) in
      ap (λ c. get_or c k 0) (content_at vb.codec vb.own world.own j b l)
      ∙ ap (λ x. get_or (content vb.codec vb.own world.own (block_at 0 b x)) k 0) same
      ∙ sym (ap (found_byte vb world b k) at)
    where
      same_location : {x y : Location} → some x ≡ some y → x ≡ y
      same_location h = cc
