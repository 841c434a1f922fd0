-- ===== src/Device/Splice.antt =====
-- What the write of one block changes, byte by byte.
use viperblock.Prelude.{
  ℕ, suc, ◌+◌, ◌≤◌, ◌<◌, ◌≡◌, refl, sym, ap, subst, ◌∙◌, none, some, Option, arith, ◌==◌,
  if◌then◌else◌, length, Bool-cases, Option-cases, inl, inr,
}
use viperblock.Words.{u64, add64}
use viperblock.Bytes.{Bytes}
use viperblock.Block.{BlockEntry}
use viperblock.Numbering.{SeqError, Reserved, reserve_seq_num}
use viperblock.Store.{Store, entry, put}
use viperblock.Store.Writers.{write_with_seq_num, hot_entry}
use viperblock.Store.View.{IsValid, entry-put}
use viperblock.Store.View.Writers.{put-IsValid, view-put}
use viperblock.Device.Buffer.{chosen, passed}
use viperblock.Device.Decode.{IsCodec}
use viperblock.Device.Read.{Volume, Location, Found, find_block, find_entry}
use viperblock.Device.Collect.{own_location, base_location, ancestor_location, found_of, IsPacked}
use viperblock.Device.Layers.{World, IsSound}
use viperblock.Device.Write.{Device, Env, WriteError, publish_as, publish}
use viperblock.Device.Reserve.{reserve_one}

-- The store is well-formed and sound, and no entry's number is ahead of the counter.

pub record IsDevice (vb : Volume) (d : Device) : Type 0 where
  pub valid : IsValid d.memory.store
  pub bounded :
      (b : ℕ) (e : BlockEntry) → entry d.memory.store b ≡ some e → e.seq_num ≤ d.counter.seq_num
  pub sound : IsSound vb d.memory.store

module _ (vb : Volume) (world : World) (codec : IsCodec vb.codec) where
  -- `d'` is `d` with the bytes of block `b` replaced.
  pub record IsPut (d d' : Device) (b : ℕ) (bytes : Bytes) : Type 0 where
    pub ready : IsDevice vb d'
    pub counted : d'.counter.seq_num ≡ d.counter.seq_num + 1
    pub found :
        (j : ℕ)
        → found_of vb d'.memory.store j
          ≡ (if b == j then Found.in_memory bytes else found_of vb d.memory.store j)

  -- the store with the new entry
  put_hot :
      (s : Store) (last b : ℕ) (bytes : Bytes)
      → IsValid s
      → ((j : ℕ) (e : BlockEntry) → entry s j ≡ some e → e.seq_num ≤ last)
      → write_with_seq_num s b bytes (last + 1) ≡ put s b (hot_entry bytes (last + 1))
  unfolding write_with_seq_num
  put_hot s last b bytes v bounded = elim (Option-cases (entry s b)) [
    | inl e ↦ ground (arith, e)
    | inr (x, e) ↦ ground (arith, e, bounded b x e)
  ]

  hot_found :
      (s : Store) (b j n : ℕ) (bytes : Bytes)
      → IsValid s
      → found_of vb (put s b (hot_entry bytes n)) j
        ≡ (if b == j then Found.in_memory bytes else found_of vb s j)
  unfolding find_block find_entry
  hot_found s b j n bytes v =
      ap (find_block vb j) (view-put s v b (hot_entry bytes n) j) ∙ ground arith

  -- a location that is found after the write was found before
  located_before :
      (place : Found → Option Location) (s s' : Store) (b j : ℕ) (bytes : Bytes) (l : Location)
      → place (Found.in_memory bytes) ≡ none
      → found_of vb s' j ≡ (if b == j then Found.in_memory bytes else found_of vb s j)
      → place (found_of vb s' j) ≡ some l
      → place (found_of vb s j) ≡ some l
  located_before place s s' b j bytes l never now h = elim (Bool-cases (b == j)) [
    | inl here ↦
        let at : found_of vb s' j ≡ Found.in_memory bytes = now ∙ chosen _ _ _ here in
        absurd (clash (sym never ∙ ap place (sym at) ∙ h))
    | inr other ↦ ap place (sym (now ∙ passed _ _ _ other)) ∙ h
  ]
    where
      clash : {x : Location} → none ≡ some x → ⊥
      clash e = cc

  still_packed :
      (stride : ℕ) (place : Found → Option Location) (s s' : Store) (b : ℕ) (bytes : Bytes)
      → place (Found.in_memory bytes) ≡ none
      → ((j : ℕ) → found_of vb s' j ≡ (if b == j then Found.in_memory bytes else found_of vb s j))
      → IsPacked stride (λ j. place (found_of vb s j))
      → IsPacked stride (λ j. place (found_of vb s' j))
  still_packed stride place s s' b bytes never now p j l l' e e' =
      p j l l' (located_before place s s' b j bytes l never (now j) e)
        (located_before place s s' b (suc j) bytes l' never (now (suc j)) e')

  still-IsSound :
      (s s' : Store) (b : ℕ) (bytes : Bytes)
      → length bytes ≡ vb.codec.block_size
      → ((j : ℕ) → found_of vb s' j ≡ (if b == j then Found.in_memory bytes else found_of vb s j))
      → IsSound vb s
      → IsSound vb s'
  still-IsSound s s' b bytes whole now sound = record {
    full = λ j c e. elim (Bool-cases (b == j)) [
      | inl here ↦ ap length (same_bytes (sym e ∙ now j ∙ chosen _ _ _ here)) ∙ whole
      | inr other ↦ sound.full j c (sym (now j ∙ passed _ _ _ other) ∙ e)
    ];
    own = still_packed _ own_location s s' b bytes refl now sound.own;
    base = still_packed _ base_location s s' b bytes refl now sound.base;
    ancestors =
        λ ai. still_packed _ (ancestor_location ai) s s' b bytes refl now (sound.ancestors ai);
  }
    where
      same_bytes : {x y : Bytes} → Found.in_memory x ≡ Found.in_memory y → x ≡ y
      same_bytes e = cc

  publish-start :
      (env : Env) (b first : ℕ) (bytes : Bytes) (d d' : Device)
      → (reserve_seq_num env.random env.disk 1 d.counter).1 ≡ Reserved.start first
      → publish env b vb.codec.block_size bytes d ≡ (d', none)
      → (d'.counter ≡ (reserve_seq_num env.random env.disk 1 d.counter).0)
        × (d'.memory.store ≡ write_with_seq_num d.memory.store b bytes (add64 first 1))
  unfolding publish publish_as
  publish-start env b first bytes d d' at h =
      let (counter, reserved) = reserve_seq_num env.random env.disk 1 d.counter in
      let q =
        sym (ap (λ r. publish_as b vb.codec.block_size bytes r (record d { counter = counter })) at)
        ∙ h in
      (sym (ap (λ t. t.0.counter) q), sym (ap (λ t. t.0.memory.store) q))

  publish_error :
      (env : Env) (b : ℕ) (e : SeqError) (bytes : Bytes) (d d' : Device)
      → (reserve_seq_num env.random env.disk 1 d.counter).1 ≡ Reserved.error e
      → publish env b vb.codec.block_size bytes d ≡ (d', none)
      → ⊥
  unfolding publish publish_as
  publish_error env b e bytes d d' at h =
      let (counter, reserved) = reserve_seq_num env.random env.disk 1 d.counter in
      clash (
        ap (λ t. t.1)
          (sym (
              ap (λ r. publish_as b vb.codec.block_size bytes r (record d { counter = counter }))
                at)
            ∙ h))
    where
      clash : {x : WriteError} → some x ≡ none → ⊥
      clash e = cc

  pub publish-IsPut :
      (env : Env) (b : ℕ) (bytes : Bytes) (d d' : Device)
      → IsDevice vb d
      → d.counter.seq_num + 1 < u64
      → length bytes ≡ vb.codec.block_size
      → publish env b vb.codec.block_size bytes d ≡ (d', none)
      → IsPut d d' b bytes
  publish-IsPut env b bytes d d' ready room whole h =
      started (reserve_seq_num env.random env.disk 1 d.counter).1 refl
    where
      started :
          (r : Reserved)
          → (reserve_seq_num env.random env.disk 1 d.counter).1 ≡ r
          → IsPut d d' b bytes
      started (Reserved.error e) at = absurd (publish_error env b e bytes d d' at h)
      started (Reserved.start first) at =
          let s = d.memory.store in
          let n = d.counter.seq_num + 1 in
          let (counter, store) = publish-start env b first bytes d d' at h in
          let (number, raised) = reserve_one env.random env.disk d.counter first room at in
          let counted : d'.counter.seq_num ≡ n = ap (λ c. c.seq_num) counter ∙ raised in
          let next : add64 first 1 ≡ n = omega (arith, number, room) in
          let new : d'.memory.store ≡ put s b (hot_entry bytes n) =
            store
            ∙ ap (write_with_seq_num s b bytes) next
            ∙ put_hot s d.counter.seq_num b bytes ready.valid ready.bounded in
          let now =
            λ (j : ℕ). ap (λ t. found_of vb t j) new ∙ hot_found s b j n bytes ready.valid in
          record {
            ready = record {
              valid = subst IsValid (sym new) (put-IsValid s ready.valid b (hot_entry bytes n));
              bounded = λ j e here.
                  let before : entry (put s b (hot_entry bytes n)) j ≡ some e =
                    ap (λ t. entry t j) (sym new) ∙ here in
                  ground (
                    arith,
                    counted,
                    entry-put s ready.valid.sharded b (hot_entry bytes n) j,
                    before,
                    ready.bounded j e,
                  );
              sound = still-IsSound s d'.memory.store b bytes whole now ready.sound;
            };
            counted = counted;
            found = now;
          }
