-- ===== src/Device/ReadBack.antt =====
-- A read of the bytes that `WriteAtCtx` has written.
use viperblock.Prelude.{
  ℕ, zero, suc, ◌+◌, ◌-◌, ◌*◌, ◌/◌, ◌%◌, ◌≤◌, ◌<◌, ◌≡◌, refl, sym, ap, subst, ◌∙◌, true, none,
  Option, List, [], ◌∷◌, arith, ◌==◌, if◌then◌else◌, length, get_or,
}
use native.Mathlib.Nat.{mul-div_cancel, mul-mod_left, div-add-mod', mod-lt}
use viperblock.Words.{u16, u32, u64}
use viperblock.Bytes.{Bytes, slice}
use viperblock.Store.{Store}
use viperblock.Device.{
  ok, Memory, ConsecutiveBlock, fetch_consecutive_blocks, fetch_runs, blocks_to_read,
}
use viperblock.Device.Buffer.{chosen}
use viperblock.Device.Decode.{IsCodec}
use viperblock.Device.Fetch.{stride_of}
use viperblock.Device.Read.{
  Volume, Backend, Layer, Location, Found, Collected, Answer, collect, fetch_ancestors, fetch_all,
  read_block_store, read_at,
}
use viperblock.Device.Collect.{
  own_location, base_location, ancestor_location, found_of, put_one, located,
}
use viperblock.Device.Gather.{collect_lists}
use viperblock.Device.Layers.{World, IsBacked, image}
use viperblock.Device.Reads.{read_block_store-IsImage}
use viperblock.Device.ReadAt.{IsRequest, blocks_of, rows_of, read_at_done, read_at-IsImage}
use viperblock.Device.Write.{Device, Env, Gate, Written, write_at}
use viperblock.Device.Splice.{IsDevice}
use viperblock.Device.WriteBlock.{asked}
use viperblock.Device.WriteAt.{accepted, write_at-IsInMemory, write_at-IsRewritten}

-- Every one of the `n` blocks from `block` is found in memory.

abbrev pub AllInMemory : Volume → Store → ℕ → ℕ → Type 0
AllInMemory vb s block n =
    (i : ℕ) → i < n → (bytes : Bytes) × (found_of vb s (block + i) ≡ Found.in_memory bytes)

-- then no block has a location
located-none :
    (g : ℕ → Option Location) (block i n : ℕ)
    → ((j : ℕ) → i ≤ j → j < i + n → g (block + j) ≡ none)
    → located g block i n ≡ []
unfolding located
located-none g block i zero h = refl
located-none g block i (suc n) h =
    ap (λ o. put_one i (block + i) o (located g block (suc i) n)) (h i (omega arith) (omega arith))
    ∙ located-none g block (suc i) n (λ j l u. h j (omega (arith, l)) (omega (arith, u)))

no_ancestors :
    (vb : Volume) (backend : Backend) (ai : ℕ) (layers : List Layer)
    (cbs : ℕ → List ConsecutiveBlock) (state : Bytes × Memory)
    → ((aj : ℕ) → cbs aj ≡ [])
    → fetch_ancestors vb.codec backend ai layers cbs state ≡ ok state
unfolding fetch_ancestors
no_ancestors vb backend ai [] cbs state h = refl
no_ancestors vb backend ai (layer ∷ layers) cbs state h =
    ground (arith, h ai, no_ancestors vb backend (suc ai) layers cbs state h)

none_own :
    (vb : Volume) (backend : Backend) (state : Bytes × Memory)
    → fetch_consecutive_blocks vb.codec vb.own backend.read [] state ≡ ok state
unfolding fetch_consecutive_blocks fetch_runs blocks_to_read
none_own vb backend state = refl

nothing_fetched :
    (vb : Volume) (backend : Backend) (c : Collected) (m : Memory)
    → c.own ≡ []
    → c.base ≡ []
    → ((ai : ℕ) → c.ancestors ai ≡ [])
    → fetch_all vb backend c m ≡ ok (c.buf, record m { store = c.store })
unfolding fetch_all
nothing_fetched vb backend c m e₁ e₂ e₃ =
    let state : Bytes × Memory = (c.buf, record m { store = c.store }) in
    let own = none_own vb backend state in
    let own' : fetch_consecutive_blocks vb.codec vb.own backend.read c.own state ≡ ok state =
      ap (λ cs. fetch_consecutive_blocks vb.codec vb.own backend.read cs state) e₁ ∙ own in
    let count : length c.base ≡ 0 = ap length e₂ in
    ground (arith, own', count, no_ancestors vb backend 0 vb.ancestors c.ancestors state e₃)

module _ (vb : Volume) (world : World) (backend : Backend) (m : Memory)
    (positive : 0 < vb.codec.block_size) (block n : ℕ) (held : AllInMemory vb m.store block n) where
  pub read_held :
      (a : Answer) × (read_block_store vb backend block (n * vb.codec.block_size) m ≡ ok a)
  unfolding read_block_store
  read_held =
      let size = vb.codec.block_size in
      let s = m.store in
      let rows : n * size / size ≡ n = mul-div_cancel n positive in
      let none_over : (n * size % size == 0) ≡ true = rw (mul-mod_left n size) refl in
      let c = collect vb (n * size) block 0 n s in
      let lists = λ (ai : ℕ). collect_lists vb s (n * size) block 0 n ai s (λ j. refl) in
      let fetched : fetch_all vb backend c m ≡ ok (c.buf, record m { store = c.store }) =
        nothing_fetched vb backend c m
          ((lists 0).0
            ∙ located-none _ block 0 n (λ j l u. ap own_location (held j (omega (arith, u))).1))
          ((lists 0).1
            ∙ located-none _ block 0 n (λ j l u. ap base_location (held j (omega (arith, u))).1))
          (λ ai.
            (lists ai).2
            ∙ located-none _ block 0 n
                (λ j l u. ap (ancestor_location ai) (held j (omega (arith, u))).1)) in
      let c' = collect vb (n * size) block 0 (n * size / size) s in
      let fetched' : fetch_all vb backend c' m ≡ ok (c'.buf, record m { store = c'.store }) =
        subst
          (λ r.
            fetch_all vb backend (collect vb (n * size) block 0 r s) m
            ≡ ok (
              (collect vb (n * size) block 0 r s).buf,
              record m { store = (collect vb (n * size) block 0 r s).store },
            ))
          (sym rows) fetched in
      let a : Answer = record {
        bytes = c'.buf;
        zero_block = c'.zero_block;
        memory = record m { store = c'.store };
      } in
      (a, ground (arith, none_over, fetched'))

same_list :
    (xs ys : Bytes)
    → length xs ≡ length ys
    → ((j : ℕ) → j < length xs → get_or xs j 0 ≡ get_or ys j 0)
    → xs ≡ ys
same_list [] [] e h = refl
same_list [] (y ∷ ys) e h = absurd (omega (arith, e))
same_list (x ∷ xs) [] e h = absurd (omega (arith, e))
same_list (x ∷ xs) (y ∷ ys) e h =
    let tails = same_list xs ys (omega (arith, e)) (λ j l. h (suc j) (omega (arith, l))) in
    let heads : x ≡ y = h 0 (omega arith) in ap (λ z. z ∷ xs) heads ∙ ap (λ zs. y ∷ zs) tails

-- A read of the bytes that were just written, whether or not the backend answers
module _ (vb : Volume) (world : World) (codec : IsCodec vb.codec) (envs : ℕ → Env) (offset : ℕ)
    (bytes : Bytes) (backed : (b : ℕ) → IsBacked vb world (envs b).backend)
    (inside : offset + length bytes + vb.codec.block_size < u64) where
  abbrev first : ℕ
  first = offset / vb.codec.block_size

  abbrev blocks : ℕ
  blocks = blocks_of vb.codec.block_size offset (length bytes)

  byte_back :
      (d d' : Device) (j : ℕ)
      → j < length bytes
      → ((i k : ℕ)
          → k < vb.codec.block_size
          → image vb world d'.memory.store i k ≡ (
              if asked vb world codec offset bytes i k
              then get_or bytes (i * vb.codec.block_size + k - offset) 0
              else image vb world d.memory.store i k))
      → image vb world d'.memory.store
          ((offset + j) / vb.codec.block_size)
          ((offset + j) % vb.codec.block_size)
        ≡ get_or bytes j 0
  byte_back d d' j l now =
      let size = vb.codec.block_size in
      let i = (offset + j) / size in
      let k = (offset + j) % size in
      let at : i * size + k ≡ offset + j = div-add-mod' (offset + j) size in
      let back : i * size + k - offset ≡ j = omega (arith, at) in
      now i k (mod-lt (offset + j) codec.positive)
      ∙ chosen (asked vb world codec offset bytes i k) (get_or bytes (i * size + k - offset) 0)
          (image vb world d.memory.store i k) (ground (arith, at, l))
      ∙ ap (λ x. get_or bytes x 0) back

  -- After a write that succeeds, ReadAtCtx of the same range succeeds and returns the bytes that
  -- were written, even where every read of the backend fails. The conditions are those of the
  -- write, and that the blocks touched are fewer than 65,536 and have less than 4 GiB on a chunk.
  pub read_at-write_at :
      (gate : Gate) (d d' : Device) (backend : Backend)
      → IsBacked vb world backend
      → IsDevice vb d
      → d.counter.seq_num + blocks_of vb.codec.block_size offset (length bytes) < u64
      → blocks_of vb.codec.block_size offset (length bytes) < u16
      → blocks_of vb.codec.block_size offset (length bytes) * stride_of vb.codec < u32
      → write_at vb gate envs offset bytes d ≡ (d', Written.written)
      → (a : Answer) × (read_at vb backend offset (length bytes) d'.memory ≡ ok a)
        × (a.bytes ≡ bytes)
  read_at-write_at gate d d' backend serves ready room few small h =
      let size = vb.codec.block_size in
      let (some_bytes, within, end) =
        accepted vb world codec envs offset bytes backed inside gate d d' h in
      let (ready', now) =
        write_at-IsRewritten vb world codec envs offset bytes backed inside gate d d' ready room
          h in
      let request : IsRequest vb offset (length bytes) = record {
        inside = omega (arith, inside);
        some_bytes = some_bytes;
        few = few;
        small = small;
      } in
      let (b, e) = read_held vb world backend d'.memory codec.positive first blocks (λ i l.
        write_at-IsInMemory vb world codec envs offset bytes backed inside gate d d' (first + i)
          ready room h (omega arith) (omega (arith, l))) in
      let (split, low, order, over, top) =
        rows_of size offset (length bytes) codec.positive some_bytes (omega (arith, inside)) in
      let whole =
        (read_block_store-IsImage vb world backend first blocks d'.memory b codec serves
          ready'.sound top few small e).0 in
      let done =
        read_at_done vb world backend d'.memory codec offset (length bytes) request b within e
          whole in
      let a : Answer = record b { bytes = slice (offset % size) (length bytes) b.bytes } in
      let read =
        read_at-IsImage vb world backend d'.memory codec offset (length bytes) request a serves
          ready'.sound done in
      (
        a,
        done,
        same_list a.bytes bytes read.0 (λ j l.
            let k : j < length bytes = omega (arith, l, read.0) in
            read.1 j ((offset + j) / size) ((offset + j) % size) k
              (mod-lt (offset + j) codec.positive) (sym (div-add-mod' (offset + j) size))
            ∙ byte_back d d' j k now),
      )
