-- ===== src/Device/Gather.antt =====
-- The buffer and the lists that the loop of `readBlockStore` ends with.
use viperblock.Prelude.{
  ℕ, zero, suc, ◌+◌, ◌-◌, ◌*◌, ◌≤◌, ◌<◌, ◌≡◌, refl, sym, ap, ◌∙◌, ◌&&◌, true, arith, ltb, leb, ◌==◌,
  if◌then◌else◌, length, get_or, length-replicate, Bool-cases, inl, inr,
}
use viperblock.Bytes.{Bytes}
use viperblock.Store.{Store}
use viperblock.Store.View.{view}
use viperblock.Store.View.Readers.{read_entry-view, view-read_entry}
use viperblock.Store.Readers.{read_entry}
use viperblock.Device.Buffer.{
  length-copy_into, get_or-copy_into, get_or-replicate, row_before, rows_below,
}
use viperblock.Device.Read.{Volume, Found, find_block, Collected, add_found, collect}
use viperblock.Device.Collect.{
  own_location, base_location, ancestor_location, found_of, put_one, located,
}

-- byte `k` of a block that is in memory, and zero for any other

abbrev pub memory_byte : ℕ → Found → ℕ
memory_byte k (Found.in_memory bytes) = get_or bytes k 0
memory_byte k (Found.own_chunk l) = 0
memory_byte k (Found.in_base l) = 0
memory_byte k (Found.in_ancestor ai l) = 0
memory_byte k Found.nowhere = 0

-- The lists that one block adds to.
add_lists :
    (size i b : ℕ) (f : Found) (c : Collected) (ai : ℕ)
    → ((add_found size i b f c).own ≡ put_one i b (own_location f) c.own)
      × ((add_found size i b f c).base ≡ put_one i b (base_location f) c.base)
      × ((add_found size i b f c).ancestors ai
          ≡ put_one i b (ancestor_location ai f) (c.ancestors ai))
      × ((add_found size i b f c).store ≡ c.store)
unfolding add_found
add_lists size i b (Found.in_memory bytes) c ai = (refl, refl, refl, refl)
add_lists size i b (Found.own_chunk l) c ai = (refl, refl, refl, refl)
add_lists size i b (Found.in_base l) c ai = (refl, refl, refl, refl)
add_lists size i b (Found.in_ancestor aj l) c ai = (refl, refl, ground arith, refl)
add_lists size i b Found.nowhere c ai = (refl, refl, refl, refl)

module _ (vb : Volume) (s₀ : Store) where
  abbrev g : ℕ → Found
  g = found_of vb s₀

  -- the view that a loop goes on with
  abbrev Same : Store → Type 0
  Same s = (j : ℕ) → view s j ≡ view s₀ j

  Same-after : (s : Store) (b : ℕ) → Same s → Same (read_entry s b).0
  Same-after s b h j = view-read_entry s b j ∙ h j

  found_there : (s : Store) (b : ℕ) → Same s → find_block vb b (read_entry s b).1 ≡ g b
  found_there s b h = ap (find_block vb b) (read_entry-view s b ∙ h b)

  pub collect_lists :
      (len block i n ai : ℕ) (s : Store)
      → Same s
      → let c = collect vb len block i n s in
        (c.own ≡ located (λ b. own_location (g b)) block i n)
        × (c.base ≡ located (λ b. base_location (g b)) block i n)
        × (c.ancestors ai ≡ located (λ b. ancestor_location ai (g b)) block i n)
        × Same c.store
  unfolding collect located
  collect_lists len block i zero ai s h = (refl, refl, refl, h)
  collect_lists len block i (suc n) ai s h =
      let (s', e) = read_entry s (block + i) in
      let later = collect_lists len block (suc i) n ai s' (Same-after s (block + i) h) in
      let f = find_block vb (block + i) e in
      let now =
        add_lists vb.codec.block_size i (block + i) f (collect vb len block (suc i) n s') ai in
      let there = found_there s (block + i) h in
      (
        now.0
            ∙ ap (put_one i (block + i) (own_location f)) later.0
            ∙ ap
                (λ x.
                  put_one i (block + i) (own_location x)
                    (located (λ b. own_location (g b)) block (suc i) n))
                there,
        now.1
            ∙ ap (put_one i (block + i) (base_location f)) later.1
            ∙ ap
                (λ x.
                  put_one i (block + i) (base_location x)
                    (located (λ b. base_location (g b)) block (suc i) n))
                there,
        now.2
            ∙ ap (put_one i (block + i) (ancestor_location ai f)) later.2
            ∙ ap
                (λ x.
                  put_one i (block + i) (ancestor_location ai x)
                    (located (λ b. ancestor_location ai (g b)) block (suc i) n))
                there,
        λ j. ap (λ t. view t j) now.3 ∙ later.3 j,
      )

  same_number : (i p : ℕ) → (i == p) ≡ true → i ≡ p
  same_number i p e = ground (arith, e)

  at_zero :
      (i p k : ℕ) (buf : Bytes)
      → get_or buf (i * vb.codec.block_size + k) 0 ≡ 0
      → get_or buf (p * vb.codec.block_size + k) 0
        ≡ (if i == p then 0 else get_or buf (p * vb.codec.block_size + k) 0)
  at_zero i p k buf z = elim (Bool-cases (i == p)) [
    | inr other ↦ ground (arith, other)
    | inl same ↦
        ap (λ x. get_or buf (x * vb.codec.block_size + k) 0) (sym (same_number i p same))
        ∙ z
        ∙ ground (arith, same)
  ]

  module _
      (full : (b : ℕ) (bytes : Bytes)
        → g b ≡ Found.in_memory bytes
        → length bytes ≡ vb.codec.block_size) where
    -- The buffer that one block adds to.
    add_buffer :
        (i b p k : ℕ) (f : Found) (c : Collected)
        → g b ≡ f
        → i * vb.codec.block_size + vb.codec.block_size ≤ length c.buf
        → k < vb.codec.block_size
        → get_or c.buf (i * vb.codec.block_size + k) 0 ≡ 0
        → let c' = add_found vb.codec.block_size i b f c in
          (length c'.buf ≡ length c.buf)
          × (get_or c'.buf (p * vb.codec.block_size + k) 0
              ≡ (if i == p then memory_byte k f else get_or c.buf (p * vb.codec.block_size + k) 0))
    unfolding add_found
    add_buffer i b p k (Found.in_memory bytes) c e room l z =
        let size = vb.codec.block_size in
        let whole = full b bytes e in
        let copied =
          get_or-copy_into (i * size) size bytes c.buf room (p * size + k) (omega (arith, whole)) in
        (
          length-copy_into (i * size) size bytes c.buf room,
          copied ∙ elim (Bool-cases (i == p)) [
            | inl same ↦
                let q : p * size ≡ i * size =
                  ap (λ (x : ℕ). x * size) (sym (same_number i p same)) in
                let back : p * size + k - i * size ≡ k = omega (arith, q) in
                ground (arith, same, q, l, back)
            | inr other ↦ elim (Bool-cases (ltb p i)) [
              | inl before ↦ ground (arith, other, row_before i p size k l (ground (arith, before)))
              | inr after ↦
                  let past : i * size + size ≤ p * size =
                    rows_below i p size (ground (arith, other, after)) in
                  ground (arith, other, past)
            ]
          ],
        )
    add_buffer i b p k (Found.own_chunk x) c e room l z = (refl, at_zero i p k c.buf z)
    add_buffer i b p k (Found.in_base x) c e room l z = (refl, at_zero i p k c.buf z)
    add_buffer i b p k (Found.in_ancestor ai x) c e room l z = (refl, at_zero i p k c.buf z)
    add_buffer i b p k Found.nowhere c e room l z = (refl, at_zero i p k c.buf z)

    pub collect_buffer :
        (len block i n p k : ℕ) (s : Store)
        → Same s
        → (i + n) * vb.codec.block_size ≤ len
        → k < vb.codec.block_size
        → let c = collect vb len block i n s in
          (length c.buf ≡ len)
          × (get_or c.buf (p * vb.codec.block_size + k) 0
              ≡ (if leb i p && ltb p (i + n) then memory_byte k (g (block + p)) else 0))
    unfolding collect
    collect_buffer len block i zero p k s h room l =
        (length-replicate len 0, get_or-replicate len _ ∙ ground arith)
    collect_buffer len block i (suc n) p k s h room l =
        let size = vb.codec.block_size in
        let (s', e) = read_entry s (block + i) in
        let c = collect vb len block (suc i) n s' in
        let same = Same-after s (block + i) h in
        let there = found_there s (block + i) h in
        let below = rows_below i (i + suc n) size (omega arith) in
        let shift : suc i + n ≡ i + suc n = omega arith in
        let room' : (suc i + n) * size ≤ len = rw shift room in
        let here = collect_buffer len block (suc i) n i k s' same room' l in
        let later = collect_buffer len block (suc i) n p k s' same room' l in
        let z : get_or c.buf (i * size + k) 0 ≡ 0 = here.1 ∙ ground arith in
        let added =
          add_buffer i (block + i) p k (find_block vb (block + i) e) c (sym there)
            (omega (arith, later.0, below, room)) l z in
        (
          added.0 ∙ later.0,
          added.1 ∙ elim (Bool-cases (i == p)) [
            | inl it ↦
                let q = same_number i p it in
                let at : memory_byte k (find_block vb (block + i) e)
                    ≡ memory_byte k (g (block + p)) =
                  ap (memory_byte k) (there ∙ ap (λ j. g (block + j)) q) in
                ground (arith, it, q, at)
            | inr other ↦ ground (arith, other, later.1)
          ],
        )
