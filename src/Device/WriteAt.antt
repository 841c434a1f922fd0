-- ===== src/Device/WriteAt.antt =====
-- What `WriteAtCtx` changes, byte by byte.
use viperblock.Prelude.{
  ℕ, zero, suc, ◌+◌, ◌-◌, ◌*◌, ◌/◌, ◌%◌, ◌≤◌, ◌<◌, ◌≡◌, refl, sym, ap, subst, ◌∙◌, ◌&&◌, ◌||◌, Bool,
  true, false, none, some, Option, arith, ltb, leb, ◌==◌, if◌then◌else◌, length, get_or, Bool-cases,
  inl, inr,
}
use native.Mathlib.Nat.{div-add-mod'}
use viperblock.Words.{u64, add64, sub64}
use viperblock.Bytes.{Bytes}
use viperblock.Device.Buffer.{passed, mul_le, rows_below}
use viperblock.Device.Decode.{IsCodec}
use viperblock.Device.Read.{Volume}
use viperblock.Device.Collect.{found_of}
use viperblock.Device.Layers.{World, IsBacked, image}
use viperblock.Device.ReadAt.{blocks_of, rows_of}
use viperblock.Device.Write.{
  Device, Env, Gate, WriteError, Written, write_block, write_blocks, finish_write, write_at,
}
use viperblock.Device.Splice.{IsDevice}
use viperblock.Device.WriteBlock.{IsInMemory, asked, write_block-IsSpliced}

module _ (vb : Volume) (world : World) (offset : ℕ) (bytes : Bytes) where
  -- byte `k` of block `j` where `here` says whether the request replaces it
  abbrev pub rewritten : Device → ℕ → ℕ → Bool → ℕ
  rewritten d j k here =
      if here
      then get_or bytes (j * vb.codec.block_size + k - offset) 0
      else image vb world d.memory.store j k

merge :
    (one later all ask : Bool) (x y' y : ℕ)
    → y' ≡ (if one && ask then x else y)
    → (one || later) ≡ all
    → (if later && ask then x else y') ≡ (if all && ask then x else y)
merge true true all true x y' y e q = ground (arith, e, q)
merge true true all false x y' y e q = ground (arith, e, q)
merge true false all ask x y' y e q = ground (arith, e, q)
merge false later all ask x y' y e q = ground (arith, e, q)

module _ (vb : Volume) (world : World) (codec : IsCodec vb.codec) (envs : ℕ → Env) (offset : ℕ)
    (bytes : Bytes) (backed : (b : ℕ) → IsBacked vb world (envs b).backend)
    (inside : offset + length bytes + vb.codec.block_size < u64) where
  -- every one of `n` blocks from `b` has a byte of the request
  abbrev Touched : ℕ → ℕ → Type 0
  Touched b n =
      (i : ℕ)
      → b ≤ i
      → i < b + n
      → (i * vb.codec.block_size < offset + length bytes)
        × (offset < i * vb.codec.block_size + vb.codec.block_size)

  -- the effect of the loop over `n` blocks from `b`
  record IsRewritten (b n : ℕ) (d d' : Device) : Type 0 where
    ready : IsDevice vb d'
    fresh : (j : ℕ) → b ≤ j → j < b + n → IsInMemory vb d' j
    stays : (j : ℕ) → IsInMemory vb d j → IsInMemory vb d' j
    bytes_at :
        (j k : ℕ)
        → k < vb.codec.block_size
        → image vb world d'.memory.store j k
          ≡ rewritten vb world offset bytes d j k
              ((leb b j && ltb j (b + n)) && asked vb world codec offset bytes j k)

  continues :
      (error : Option WriteError) (d₁ d' : Device) (rest : Device × Option WriteError)
      → elim error [ some e ↦ (d₁, some e) | none ↦ rest ] ≡ (d', none)
      → (error ≡ none) × (rest ≡ (d', none))
  continues none d₁ d' rest h = (refl, h)
  continues (some e) d₁ d' rest h = absurd (clash (ap (λ t. t.1) h))
    where
      clash : some e ≡ none → ⊥
      clash q = cc

  write_blocks-IsRewritten :
      (n b : ℕ) (d d' : Device)
      → Touched b n
      → IsDevice vb d
      → d.counter.seq_num + n < u64
      → write_blocks vb envs offset bytes b n d ≡ (d', none)
      → IsRewritten b n d d'
  unfolding write_blocks
  write_blocks-IsRewritten zero b d d' touched ready room h =
      subst (IsRewritten b zero d) (ap (λ t. t.0) h) (record {
        ready = ready;
        fresh = λ j l u. absurd (omega (arith, l, u));
        stays = λ j held. held;
        bytes_at = λ j k l. sym (unasked j k);
      })
    where
      unasked :
          (j k : ℕ)
          → rewritten vb world offset bytes d j k
              ((leb b j && ltb j (b + 0)) && asked vb world codec offset bytes j k)
            ≡ image vb world d.memory.store j k
      unasked j k =
          passed ((leb b j && ltb j (b + 0)) && asked vb world codec offset bytes j k)
            (get_or bytes (j * vb.codec.block_size + k - offset) 0)
            (image vb world d.memory.store j k) (ground arith)
  write_blocks-IsRewritten (suc n) b d d' touched ready room h =
      let step = write_block vb (envs b) offset bytes b d in
      let rest = write_blocks vb envs offset bytes (suc b) n step.0 in
      let (fine, more) = continues step.1 step.0 d' rest h in
      let (before, after) = touched b (omega arith) (omega arith) in
      let one =
        write_block-IsSpliced vb world codec offset bytes b before after (envs b) d step.0
          (backed b) ready (omega (arith, room)) (omega (arith, before, inside))
          (omega (arith, inside)) (ap (λ e. (step.0, e)) fine) in
      let later =
        write_blocks-IsRewritten n (suc b) step.0 d'
          (λ i l u. touched i (omega (arith, l)) (omega (arith, u))) one.ready
          (omega (arith, one.counted, room)) more in
      record {
        ready = later.ready;
        fresh = λ j l u. elim (Bool-cases (b == j)) [
          | inl here ↦ later.stays j (subst (IsInMemory vb step.0) (ground (arith, here)) one.fresh)
          | inr other ↦ later.fresh j (ground (arith, other, l)) (omega (arith, u))
        ];
        stays = λ j held. later.stays j (one.stays j held);
        bytes_at = λ j k l.
            later.bytes_at j k l
            ∙ merge (b == j) (leb (suc b) j && ltb j (suc b + n)) (leb b j && ltb j (b + suc n))
                (asked vb world codec offset bytes j k)
                (get_or bytes (j * vb.codec.block_size + k - offset) 0)
                (image vb world step.0.memory.store j k) (image vb world d.memory.store j k)
                (one.bytes_at j k l) (ground arith);
      }

  abbrev first : ℕ
  first = offset / vb.codec.block_size

  abbrev blocks : ℕ
  blocks = blocks_of vb.codec.block_size offset (length bytes)

  module _ (some_bytes : 0 < length bytes) where
    rows :
        (first * vb.codec.block_size + offset % vb.codec.block_size ≡ offset)
        × (offset % vb.codec.block_size < vb.codec.block_size)
        × (first ≤ (offset + length bytes - 1) / vb.codec.block_size)
        × (offset + length bytes ≤ (first + blocks) * vb.codec.block_size)
        × (first + blocks < u64)
    rows =
        rows_of vb.codec.block_size offset (length bytes) codec.positive some_bytes
          (omega (arith, inside))

    all-Touched : Touched first blocks
    all-Touched i l u =
        let size = vb.codec.block_size in
        let end = offset + length bytes - 1 in
        let (split, low, order, over, top) = rows in
        let last : i ≤ end / size = omega (arith, u, order) in
        (
          omega (arith, mul_le i (end / size) size last, div-add-mod' end size, some_bytes),
          omega (arith, mul_le first i size l, split, low),
        )

    only_asked :
        (j k : ℕ)
        → k < vb.codec.block_size
        → ((leb first j && ltb j (first + blocks)) && asked vb world codec offset bytes j k)
          ≡ asked vb world codec offset bytes j k
    only_asked j k l =
        let size = vb.codec.block_size in
        let (split, low, order, over, top) = rows in
        elim (Bool-cases (leb first j)) [
          | inr before ↦
              let row = rows_below j first size (ground (arith, before)) in
              ground (arith, before, row, split, l)
          | inl from ↦ elim (Bool-cases (ltb j (first + blocks))) [
            | inl to ↦ ground (arith, from, to)
            | inr past ↦
                let row = mul_le (first + blocks) j size (ground (arith, past)) in
                ground (arith, from, past, row, over)
          ]
        ]

  past :
      (c : Bool) (e : WriteError) (d d' : Device) (rest : Device × Written)
      → (if c then (d, Written.refused e) else rest) ≡ (d', Written.written)
      → (c ≡ false) × (rest ≡ (d', Written.written))
  past true e d d' rest h = absurd (clash (ap (λ t. t.1) h))
    where
      clash : Written.refused e ≡ Written.written → ⊥
      clash q = cc
  past false e d d' rest h = (refl, h)

  finished :
      (gate : Gate) (n size : ℕ) (r : Device × Option WriteError) (d' : Device)
      → finish_write gate n size r ≡ (d', Written.written)
      → (d₁ : Device) × (r ≡ (d₁, none)) × (record d₁ { pending_bytes = d'.pending_bytes } ≡ d')
  unfolding finish_write
  finished gate n size (d₁, some e) d' h = absurd (clash (ap (λ t. t.1) h))
    where
      clash : Written.refused e ≡ Written.written → ⊥
      clash q = cc
  finished gate n size (d₁, none) d' h =
      let at = ap (λ t. t.0) h in
      (
        d₁,
        refl,
        ap (λ p. record d₁ { pending_bytes = p }) (sym (ap (λ t. t.pending_bytes) at)) ∙ at,
      )

  -- a write that is not refused
  pub accepted :
      (gate : Gate) (d d' : Device)
      → write_at vb gate envs offset bytes d ≡ (d', Written.written)
      → (0 < length bytes)
        × (offset + length bytes ≤ vb.size)
        × (finish_write gate blocks vb.codec.block_size
              (write_blocks vb envs offset bytes first blocks d)
            ≡ (d', Written.written))
  unfolding write_at
  accepted gate d d' h =
      let (room, h₁) = past (gate.backend_full || gate.backend_near_full) _ d d' _ h in
      let (low, h₂) = past (ltb vb.size offset) _ d d' _ h₁ in
      let (high, h₃) = past (ltb vb.size (add64 offset (length bytes))) _ d d' _ h₂ in
      let (some_bytes, rest) = past (length bytes == 0) _ d d' _ h₃ in
      let sum : add64 offset (length bytes) ≡ offset + length bytes = omega (arith, inside) in
      let filled : 0 < length bytes = ground (arith, some_bytes) in
      let (split, below, order, over, top) = rows filled in
      let last : sub64 (add64 offset (length bytes)) 1 ≡ offset + length bytes - 1 =
        omega (arith, sum, filled, inside) in
      let count : suc (sub64 (add64 offset (length bytes)) 1 / vb.codec.block_size) - first
          ≡ blocks =
        ap (λ x. suc (x / vb.codec.block_size) - first) last ∙ omega (arith, order) in
      (
        filled,
        ground (arith, high, sum),
        subst
            (λ n.
              finish_write gate n vb.codec.block_size (write_blocks vb envs offset bytes first n d)
              ≡ (d', Written.written))
            count rest,
      )

  -- the loop of a write that is not refused
  looped :
      (gate : Gate) (d d' : Device)
      → IsDevice vb d
      → d.counter.seq_num + blocks < u64
      → write_at vb gate envs offset bytes d ≡ (d', Written.written)
      → (d₁ : Device) × IsRewritten first blocks d d₁
        × (record d₁ { pending_bytes = d'.pending_bytes } ≡ d')
  looped gate d d' ready room h =
      let (some_bytes, within, done) = accepted gate d d' h in
      let (d₁, loop, at) =
        finished gate blocks vb.codec.block_size (write_blocks vb envs offset bytes first blocks d)
          d' done in
      (d₁, write_blocks-IsRewritten blocks first d d₁ (all-Touched some_bytes) ready room loop, at)

  -- Every block of the request is found in memory after it.
  pub write_at-IsInMemory :
      (gate : Gate) (d d' : Device) (j : ℕ)
      → IsDevice vb d
      → d.counter.seq_num + blocks < u64
      → write_at vb gate envs offset bytes d ≡ (d', Written.written)
      → first ≤ j
      → j < first + blocks
      → IsInMemory vb d' j
  write_at-IsInMemory gate d d' j ready room h l u =
      let (d₁, done, at) = looped gate d d' ready room h in
      let (c, found) = done.fresh j l u in
      (c, ap (λ x. found_of vb x.memory.store j) (sym at) ∙ found)

  -- A write that succeeds makes every byte of the request the caller's and leaves every other byte
  -- of the volume as it was, whether it is found in memory, on a chunk of the volume, in the base
  -- snapshot or in an ancestor; whole blocks and parts of blocks are written alike. The store
  -- stays well formed and sound. The volume's backend serves the bytes of its chunk objects or
  -- fails, the codec is sane, and the request, its last block and the sequence numbers that it
  -- takes fit 64 bits.
  pub write_at-IsRewritten :
      (gate : Gate) (d d' : Device)
      → IsDevice vb d
      → d.counter.seq_num + blocks_of vb.codec.block_size offset (length bytes) < u64
      → write_at vb gate envs offset bytes d ≡ (d', Written.written)
      → IsDevice vb d'
        × ((j k : ℕ)
            → k < vb.codec.block_size
            → image vb world d'.memory.store j k ≡ (
                if asked vb world codec offset bytes j k
                then get_or bytes (j * vb.codec.block_size + k - offset) 0
                else image vb world d.memory.store j k))
  write_at-IsRewritten gate d d' ready room h =
      let (some_bytes, within, end) = accepted gate d d' h in
      let (d₁, done, at) = looped gate d d' ready room h in
      (
        subst (IsDevice vb) at (record {
          valid = done.ready.valid;
          bounded = done.ready.bounded;
          sound = done.ready.sound;
        }),
        λ j k l.
            ap (λ x. image vb world x.memory.store j k) (sym at)
            ∙ done.bytes_at j k l
            ∙ ap (rewritten vb world offset bytes d j k) (only_asked some_bytes j k l),
      )
