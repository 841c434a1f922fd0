-- ===== src/Device/WriteBlock.antt =====
-- What `writeOneBlockLocked` changes, byte by byte.
use viperblock.Prelude.{
  ℕ, ◌+◌, ◌-◌, ◌*◌, ◌%◌, ◌≤◌, ◌<◌, ◌≡◌, refl, sym, ap, subst, ◌∙◌, ◌&&◌, ◌||◌, Bool, true, false,
  none, Option, [], arith, ltb, leb, ◌==◌, if◌then◌else◌, length, get_or, lt→ltb, Bool-cases, inl,
  inr,
}
use viperblock.Words.{u64, add64, sub64}
use viperblock.Bytes.{Bytes, slice}
use viperblock.Device.{ok}
use viperblock.Device.Buffer.{get_or-slice, length-slice, chosen, passed}
use viperblock.Device.Decode.{IsCodec}
use viperblock.Device.Read.{Volume, Found, Answer, read_at}
use viperblock.Device.Collect.{found_of}
use viperblock.Device.Layers.{World, IsBacked, image, found_byte}
use viperblock.Device.Cache.{Kept-image, Kept-IsSound}
use viperblock.Device.ReadAt.{read_at-IsImage, read_at-Kept}
use viperblock.Device.Write.{
  Device, Env, WriteError, spliced, publish, write_start_of, write_end_of, write_one_block_locked,
  write_block,
}
use viperblock.Device.Splice.{IsDevice, IsPut, publish-IsPut}
use viperblock.Device.Patch.{whole_block, length-spliced, get_or-spliced, get_or-base, base}
use viperblock.Device.Published.{partly_written, wholly_written}

-- The block is found in memory.

abbrev pub IsInMemory : Volume → Device → ℕ → Type 0
IsInMemory vb d b = (bytes : Bytes) × (found_of vb d.memory.store b ≡ Found.in_memory bytes)

module _ (vb : Volume) (world : World) (codec : IsCodec vb.codec) (offset : ℕ) (bytes : Bytes) where
  abbrev size : ℕ
  size = vb.codec.block_size

  -- byte `k` of block `j` lies in the request
  abbrev pub asked : ℕ → ℕ → Bool
  asked j k =
      leb offset (j * vb.codec.block_size + k)
      && ltb (j * vb.codec.block_size + k) (offset + length bytes)

  -- From `d` to `d'`, the bytes of the request in the block `b` are replaced, and no other is.
  pub record IsSpliced (b : ℕ) (d d' : Device) : Type 0 where
    pub ready : IsDevice vb d'
    pub counted : d'.counter.seq_num ≡ d.counter.seq_num + 1
    pub fresh : IsInMemory vb d' b
    pub stays : (j : ℕ) → IsInMemory vb d j → IsInMemory vb d' j
    pub bytes_at :
        (j k : ℕ)
        → k < vb.codec.block_size
        → image vb world d'.memory.store j k ≡ (
            if (b == j) && asked j k
            then get_or bytes (j * vb.codec.block_size + k - offset) 0
            else image vb world d.memory.store j k)

  module _ (b : ℕ) (before : b * vb.codec.block_size < offset + length bytes)
      (after : offset < b * vb.codec.block_size + vb.codec.block_size) where
    abbrev ws : ℕ
    ws = write_start_of offset (b * vb.codec.block_size)

    abbrev we : ℕ
    we =
        write_end_of vb.codec.block_size (offset + length bytes) (b * vb.codec.block_size)
          (b * vb.codec.block_size + vb.codec.block_size)

    abbrev patch : Bytes
    patch = slice (b * vb.codec.block_size + ws - offset) (we - ws) bytes

    ordered : (ws ≤ we) × (we ≤ vb.codec.block_size)
    ordered = (ground (arith, before, after), ground (arith, before, after))

    length-patch : length patch ≡ we - ws
    length-patch =
        length-slice (b * vb.codec.block_size + ws - offset) (we - ws) bytes
          (ground (arith, before, after))

    both : (lo hi k : ℕ) → leb lo k && ltb k hi ≡ true → (lo ≤ k) × (k < hi)
    both lo hi k h = (ground (arith, h), ground (arith, h))

    picked :
        (k : ℕ)
        → k < vb.codec.block_size
        → (ws ≤ k) × (k < we)
        → get_or patch (k - ws) 0 ≡ get_or bytes (b * vb.codec.block_size + k - offset) 0
    picked k l (lo, hi) =
        let from = b * vb.codec.block_size + ws - offset in
        let floor : offset ≤ b * vb.codec.block_size + ws = ground (arith, before, after) in
        let at : from + (k - ws) ≡ b * vb.codec.block_size + k - offset =
          omega (arith, floor, lo) in
        let inner : k - ws < we - ws = omega (arith, lo, hi) in
        get_or-slice from (we - ws) (k - ws) bytes
        ∙ chosen (ltb (k - ws) (we - ws)) _ _ (lt→ltb _ _ inner)
        ∙ ap (λ i. get_or bytes i 0) at

    -- the bytes that the splice takes from the caller are those of the request
    same_bytes :
        (k : ℕ)
        → k < vb.codec.block_size
        → (leb ws k && ltb k we ≡ asked b k)
          × (leb ws k && ltb k we ≡ true
              → get_or patch (k - ws) 0 ≡ get_or bytes (b * vb.codec.block_size + k - offset) 0)
    same_bytes k l = (ground (arith, before, after, l), λ h. picked k l (both ws we k h))

    -- one block put over a device whose bytes are those of `d`
    put_spliced :
        (d dm d' : Device) (existing : Bytes)
        → (IsPut vb world codec dm d' b (spliced vb.codec.block_size ws we patch existing))
        → dm.counter.seq_num ≡ d.counter.seq_num
        → ((j : ℕ) → IsInMemory vb d j → IsInMemory vb dm j)
        → ((j k : ℕ)
            → k < vb.codec.block_size
            → image vb world dm.memory.store j k ≡ image vb world d.memory.store j k)
        → ((k : ℕ)
            → k < vb.codec.block_size
            → leb ws k && ltb k we ≡ false
            → get_or
                (base vb.codec.block_size ws we patch existing ordered.0 ordered.1 length-patch)
                k
                0
              ≡ image vb world d.memory.store b k)
        → IsSpliced b d d'
    put_spliced d dm d' existing put count stay same rest =
        let size = vb.codec.block_size in
        let new = spliced size ws we patch existing in
        record {
          ready = put.ready;
          counted = put.counted ∙ ap (λ n. n + 1) count;
          fresh = (
            new,
            put.found b
                ∙ chosen (b == b) (Found.in_memory new) (found_of vb dm.memory.store b)
                    (ground arith),
          );
          stays = λ j held. elim (Bool-cases (b == j)) [
            | inl here ↦ (
              new,
              put.found j
                  ∙ chosen (b == j) (Found.in_memory new) (found_of vb dm.memory.store j) here,
            )
            | inr other ↦
                let (c, at) = stay j held in
                (
                  c,
                  put.found j
                      ∙ passed (b == j) (Found.in_memory new) (found_of vb dm.memory.store j) other
                      ∙ at,
                )
          ];
          bytes_at = λ j k l. elim (Bool-cases (b == j)) [
            | inr other ↦
                ap (found_byte vb world j k) (
                  put.found j
                  ∙ passed (b == j) (Found.in_memory new) (found_of vb dm.memory.store j) other)
                ∙ same j k l
                ∙ sym (
                    passed (b == j && asked j k) (get_or bytes (j * size + k - offset) 0)
                      (image vb world d.memory.store j k) (ground (arith, other)))
            | inl here ↦
                let q : b ≡ j = ground (arith, here) in
                let now : image vb world d'.memory.store b k ≡ get_or new k 0 =
                  ap (found_byte vb world b k) (
                    put.found b
                    ∙ chosen (b == b) (Found.in_memory new) (found_of vb dm.memory.store b)
                        (ground arith)) in
                let byte =
                  get_or-spliced size ws we patch existing ordered.0 ordered.1 length-patch k in
                let choice = same_bytes k l in
                subst
                  (λ x. image vb world d'.memory.store x k ≡ (
                    if (b == x) && asked x k
                    then get_or bytes (x * size + k - offset) 0
                    else image vb world d.memory.store x k))
                  q
                  (now ∙ byte ∙ elim (Bool-cases (leb ws k && ltb k we)) [
                    | inl e ↦
                        chosen _ _ _ e
                        ∙ choice.1 e
                        ∙ sym (chosen _ _ _ (own_row (asked b k) true (sym choice.0 ∙ e)))
                    | inr e ↦
                        passed _ _ _ e
                        ∙ rest k l e
                        ∙ sym (passed _ _ _ (own_row (asked b k) false (sym choice.0 ∙ e)))
                  ])
          ];
        }
      where
        own_row : (q v : Bool) → q ≡ v → ((b == b) && q) ≡ v
        own_row q true h = ground (arith, h)
        own_row q false h = ground (arith, h)

    -- the read before a partial write
    read_spliced :
        (env : Env) (d d' : Device) (a : Answer)
        → IsBacked vb world env.backend
        → IsDevice vb d
        → d.counter.seq_num + 1 < u64
        → b * vb.codec.block_size + vb.codec.block_size < u64
        → read_at vb env.backend (b * vb.codec.block_size) vb.codec.block_size d.memory ≡ ok a
        → publish env b vb.codec.block_size
            (spliced vb.codec.block_size ws we patch a.bytes)
            (record d { memory = a.memory })
          ≡ (d', none)
        → IsSpliced b d d'
    read_spliced env d d' a backed ready room inside got h =
        let size = vb.codec.block_size in
        let request = whole_block vb b codec inside in
        let read =
          read_at-IsImage vb world env.backend d.memory codec (b * size) size request a backed
            ready.sound got in
        let held =
          read_at-Kept vb world env.backend d.memory codec (b * size) size request a
            d.counter.seq_num backed ready.sound got
            (record { valid = ready.valid; bounded = ready.bounded; kept = λ j. inl refl }) in
        let dm : Device = record d { memory = a.memory } in
        let new = spliced size ws we patch a.bytes in
        let put =
          publish-IsPut vb world codec env b new dm d'
            (record {
              valid = held.valid;
              bounded = held.bounded;
              sound =
                  Kept-IsSound vb world d.memory.store d.counter.seq_num a.memory.store held
                    ready.sound;
            })
            room (length-spliced size ws we patch a.bytes ordered.0 ordered.1 length-patch) h in
        put_spliced d dm d' a.bytes put refl
          (λ j (c, at). elim (held.kept j) [
            | inl same ↦ (c, same ∙ at)
            | inr (l, x, there, now, copy) ↦ (x, now)
          ])
          (λ j k l. Kept-image vb world d.memory.store d.counter.seq_num a.memory.store held j k l)
          (λ k l e.
            get_or-base size ws we patch a.bytes ordered.0 ordered.1 length-patch k
              (omega (arith, read.0)) l
            ∙ read.1 k b k l l refl)

    -- the body of the loop, by the block's start, the request's end and the block's end
    abbrev body : Env → Device → ℕ → ℕ → ℕ → Device × Option WriteError
    body env d s e t =
        let w = write_start_of offset s in
        let v = write_end_of vb.codec.block_size e s t in
        let low = sub64 (add64 s w) offset in
        write_one_block_locked vb env b (ltb 0 w || ltb v vb.codec.block_size) w v
          (slice low (sub64 (add64 s v) offset - low) bytes) d

    -- where nothing wraps
    write_block_parts :
        (env : Env) (d : Device)
        → b * vb.codec.block_size + vb.codec.block_size < u64
        → offset + length bytes < u64
        → write_block vb env offset bytes b d
          ≡ write_one_block_locked vb env b (ltb 0 ws || ltb we vb.codec.block_size) ws we patch d
    unfolding write_block
    write_block_parts env d inside top =
        let size = vb.codec.block_size in
        let start : (b * size) % u64 ≡ b * size = omega (arith, inside) in
        let stop : add64 (b * size) size ≡ b * size + size = omega (arith, inside) in
        let over : add64 offset (length bytes) ≡ offset + length bytes = omega (arith, top) in
        let floor : offset ≤ b * size + ws = ground (arith, before, after) in
        let low : sub64 (add64 (b * size) ws) offset ≡ b * size + ws - offset =
          omega (arith, floor, ordered, inside) in
        let high : sub64 (add64 (b * size) we) offset ≡ b * size + we - offset =
          omega (arith, floor, ordered, inside) in
        let width : b * size + we - offset - (b * size + ws - offset) ≡ we - ws =
          omega (arith, floor, ordered) in
        let cut = λ (lo : ℕ) (n : ℕ).
          write_one_block_locked vb env b (ltb 0 ws || ltb we size) ws we (slice lo n bytes) d in
        ap (λ s. body env d s (add64 offset (length bytes)) (add64 s size)) start
        ∙ ap (λ e. body env d (b * size) e (add64 (b * size) size)) over
        ∙ ap (body env d (b * size) (offset + length bytes)) stop
        ∙ ap (λ x. cut x (sub64 (add64 (b * size) we) offset - x)) low
        ∙ ap (λ x. cut (b * size + ws - offset) (x - (b * size + ws - offset))) high
        ∙ ap (cut (b * size + ws - offset)) width

    pub write_block-IsSpliced :
        (env : Env) (d d' : Device)
        → IsBacked vb world env.backend
        → IsDevice vb d
        → d.counter.seq_num + 1 < u64
        → b * vb.codec.block_size + vb.codec.block_size < u64
        → offset + length bytes < u64
        → write_block vb env offset bytes b d ≡ (d', none)
        → IsSpliced b d d'
    write_block-IsSpliced env d d' backed ready room inside top h =
        let size = vb.codec.block_size in
        let start : (b * size) % u64 ≡ b * size = omega (arith, inside) in
        let step = λ (p : Bool) (e : (ltb 0 ws || ltb we size) ≡ p).
          ap (λ q. write_one_block_locked vb env b q ws we patch d) (sym e)
          ∙ sym (write_block_parts env d inside top)
          ∙ h in
        elim (Bool-cases (ltb 0 ws || ltb we size)) [
          | inl partial ↦
              let (a, e, put) = partly_written vb env b ws we patch d d' (step true partial) in
              read_spliced env d d' a backed ready room inside
                (ap (λ x. read_at vb env.backend x size d.memory) (sym start) ∙ e) put
          | inr full ↦
              let new = spliced size ws we patch [] in
              let put =
                publish-IsPut vb world codec env b new d d' ready room
                  (length-spliced size ws we patch [] ordered.0 ordered.1 length-patch)
                  (wholly_written vb env b ws we patch d d' (step false full)) in
              put_spliced d d d' [] put refl (λ j held. held) (λ j k l. refl)
                (λ k l e. absurd (no_gap k l full e))
        ]
      where
        no_gap :
            (k : ℕ)
            → k < vb.codec.block_size
            → (ltb 0 ws || ltb we vb.codec.block_size) ≡ false
            → leb ws k && ltb k we ≡ false
            → ⊥
        no_gap k l full e = ground (arith, l, full, e)
