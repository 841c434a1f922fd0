-- ===== src/Store/View/Writers.antt =====
-- What each operation that writes one block does to the view, on all of its branches.
use viperblock.Prelude.{
  ℕ, ◌+◌, ◌≤◌, ◌≡◌, ◌≢◌, ◌&&◌, ◌↔◌, refl, ◌∙◌, ap, inl, inr, Bool, true, some, List, [], arith, ltb,
  ◌==◌, if◌then◌else◌, Option-cases,
}
use mathlib.Core.Path.{ap₂}
use viperblock.Words.{add64}
use viperblock.Block.{BlockEntry, BlockState}
use viperblock.Store.{Store, entry, put, remove}
use viperblock.Store.View.{view, IsValid, IsIssued, entry-put, put-sharded}
use viperblock.Store.View.Readers.{read_persisted_state}
use viperblock.Store.Writers.{entry_or_zero, hot_entry, write_with_seq_num, write, mark_persisted}

put-extents : (s : Store) (b : ℕ) (e : BlockEntry) → (put s b e).extents ≡ s.extents
unfolding put
put-extents s b e = refl

pub put-seq_num : (s : Store) (b : ℕ) (e : BlockEntry) → (put s b e).seq_num ≡ s.seq_num
unfolding put
put-seq_num s b e = refl

pub remove-extents : (s : Store) (b : ℕ) → (remove s b).extents ≡ s.extents
unfolding remove
remove-extents s b = refl

-- the outcome `r` of marking block `b` Persisted
abbrev pub IsMarked : Store → ℕ → ℕ → ℕ → ℕ → Store × Bool → Type 0
IsMarked s b object_id offset seq_num r =
    ((r.1 ≡ true) ↔ (
      (e : BlockEntry) × (view s b ≡ some e)
      × (e.state ≡ BlockState.pending)
      × (e.seq_num ≡ seq_num)))
    × ((j : ℕ)
        → view r.0 j ≡ (
            if r.1 && (b == j)
            then some (record {
              bytes = [];
              seq_num = seq_num;
              object_id = object_id;
              object_offset = offset;
              state = BlockState.persisted;
            })
            else view s j))

module _ (s : Store) (valid : IsValid s) (b : ℕ) where
  pub put-IsValid : (e : BlockEntry) → IsValid (put s b e)
  put-IsValid e = record {
    sharded = put-sharded s valid.sharded b e;
    extents = rw (put-extents s b e) valid.extents;
  }

  pub view-put :
      (e : BlockEntry) (j : ℕ) → view (put s b e) j ≡ (if b == j then some e else view s j)
  view-put e j = ground (arith, entry-put s valid.sharded b e j, put-extents s b e)

  -- an entry of the view that is not Persisted stands in a shard
  pub view-pending :
      (e : BlockEntry) → view s b ≡ some e → e.state ≢ BlockState.persisted → entry s b ≡ some e
  view-pending e h p = elim (Option-cases (entry s b)) [
    | inl missing ↦ ground (arith, missing, read_persisted_state s b e)
    | inr (x, here) ↦ ground (arith, here)
  ]

  pub view-write_with_seq_num :
      (bytes : List ℕ) (q : ℕ) (j : ℕ)
      → view (write_with_seq_num s b bytes q) j ≡ (
          if b == j
          then some
              (if ltb (entry_or_zero s b).seq_num q then hot_entry bytes q else entry_or_zero s b)
          else view s j)
  unfolding write_with_seq_num
  view-write_with_seq_num bytes q j = view-put _ j

  -- `MarkPersisted` succeeds exactly on a block that is Pending under the sequence number it is
  -- given. Then the block is Persisted at the given place under that number; on failure, and for
  -- every other block, the view stays.
  pub view-mark_persisted :
      (object_id offset seq_num : ℕ)
      → IsMarked s b object_id offset seq_num (mark_persisted s b object_id offset seq_num)
  unfolding mark_persisted
  view-mark_persisted object_id offset seq_num =
      ((λ t. marked t, λ (e, v, p, q). ground (arith, view-pending e v (λ h. cc))), λ j. shown j)
    where
      marked :
          (mark_persisted s b object_id offset seq_num).1 ≡ true
          → (e : BlockEntry) × (view s b ≡ some e)
            × (e.state ≡ BlockState.pending)
            × (e.seq_num ≡ seq_num)
      marked t = elim (Option-cases (entry s b)) [
        | inl h ↦ ground (arith, h)
        | inr (e, h) ↦ (e, ground (arith, h), ground (arith, h), ground (arith, h))
      ]

      shown :
          (j : ℕ)
          → view (mark_persisted s b object_id offset seq_num).0 j ≡ (
              if (mark_persisted s b object_id offset seq_num).1 && (b == j)
              then some (record {
                bytes = [];
                seq_num = seq_num;
                object_id = object_id;
                object_offset = offset;
                state = BlockState.persisted;
              })
              else view s j)
      shown j = elim (Option-cases (entry s b)) [
        | inl h ↦ ground (arith, h)
        | inr (e, h) ↦ ground (
          arith,
          h,
          view-put
              (record {
                bytes = [];
                seq_num = seq_num;
                object_id = object_id;
                object_offset = offset;
                state = BlockState.persisted;
              })
              j,
        )
      ]

-- `s` with the counter raised
abbrev pub raised : Store → Store
raised s = record s { seq_num = add64 s.seq_num 1 }

view-write-raised :
    (s : Store) (b : ℕ) (bytes : List ℕ) (j : ℕ)
    → view (write s b bytes).0 j
      ≡ view (write_with_seq_num (raised s) b bytes (add64 s.seq_num 1)) j
unfolding write entry
view-write-raised s b bytes j = refl

view-raised : (s : Store) (j : ℕ) → view (raised s) j ≡ view s j
unfolding entry
view-raised s j = refl

entry_or_zero-raised : (s : Store) (b : ℕ) → entry_or_zero (raised s) b ≡ entry_or_zero s b
unfolding entry
entry_or_zero-raised s b = refl

entry_or_zero-issued : (s : Store) (b : ℕ) → IsIssued s → (entry_or_zero s b).seq_num ≤ s.seq_num
entry_or_zero-issued s b i = elim (Option-cases (entry s b)) [
  | inl h ↦ ground (arith, h)
  | inr (e, h) ↦ ground (arith, h, i.issued b e h)
]

-- In a valid store, Write takes the next number of the store's counter. Where that is newer than
-- the block's entry, the block becomes Hot with the bytes written; where it is not, the entry
-- stays as it was and the bytes are dropped, though Write returns the number. Every other block
-- keeps its view.
pub view-write :
    (s : Store) (b : ℕ) (bytes : List ℕ)
    → IsValid s
    → let number = add64 s.seq_num 1 in
      let old = entry_or_zero s b in
      ((write s b bytes).1 ≡ number)
      × ((j : ℕ)
          → view (write s b bytes).0 j ≡ (
              if b == j
              then some (if ltb old.seq_num number then hot_entry bytes number else old)
              else view s j))
unfolding write
view-write s b bytes valid = (
  refl,
  λ j.
      view-write-raised s b bytes j
      ∙ view-write_with_seq_num (raised s)
          (record { sharded = valid.sharded; extents = valid.extents }) b bytes (add64 s.seq_num 1)
          j
      ∙ ap₂
          (λ (x : BlockEntry) y.
            if b == j
            then some (
                if ltb x.seq_num (add64 s.seq_num 1)
                then hot_entry bytes (add64 s.seq_num 1)
                else x)
            else y)
          (entry_or_zero-raised s b) (view-raised s j),
)

-- where no entry is ahead of the counter
pub view-write_issued :
    (s : Store) (b : ℕ) (bytes : List ℕ)
    → IsValid s
    → IsIssued s
    → ((write s b bytes).1 ≡ s.seq_num + 1)
      × ((j : ℕ)
          → view (write s b bytes).0 j
            ≡ (if b == j then some (hot_entry bytes (s.seq_num + 1)) else view s j))
unfolding write
view-write_issued s b bytes valid i = (omega (arith, i), shown)
  where
    number : add64 s.seq_num 1 ≡ s.seq_num + 1
    number = omega (arith, i)

    newer : ltb (entry_or_zero (raised s) b).seq_num (add64 s.seq_num 1) ≡ true
    newer = rw (entry_or_zero-raised s b) (ground (arith, entry_or_zero-issued s b i, i))

    chosen :
        (if ltb (entry_or_zero (raised s) b).seq_num (add64 s.seq_num 1)
          then hot_entry bytes (add64 s.seq_num 1)
          else entry_or_zero (raised s) b)
        ≡ hot_entry bytes (s.seq_num + 1)
    chosen = rw newer (ap (hot_entry bytes) number)

    shown :
        (j : ℕ)
        → view (write s b bytes).0 j
          ≡ (if b == j then some (hot_entry bytes (s.seq_num + 1)) else view s j)
    shown j =
        view-write-raised s b bytes j
        ∙ view-write_with_seq_num (raised s)
            (record { sharded = valid.sharded; extents = valid.extents }) b bytes
            (add64 s.seq_num 1) j
        ∙ ap₂ (λ x y. if b == j then some x else y) chosen (view-raised s j)

-- the write leaves the store valid, and the entries behind the counter
pub write-IsValid : (s : Store) (b : ℕ) (bytes : List ℕ) → IsValid s → IsValid (write s b bytes).0
unfolding write write_with_seq_num
write-IsValid s b bytes valid =
    let v =
      put-IsValid (raised s) (record { sharded = valid.sharded; extents = valid.extents }) b _ in
    record { sharded = v.sharded; extents = v.extents }
