-- ===== src/Store/View/Stale.antt =====
-- Writes and the counter of sequence numbers, and a drain that completes after a later write.
use viperblock.Prelude.{ℕ, ◌+◌, ◌<◌, ◌≤◌, ◌≡◌, ◌≢◌, refl, false, some, List, arith}
use native.Mathlib.Decide.{ℕ_discrete as dec_eq}
use viperblock.Words.{u64, add64}
use viperblock.Block.{BlockEntry, BlockState}
use viperblock.Store.{Store, entry, put}
use viperblock.Store.View.{view, IsValid, IsIssued, entry-put}
use viperblock.Store.Writers.{hot_entry, write_with_seq_num, write, mark_pending, mark_persisted}
use viperblock.Store.View.Writers.{raised, view-pending, view-write_issued, write-IsValid}

entry-put_ne :
    (s : Store) (v : IsValid s) (b j : ℕ) (x : BlockEntry) → b ≢ j → entry (put s b x) j ≡ entry s j
entry-put_ne s v b j x n = ground (arith, entry-put s v.sharded b x j)

pub entry-write_ne :
    (s : Store) (v : IsValid s) (b j : ℕ) (bytes : List ℕ)
    → b ≢ j
    → entry (write s b bytes).0 j ≡ entry s j
unfolding write write_with_seq_num entry
entry-write_ne s v b j bytes n =
    entry-put_ne (raised s) (record { sharded = v.sharded; extents = v.extents }) b j _ n

pub write-seq_num :
    (s : Store) (b : ℕ) (bytes : List ℕ) → (write s b bytes).0.seq_num ≡ add64 s.seq_num 1
unfolding write write_with_seq_num put
write-seq_num s b bytes = refl

-- the entries stay behind the counter
pub write-IsIssued :
    (s : Store) (b : ℕ) (bytes : List ℕ)
    → IsValid s
    → IsIssued s
    → s.seq_num + 2 < u64
    → IsIssued (write s b bytes).0
write-IsIssued s b bytes v i h = record {
  bounded = omega (arith, write-seq_num s b bytes, i);
  issued = λ j e here. elim (dec_eq b j) [
    | yes it ↦
        let w = (view-write_issued s b bytes v i).1 j in
        ground (arith, w, here, it, write-seq_num s b bytes)
    | no other ↦
        ground (
          arith,
          entry-write_ne s v b j bytes other,
          here,
          i.issued j e,
          write-seq_num s b bytes,
          i,
        )
  ];
}

-- In a valid store whose entries are not ahead of its counter, and whose counter has room: after
-- a block is written again, marking it Persisted under an older number is refused and changes
-- nothing, whether or not the new bytes were flushed, and the block, once flushed, reads as
-- Pending with the new bytes.
pub mark_persisted_stale :
    (s : Store) (b : ℕ) (bytes : List ℕ) (object_id offset old : ℕ)
    → IsValid s
    → IsIssued s
    → old ≤ s.seq_num
    → let again = (write s b bytes).0 in
      let flushed = (mark_pending again b).0 in
      (mark_persisted again b object_id offset old ≡ (again, false))
      × (mark_persisted flushed b object_id offset old ≡ (flushed, false))
      × (view flushed b
          ≡ some (record {
            bytes = bytes;
            seq_num = s.seq_num + 1;
            object_id = 0;
            object_offset = 0;
            state = BlockState.pending;
          }))
unfolding mark_persisted mark_pending
mark_persisted_stale s b bytes object_id offset old valid i h =
    let again = (write s b bytes).0 in
    let w = (view-write_issued s b bytes valid i).1 b in
    let v = write-IsValid s b bytes valid in
    let here : entry again b ≡ some (hot_entry bytes (s.seq_num + 1)) =
      view-pending again v b (hot_entry bytes (s.seq_num + 1)) (ground (arith, w)) (λ e. cc) in
    let pended : BlockEntry = record {
      bytes = bytes;
      seq_num = s.seq_num + 1;
      object_id = 0;
      object_offset = 0;
      state = BlockState.pending;
    } in
    let e = entry-put again v.sharded b pended b in
    (ground (arith, here), ground (arith, here, e), ground (arith, here, e))
