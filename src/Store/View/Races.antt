-- ===== src/Store/View/Races.antt =====
-- A guest write between the passes of `MarkPersistedRange`, which holds no lock from one pass to
-- the next.
use viperblock.Prelude.{ℕ, ◌<◌, ◌≡◌, refl, some, List, arith}
use viperblock.Runs.{Item, Placement}
use viperblock.Store.{Store, entry}
use viperblock.Store.View.{view, IsValid}
use viperblock.Store.View.Finalize.{finalize_keeps}
use viperblock.Store.View.Ranges.{Ascending, publish-IsValid, predict-Ascends}
use viperblock.Store.View.Writers.{view-write_with_seq_num, view-pending, put-IsValid}
use viperblock.Store.Ranges.{predict, publish, finalize}
use viperblock.Store.Writers.{entry_or_zero, hot_entry, write_with_seq_num}

entry-publish :
    (s : Store) (p : Placement) (xs : List Item) (b : ℕ)
    → entry_or_zero (publish p xs s) b ≡ entry_or_zero s b
unfolding publish entry
entry-publish s p xs b = refl

write_with_seq_num-IsValid :
    (s : Store) (b : ℕ) (bytes : List ℕ) (q : ℕ)
    → IsValid s
    → IsValid (write_with_seq_num s b bytes q)
unfolding write_with_seq_num
write_with_seq_num-IsValid s b bytes q v = put-IsValid s v b _

-- In a valid store, a block that WriteWithSeqNum writes between the publishing pass and the
-- final pass of MarkPersistedRange over ascending blocks, under a number newer than the block's
-- entry, reads as the new write: Hot, with the new bytes and number.
pub finalize_raced :
    (s : Store) (p : Placement) (lo : ℕ) (bs qs : List ℕ) (b : ℕ) (bytes : List ℕ) (q : ℕ)
    → IsValid s
    → (entry_or_zero s b).seq_num < q
    → Ascending lo bs
    → let items = predict s bs qs in
      let raced = write_with_seq_num (publish p items s) b bytes q in
      view (finalize items raced).0 b ≡ some (hot_entry bytes q)
finalize_raced s p lo bs qs b bytes q valid newer a =
    let items = predict s bs qs in
    let s' = publish p items s in
    let v = publish-IsValid s p lo items valid (predict-Ascends s lo bs qs a) in
    let w = view-write_with_seq_num s' v b bytes q b in
    let v' = write_with_seq_num-IsValid s' b bytes q v in
    let hot = hot_entry bytes q in
    let shown : view (write_with_seq_num s' b bytes q) b ≡ some hot =
      ground (arith, w, entry-publish s p items b, newer) in
    let here = view-pending _ v' b hot shown (λ e. cc) in
    let stays = finalize_keeps items _ b hot v'.sharded here (λ e. cc) in ground (arith, stays)
