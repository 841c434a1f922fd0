-- ===== src/Store/View/Lifecycle.antt =====
-- Sequences of store operations: what stays valid, and what no sequence can lose.
use viperblock.Prelude.{
  ℕ, ◌+◌, ◌<◌, ◌≡◌, inl, inr, Bool, List, [], ◌∷◌, length, Bool-cases, Option-cases,
}
use viperblock.Words.{u64}
use viperblock.Block.{BlockEntry}
use viperblock.Runs.{Placement}
use viperblock.Store.{Store, entry}
use viperblock.Store.View.{IsValid}
use viperblock.Store.View.Writers.{put-IsValid, write-IsValid}
use viperblock.Store.View.Ranges.{Ascending, mark_persisted_range-IsSealed}
use viperblock.Store.View.Load.{set_persisted_range-IsLoaded}
use viperblock.Store.View.Removal.{delete_block-IsDeleted}
use viperblock.Store.Ranges.{mark_persisted_range, set_persisted_range}
use viperblock.Store.Writers.{
  update_if, write, write_with_seq_num, mark_pending, mark_persisted, set_persisted, cache,
  evict_cache, delete_block,
}

pub data Op : Type 0 where
  writes : ℕ → List ℕ → Op
  replays : ℕ → List ℕ → ℕ → Op
  pends : ℕ → Op
  persists : ℕ → ℕ → ℕ → ℕ → Op
  persists_range : List ℕ → Placement → List ℕ → Op
  places : ℕ → ℕ → ℕ → ℕ → Op
  loads : List ℕ → Placement → List ℕ → Op
  caches : ℕ → List ℕ → Op
  evicts : ℕ → Op
  deletes : ℕ → Op

abbrev pub apply : Op → Store → Store
apply (writes b bytes) s = (write s b bytes).0
apply (replays b bytes q) s = write_with_seq_num s b bytes q
apply (pends b) s = (mark_pending s b).0
apply (persists b o f q) s = (mark_persisted s b o f q).0
apply (persists_range bs p qs) s = (mark_persisted_range s bs p qs).0
apply (places b o f q) s = set_persisted s b o f q
apply (loads bs p qs) s = set_persisted_range s bs p qs
apply (caches b bytes) s = (cache s b bytes).0
apply (evicts b) s = (evict_cache s b).0
apply (deletes b) s = (delete_block s b).0

abbrev pub run : List Op → Store → Store
run [] s = s
run (o ∷ os) s = run os (apply o s)

-- what the callers see to: runs ascend strictly and are numbered, and a block number has a successor
abbrev pub Admits : Op → Type 0
Admits (persists_range bs p qs) = Ascending 0 bs × (length bs ≡ length qs)
Admits (loads bs p qs) = Ascending 0 bs × (length bs ≡ length qs)
Admits (deletes b) = b + 1 < u64
Admits _ = Unit {0}

abbrev pub AdmitsAll : List Op → Type 0
AdmitsAll [] = Unit {0}
AdmitsAll (o ∷ os) = Admits o × AdmitsAll os

update_if-IsValid :
    (s : Store) (b : ℕ) (test : BlockEntry → Bool) (change : BlockEntry → BlockEntry)
    → IsValid s
    → IsValid (update_if s b test change).0
update_if-IsValid s b test change v = elim (Option-cases (entry s b)) [
  | inl h ↦ rw (h, update_if) v
  | inr (e, h) ↦ elim (Bool-cases (test e)) [
    | inl t ↦ rw (h, update_if, t) (put-IsValid s v b (change e))
    | inr t ↦ rw (h, update_if, t) v
  ]
]

pub apply-IsValid : (o : Op) (s : Store) → Admits o → IsValid s → IsValid (apply o s)
unfolding write_with_seq_num mark_pending mark_persisted set_persisted cache evict_cache
apply-IsValid (writes b bytes) s a v = write-IsValid s b bytes v
apply-IsValid (replays b bytes q) s a v = put-IsValid s v b _
apply-IsValid (pends b) s a v = update_if-IsValid s b _ _ v
apply-IsValid (persists b o f q) s a v = update_if-IsValid s b _ _ v
apply-IsValid (persists_range bs p qs) s a v =
    (mark_persisted_range-IsSealed s p 0 bs qs v a.0 a.1).0
apply-IsValid (places b o f q) s a v = put-IsValid s v b _
apply-IsValid (loads bs p qs) s a v = (set_persisted_range-IsLoaded s p 0 bs qs v a.0 a.1).0
apply-IsValid (caches b bytes) s a v = update_if-IsValid s b _ _ v
apply-IsValid (evicts b) s a v = update_if-IsValid s b _ _ v
apply-IsValid (deletes b) s a v = (delete_block-IsDeleted s b v a).0

-- No admitted sequence of operations makes a valid store invalid: the extents stay disjoint, keyed
-- by their first block and numbered, and the shards sixteen.
pub run-IsValid : (os : List Op) (s : Store) → AdmitsAll os → IsValid s → IsValid (run os s)
run-IsValid [] s a v = v
run-IsValid (o ∷ os) s a v = run-IsValid os (apply o s) a.1 (apply-IsValid o s a.0 v)
