-- ===== src/Store/View/Dirty.antt =====
-- Bytes that are not on the backend yet, through sequences of operations.
use viperblock.Prelude.{
  ℕ, ◌≡◌, ◌≢◌, ◌⊎◌, ◌||◌, not, ◌==◌, refl, ◌∙◌, inl, inr, false, some, List, [], ◌∷◌, arith, length,
  Bool-cases, Option-cases, Bool,
}
use native.Mathlib.Decide.{ℕ_discrete as dec_eq}
use viperblock.Block.{BlockEntry, BlockState, same_state}
use viperblock.Extents.{find_extent}
use viperblock.Runs.{Placement}
use viperblock.Store.{Store, entry, put, num_shards}
use viperblock.Store.View.{view, IsValid, entry-put, entry-remove}
use viperblock.Store.View.Writers.{view-pending}
use viperblock.Store.View.Stale.{entry-write_ne}
use viperblock.Store.View.Finalize.{Lacks, finalize_lacking}
use viperblock.Store.View.Load.{set_persisted_range-IsLoaded}
use viperblock.Store.View.Lifecycle.{
  Op, writes, replays, pends, persists, persists_range, places, loads, caches, evicts, deletes,
  apply, run, Admits, AdmitsAll, apply-IsValid,
}
use viperblock.Store.Ranges.{predict, publish, seal_items, any_eligible, mark_persisted_range}
use viperblock.Store.Writers.{
  update_if, write_with_seq_num, mark_pending, mark_persisted, set_persisted, cache, evict_cache,
  delete_block,
}

-- the entry's bytes are not on the backend

abbrev pub IsDirty : BlockEntry → Type 0
IsDirty e = (e.state ≡ BlockState.hot) ⊎ (e.state ≡ BlockState.pending)

-- no element of the two lists pairs `b` with `q`
abbrev pub Unpaired : ℕ → ℕ → List ℕ → List ℕ → Type 0
Unpaired b q [] qs = Unit {0}
Unpaired b q (b' ∷ bs) [] = Unit {0}
Unpaired b q (b' ∷ bs) (q' ∷ qs) = ((b' ≢ b) ⊎ (q' ≢ q)) × Unpaired b q bs qs

-- The operation does not write, place or delete block `b`, and does not seal it under `q`.
abbrev pub Spares : ℕ → ℕ → Op → Type 0
Spares b q (writes b' bytes) = b' ≢ b
Spares b q (replays b' bytes q') = b' ≢ b
Spares b q (persists b' o f q') = (b' ≢ b) ⊎ (q' ≢ q)
Spares b q (persists_range bs p qs) = Unpaired b q bs qs
Spares b q (places b' o f q') = b' ≢ b
Spares b q (deletes b') = b' ≢ b
Spares b q _ = Unit {0}

abbrev pub SparesAll : ℕ → ℕ → List Op → Type 0
SparesAll b q [] = Unit {0}
SparesAll b q (o ∷ os) = Spares b q o × SparesAll b q os

-- `s` holds the bytes of `e` for block `b`, still dirty and under the same number
abbrev pub Holds : Store → ℕ → BlockEntry → Type 0
Holds s b e =
    (e' : BlockEntry) × (entry s b ≡ some e')
    × IsDirty e'
    × (e'.bytes ≡ e.bytes)
    × (e'.seq_num ≡ e.seq_num)

entry-put_other :
    (s : Store) (v : length s.shards ≡ num_shards) (b b' : ℕ) (x e : BlockEntry)
    → b' ≢ b
    → entry s b ≡ some e
    → entry (put s b' x) b ≡ some e
entry-put_other s v b b' x e n here = ground (arith, entry-put s v b' x b, here)

module _ (s : Store) (v : length s.shards ≡ num_shards) (b : ℕ) (e : BlockEntry)
    (here : entry s b ≡ some e) (dirty : IsDirty e) where
  same : (s' : Store) → entry s' b ≡ some e → Holds s' b e
  same s' h = (e, h, dirty, refl, refl)

  put_other : (b' : ℕ) (x : BlockEntry) → b' ≢ b → entry (put s b' x) b ≡ some e
  put_other b' x n = entry-put_other s v b b' x e n here

  update_other :
      (b' : ℕ) (test : BlockEntry → Bool) (change : BlockEntry → BlockEntry)
      → (b' ≢ b) ⊎ (test e ≡ false)
      → entry (update_if s b' test change).0 b ≡ some e
  update_other b' test change n = elim (Option-cases (entry s b')) [
    | inl h ↦ rw (h, update_if) here
    | inr (x, h) ↦ elim (Bool-cases (test x)) [
      | inl t ↦
          let other : b' ≢ b = elim n [ inl o ↦ o | inr f ↦ λ q. cc ] in
          rw (h, update_if, t) (put_other b' (change x) other)
      | inr t ↦ rw (h, update_if, t) here
    ]
  ]

  Lacks-predict :
      (bs qs : List ℕ) → Unpaired b e.seq_num bs qs → Lacks b e.seq_num (predict s bs qs)
  unfolding predict
  Lacks-predict [] qs u = tt
  Lacks-predict (b' ∷ bs) [] u = tt
  Lacks-predict (b' ∷ bs) (q ∷ qs) u = (u.0, Lacks-predict bs qs u.1)

  sealed :
      (bs qs : List ℕ) (p : Placement)
      → Unpaired b e.seq_num bs qs
      → entry (seal_items p (predict s bs qs) s).0 b ≡ some e
  unfolding seal_items publish entry
  sealed bs qs p u =
      let xs = predict s bs qs in
      finalize_lacking xs (publish p xs s) b e v here (Lacks-predict bs qs u)

  mark_range :
      (bs qs : List ℕ) (p : Placement)
      → Unpaired b e.seq_num bs qs
      → entry (mark_persisted_range s bs p qs).0 b ≡ some e
  unfolding mark_persisted_range
  mark_range bs qs p u =
      let xs = predict s bs qs in
      elim (Bool-cases ((length bs == 0) || not (length bs == length qs))) [
        | inl t ↦ rw t here
        | inr t ↦ elim (Bool-cases (any_eligible xs)) [
          | inl t' ↦ rw (t, t') (sealed bs qs p u)
          | inr t' ↦ rw (t, t') here
        ]
      ]

  delete_other : (b' : ℕ) → b' ≢ b → entry (delete_block s b').0 b ≡ some e
  unfolding delete_block
  delete_other b' n = elim (Option-cases (entry s b')) [
    | inr (x, h) ↦ rw (h, delete_block) (ground (arith, entry-remove s v b' b, here))
    | inl h ↦ elim (Option-cases (find_extent s.extents b')) [
      | inl h' ↦ rw (h, delete_block, h') here
      | inr (pe, h') ↦ rw (h, delete_block, h') (unfold entry in here)
    ]
  ]

  pend_kept : (b' : ℕ) → Holds (mark_pending s b').0 b e
  unfolding mark_pending
  pend_kept b' = elim (dec_eq b' b) [
    | no other ↦ same _ (
        update_other b' (λ x. same_state x.state BlockState.hot)
          (λ x. record x { state = BlockState.pending }) (inl other))
    | yes it ↦ elim dirty [
      | inl hot ↦ (
        record e { state = BlockState.pending },
        ground (arith, here, it, hot, entry-put s v b' (record e { state = BlockState.pending }) b),
        inr refl,
        refl,
        refl,
      )
      | inr pending ↦ same _ (ground (arith, here, it, pending))
    ]
  ]

  -- One operation that spares a dirty block keeps its bytes and number, and keeps it dirty.
  apply-Holds : (o : Op) → IsValid s → Admits o → Spares b e.seq_num o → Holds (apply o s) b e
  unfolding write_with_seq_num mark_persisted set_persisted cache evict_cache
  apply-Holds (writes b' bytes) w a n = same _ (entry-write_ne s w b' b bytes n ∙ here)
  apply-Holds (replays b' bytes q) w a n = same _ (put_other b' _ n)
  apply-Holds (pends b') w a n = pend_kept b'
  apply-Holds (persists b' o f q) w a n =
      same _ (update_other b' _ _ (elim n [ inl o ↦ inl o | inr d ↦ inr (ground (arith, d)) ]))
  apply-Holds (persists_range bs p qs) w a n = same _ (mark_range bs qs p n)
  apply-Holds (places b' o f q) w a n = same _ (put_other b' _ n)
  apply-Holds (loads bs p qs) w a n =
      same _ (((set_persisted_range-IsLoaded s p 0 bs qs w a.0 a.1).1 b).0 ∙ here)
  apply-Holds (caches b' bytes) w a n = same _ (update_other b' _ _ (inr ground (arith, dirty)))
  apply-Holds (evicts b') w a n = same _ (update_other b' _ _ (inr ground (arith, dirty)))
  apply-Holds (deletes b') w a n = same _ (delete_other b' n)

-- The bytes of a block that is Hot or Pending are never lost. Whatever sequence of operations a
-- valid store goes through, as long as none of them writes, places or deletes that block, or seals
-- it under its present number, the block still reads as Hot or Pending with the same bytes and the
-- same number: stale drains, cache fills and evictions, checkpoint loads and range seals included.
pub run_keeps_bytes :
    (os : List Op) (s : Store) (b : ℕ) (e : BlockEntry)
    → IsValid s
    → AdmitsAll os
    → view s b ≡ some e
    → IsDirty e
    → SparesAll b e.seq_num os
    → (e' : BlockEntry) × (view (run os s) b ≡ some e')
      × IsDirty e'
      × (e'.bytes ≡ e.bytes)
      × (e'.seq_num ≡ e.seq_num)
run_keeps_bytes [] s b e v a h d n = (e, h, d, refl, refl)
run_keeps_bytes (o ∷ os) s b e v a h d n =
    let here = view-pending s v b e h (ground (arith, d)) in
    let (e', h', d', x, y) = apply-Holds s v.sharded b e here d o v a.0 n.0 in
    let (e'', h'', d'', x', y') =
      run_keeps_bytes os (apply o s) b e' (apply-IsValid o s a.0 v) a.1 (ground (arith, h')) d'
        (rw y n.1) in
    (e'', h'', d'', x' ∙ x, y' ∙ y)
