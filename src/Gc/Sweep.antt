-- ===== src/Gc/Sweep.antt =====
-- What a sweep may delete.
use viperblock.Prelude.{
  ℕ, ◌≤◌, ◌<◌, ◌≡◌, ◌≢◌, refl, sym, ap, subst, ◌∙◌, inl, inr, Bool, true, false, some, List, [],
  ◌∷◌, arith, if◌then◌else◌, Bool-cases, not,
}
use viperblock.Dict.{Dict, In, find, keys}
use viperblock.Lookup.{BlockLookup, Index, count_of}
use viperblock.Reload.{Below}
use viperblock.Gc.Tally.{IsTallied, refs}
use viperblock.Gc.{
  Answers, Collector, ensure_gc_snapshot_safe, ensure_gc_floor, reconcile_chunks_once,
  candidates_among, gc_snapshot_marker_moved, collect_chunks, sweep_chunks,
}
use viperblock.Gc.Keeps.{safe-Like, reconcile-Like}
use viperblock.Gc.Floor.{IsFloored, Below-weaken, IsFloored-Like, ensure_gc_floor-IsSafeFloor}

refs-zero :
    (id : ℕ) (m : Dict BlockLookup) (k : ℕ) (pe : BlockLookup)
    → refs id m ≡ 0
    → find k m ≡ some pe
    → pe.object_id ≢ id
unfolding refs find
refs-zero id [] k pe z h = ground (arith, h)
refs-zero id ((j, w) ∷ m) k pe z h = ground (arith, z, h, refs-zero id m k pe)

-- A candidate has no references, and lies from the floor to the watermark.
candidates_among-In :
    (counts : Dict ℕ) (floor watermark id : ℕ) (ids : List ℕ)
    → In id (candidates_among counts floor watermark ids)
    → (count_of id counts ≡ 0) × (floor ≤ id) × (id < watermark)
unfolding candidates_among
candidates_among-In counts floor watermark id [] h = elim h [ ]
candidates_among-In counts floor watermark id (j ∷ ids) h =
    ground (arith, h, candidates_among-In counts floor watermark id ids)

-- What is true of each chunk that a sweep asks to delete.
abbrev pub IsGarbage : Collector → List BlockLookup → ℕ → Type 0
IsGarbage v blocks id = (count_of id v.gc_refcount ≡ 0) × Below id blocks × (id < v.object_num)

collect_chunks-IsGarbage :
    (backend : Answers) (v : Collector) (blocks : List BlockLookup) (id : ℕ)
    → IsFloored backend v blocks
    → In id (collect_chunks backend v).1
    → IsGarbage v blocks id
unfolding collect_chunks
collect_chunks-IsGarbage backend v blocks id p h =
    let r = reconcile_chunks_once backend v in
    let like = reconcile-Like backend v in
    let floored = ensure_gc_floor backend r in
    let safe =
      ensure_gc_floor-IsSafeFloor backend r blocks (IsFloored-Like backend v r blocks like p) in
    let w = floored.0 in
    let moved = (gc_snapshot_marker_moved backend.marker_after w).1 in
    elim (Bool-cases moved) [
      | inl e ↦ absurd (ground (arith, e, h))
      | inr e ↦
          let found : In id
              (candidates_among w.gc_refcount floored.1 w.object_num (keys w.gc_refcount)) =
            ground (arith, e, h) in
          let (zero_count, above, below) =
            candidates_among-In w.gc_refcount floored.1 w.object_num id (keys w.gc_refcount)
              found in
          (
            sym (like.counts id) ∙ ap (count_of id) (sym safe.1) ∙ zero_count,
            Below-weaken floored.1 id blocks above safe.0,
            subst (λ n. id < n) (safe.2 ∙ like.num) below,
          )
    ]

-- A sweep deletes something only where both of its first tests pass.
past_tests :
    (off unsafe : Bool) (a b : Collector) (c : Collector × List ℕ) (id : ℕ)
    → In id (if off then (a, []) else if unsafe then (b, []) else c).1
    → (off ≡ false) × (unsafe ≡ false) × In id c.1
past_tests true unsafe a b c id h = elim h [ ]
past_tests false true a b c id h = elim h [ ]
past_tests false false a b c id h = (refl, refl, h)

not_latched :
    (backend : Answers) (v : Collector)
    → not (ensure_gc_snapshot_safe backend v).1 ≡ false
    → v.latched_off ≡ false
unfolding ensure_gc_snapshot_safe
not_latched backend v h = ground (arith, h)

-- A sweep over a floor that protects the blocks of the checkpoint.
pub sweep_chunks_floored :
    (backend : Answers) (v : Collector) (x : Index) (blocks : List BlockLookup) (id : ℕ)
    → IsTallied x
    → x.gc_refcount ≡ some v.gc_refcount
    → IsFloored backend v blocks
    → In id (sweep_chunks backend v).1
    → (v.gc_enabled ≡ true)
      × (v.latched_off ≡ false)
      × ((k : ℕ) (pe : BlockLookup) → find k x.entries ≡ some pe → pe.object_id ≢ id)
      × Below id blocks
      × (id < v.object_num)
unfolding sweep_chunks
sweep_chunks_floored backend v x blocks id t shared p h =
    let same : t.counts ≡ v.gc_refcount = ground (arith, t.kept, shared) in
    let w = (ensure_gc_snapshot_safe backend v).0 in
    let like = safe-Like backend v in
    let (on, safe, found) = past_tests _ _ v w (collect_chunks backend w) id h in
    let (unused, above, below) =
      collect_chunks-IsGarbage backend w blocks id (IsFloored-Like backend v w blocks like p)
        found in
    let z : refs id x.entries ≡ 0 =
      sym (t.counted id) ∙ ap (count_of id) same ∙ sym (like.counts id) ∙ unused in
    (
      ground (arith, on),
      not_latched backend v safe,
      λ k pe f. refs-zero id x.entries k pe z f,
      above,
      subst (λ n. id < n) like.num below,
    )
