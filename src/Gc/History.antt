-- ===== src/Gc/History.antt =====
-- Sweeps of one volume from its opening on, with what writes and drains change between them.
use viperblock.Prelude.{
  ℕ, ◌<◌, ◌≡◌, ◌≢◌, refl, sym, ap, subst, ◌∙◌, Bool, true, false, Option, some, none, List, [], ◌-◌,
  ◌∷◌, arith, if◌then◌else◌, not,
}
use viperblock.Words.{u64}
use viperblock.Dict.{Dict, In, find, keys}
use viperblock.Lookup.{BlockLookup, Index}
use viperblock.Reload.{Below, max_object}
use viperblock.Gc.Tally.{IsTallied}
use viperblock.Gc.{
  Answers, Collector, Read, ensure_gc_snapshot_safe, ensure_gc_floor, fresh_floor, floor_of,
  reconcile_chunks_once, gc_snapshot_marker_moved, read_snapshot_marker, delete_chunk_objects,
  collect_chunks, sweep_chunks, numbered_checkpoint_high_water,
}
use viperblock.Gc.Keeps.{Like, safe-Like, reconcile-Like, same_high_water}
use viperblock.Gc.Floor.{floor_of-Below}
use viperblock.Gc.Sweep.{sweep_chunks_floored}

-- A sweep, with what the backend answers during it; or what writes and drains make of the counts and
-- of ObjectNum.

pub data Event : Type 0 where
  sweeps : Answers → Event
  changes : Dict ℕ → ℕ → Event

unfoldable pub step : Event → Collector → Collector
step (Event.sweeps backend) v = (sweep_chunks backend v).0
step (Event.changes counts object_num) v = record v {
  gc_refcount = counts;
  object_num = object_num;
}

unfoldable pub run : List Event → Collector → Collector
run [] v = v
run (e ∷ es) v = run es (step e v)

-- The numbered checkpoint, where it can be read, has the highest chunk of `blocks`.
abbrev pub Names : List BlockLookup → Collector → Answers → Type 0
Names blocks v backend =
    (high : Option ℕ)
    → numbered_checkpoint_high_water v backend.checkpoint ≡ some high
    → high ≡ max_object blocks none

-- It does in every sweep.
abbrev pub AllName : List BlockLookup → Collector → List Event → Type 0
AllName blocks v [] = Unit {0}
AllName blocks v (Event.sweeps backend ∷ es) = Names blocks v backend × AllName blocks v es
AllName blocks v (Event.changes counts object_num ∷ es) = AllName blocks v es

-- the version and the magic are those of `v`, and the floor, where it is cached, is that of `blocks`
record IsKept (blocks : List BlockLookup) (v w : Collector) : Type 0 where
  version : w.version ≡ v.version
  magic : w.wal_magic ≡ v.wal_magic
  floor : (f : ℕ) → w.floor ≡ some f → f ≡ floor_of (max_object blocks none)

Like-IsKept :
    (blocks : List BlockLookup) (v w u : Collector)
    → IsKept blocks v w
    → Like w u
    → IsKept blocks v u
Like-IsKept blocks v w u k l = record {
  version = l.version ∙ k.version;
  magic = l.magic ∙ k.magic;
  floor = λ f h. k.floor f (sym l.floor ∙ h);
}

named :
    (blocks : List BlockLookup) (v w : Collector) (backend : Answers)
    → IsKept blocks v w
    → Names blocks v backend
    → Names blocks w backend
named blocks v w backend k n high h =
    n high (sym (same_high_water v w backend.checkpoint k.version k.magic) ∙ h)

fresh_floor-IsKept :
    (blocks : List BlockLookup) (v w : Collector) (high : Option (Option ℕ))
    → IsKept blocks v w
    → ((h : Option ℕ) → high ≡ some h → h ≡ max_object blocks none)
    → IsKept blocks v (fresh_floor w high).0
unfolding fresh_floor
fresh_floor-IsKept blocks v w none k n = k
fresh_floor-IsKept blocks v w (some high) k n = record {
  version = k.version;
  magic = k.magic;
  floor =
      λ f h. let at : floor_of high ≡ f = ground (arith, h) in sym at ∙ ap floor_of (n high refl);
}

ensure_gc_floor-IsKept :
    (blocks : List BlockLookup) (v w : Collector) (backend : Answers)
    → IsKept blocks v w
    → Names blocks v backend
    → IsKept blocks v (ensure_gc_floor backend w).0
unfolding ensure_gc_floor
ensure_gc_floor-IsKept blocks v w backend k n = chosen w.floor
  where
    chosen :
        (o : Option ℕ)
        → let r : Collector × ℕ = elim o [
          | some floor ↦ (w, floor)
          | none ↦ fresh_floor w (numbered_checkpoint_high_water w backend.checkpoint)
        ] in
          IsKept blocks v r.0
    chosen (some f) = k
    chosen none = fresh_floor-IsKept blocks v w _ k (named blocks v w backend k n)

marker-IsKept :
    (blocks : List BlockLookup) (v w : Collector) (answer : Read)
    → IsKept blocks v w
    → IsKept blocks v (gc_snapshot_marker_moved answer w).0
unfolding gc_snapshot_marker_moved read_snapshot_marker
marker-IsKept blocks v w Read.missing k = record {
  version = k.version;
  magic = k.magic;
  floor = k.floor;
}
marker-IsKept blocks v w Read.failed k = k
marker-IsKept blocks v w (Read.bytes b) k = record {
  version = k.version;
  magic = k.magic;
  floor = k.floor;
}

deletes-IsKept :
    (blocks : List BlockLookup) (v : Collector) (backend : Answers) (ids : List ℕ) (w : Collector)
    → IsKept blocks v w
    → IsKept blocks v (delete_chunk_objects backend ids w)
unfolding delete_chunk_objects
deletes-IsKept blocks v backend [] w k = k
deletes-IsKept blocks v backend (id ∷ ids) w k =
    deletes-IsKept blocks v backend ids _ (one (backend.delete_fails id))
  where
    one :
        (b : Bool)
        → IsKept blocks v
            (if b then w else record w { gc_refcount = viperblock.Dict.delete id w.gc_refcount })
    one true = k
    one false = record { version = k.version; magic = k.magic; floor = k.floor }

collect_chunks-IsKept :
    (blocks : List BlockLookup) (v w : Collector) (backend : Answers)
    → IsKept blocks v w
    → Names blocks v backend
    → IsKept blocks v (collect_chunks backend w).0
unfolding collect_chunks
collect_chunks-IsKept blocks v w backend k n =
    let r = reconcile_chunks_once backend w in
    let floored = ensure_gc_floor backend r in
    let kept =
      ensure_gc_floor-IsKept blocks v r backend
        (Like-IsKept blocks v w r k (reconcile-Like backend w)) n in
    let marked = gc_snapshot_marker_moved backend.marker_after floored.0 in
    either marked.1 marked.0 _ _ (marker-IsKept blocks v floored.0 backend.marker_after kept)
  where
    either :
        (moved : Bool) (u : Collector) (ids : List ℕ) (none_asked : List ℕ)
        → IsKept blocks v u
        → let r : Collector × List ℕ =
            if moved then (u, none_asked) else (delete_chunk_objects backend ids u, ids) in
          IsKept blocks v r.0
    either true u ids none_asked k = k
    either false u ids none_asked k = deletes-IsKept blocks v backend ids u k

sweep_chunks-IsKept :
    (blocks : List BlockLookup) (v w : Collector) (backend : Answers)
    → IsKept blocks v w
    → Names blocks v backend
    → IsKept blocks v (sweep_chunks backend w).0
unfolding sweep_chunks
sweep_chunks-IsKept blocks v w backend k n =
    let safe = ensure_gc_snapshot_safe backend w in
    let kept = Like-IsKept blocks v w safe.0 k (safe-Like backend w) in
    either (not w.gc_enabled) (not safe.1) safe.0 (collect_chunks backend safe.0) kept
      (collect_chunks-IsKept blocks v safe.0 backend kept n)
  where
    either :
        (off unsafe : Bool) (u : Collector) (c : Collector × List ℕ)
        → IsKept blocks v u
        → IsKept blocks v c.0
        → let r : Collector × List ℕ = if off then (w, []) else if unsafe then (u, []) else c in
          IsKept blocks v r.0
    either true unsafe u c a b = k
    either false true u c a b = a
    either false false u c a b = b

run-IsKept :
    (blocks : List BlockLookup) (v : Collector) (es : List Event) (w : Collector)
    → IsKept blocks v w
    → AllName blocks v es
    → IsKept blocks v (run es w)
unfolding run step
run-IsKept blocks v [] w k n = k
run-IsKept blocks v (Event.sweeps backend ∷ es) w k (n, ns) =
    run-IsKept blocks v es _ (sweep_chunks-IsKept blocks v w backend k n) ns
run-IsKept blocks v (Event.changes counts object_num ∷ es) w k n =
    run-IsKept blocks v es _ (record { version = k.version; magic = k.magic; floor = k.floor }) n

-- After any sweeps since a volume was opened, and any changes of the counts and of ObjectNum
-- between them, a sweep of a volume whose reference counts are the numbers of entries of the map
-- asks the backend to delete a chunk only where collection is enabled and not latched off, no
-- entry of the map lies in the chunk, and its number is above every chunk that the numbered
-- checkpoint names and below ObjectNum. The floor is not cached when the volume is opened, the
-- checkpoint names chunks below 2 ^ 64 - 1, and in each sweep its read either fails or gives the
-- highest of these.
pub sweep_chunks-Spares :
    (backend : Answers) (v : Collector) (es : List Event) (x : Index) (blocks : List BlockLookup)
    (id : ℕ)
    → v.floor ≡ none
    → Below (u64 - 1) blocks
    → AllName blocks v es
    → Names blocks v backend
    → IsTallied x
    → x.gc_refcount ≡ some (run es v).gc_refcount
    → In id (sweep_chunks backend (run es v)).1
    → ((run es v).gc_enabled ≡ true)
      × ((run es v).latched_off ≡ false)
      × ((k : ℕ) (pe : BlockLookup) → find k x.entries ≡ some pe → pe.object_id ≢ id)
      × Below id blocks
      × (id < (run es v).object_num)
sweep_chunks-Spares backend v es x blocks id opened small names name t shared h =
    let w = run es v in
    let kept =
      run-IsKept blocks v es v
        (record { version = refl; magic = refl; floor = λ f e. absurd (ground (arith, opened, e)) })
        names in
    sweep_chunks_floored backend w x blocks id t shared
      (record {
        small = small;
        cached =
            λ f e. subst (λ n. Below n blocks) (sym (kept.floor f e)) (floor_of-Below blocks small);
        fresh = named blocks v w backend kept name;
      })
      h
