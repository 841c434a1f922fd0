-- ===== src/Gc/Keeps.antt =====
-- What the first steps of a sweep leave alone.
use viperblock.Prelude.{
  ℕ, ◌≡◌, refl, ◌∙◌, inl, inr, Bool, true, false, Option, some, none, List, [], ◌∷◌, arith,
  if◌then◌else◌, Option-cases,
}
use viperblock.Bytes.{Bytes}
use viperblock.Dict.{Dict, find-insert}
use viperblock.Lookup.{count_of}
use viperblock.Gc.{
  Read, Answers, Collector, ensure_gc_snapshot_safe, first_scan, numbered_checkpoint_high_water,
  track_chunk, track_keys, reconcile_chunks_once,
}

-- Reconciling adds chunks whose count reads as zero already.

count_of-track_chunk :
    (j : ℕ) (counts : Dict ℕ) (id : ℕ) → count_of id (track_chunk j counts) ≡ count_of id counts
unfolding track_chunk
count_of-track_chunk j counts id = ground (arith, find-insert j id 0 counts)

count_of-track_keys :
    (backend : Answers) (ks : List Bytes) (counts : Dict ℕ) (id : ℕ)
    → count_of id (track_keys backend ks counts) ≡ count_of id counts
unfolding track_keys
count_of-track_keys backend [] counts id = refl
count_of-track_keys backend (key ∷ ks) counts id =
    elim (Option-cases (backend.chunk_object_id key)) [
      | inl e ↦ rw e (count_of-track_keys backend ks counts id)
      | inr (j, e) ↦ rw e (
          count_of-track_keys backend ks (track_chunk j counts) id
          ∙ count_of-track_chunk j counts id)
    ]

-- the fields that the first steps of a sweep leave alone
pub record Like (v w : Collector) : Type 0 where
  pub counts : (id : ℕ) → count_of id w.gc_refcount ≡ count_of id v.gc_refcount
  pub floor : w.floor ≡ v.floor
  pub num : w.object_num ≡ v.object_num
  pub version : w.version ≡ v.version
  pub magic : w.wal_magic ≡ v.wal_magic

Like-refl : (v : Collector) → Like v v
Like-refl v = record { counts = λ id. refl; floor = refl; num = refl; version = refl; magic = refl }

Like-trans : (v w u : Collector) → Like v w → Like w u → Like v u
Like-trans v w u f g = record {
  counts = λ id. g.counts id ∙ f.counts id;
  floor = g.floor ∙ f.floor;
  num = g.num ∙ f.num;
  version = g.version ∙ f.version;
  magic = g.magic ∙ f.magic;
}

first_scan-Like : (v : Collector) (b : Option Bytes) (s : Option Bool) → Like v (first_scan v b s).0
unfolding first_scan
first_scan-Like v none s = Like-refl v
first_scan-Like v (some b) none = Like-refl v
first_scan-Like v (some b) (some safe) = record {
  counts = λ id. refl;
  floor = refl;
  num = refl;
  version = refl;
  magic = refl;
}

Like-if :
    (v : Collector) (b : Bool) (x y : Collector) → Like v x → Like v y → Like v (if b then x else y)
Like-if v true x y f g = f
Like-if v false x y f g = g

Like-if_pair :
    {A : Type 0} (v : Collector) (b : Bool) (x y : Collector × A)
    → Like v x.0
    → Like v y.0
    → Like v (if b then x else y).0
Like-if_pair v true x y f g = f
Like-if_pair v false x y f g = g

pub safe-Like : (backend : Answers) (v : Collector) → Like v (ensure_gc_snapshot_safe backend v).0
unfolding ensure_gc_snapshot_safe
safe-Like backend v =
    Like-if_pair v v.latched_off _ _ (Like-refl v)
      (Like-if_pair v v.snapshot_checked _ _ (Like-refl v) (first_scan-Like v _ _))

pub reconcile-Like : (backend : Answers) (v : Collector) → Like v (reconcile_chunks_once backend v)
unfolding reconcile_chunks_once
reconcile-Like backend v = Like-if v v.reconciled _ _ (Like-refl v) (listed backend.chunk_keys)
  where
    listed :
        (o : Option (List Bytes))
        → Like v (elim o [
          | none ↦ v
          | some ks ↦ record v {
            gc_refcount = track_keys backend ks v.gc_refcount;
            reconciled = true;
          }
        ])
    listed none = Like-refl v
    listed (some ks) = record {
      counts = count_of-track_keys backend ks v.gc_refcount;
      floor = refl;
      num = refl;
      version = refl;
      magic = refl;
    }

pub same_high_water :
    (v w : Collector) (answer : Read)
    → w.version ≡ v.version
    → w.wal_magic ≡ v.wal_magic
    → numbered_checkpoint_high_water w answer ≡ numbered_checkpoint_high_water v answer
unfolding numbered_checkpoint_high_water
same_high_water v w Read.missing e f = refl
same_high_water v w Read.failed e f = refl
same_high_water v w (Read.bytes b) e f = rw (e, f) refl

pub high_water-Like :
    (v w : Collector) (answer : Read)
    → Like v w
    → numbered_checkpoint_high_water w answer ≡ numbered_checkpoint_high_water v answer
high_water-Like v w answer f = same_high_water v w answer f.version f.magic
