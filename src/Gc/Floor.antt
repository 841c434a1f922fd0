-- ===== src/Gc/Floor.antt =====
-- The floor under the chunks that a sweep may delete.
use viperblock.Prelude.{
  ℕ, suc, ◌-◌, ◌≤◌, ◌<◌, ◌≡◌, refl, sym, subst, ◌∙◌, Option, some, none, List, [], ◌∷◌, arith,
  if◌then◌else◌, ltb,
}
use viperblock.Words.{u64}
use viperblock.Lookup.{BlockLookup}
use viperblock.Reload.{max_object, Below}
use viperblock.Gc.{
  Answers, Collector, numbered_checkpoint_high_water, floor_of, fresh_floor, ensure_gc_floor,
}
use viperblock.Gc.Keeps.{Like, high_water-Like}

pub Below-weaken : (m n : ℕ) (blocks : List BlockLookup) → m ≤ n → Below m blocks → Below n blocks
Below-weaken m n [] l b = tt
Below-weaken m n (bl ∷ blocks) l (b, bs) = (omega arith, Below-weaken m n blocks l bs)

max_object-Below :
    (blocks : List BlockLookup) (n : ℕ)
    → (h : ℕ) × (max_object blocks (some n) ≡ some h) × (n ≤ h) × Below (suc h) blocks
unfolding max_object
max_object-Below [] n = (n, refl, omega arith, tt)
max_object-Below (bl ∷ blocks) n =
    let (h, e, l, b) = max_object-Below blocks (if ltb n bl.object_id then bl.object_id else n) in
    (h, e, ground (arith, l), (ground (arith, l), b))

max_object-small :
    (blocks : List BlockLookup) (n bound : ℕ) (h : ℕ)
    → max_object blocks (some n) ≡ some h
    → n < bound
    → Below bound blocks
    → h < bound
unfolding max_object
max_object-small [] n bound h e l b = ground (arith, e, l)
max_object-small (bl ∷ blocks) n bound h e l (b, bs) =
    max_object-small blocks (if ltb n bl.object_id then bl.object_id else n) bound h e
      (ground (arith, l, b)) bs

-- The floor that blocks set is above each of them.
pub floor_of-Below :
    (blocks : List BlockLookup)
    → Below (u64 - 1) blocks
    → Below (floor_of (max_object blocks none)) blocks
unfolding max_object
floor_of-Below [] small = tt
floor_of-Below (bl ∷ blocks) (s, small) =
    let (h, e, l, b) = max_object-Below blocks bl.object_id in
    let top = max_object-small blocks bl.object_id (u64 - 1) h e s small in
    let next : floor_of (some h) ≡ suc h = omega (arith, top) in
    subst (λ o. Below (floor_of o) (bl ∷ blocks)) (sym e)
      (subst (λ f. Below f (bl ∷ blocks)) (sym next) (omega (arith, l), b))

-- What protects the blocks of the numbered checkpoint: the floor, where it is cached, lies above the
-- chunks of `blocks`, and the checkpoint, where it is read, names `blocks`.
pub record IsFloored (backend : Answers) (v : Collector) (blocks : List BlockLookup) : Type 0 where
  pub small : Below (u64 - 1) blocks
  pub cached : (f : ℕ) → v.floor ≡ some f → Below f blocks
  pub fresh :
      (high : Option ℕ)
      → numbered_checkpoint_high_water v backend.checkpoint ≡ some high
      → high ≡ max_object blocks none

pub IsFloored-Like :
    (backend : Answers) (v w : Collector) (blocks : List BlockLookup)
    → Like v w
    → IsFloored backend v blocks
    → IsFloored backend w blocks
IsFloored-Like backend v w blocks f p = record {
  small = p.small;
  cached = λ g h. p.cached g (sym f.floor ∙ h);
  fresh = λ high h. p.fresh high (sym (high_water-Like v w backend.checkpoint f) ∙ h);
}

-- The floor that a sweep uses is above the blocks, and the counts and the number are kept.
abbrev pub IsSafeFloor : Collector → List BlockLookup → Collector × ℕ → Type 0
IsSafeFloor v blocks floored =
    Below floored.1 blocks
    × (floored.0.gc_refcount ≡ v.gc_refcount)
    × (floored.0.object_num ≡ v.object_num)

fresh_floor-IsSafeFloor :
    (backend : Answers) (v : Collector) (blocks : List BlockLookup) (high : Option (Option ℕ))
    → IsFloored backend v blocks
    → numbered_checkpoint_high_water v backend.checkpoint ≡ high
    → IsSafeFloor v blocks (fresh_floor v high)
unfolding fresh_floor
fresh_floor-IsSafeFloor backend v blocks none p e = (p.small, refl, refl)
fresh_floor-IsSafeFloor backend v blocks (some high) p e = (
  subst (λ o. Below (floor_of o) blocks) (sym (p.fresh high e)) (floor_of-Below blocks p.small),
  refl,
  refl,
)

pub ensure_gc_floor-IsSafeFloor :
    (backend : Answers) (v : Collector) (blocks : List BlockLookup)
    → IsFloored backend v blocks
    → IsSafeFloor v blocks (ensure_gc_floor backend v)
unfolding ensure_gc_floor
ensure_gc_floor-IsSafeFloor backend v blocks p = chosen v.floor refl
  where
    chosen :
        (o : Option ℕ)
        → v.floor ≡ o
        → IsSafeFloor v blocks (elim o [
          | some floor ↦ (v, floor)
          | none ↦ fresh_floor v (numbered_checkpoint_high_water v backend.checkpoint)
        ])
    chosen (some f) e = (p.cached f e, refl, refl)
    chosen none e = fresh_floor-IsSafeFloor backend v blocks _ p refl
