-- ===== src/Arena/Disjoint.antt =====
-- Sequences of allocations, resets and compactions.
use viperblock.Prelude.{
  ℕ, length, ◌+◌, ◌*◌, ◌%◌, ◌^◌, ◌≤◌, ◌<◌, ◌≡◌, ◌≢◌, ◌⊎◌, refl, List, [], ◌∷◌, arith, Option, none,
  some, Bool, true, false, ltb, if◌then◌else◌,
}
use viperblock.Conversions.{ℤ, safe_int_to_uint32}
use viperblock.Arena.{
  Arena, Slab, Span, new_slab, bump, alloc_size, alloc, alloc_n, dedicate, reset, compact,
  keep_used, slab_count, stats, active_slab_usage,
}

-- A block fits a slab, and the 32-bit offsets have room for two slabs.

pub record IsSound (a : Arena) : Type 0 where
  pub block_fits : a.block_size ≤ a.slab_size
  pub used : a.active.offset ≤ a.slab_size
  pub small : a.slab_size < 2 ^ 31
  pub named : a.active.id < a.next

-- The span was handed out before: it lies in a slab that exists, below the active slab's offset.
pub record IsTaken (a : Arena) (s : Span) : Type 0 where
  pub exists : s.slab < a.next
  pub below : s.slab ≡ a.active.id → s.to ≤ a.active.offset

-- no byte in common
abbrev pub Apart : Span → Span → Type 0
Apart s t = (s.slab ≢ t.slab) ⊎ (s.to ≤ t.from) ⊎ (t.to ≤ s.from)

pub data Event : Type 0 where
  allocates resets compacts : Event
  allocates_n : ℤ → Event

unfoldable pub step : Event → Arena → Arena × Option Span
step Event.allocates a = let (b, s) = alloc a in (b, some s)
step (Event.allocates_n n) a = let (b, s) = alloc_n n a in (b, some s)
step Event.resets a = (reset a, none)
step Event.compacts a = ((compact a).0, none)

-- what one event keeps, and how what it hands out lies to a span `s` taken before
abbrev pub Fresh : Arena → Arena × Option Span → Type 0
Fresh a (b, none) = IsSound b × ((s : Span) → IsTaken a s → IsTaken b s)
Fresh a (b, some t) = IsSound b × IsTaken b t × ((s : Span) → IsTaken a s → IsTaken b s × Apart s t)

alloc_size-Fresh :
    (size : ℕ) (a : Arena)
    → IsSound a
    → size ≤ a.slab_size
    → let (b, t) = alloc_size size a in Fresh a (b, some t)
unfolding alloc_size bump new_slab
alloc_size-Fresh size a v fits = (
  ground (arith, v, fits),
  ground (arith, v, fits),
  λ s h. (ground (arith, v, fits, h), ground (arith, v, fits, h)),
)

dedicate-Fresh :
    (size : ℕ) (a : Arena) → IsSound a → let (b, t) = dedicate size a in Fresh a (b, some t)
unfolding dedicate
dedicate-Fresh size a v =
    (ground (arith, v), ground (arith, v), λ s h. (ground (arith, v, h), ground (arith, v, h)))

step-Fresh : (e : Event) (a : Arena) → IsSound a → Fresh a (step e a)
unfolding step alloc alloc_n reset new_slab compact
step-Fresh Event.allocates a v = alloc_size-Fresh a.block_size a v v.block_fits
step-Fresh (Event.allocates_n n) a v =
    go (safe_int_to_uint32 n * a.block_size % 2 ^ 32)
      (ltb a.slab_size (safe_int_to_uint32 n * a.block_size % 2 ^ 32)) refl
  where
    go :
        (size : ℕ) (c : Bool)
        → ltb a.slab_size size ≡ c
        → let (b, t) = if c then dedicate size a else alloc_size size a in Fresh a (b, some t)
    go size true h = dedicate-Fresh size a v
    go size false h = alloc_size-Fresh size a v (ground (arith, h))
step-Fresh Event.resets a v = (ground (arith, v), λ s h. ground (arith, v, h))
step-Fresh Event.compacts a v = (ground (arith, v), λ s h. ground (arith, v, h))

-- the spans that a history hands out
unfoldable pub spans : List Event → Arena → List Span
spans [] a = []
spans (e ∷ es) a =
    let (b, r) = step e a in let rest = spans es b in elim r [ none ↦ rest | some s ↦ s ∷ rest ]

abbrev pub ApartFrom : Span → List Span → Type 0
ApartFrom s [] = Unit {0}
ApartFrom s (t ∷ ts) = Apart s t × ApartFrom s ts

abbrev pub Pairwise : List Span → Type 0
Pairwise [] = Unit {0}
Pairwise (s ∷ ss) = ApartFrom s ss × Pairwise ss

later_apart :
    (s : Span) (es : List Event) (a : Arena) → IsSound a → IsTaken a s → ApartFrom s (spans es a)
unfolding spans
later_apart s [] a v h = tt
later_apart s (e ∷ es) a v h =
    go (λ d. later_apart s es (step e a).0 d) (step e a).1 (step-Fresh e a v)
  where
    go :
        (IsSound (step e a).0 → IsTaken (step e a).0 s → ApartFrom s (spans es (step e a).0))
        → (r : Option Span) → Fresh a ((step e a).0, r)
        → ApartFrom s
            (let rest = spans es (step e a).0 in elim r [ none ↦ rest | some t ↦ t ∷ rest ])
    go later none f = later f.0 (f.1 s h)
    go later (some t) f = ((f.2 s h).1, later f.0 (f.2 s h).0)

-- No two ranges that a history of allocations, compactions and resets hands out share a byte, in
-- an arena whose slabs hold a block and are smaller than 2 ^ 31.
pub spans-Pairwise : (es : List Event) (a : Arena) → IsSound a → Pairwise (spans es a)
unfolding spans
spans-Pairwise [] a v = tt
spans-Pairwise (e ∷ es) a v =
    go (λ d. spans-Pairwise es (step e a).0 d) (step e a).1 (step-Fresh e a v)
  where
    go :
        (IsSound (step e a).0 → Pairwise (spans es (step e a).0))
        → (r : Option Span) → Fresh a ((step e a).0, r)
        → Pairwise (let rest = spans es (step e a).0 in elim r [ none ↦ rest | some t ↦ t ∷ rest ])
    go later none f = later f.0
    go later (some t) f = (later_apart t es (step e a).0 f.0 f.1, later f.0)

-- Compaction lowers the number of slabs by what it reports, and keeps what is in use.
length-keep_used :
    (active : ℕ) (ss : List Slab)
    → let (kept, removed) = keep_used active ss in length kept + removed ≡ length ss
unfolding keep_used
length-keep_used active [] = omega arith
length-keep_used active (s ∷ ss) = ground (arith, length-keep_used active ss)

-- Compact returns by how many slabs the count falls, and leaves the active slab and the number
-- of allocations.
pub slab_count-compact :
    (a : Arena)
    → let (b, removed) = compact a in
      (slab_count b + removed ≡ slab_count a)
      × (active_slab_usage b ≡ active_slab_usage a)
      × ((stats b).1 ≡ (stats a).1)
unfolding compact slab_count active_slab_usage stats
slab_count-compact a = (length-keep_used a.active.id a.slabs, refl, refl)
