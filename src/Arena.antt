-- ===== src/Arena.antt =====
-- The bump allocator of viperblock/arena.go. A slab is known by the place it was allocated at, in
-- the order of allocation, so that `slab == a.active` compares identities; its memory is left out.
-- What an allocation returns is a slab's identity and a range of it. `Release`, which only lowers a
-- slab's count, and the pool of `PooledArena` are not modelled.
pub mod Disjoint
use viperblock.Prelude.{
  ℕ, suc, ◌+◌, Bool, ◌||◌, List, [], ◌∷◌, ◌++◌, ltb, ◌==◌, if◌then◌else◌, length,
}
use viperblock.Words.{add32, add64, mul32}
use viperblock.Conversions.{ℤ, safe_int_to_uint32}

-- `ArenaSlab`: its identity, the size of its memory, and its fields
pub record Slab : Type 0 where
  pub id : ℕ
  pub size : ℕ
  pub offset : ℕ
  pub refs : ℕ

-- `Arena`; `active` is the identity of the active slab, `next` that of the next slab.
pub record Arena : Type 0 where
  pub slab_size : ℕ
  pub block_size : ℕ
  pub slabs : List Slab
  pub active : Slab
  pub next : ℕ
  pub total_allocs : ℕ
  pub total_bytes : ℕ

-- a range of a slab's memory
pub record Span : Type 0 where
  pub slab : ℕ
  pub from : ℕ
  pub to : ℕ

-- the slab with the active one's identity, updated
abbrev pub update : Slab → List Slab → List Slab
update x [] = []
update x (y ∷ ys) = (if y.id == x.id then x else y) ∷ update x ys

-- `newSlab`, made active
unfoldable pub new_slab : Arena → Arena
new_slab a =
    let slab : Slab = record { id = a.next; size = a.slab_size; offset = 0; refs = 1 } in
    record a { slabs = a.slabs ++ (slab ∷ []); active = slab; next = suc a.next }

-- `NewArenaWithSlabSize`
unfoldable pub new_arena_with_slab_size : ℕ → ℕ → Arena
unfolding new_slab
new_arena_with_slab_size block_size slab_size = new_slab (record {
  slab_size = slab_size;
  block_size = block_size;
  slabs = [];
  active = record { id = 0; size = 0; offset = 0; refs = 0 };
  next = 0;
  total_allocs = 0;
  total_bytes = 0;
})

-- `size` bytes from the active slab
unfoldable pub bump : ℕ → Arena → Arena × Span
bump size a =
    let s = a.active in
    let t = record s { offset = add32 s.offset size; refs = suc s.refs } in
    (
      record a {
        active = t;
        slabs = update t a.slabs;
        total_allocs = add64 a.total_allocs 1;
        total_bytes = add64 a.total_bytes size;
      },
      record { slab = s.id; from = s.offset; to = add32 s.offset size },
    )

-- the part that `Alloc` and `AllocN` share: a new slab where the active one is too full
unfoldable pub alloc_size : ℕ → Arena → Arena × Span
unfolding new_slab bump
alloc_size size a =
    if ltb a.slab_size (add32 a.active.offset size) then bump size (new_slab a) else bump size a

-- `Alloc`
unfoldable pub alloc : Arena → Arena × Span
unfolding alloc_size
alloc a = alloc_size a.block_size a

-- the slab of its own that `AllocN` makes for a size above a slab's
unfoldable pub dedicate : ℕ → Arena → Arena × Span
dedicate size a =
    let slab : Slab = record { id = a.next; size = size; offset = size; refs = 2 } in
    (
      record a {
        slabs = a.slabs ++ (slab ∷ []);
        next = suc a.next;
        total_allocs = add64 a.total_allocs 1;
        total_bytes = add64 a.total_bytes size;
      },
      record { slab = a.next; from = 0; to = size },
    )

-- `AllocN`
unfoldable pub alloc_n : ℤ → Arena → Arena × Span
alloc_n n a =
    let size = mul32 (safe_int_to_uint32 n) a.block_size in
    if ltb a.slab_size size then dedicate size a else alloc_size size a

-- `Reset`
unfoldable pub reset : Arena → Arena
unfolding new_slab
reset a = new_slab (record a { slabs = [] })

-- the loop of `Compact`
unfoldable pub keep_used : ℕ → List Slab → List Slab × ℕ
keep_used active [] = ([], 0)
keep_used active (s ∷ ss) =
    let (kept, removed) = keep_used active ss in
    if (s.id == active) || ltb 1 s.refs then (s ∷ kept, removed) else (kept, suc removed)

-- `Compact`
unfoldable pub compact : Arena → Arena × ℕ
unfolding keep_used
compact a =
    let (kept, removed) = keep_used a.active.id a.slabs in (record a { slabs = kept }, removed)

-- `NewArena`
unfoldable pub new_arena : ℕ → Arena
new_arena block_size = new_arena_with_slab_size block_size 4194304

-- `Stats`
unfoldable pub stats : Arena → ℕ × ℕ × ℕ
stats a = (length a.slabs, a.total_allocs, a.total_bytes)

-- `SlabCount`
unfoldable pub slab_count : Arena → ℕ
slab_count a = length a.slabs

-- `ActiveSlabUsage`; the active slab of an arena that was made is never nil.
unfoldable pub active_slab_usage : Arena → ℕ × ℕ
active_slab_usage a = (a.active.offset, a.slab_size)
