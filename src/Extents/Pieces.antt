-- ===== src/Extents/Pieces.antt =====
-- The head and the tail that survive a fracture describe their blocks as the whole extent did.
use viperblock.Prelude.{
  ℕ, ◌+◌, ◌-◌, ◌≤◌, ◌<◌, ◌≡◌, arith, get_or-take, get_or-drop, length-take, length-drop,
}
use viperblock.Words.{add32, mul32}
use viperblock.Extents.Lookup.{IsKeyed}
use viperblock.Extents.{Extent, entry_at, head_of, tail_of}

-- a stride further by blocks, in two steps or in one
pub offset_split :
    (o d i s : ℕ) → add32 (add32 o (mul32 d s)) (mul32 i s) ≡ add32 o (mul32 (d + i) s)
offset_split o d i s = omega arith

module _ (k : ℕ) (pe : Extent) (v : IsKeyed k pe) (b : ℕ) where
  pub entry_at-head_of :
      (ns : ℕ)
      → k ≤ b
      → b < ns
      → ns < k + pe.num_blocks
      → entry_at (head_of pe ns) b ≡ entry_at pe b
  unfolding entry_at
  entry_at-head_of ns lo hi within = ground (
    arith,
    length-take (ns - k) pe.seq_nums,
    get_or-take (ns - k) (b - k) pe.seq_nums 0 (omega arith),
  )

  pub entry_at-tail_of :
      (ne : ℕ)
      → k < ne
      → ne ≤ b
      → b < k + pe.num_blocks
      → entry_at (tail_of pe ne) b ≡ entry_at pe b
  unfolding entry_at
  entry_at-tail_of ne start lo hi = ground (
    arith,
    length-drop (ne - k) pe.seq_nums,
    get_or-drop (ne - k) (b - ne) pe.seq_nums 0,
    offset_split pe.object_offset (ne - k) (b - ne) pe.stride,
  )
