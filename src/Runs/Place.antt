-- ===== src/Runs/Place.antt =====
-- The runs of ascending items, installed one after the other, describe those items and hide
-- nothing else.
use mathlib.Core.Option.{or_else}
use viperblock.Prelude.{
  ℕ, zero, suc, ◌+◌, ◌-◌, ◌≤◌, ◌<◌, ◌≡◌, ◌&&◌, true, inl, inr, refl, some, List, [], ◌∷◌, arith,
  ◌∙◌, ltb, leb, if◌then◌else◌, Bool-cases, length, drop, take, ◌%◌, lt→ltb, get_or, get_or-take,
  length-take, length-drop, length-map,
}
use viperblock.Words.{sub64, u16}
use viperblock.Dict.{Dict}
use viperblock.Extents.Lookup.{IsKeyed, IsWf}
use viperblock.Extents.{Extent, entry_at, read_persisted}
use viperblock.Extents.Pieces.{offset_split}
use viperblock.Runs.Cut.{
  placed, placed_entry, Ascends, placed_below, run_length_ge, run_length_le, run_length_fits,
  run_length_top, behind_run, placed_run,
}
use viperblock.Runs.Install.{install-IsWf, read_persisted-install}
use viperblock.Runs.{Item, seqs, max_run, run_length, Placement, run_extent, install, install_runs}

-- The run that starts with the eligible item `x`.
module _ (p : Placement) (i : ℕ) (x : Item) (xs : List Item) (lo : ℕ)
    (a : Ascends lo (x ∷ xs)) where
  abbrev n : ℕ
  n = run_length x.block 0 (x ∷ xs)

  abbrev run : Extent
  run = run_extent p i x.block n (x ∷ xs)

  start : Ascends x.block (x ∷ xs)
  start = (omega arith, a.1, a.2)

  n_pos : x.eligible ≡ true → 0 < n
  unfolding run_length
  n_pos e = ground (arith, run_length_ge x.block 1 xs, a)

  n_small : n ≤ max_run
  n_small = run_length_le x.block 0 (x ∷ xs) (omega arith)

  length-seqs : length (take n (seqs (x ∷ xs))) ≡ n
  length-seqs = omega (
    arith,
    run_length_fits x.block 0 (x ∷ xs),
    length-take n (seqs (x ∷ xs)),
    length-map (x ∷ xs) (λ (y : Item). y.seq),
  )

  run-IsKeyed : x.eligible ≡ true → IsKeyed x.block run
  run-IsKeyed e = ground (
    arith,
    n_pos e,
    n_small,
    length-seqs,
    run_length_top x.block 0 x.block (x ∷ xs) (omega arith) start (omega (arith, a.1)),
  )

  behind : Ascends (x.block + n) (drop n (x ∷ xs))
  behind =
      let e : n - 0 ≡ n = omega arith in
      rw e at (behind_run x.block 0 x.block (x ∷ xs) (omega arith) start (omega (arith, a.1)))

  entry_at-run :
      (b : ℕ)
      → x.eligible ≡ true
      → x.block ≤ b
      → b < x.block + n
      → entry_at run b ≡ placed_entry p (i + (b - x.block)) (get_or (seqs (x ∷ xs)) (b - x.block) 0)
  unfolding entry_at
  entry_at-run b e l h =
      let v = run-IsKeyed e in
      let top : b - x.block < n = omega arith in
      let idx : sub64 b x.block % u16 ≡ b - x.block = omega (arith, v, n_small) in
      let inside : ltb (b - x.block) (length (take n (seqs (x ∷ xs)))) ≡ true =
        rw length-seqs (lt→ltb _ _ top) in
      rw (
        idx,
        inside,
        get_or-take n (b - x.block) (seqs (x ∷ xs)) 0 top,
        offset_split p.object_offset i (b - x.block) p.stride,
      )

  placed-cut :
      (b : ℕ)
      → placed p i (x ∷ xs) b ≡ (
          if leb x.block b && ltb b (x.block + n)
          then some (placed_entry p (i + (b - x.block)) (get_or (seqs (x ∷ xs)) (b - x.block) 0))
          else placed p (i + n) (drop n (x ∷ xs)) b)
  placed-cut b =
      let e : n - 0 ≡ n = omega arith in
      let e' : x.block + 0 ≡ x.block = omega arith in
      let e'' : i + 0 ≡ i = omega arith in
      rw (e, e', e'') at
        (placed_run x.block p i 0 x.block (x ∷ xs) b (omega arith) start (omega (arith, a.1)))

  module _ (m : Dict Extent) (wf : IsWf m) (e : x.eligible ≡ true) where
    read-run :
        (b : ℕ)
        → or_else (placed p (i + n) (drop n (x ∷ xs)) b) (read_persisted (install run m) b)
          ≡ or_else (placed p i (x ∷ xs) b) (read_persisted m b)
    unfolding or_else
    read-run b = ground (
      arith,
      placed-cut b,
      read_persisted-install m wf run (run-IsKeyed e) b,
      placed_below p (i + n) (x.block + n) (drop n (x ∷ xs)) b behind,
      entry_at-run b e,
      n_small,
    )

    install_runs-run :
        (fuel : ℕ)
        → install_runs p (suc fuel) i (x ∷ xs) m
          ≡ install_runs p fuel (i + n) (drop n (x ∷ xs)) (install run m)
    unfolding install_runs
    install_runs-run fuel = simp e

    fuel_left : (fuel : ℕ) → length (x ∷ xs) ≤ suc fuel → length (drop n (x ∷ xs)) ≤ fuel
    fuel_left fuel h = omega (arith, n_pos e, length-drop n (x ∷ xs))

-- Installing the runs of ascending items keeps the map well formed, and reads each eligible item
-- from where it was placed and every other block as before.
pub install_runs_lem :
    (p : Placement) (fuel i lo : ℕ) (xs : List Item) (m : Dict Extent)
    → length xs ≤ fuel
    → IsWf m
    → Ascends lo xs
    → IsWf (install_runs p fuel i xs m)
      × ((b : ℕ)
          → read_persisted (install_runs p fuel i xs m) b
            ≡ or_else (placed p i xs b) (read_persisted m b))
unfolding install_runs or_else
install_runs_lem p zero i lo [] m f wf a = (wf, λ b. refl)
install_runs_lem p zero i lo (x ∷ xs) m f wf a = absurd (omega arith)
install_runs_lem p (suc fuel) i lo [] m f wf a = (wf, λ b. refl)
install_runs_lem p (suc fuel) i lo (x ∷ xs) m f wf a = elim (Bool-cases x.eligible) [
  | inl e ↦
      let r = run p i x xs lo a in
      let (wf', reads) =
        install_runs_lem p fuel (i + n p i x xs lo a) (x.block + n p i x xs lo a)
          (drop (n p i x xs lo a) (x ∷ xs)) (install r m) (fuel_left p i x xs lo a m wf e fuel f)
          (install-IsWf m wf r (run-IsKeyed p i x xs lo a e)) (behind p i x xs lo a) in
      rw (install_runs-run p i x xs lo a m wf e fuel)
        (wf', λ b. reads b ∙ read-run p i x xs lo a m wf e b)
  | inr e ↦
      let (wf', reads) = install_runs_lem p fuel (i + 1) (x.block + 1) xs m (omega arith) wf a.2 in
      rw e (wf', reads)
]
