-- ===== src/Device/Buffer.antt =====
-- Buffers, byte by byte: what a copy into one leaves at each place, and what a slice of one holds.
use viperblock.Prelude.{
  ℕ, zero, suc, ◌+◌, ◌-◌, ◌*◌, ◌≤◌, ◌<◌, ◌≡◌, refl, sym, Bool, true, false, ◌&&◌, ◌∙◌, ap, [], ◌∷◌,
  ◌++◌, arith, ltb, leb, if◌then◌else◌, length, take, drop, replicate, get_or, get_or-drop,
  length-append, length-take, length-drop, Bool-cases, inl, inr,
}
use viperblock.Bytes.{Bytes, slice}
use viperblock.Device.{copy_into}

pub get_or-append :
    (xs ys : Bytes) (i : ℕ)
    → get_or (xs ++ ys) i 0
      ≡ (if ltb i (length xs) then get_or xs i 0 else get_or ys (i - length xs) 0)
get_or-append [] ys i = let e : i - 0 ≡ i = omega arith in ground (arith, e)
get_or-append (x ∷ xs) ys zero = ground arith
get_or-append (x ∷ xs) ys (suc i) =
    let e : suc i - suc (length xs) ≡ i - length xs = omega arith in
    get_or-append xs ys i ∙ ground (arith, e)

pub get_or-take_all :
    (n i : ℕ) (xs : Bytes) → get_or (take n xs) i 0 ≡ (if ltb i n then get_or xs i 0 else 0)
get_or-take_all zero i xs = ground arith
get_or-take_all (suc n) i [] = ground arith
get_or-take_all (suc n) zero (x ∷ xs) = ground arith
get_or-take_all (suc n) (suc i) (x ∷ xs) = get_or-take_all n i xs ∙ ground arith

pub get_or-replicate : (n i : ℕ) → ◌≡◌ {A = ℕ} (get_or (replicate n 0) i 0) 0
get_or-replicate zero i = refl
get_or-replicate (suc n) zero = refl
get_or-replicate (suc n) (suc i) = get_or-replicate n i

pub get_or-past : (xs : Bytes) (i : ℕ) → length xs ≤ i → get_or xs i 0 ≡ 0
get_or-past [] i h = refl
get_or-past (x ∷ xs) zero h = absurd (omega arith)
get_or-past (x ∷ xs) (suc i) h = get_or-past xs i (omega arith)

pub get_or-slice :
    (from n i : ℕ) (b : Bytes)
    → get_or (slice from n b) i 0 ≡ (if ltb i n then get_or b (from + i) 0 else 0)
get_or-slice from n i b = ground (arith, get_or-take_all n i (drop from b), get_or-drop from i b 0)

pub length-slice : (from n : ℕ) (b : Bytes) → from + n ≤ length b → length (slice from n b) ≡ n
length-slice from n b h = omega (arith, length-take n (drop from b), length-drop from b)

module _ (start width : ℕ) (from b : Bytes) (within : start + width ≤ length b) where
  pub length-copy_into : length (copy_into start width from b) ≡ length b
  length-copy_into = omega (
    arith,
    length-append (take start b) (take width from ++ drop (start + length (take width from)) b),
    length-append (take width from) (drop (start + length (take width from)) b),
    length-take start b,
    length-take width from,
    length-drop (start + length (take width from)) b,
  )

  pub get_or-copy_into :
      (i : ℕ)
      → width ≤ length from
      → get_or (copy_into start width from b) i 0
        ≡ (if leb start i && ltb i (start + width) then get_or from (i - start) 0 else get_or b i 0)
  get_or-copy_into i full =
      let n = length (take width from) in
      let inner = take width from ++ drop (start + n) b in
      ground (
        arith,
        full,
        within,
        get_or-append (take start b) inner i,
        get_or-append (take width from) (drop (start + n) b) (i - length (take start b)),
        get_or-take_all start i b,
        get_or-take_all width (i - start) from,
        get_or-drop (start + n) (i - start - n) b 0,
        length-take start b,
        length-take width from,
      )

pub take-take : (a b : ℕ) (xs : Bytes) → a ≤ b → take a (take b xs) ≡ take a xs
take-take zero b xs h = refl
take-take (suc a) zero xs h = absurd (omega arith)
take-take (suc a) (suc b) [] h = refl
take-take (suc a) (suc b) (x ∷ xs) h = ap (λ l. x ∷ l) (take-take a b xs (omega arith))

take_nil : (n : ℕ) → ◌≡◌ {A = Bytes} (take n []) []
take_nil zero = refl
take_nil (suc n) = refl

drop_nil : (n : ℕ) → ◌≡◌ {A = Bytes} (drop n []) []
drop_nil zero = refl
drop_nil (suc n) = refl

pub drop-take : (a b : ℕ) (xs : Bytes) → drop a (take b xs) ≡ take (b - a) (drop a xs)
drop-take zero b xs = let e : b - zero ≡ b = omega arith in rw e refl
drop-take (suc a) zero xs = let e : zero - suc a ≡ 0 = omega arith in rw e refl
drop-take (suc a) (suc b) [] =
    let e : suc b - suc a ≡ b - a = omega arith in rw e (sym (take_nil (b - a)))
drop-take (suc a) (suc b) (x ∷ xs) =
    let e : suc b - suc a ≡ b - a = omega arith in rw e (drop-take a b xs)

pub drop-drop : (a b : ℕ) (xs : Bytes) → drop a (drop b xs) ≡ drop (b + a) xs
drop-drop a zero xs = let e : zero + a ≡ a = omega arith in rw e refl
drop-drop a (suc b) [] = let e : suc b + a ≡ suc (b + a) = omega arith in rw e (drop_nil a)
drop-drop a (suc b) (x ∷ xs) =
    let e : suc b + a ≡ suc (b + a) = omega arith in rw e (drop-drop a b xs)

-- a slice of a slice
pub slice-slice :
    (a n b m : ℕ) (xs : Bytes) → a + n ≤ m → slice a n (slice b m xs) ≡ slice (b + a) n xs
slice-slice a n b m xs h =
    ap (take n) (drop-take a m (drop b xs))
    ∙ take-take n (m - a) (drop a (drop b xs)) (omega arith)
    ∙ ap (take n) (drop-drop a b xs)

-- what is left of a slice
pub drop-slice : (a b m : ℕ) (xs : Bytes) → drop a (slice b m xs) ≡ slice (b + a) (m - a) xs
drop-slice a b m xs = drop-take a m (drop b xs) ∙ ap (take (m - a)) (drop-drop a b xs)

pub rows_below : (d n s : ℕ) → d < n → d * s + s ≤ n * s
rows_below d n s l =
    let m = n - suc d in
    let e : n ≡ suc d + m = omega arith in
    let split : n * s ≡ d * s + s + m * s = ap (λ (x : ℕ). x * s) e ∙ grind arith in
    omega (arith, split)

-- where byte `k` of row `p` lies, of rows of `s` bytes, by the `n` rows from `a`
pub row_in :
    (a p n s k : ℕ)
    → k < s
    → a ≤ p
    → p < a + n
    → (a * s ≤ p * s + k) × (p * s + k < a * s + n * s) × (p * s + k - a * s ≡ (p - a) * s + k)
row_in a p n s k h l u =
    let d = p - a in
    let e : p ≡ a + d = omega arith in
    let split : p * s ≡ a * s + d * s = ap (λ (x : ℕ). x * s) e ∙ grind arith in
    let last : d * s + s ≤ n * s = rows_below d n s (omega arith) in
    (omega (arith, split), omega (arith, split, last), omega (arith, split))

pub row_before : (a p s k : ℕ) → k < s → p < a → p * s + k < a * s
row_before a p s k h l = omega (arith, rows_below p a s l)

pub row_after : (a p n s k : ℕ) → a + n ≤ p → a * s + n * s ≤ p * s + k
row_after a p n s k l =
    let d = p - (a + n) in
    let e : p ≡ a + n + d = omega arith in
    let split : p * s ≡ a * s + n * s + d * s = ap (λ (x : ℕ). x * s) e ∙ grind arith in
    omega (arith, split)

pub add_rows : (a n s : ℕ) → (a + n) * s ≡ a * s + n * s
add_rows a n s = grind arith

pub chosen {ℓ} : {A : Type ℓ} (b : Bool) (x y : A) → b ≡ true → (if b then x else y) ≡ x
chosen true x y e = refl
chosen false x y e = cc

pub passed {ℓ} : {A : Type ℓ} (b : Bool) (x y : A) → b ≡ false → (if b then x else y) ≡ y
passed true x y e = cc
passed false x y e = refl

pub row_outside :
    (a p n s k : ℕ)
    → k < s
    → (leb a p && ltb p (a + n)) ≡ false
    → (leb (a * s) (p * s + k) && ltb (p * s + k) (a * s + n * s)) ≡ false
row_outside a p n s k l e = elim (Bool-cases (leb a p)) [
  | inr before ↦ ground (arith, row_before a p s k l (ground (arith, before)))
  | inl lo ↦ ground (arith, row_after a p n s k (ground (arith, lo, e)))
]

pub mul_le : (a b s : ℕ) → a ≤ b → a * s ≤ b * s
mul_le a b s h = grind arith
