-- ===== src/Dict.antt =====
-- Go's `map[uint64]V` as an association list. The list's order is the order in which `range`
-- visits the map, which Go leaves open: what is proved holds for every order.
use viperblock.Prelude.{
  ℕ, ◌≡◌, refl, ◌⊎◌, Option, none, some, List, [], ◌∷◌, arith, ◌==◌, if◌then◌else◌,
}

abbrev pub Dict {ℓ} : Type ℓ → Type ℓ
Dict V = List (ℕ × V)

-- `k` stands in the list.
abbrev pub In : ℕ → List ℕ → Type 0
In k [] = ⊥
In k (x ∷ xs) = (x ≡ k) ⊎ In k xs

module _ {ℓ} {V : Type ℓ} where
  -- `v, ok := m[k]`
  unfoldable pub find : ℕ → Dict V → Option V
  find k [] = none
  find k ((j, v) ∷ m) = if j == k then some v else find k m

  -- `m[k] = v`
  unfoldable pub insert : ℕ → V → Dict V → Dict V
  insert k v [] = (k, v) ∷ []
  insert k v ((j, w) ∷ m) = if j == k then (k, v) ∷ m else (j, w) ∷ insert k v m

  -- `delete(m, k)`
  unfoldable pub delete : ℕ → Dict V → Dict V
  delete k [] = []
  delete k ((j, w) ∷ m) = let rest = delete k m in if j == k then rest else (j, w) ∷ rest

  unfoldable pub keys : Dict V → List ℕ
  keys [] = []
  keys ((j, w) ∷ m) = j ∷ keys m

  pub find-insert :
      (k j : ℕ) (v : V) (m : Dict V) → find j (insert k v m) ≡ (if k == j then some v else find j m)
  unfolding find insert
  find-insert k j v [] = refl
  find-insert k j v ((i, w) ∷ m) = ground (arith, find-insert k j v m)

  pub find-delete :
      (k j : ℕ) (m : Dict V) → find j (delete k m) ≡ (if k == j then none else find j m)
  unfolding find delete
  find-delete k j [] = ground arith
  find-delete k j ((i, w) ∷ m) = ground (arith, find-delete k j m)

  pub In-keys_of_find : (k : ℕ) (v : V) (m : Dict V) → find k m ≡ some v → In k (keys m)
  unfolding find keys
  In-keys_of_find k v [] h = ground arith
  In-keys_of_find k v ((i, w) ∷ m) h = ground (arith, In-keys_of_find k v m)
