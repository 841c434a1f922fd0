-- ===== src/Crypto/Separation.antt =====
-- Inputs that give equal nonces or equal associated data.
use viperblock.Prelude.{
  take-append, drop-append, ℕ, ◌≤◌, ◌<◌, ◌≡◌, refl, sym, ap, ◌∙◌, [], ◌∷◌, ◌++◌, arith, get_or,
  length, take, drop,
}
use viperblock.Words.{u64}
use viperblock.Bytes.{Bytes, put_be, get_be, get_be-put_be}
use viperblock.Numbering.{max_seq_num}
use viperblock.Crypto.{make_nonce, make_aad, init_aad, update_aad}

-- the number, the UUID and the domain, read back from a nonce

abbrev nonce_seq_num : Bytes → ℕ
nonce_seq_num nonce = get_be (take 7 nonce)

nonce_seq_num-make_nonce :
    (n : ℕ) (uuid : Bytes) (d : ℕ) → n ≤ max_seq_num → nonce_seq_num (make_nonce n uuid d) ≡ n
unfolding make_nonce
nonce_seq_num-make_nonce n uuid d h = omega arith

uuid_back : (k : ℕ) (u : Bytes) (e : ℕ) → length u ≡ 4 → take 4 (drop 7 (make_nonce k u e)) ≡ u
unfolding make_nonce
uuid_back k u e l = take-append 4 u (e ∷ []) l

domain_back :
    (k : ℕ) (u : Bytes) (e : ℕ) → length u ≡ 4 → get_or (drop 11 (make_nonce k u e)) 0 0 ≡ e
unfolding make_nonce
domain_back k u e l = ap (λ b. get_or b 0 0) (drop-append 4 u (e ∷ []) l)

-- Nonces of sequence numbers within 56 bits and UUIDs of four bytes are equal only where the
-- number, the UUID and the domain are.
pub make_nonce-inj :
    (m n : ℕ) (uuid uuid' : Bytes) (d d' : ℕ)
    → m ≤ max_seq_num
    → n ≤ max_seq_num
    → length uuid ≡ 4
    → length uuid' ≡ 4
    → make_nonce m uuid d ≡ make_nonce n uuid' d'
    → (m ≡ n) × (uuid ≡ uuid') × (d ≡ d')
make_nonce-inj m n uuid uuid' d d' lo lo' l l' h = (
  sym (nonce_seq_num-make_nonce m uuid d lo)
      ∙ ap nonce_seq_num h
      ∙ nonce_seq_num-make_nonce n uuid' d' lo',
  sym (uuid_back m uuid d l) ∙ ap (λ b. take 4 (drop 7 b)) h ∙ uuid_back n uuid' d' l',
  sym (domain_back m uuid d l) ∙ ap (λ b. get_or (drop 11 b) 0 0) h ∙ domain_back n uuid' d' l',
)

-- The associated data of blocks is equal only where the name hash of 32 bytes, the 64-bit block
-- and the 64-bit number are.
pub make_aad-inj :
    (hash hash' : Bytes) (b b' n n' : ℕ)
    → length hash ≡ 32
    → length hash' ≡ 32
    → b < u64
    → b' < u64
    → n < u64
    → n' < u64
    → make_aad hash b n ≡ make_aad hash' b' n'
    → (hash ≡ hash') × (b ≡ b') × (n ≡ n')
unfolding make_aad
make_aad-inj hash hash' b b' n n' l l' fb fb' fn fn' h = (
  sym (take-append 32 hash _ l) ∙ ap (take 32) h ∙ take-append 32 hash' _ l',
  sym (get_be-put_be 8 b fb) ∙ ap (λ x. get_be (take 8 x)) tails ∙ get_be-put_be 8 b' fb',
  sym (get_be-put_be 8 n fn) ∙ ap (λ x. get_be (drop 8 x)) tails ∙ get_be-put_be 8 n' fn',
)
  where
    tails : put_be 8 b ++ put_be 8 n ≡ put_be 8 b' ++ put_be 8 n'
    tails = sym (drop-append 32 hash _ l) ∙ ap (drop 32) h ∙ drop-append 32 hash' _ l'

-- A buffer that initAAD filled and updateAAD overwrote twice holds what makeAAD builds for the
-- last block, for a hash of 32 bytes.
pub update_aad-init_aad :
    (aad hash : Bytes) (b n b' n' : ℕ)
    → length hash ≡ 32
    → update_aad (update_aad (init_aad aad hash) b n) b' n' ≡ make_aad hash b' n'
unfolding update_aad init_aad make_aad
update_aad-init_aad aad hash b n b' n' l =
    let first = take-append 32 hash (drop 32 aad) l in
    rw (first, take-append 32 hash (put_be 8 b ++ put_be 8 n) l) refl
