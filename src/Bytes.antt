-- ===== src/Bytes.antt =====
-- Byte slices as lists of numbers below 256, with what the code uses of Go's `encoding/binary` and
-- `hash/crc32`.
use viperblock.Prelude.{
  ℕ, zero, suc, ◌+◌, ◌*◌, ◌/◌, ◌%◌, ◌<◌, ◌≡◌, refl, List, [], ◌∷◌, arith, ◌==◌, take, drop,
  if◌then◌else◌,
}

abbrev pub Bytes : Type 0
Bytes = List ℕ

-- `b[from:from+n]`, for bounds within the slice
abbrev pub slice : ℕ → ℕ → Bytes → Bytes
slice from n b = take n (drop from b)

-- the numbers of `w` bytes lie below this
abbrev pub byte_bound : ℕ → ℕ
byte_bound zero = 1
byte_bound (suc w) = 256 * byte_bound w

-- the low `w` bytes of `v`, the highest first, before `rest`
abbrev pub put_before : ℕ → ℕ → Bytes → Bytes
put_before zero v rest = rest
put_before (suc w) v rest = put_before w (v / 256) (v % 256 ∷ rest)

-- `binary.BigEndian.PutUint16`, `PutUint32` and `PutUint64`, for `w` of 2, 4 and 8
abbrev pub put_be : ℕ → ℕ → Bytes
put_be w v = put_before w v []

abbrev pub get_after : ℕ → Bytes → ℕ
get_after acc [] = acc
get_after acc (x ∷ xs) = get_after (acc * 256 + x) xs

-- `binary.BigEndian.Uint16`, `Uint32` and `Uint64`, for a slice of 2, 4 and 8 bytes
abbrev pub get_be : Bytes → ℕ
get_be b = get_after 0 b

get_after-put_before :
    (w v : ℕ) (rest : Bytes)
    → v < byte_bound w
    → get_after 0 (put_before w v rest) ≡ get_after v rest
get_after-put_before zero v rest h = let e : v ≡ 0 = omega arith in rw e refl
get_after-put_before (suc w) v rest h =
    let e : v / 256 * 256 + v % 256 ≡ v = omega arith in
    rw (get_after-put_before w (v / 256) (v % 256 ∷ rest) (omega arith), e) refl

pub get_be-put_be : (w v : ℕ) → v < byte_bound w → get_be (put_be w v) ≡ v
get_be-put_be w v h = get_after-put_before w v [] h

-- `a ^ b` on the low `w` bits
unfoldable pub xor : ℕ → ℕ → ℕ → ℕ
xor zero a b = 0
xor (suc w) a b = (a + b) % 2 + 2 * xor w (a / 2) (b / 2)

-- one bit of the reflected polynomial division
unfoldable pub crc_bits : ℕ → ℕ → ℕ
crc_bits zero c = c
crc_bits (suc n) c = crc_bits n (if c % 2 == 1 then xor 32 (c / 2) 3988292384 else c / 2)

unfoldable pub crc_bytes : Bytes → ℕ → ℕ
crc_bytes [] c = c
crc_bytes (x ∷ xs) c = crc_bytes xs (crc_bits 8 (xor 32 c x))

-- `crc32.ChecksumIEEE`
unfoldable pub crc32 : Bytes → ℕ
crc32 b = xor 32 (crc_bytes b 4294967295) 4294967295

abbrev bit_bound : ℕ → ℕ
bit_bound zero = 1
bit_bound (suc w) = 2 * bit_bound w

xor_bounded : (w a b : ℕ) → xor w a b < bit_bound w
unfolding xor
xor_bounded zero a b = omega arith
xor_bounded (suc w) a b = omega (arith, xor_bounded w (a / 2) (b / 2))

pub xor_32_bounded : (a b : ℕ) → xor 32 a b < 4294967296
xor_32_bounded a b = omega (arith, xor_bounded 32 a b)

pub crc32_bounded : (b : Bytes) → crc32 b < 4294967296
unfolding crc32
crc32_bounded b = omega (arith, xor_bounded 32 (crc_bytes b 4294967295) 4294967295)
