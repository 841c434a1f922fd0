-- ===== src/Words.antt =====
-- Go's fixed-width unsigned arithmetic on the native numbers, with its wrap-around written out.
use viperblock.Prelude.{ℕ, ◌+◌, ◌-◌, ◌*◌, ◌%◌, ◌^◌}

abbrev pub u16 : ℕ
u16 = 2 ^ 16

abbrev pub u32 : ℕ
u32 = 2 ^ 32

abbrev pub u64 : ℕ
u64 = 2 ^ 64

-- `a + b` on `uint32` and on `uint64`
abbrev pub add32 : ℕ → ℕ → ℕ
add32 a b = (a + b) % u32

abbrev pub add64 : ℕ → ℕ → ℕ
add64 a b = (a + b) % u64

-- `a * b` on `uint32`
abbrev pub mul32 : ℕ → ℕ → ℕ
mul32 a b = (a * b) % u32

-- `a - b` on `uint64`, for operands below 2 ^ 64
abbrev pub sub64 : ℕ → ℕ → ℕ
sub64 a b = (a + u64 - b) % u64
