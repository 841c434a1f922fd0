-- ===== src/Conversions.antt =====
-- The saturating conversions between Go's integer types of utils/utils.go. An `int` or `int64` is
-- a sign and a magnitude.
use viperblock.Prelude.{ℕ, ◌-◌, ◌^◌, ltb, if◌then◌else◌}

-- `int` and `int64`: `pos n` is n, `negsuc n` is -(n + 1).

pub data ℤ : Type 0 where
  pos negsuc : ℕ → ℤ

-- `math.MaxInt64`, and `math.MaxInt` on a 64-bit machine
abbrev pub max_int64 : ℕ
max_int64 = 2 ^ 63 - 1

abbrev pub max_uint32 : ℕ
max_uint32 = 2 ^ 32 - 1

abbrev pub max_uint16 : ℕ
max_uint16 = 2 ^ 16 - 1

-- `SafeInt64ToUint64`
abbrev pub safe_int64_to_uint64 : ℤ → ℕ
safe_int64_to_uint64 (ℤ.pos n) = n
safe_int64_to_uint64 (ℤ.negsuc n) = 0

-- `SafeIntToUint64`
abbrev pub safe_int_to_uint64 : ℤ → ℕ
safe_int_to_uint64 (ℤ.pos n) = n
safe_int_to_uint64 (ℤ.negsuc n) = 0

-- `SafeUint64ToInt64`
abbrev pub safe_uint64_to_int64 : ℕ → ℤ
safe_uint64_to_int64 v = if ltb max_int64 v then ℤ.pos max_int64 else ℤ.pos v

-- `SafeUint64ToUint32`
abbrev pub safe_uint64_to_uint32 : ℕ → ℕ
safe_uint64_to_uint32 v = if ltb max_uint32 v then max_uint32 else v

-- `SafeUint64ToInt`; the positions it gives are used as natural numbers.
abbrev pub safe_uint64_to_int : ℕ → ℕ
safe_uint64_to_int v = if ltb max_int64 v then max_int64 else v

-- `SafeInt64ToUint32`
abbrev pub safe_int64_to_uint32 : ℤ → ℕ
safe_int64_to_uint32 (ℤ.negsuc n) = 0
safe_int64_to_uint32 (ℤ.pos n) = if ltb max_uint32 n then max_uint32 else n

-- `SafeIntToUint32`
abbrev pub safe_int_to_uint32 : ℤ → ℕ
safe_int_to_uint32 (ℤ.negsuc n) = 0
safe_int_to_uint32 (ℤ.pos n) = if ltb max_uint32 n then max_uint32 else n

-- `SafeIntToUint16`
abbrev pub safe_int_to_uint16 : ℤ → ℕ
safe_int_to_uint16 (ℤ.negsuc n) = 0
safe_int_to_uint16 (ℤ.pos n) = if ltb max_uint16 n then max_uint16 else n
