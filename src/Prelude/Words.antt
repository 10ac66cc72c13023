-- ===== src/Prelude/Words.antt =====
-- Machine words as native numbers: the casts and the wrapping sums of the source.
use Prim.Native.Nat.{ℕ, ◌+◌, ◌-◌, ◌%◌, ◌<◌}
use mathlib.Core.Bool.{Bool}
use Prim.Native.Nat.{compare, Ordering}
use mathlib.Core.Bool.{true, false}

abbrev pub IsByte : ℕ → Type 0
IsByte b = b < 256

abbrev pub IsU16 : ℕ → Type 0
IsU16 v = v < 65536

abbrev pub IsU32 : ℕ → Type 0
IsU32 v = v < 4294967296

-- `(uint8_t)v`, `(uint16_t)v`, `(uint32_t)v`.
abbrev pub to_u8 : ℕ → ℕ
to_u8 v = v % 256

abbrev pub to_u16 : ℕ → ℕ
to_u16 v = v % 65536

abbrev pub to_u32 : ℕ → ℕ
to_u32 v = v % 4294967296

-- `a + b` and `a - b` on `uint32_t`; `-` on ℕ stops at 0, so the modulus is added first.
abbrev pub add32 : ℕ → ℕ → ℕ
add32 a b = to_u32 (a + b)

abbrev pub sub32 : ℕ → ℕ → ℕ
sub32 a b = to_u32 (a + 4294967296 - b)

abbrev pub add16 : ℕ → ℕ → ℕ
add16 a b = to_u16 (a + b)

abbrev pub sub16 : ℕ → ℕ → ℕ
sub16 a b = to_u16 (a + 65536 - b)

abbrev pub add8 : ℕ → ℕ → ℕ
add8 a b = to_u8 (a + b)

abbrev pub sub8 : ℕ → ℕ → ℕ
sub8 a b = to_u8 (a + 256 - b)

-- `(int32_t)d >= 0` for a `uint32_t` d.
abbrev pub nonneg32 : ℕ → Bool
nonneg32 d = elim (compare d 2147483648) [ Ordering.lt ↦ true | _ ↦ false ]
