-- ===== src/Prelude/Words.antt =====
-- Machine words: the casts of the C code, written out.
use Prim.Native.Nat.{ℕ, ◌+◌, ◌-◌, ◌%◌, ◌^◌}

-- (uint8_t) x
abbrev pub u8 : ℕ → ℕ
u8 x = x % 2 ^ 8

-- (uint16_t) x
abbrev pub u16 : ℕ → ℕ
u16 x = x % 2 ^ 16

-- (uint32_t) x
abbrev pub u32 : ℕ → ℕ
u32 x = x % 2 ^ 32

-- The difference of two uint64_t, for `b` below 2 ^ 64.
abbrev pub sub64 : ℕ → ℕ → ℕ
sub64 a b = (a + 2 ^ 64 - b) % 2 ^ 64
