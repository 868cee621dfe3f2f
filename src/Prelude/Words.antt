-- ===== src/Prelude/Words.antt =====
-- Go's machine words as natural numbers: every operation that may wrap is written with its modulus.
use stellarview_tui.Prelude.Tests.{ltb, if◌then◌else◌}
use Prim.Native.Nat.{ℕ, ◌+◌, ◌-◌, ◌%◌}
use stellarview_tui.Prelude.Int.{ℤ, pos, negsuc}

abbrev pub u32_mod : ℕ
u32_mod = 4294967296

-- uint32 arithmetic
abbrev pub u32 : ℕ → ℕ
u32 n = n % 4294967296

abbrev pub sub_u32 : ℕ → ℕ → ℕ
sub_u32 a b = (a + 4294967296 - b) % 4294967296

-- uint32(x) of a 64-bit int
abbrev pub u32_of_int : ℤ → ℕ
u32_of_int (pos n) = n % 4294967296
u32_of_int (negsuc n) = 4294967295 - n % 4294967296

-- int32(x) of a uint32 bit pattern
abbrev pub int32_of : ℕ → ℤ
int32_of n = let m = n % 4294967296 in if ltb m 2147483648 then pos m else negsuc (4294967295 - m)
