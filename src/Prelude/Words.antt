-- ===== src/Prelude/Words.antt =====
-- Machine words as native numbers: `uint64_t` and `uint32_t` arithmetic wraps.
use Prim.Native.Nat.{ℕ, ◌+◌, ◌-◌, ◌*◌, ◌%◌}

abbrev pub word64 : ℕ
word64 = 0x1_0000_0000_0000_0000

abbrev pub word32 : ℕ
word32 = 0x1_0000_0000

-- `uint64_t` a + b, a - b and a * b. `-` on ℕ stops at 0, so the modulus is added first.
abbrev pub add64 : ℕ → ℕ → ℕ
add64 a b = (a + b) % word64

abbrev pub sub64 : ℕ → ℕ → ℕ
sub64 a b = (a + word64 - b) % word64

abbrev pub mul64 : ℕ → ℕ → ℕ
mul64 a b = (a * b) % word64
