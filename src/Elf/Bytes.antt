-- ===== src/Elf/Bytes.antt =====
-- Numbers of a fixed width in bytes: their bound, and what a store leaves for a later read.
use synx.Prelude.{ℕ, zero, suc, ◌+◌, ◌*◌, ◌/◌, ◌%◌, ◌^◌, ◌<◌, ◌≡◌, arith, word64}
use synx.Elf.{Bytes, little_endian}

-- `n` bytes hold a number below 256 ^ n.
pub little_endian-lt : (n : ℕ) (bytes : Bytes) (at : ℕ) → little_endian n bytes at < 256 ^ n
unfolding little_endian
little_endian-lt zero bytes at = omega arith
little_endian-lt (suc n) bytes at =
    let pow_suc : 256 ^ suc n ≡ 256 ^ n * 256 = omega arith in
    omega (arith, little_endian-lt n bytes (at + 1), pow_suc)

-- The bytes of a number of 64 bits make it up.
eight_bytes :
    (v : ℕ)
    → v < word64
    → v % 256
        + 256
          * (v / 256 % 256
              + 256
                * (v / 256 ^ 2 % 256
                    + 256
                      * (v / 256 ^ 3 % 256
                          + 256
                            * (v / 256 ^ 4 % 256
                                + 256
                                  * (v / 256 ^ 5 % 256
                                      + 256 * (v / 256 ^ 6 % 256 + 256 * (v / 256 ^ 7 % 256)))))))
      ≡ v
eight_bytes v small = omega arith

-- A number of 64 bits is read back from its eight bytes.
pub little_endian-eight :
    (bytes : Bytes) (at v : ℕ)
    → v < word64
    → ((k : ℕ) → k < 8 → bytes (at + k) ≡ v / 256 ^ k % 256)
    → little_endian 8 bytes at ≡ v
unfolding little_endian
little_endian-eight bytes at v small stored = omega (
  arith,
  eight_bytes v small,
  byte at 0 (omega arith) (omega arith),
  byte (at + 1) 1 (omega arith) (omega arith),
  byte (at + 1 + 1) 2 (omega arith) (omega arith),
  byte (at + 1 + 1 + 1) 3 (omega arith) (omega arith),
  byte (at + 1 + 1 + 1 + 1) 4 (omega arith) (omega arith),
  byte (at + 1 + 1 + 1 + 1 + 1) 5 (omega arith) (omega arith),
  byte (at + 1 + 1 + 1 + 1 + 1 + 1) 6 (omega arith) (omega arith),
  byte (at + 1 + 1 + 1 + 1 + 1 + 1 + 1) 7 (omega arith) (omega arith),
)
  where
    byte : (x k : ℕ) → x ≡ at + k → k < 8 → bytes x ≡ v / 256 ^ k % 256
    byte x k e lt = rw e (stored k lt)
