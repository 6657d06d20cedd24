-- ===== src/Pmm/Bits.antt =====
-- The bitmap of mem/kmemory.cpp read bit by bit: a write of one bit changes that bit alone.
use synx.Prelude.{
  ℕ, ◌+◌, ◌/◌, ◌%◌, ◌^◌, ◌<◌, ◌≡◌, refl, bit_and, bit_or, bit_xor, Bool, true, false, not, arith,
  ◌==◌, if◌then◌else◌, every_below, every_below_sound,
}
use synx.Pmm.{Pmm, poke, byte_of, bitmap_get, bitmap_set, bitmap_clear}

-- Memory holds bytes.
abbrev pub IsBytes : (ℕ → ℕ) → Type 0
IsBytes mem = (a : ℕ) → mem a < 256

abbrev bool_eq : Bool → Bool → Bool
bool_eq true b = b
bool_eq false b = not b

bool_eq_sound : (a b : Bool) → bool_eq a b ≡ true → a ≡ b
bool_eq_sound a b h = ground arith

-- Bit `k` of a byte.
abbrev bit_test : ℕ → ℕ → Bool
bit_test b k = (b / 2 ^ k) % 2 == 1

-- Bits `j` of the byte `b` after its bit `k` was set, and after it was cleared.
or_row : ℕ → ℕ → ℕ → Bool
or_row b k j = bool_eq (bit_test (bit_or b (2 ^ k) % 256) j) (if k == j then true else bit_test b j)

and_row : ℕ → ℕ → ℕ → Bool
and_row b k j =
    bool_eq (bit_test (bit_and b (bit_xor 0xffff_ffff (2 ^ k)) % 256) j)
      (if k == j then false else bit_test b j)

byte_table : (ℕ → ℕ → ℕ → Bool) → Bool
byte_table row = every_below 256 (λ b. every_below 8 (λ k. every_below 8 (row b k)))

byte_table_sound :
    (row : ℕ → ℕ → ℕ → Bool) (b k j : ℕ)
    → byte_table row ≡ true
    → b < 256
    → k < 8
    → j < 8
    → row b k j ≡ true
unfolding byte_table
byte_table_sound row b k j t hb hk hj =
    every_below_sound 8 (row b k) j
      (every_below_sound 8 (λ k. every_below 8 (row b k)) k (every_below_sound 256 _ b t hb) hk) hj

or_table : byte_table or_row ≡ true
unfolding byte_table every_below or_row
or_table = refl

and_table : byte_table and_row ≡ true
unfolding byte_table every_below and_row
and_table = refl

bit_test-or :
    (b k j : ℕ)
    → b < 256
    → k < 8
    → j < 8
    → bit_test (bit_or b (2 ^ k) % 256) j ≡ (if k == j then true else bit_test b j)
unfolding or_row
bit_test-or b k j hb hk hj = bool_eq_sound _ _ (byte_table_sound or_row b k j or_table hb hk hj)

bit_test-and :
    (b k j : ℕ)
    → b < 256
    → k < 8
    → j < 8
    → bit_test (bit_and b (bit_xor 0xffff_ffff (2 ^ k)) % 256) j
      ≡ (if k == j then false else bit_test b j)
unfolding and_row
bit_test-and b k j hb hk hj = bool_eq_sound _ _ (byte_table_sound and_row b k j and_table hb hk hj)

module _ (s : Pmm) (p q : ℕ) (bytes : IsBytes s.mem) where
  -- Setting the bit of page `p` makes `p` used and leaves every other page as it was.
  pub bitmap_get-set : bitmap_get (bitmap_set s p) q ≡ (if p == q then true else bitmap_get s q)
  unfolding bitmap_get bitmap_set poke
  bitmap_get-set =
      ground (arith, bit_test-or (byte_of s q) (p % 8) (q % 8) (bytes (s.bitmap + q / 8)))

  -- Clearing the bit of page `p` makes `p` free and leaves every other page as it was.
  pub bitmap_get-clear :
      bitmap_get (bitmap_clear s p) q ≡ (if p == q then false else bitmap_get s q)
  unfolding bitmap_get bitmap_clear poke
  bitmap_get-clear =
      ground (arith, bit_test-and (byte_of s q) (p % 8) (q % 8) (bytes (s.bitmap + q / 8)))

module _ (s : Pmm) (p : ℕ) (bytes : IsBytes s.mem) where
  pub bitmap_set-IsBytes : IsBytes (bitmap_set s p).mem
  unfolding bitmap_set poke
  bitmap_set-IsBytes a = ground (arith, bytes a)

  pub bitmap_clear-IsBytes : IsBytes (bitmap_clear s p).mem
  unfolding bitmap_clear poke
  bitmap_clear-IsBytes a = ground (arith, bytes a)
