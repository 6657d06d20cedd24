-- ===== src/Initramfs/Hex.antt =====
-- `parse_hex` (fs/initramfs.cpp) reads what a writer of an archive prints.
use mathlib.Core.Option.{some-injective}
use synx.Prelude.{
  ℕ, zero, suc, ◌+◌, ◌-◌, ◌*◌, ◌/◌, ◌%◌, ◌^◌, ◌<◌, ◌≡◌, refl, arith, ap, ◌∙◌, Bool, true, false, [],
  ◌∷◌, ◌++◌, Option, some, none, ltb, if◌then◌else◌, word64,
}
use synx.Initramfs.{Str, hex_digit, parse_hex_loop, parse_hex}

-- The digit of a number below 16, in lower or in upper case.
abbrev pub digit_char : (upper : Bool) → ℕ → ℕ
digit_char upper d =
    if ltb d 10 then 0x30 + d else if upper then 0x41 + (d - 10) else 0x61 + (d - 10)

-- The last `n` digits of a number, the first one first.
abbrev pub hex_chars : (upper : Bool) (n v : ℕ) → Str
hex_chars upper zero v = []
hex_chars upper (suc n) v = hex_chars upper n (v / 16) ++ (digit_char upper (v % 16) ∷ [])

hex_digit-char : (upper : Bool) (d : ℕ) → d < 16 → hex_digit (digit_char upper d) ≡ some d
unfolding hex_digit
hex_digit-char true d low = ground arith
hex_digit-char false d low = ground arith

parse_hex_loop-append :
    (s t : Str) (out mid : ℕ)
    → parse_hex_loop s out ≡ some mid
    → parse_hex_loop (s ++ t) out ≡ parse_hex_loop t mid
unfolding parse_hex_loop
parse_hex_loop-append [] t out mid h = rw (some-injective _ _ h) refl
parse_hex_loop-append (c ∷ s) t out mid h =
    go (hex_digit c) refl h (λ d. parse_hex_loop-append s t d mid)
  where
    go :
        (o : Option ℕ)
        → hex_digit c ≡ o
        → (elim o [ none ↦ none | some nibble ↦ parse_hex_loop s (out * 16 % word64 + nibble) ])
          ≡ some mid
        → ((d : ℕ)
            → parse_hex_loop s d ≡ some mid
            → parse_hex_loop (s ++ t) d ≡ parse_hex_loop t mid)
        → parse_hex_loop (c ∷ s ++ t) out ≡ parse_hex_loop t mid
    go none e h' later = absurd (cc)
    go (some d) e h' later = rw (parse_hex_loop, e) (later _ h')

-- `parse_hex` on the digits of a number gives the number back, whichever case the digits have. There
-- are enough digits for the number, which is below 2 ^ 64.
pub parse_hex-chars :
    (upper : Bool) (n v : ℕ) → v < 16 ^ n → v < word64 → parse_hex (hex_chars upper n v) ≡ some v
unfolding parse_hex parse_hex_loop
parse_hex-chars upper zero v low small = ground arith
parse_hex-chars upper (suc n) v low small =
    parse_hex_loop-append (hex_chars upper n (v / 16)) (digit_char upper (v % 16) ∷ []) 0 (v / 16)
      (parse_hex-chars upper n (v / 16) (omega arith) (omega arith))
    ∙ rw (parse_hex_loop, hex_digit-char upper (v % 16) (omega arith)) (ap some (omega arith))

-- A bound on a number multiplied by 16 for each digit.
abbrev pub grown : Str → (bound : ℕ) → ℕ
grown [] bound = bound
grown (c ∷ s) bound = grown s (bound * 16)

hex_digit-lt : (c d : ℕ) → hex_digit c ≡ some d → d < 16
unfolding hex_digit
hex_digit-lt c d h = ground arith

pub parse_hex_loop-lt :
    (s : Str) (out bound v : ℕ) → out < bound → parse_hex_loop s out ≡ some v → v < grown s bound
unfolding parse_hex_loop
parse_hex_loop-lt [] out bound v low h = ground arith
parse_hex_loop-lt (c ∷ s) out bound v low h =
    go (hex_digit c) refl h (λ d. parse_hex_loop-lt s (out * 16 % word64 + d) (bound * 16) v)
  where
    go :
        (o : Option ℕ)
        → hex_digit c ≡ o
        → (elim o [ none ↦ none | some nibble ↦ parse_hex_loop s (out * 16 % word64 + nibble) ])
          ≡ some v
        → ((d : ℕ)
            → out * 16 % word64 + d < bound * 16
            → parse_hex_loop s (out * 16 % word64 + d) ≡ some v
            → v < grown s (bound * 16))
        → v < grown (c ∷ s) bound
    go none e h' later = absurd (cc)
    go (some d) e h' later = let l = hex_digit-lt c d e in later d (omega arith) h'
