-- ===== src/Prelude/Tables.antt =====
-- Facts over small ranges, checked value by value, and a counter of the numbers that pass a test.
use Prim.Native.Nat.{ℕ, zero, suc, ◌+◌, ◌≤◌, ◌<◌}
use mathlib.Core.Path.{◌≡◌, refl, sym}
use mathlib.Core.Logic.{◌≢◌}
use mathlib.Core.Bool.{Bool, true, false}
use native.Mathlib.Omega.{arith}
use native.Mathlib.Decide.{ℕ_discrete}
use synx.Prelude.Tests.{if◌then◌else◌}

unfoldable pub every_below : (bound : ℕ) → (test : ℕ → Bool) → Bool
every_below zero test = true
every_below (suc top) test = if test top then every_below top test else false

pub every_below_sound :
    (bound : ℕ) (test : ℕ → Bool) (y : ℕ)
    → every_below bound test ≡ true
    → y < bound
    → test y ≡ true
unfolding every_below
every_below_sound zero test y all low = absurd (omega arith)
every_below_sound (suc top) test y all low = elim (ℕ_discrete y top) [
  | yes last ↦ rw last (ground arith)
  | no earlier ↦ every_below_sound top test y (ground arith) (omega arith)
]

-- How many of the numbers below `n` pass the test.
unfoldable pub count_below : ℕ → (ℕ → Bool) → ℕ
count_below zero p = 0
count_below (suc n) p = (if p n then 1 else 0) + count_below n p

pub count_below-congr :
    (n : ℕ) (p q : ℕ → Bool) → ((y : ℕ) → y < n → p y ≡ q y) → count_below n p ≡ count_below n q
unfolding count_below
count_below-congr zero p q h = refl
count_below-congr (suc n) p q h =
    ground (arith, h n (omega arith), count_below-congr n p q (λ y l. h y (omega arith)))

-- Taking one number out of the test lowers the count by one.
pub count_below-drop :
    (n : ℕ) (p q : ℕ → Bool) (x : ℕ)
    → x < n
    → p x ≡ true
    → q x ≡ false
    → ((y : ℕ) → y ≢ x → q y ≡ p y)
    → count_below n p ≡ suc (count_below n q)
unfolding count_below
count_below-drop zero p q x l a b h = absurd (omega arith)
count_below-drop (suc n) p q x l a b h = elim (ℕ_discrete x n) [
  | yes e ↦
      ground
        (arith, ap_test e, ap_test' e, count_below-congr n p q (λ y m. sym (h y (omega arith))))
  | no ne ↦ ground (arith, h n (omega arith), count_below-drop n p q x (omega arith) a b h)
]
  where
    ap_test : x ≡ n → p n ≡ true
    ap_test e = rw e at a

    ap_test' : x ≡ n → q n ≡ false
    ap_test' e = rw e at b

pub count_below-le : (n : ℕ) (p : ℕ → Bool) → count_below n p ≤ n
unfolding count_below
count_below-le zero p = omega arith
count_below-le (suc n) p = ground (arith, count_below-le n p)

-- Some number passes, or the count is zero.
pub count_below-pos : (n : ℕ) (p : ℕ → Bool) (x : ℕ) → x < n → p x ≡ true → 0 < count_below n p
unfolding count_below
count_below-pos zero p x l a = absurd (omega arith)
count_below-pos (suc n) p x l a = elim (ℕ_discrete x n) [
  | yes e ↦ ground (arith, rw e at a)
  | no ne ↦ ground (arith, count_below-pos n p x (omega arith) a)
]
