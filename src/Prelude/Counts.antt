-- ===== src/Prelude/Counts.antt =====
-- How many elements of a list pass a test, and what a write does to that number.
use Prim.Native.Nat.{ℕ, zero, suc, ◌+◌, ◌≤◌, ◌<◌}
use mathlib.Core.Path.{◌≡◌, refl}
use mathlib.Core.Bool.{Bool, true, false}
use mathlib.Core.List.{List, [], ◌∷◌}
use mathlib.Core.Option.{some}
use native.Mathlib.Omega.{arith}
use synx.Prelude.Lists.{length, get_elem?, get_or, set}

abbrev pub bit : Bool → ℕ
bit true = 1
bit false = 0

module _ {ℓ} {A : Type ℓ} (p : A → Bool) where
  unfoldable pub count_if : List A → ℕ
  count_if [] = 0
  count_if (x ∷ xs) = bit (p x) + count_if xs

  pub count_if-set :
      (xs : List A) (i : ℕ) (v : A) {old : A}
      → get_elem? xs i ≡ some old
      → count_if (set xs i v) + bit (p old) ≡ count_if xs + bit (p v)
  unfolding count_if
  count_if-set [] i v e = cc
  count_if-set (x ∷ xs) zero v e = ground arith
  count_if-set (x ∷ xs) (suc i) v e = omega (arith, count_if-set xs i v e)

  pub count_if-le : (xs : List A) → count_if xs ≤ length xs
  unfolding count_if
  count_if-le [] = omega arith
  count_if-le (x ∷ xs) = ground (arith, count_if-le xs)

  pub count_if-pos :
      (xs : List A) (i : ℕ) {x : A} → get_elem? xs i ≡ some x → p x ≡ true → 0 < count_if xs
  unfolding count_if
  count_if-pos [] i e t = cc
  count_if-pos (x ∷ xs) zero e t = ground arith
  count_if-pos (x ∷ xs) (suc i) e t = omega (arith, count_if-pos xs i e t)

module _ {ℓ} {A : Type ℓ} where
  pub get_elem?-some : (xs : List A) (i : ℕ) → i < length xs → (x : A) × (get_elem? xs i ≡ some x)
  get_elem?-some [] i h = absurd (omega arith)
  get_elem?-some (x ∷ xs) zero h = (x, refl)
  get_elem?-some (x ∷ xs) (suc i) h = get_elem?-some xs i (omega arith)

  pub get_elem?-lt : (xs : List A) (i : ℕ) {x : A} → get_elem? xs i ≡ some x → i < length xs
  get_elem?-lt [] i e = cc
  get_elem?-lt (x ∷ xs) zero e = omega arith
  get_elem?-lt (x ∷ xs) (suc i) e = omega (arith, get_elem?-lt xs i e)

pub count_if-zero {ℓ} :
    {A : Type ℓ} (p : A → Bool) (xs : List A) (d : A)
    → ((i : ℕ) → i < length xs → p (get_or xs i d) ≡ false)
    → count_if p xs ≡ 0
unfolding count_if
count_if-zero p [] d h = refl
count_if-zero p (x ∷ xs) d h =
    ground (arith, h 0 (omega arith), count_if-zero p xs d (λ i l. h (suc i) (omega arith)))
