-- ===== src/Prelude/Options.antt =====
-- Chains of tests and optional values that end in a value.
use mathlib.Core.Path.{◌≡◌, refl}
use mathlib.Core.Bool.{Bool, true, false}
use mathlib.Core.Option.{Option, none, some, some-injective}
use synx.Prelude.Tests.{if◌then◌else◌}

-- The value was given, so the guard did not hold.
pub guard_passed {ℓ} :
    {A : Type ℓ} (b : Bool) (x : Option A) (a : A)
    → (if b then none else x) ≡ some a
    → (b ≡ false) × (x ≡ some a)
guard_passed true x a h = absurd (cc)
guard_passed false x a h = (refl, h)

-- The value was given, so the test held.
pub test_passed {ℓ} :
    {A : Type ℓ} (b : Bool) (x a : A) → (if b then some x else none) ≡ some a → (b ≡ true) × (x ≡ a)
test_passed true x a h = (refl, some-injective _ _ h)
test_passed false x a h = absurd (cc)

-- The value was given, so the first step gave one, which the next step took.
pub step_passed {ℓ κ} :
    {A : Type ℓ} {B : Type κ} (o : Option A) (next : A → Option B) (b : B)
    → (elim o [ none ↦ none | some a ↦ next a ]) ≡ some b
    → (a : A) × (o ≡ some a) × (next a ≡ some b)
step_passed none next b h = absurd (cc)
step_passed (some a) next b h = (a, refl, h)
