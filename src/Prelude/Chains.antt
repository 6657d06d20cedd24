-- ===== src/Prelude/Chains.antt =====
-- Linked lists in memory: a map gives the address that follows each address, and 0 ends a list.
use Prim.Native.Nat.{ℕ}
use mathlib.Core.Path.{◌≡◌, refl, sym, subst}
use mathlib.Core.Logic.{◌≢◌, inl, inr}
use mathlib.Core.Bool.{Bool, true, false}
use mathlib.Core.List.{List, [], ◌∷◌}
use native.Mathlib.Omega.{arith}
use synx.Prelude.Tests.{◌==◌, if◌then◌else◌, Bool-cases}

-- The objects of a list, each linked to the next one by its cell.
pub data Chain (following : ℕ → ℕ) : (first : ℕ) → List ℕ → Type 0 where
  ended : (p : ℕ) → p ≡ 0 → Chain following p []
  linked :
      (p : ℕ) (later : List ℕ)
      → p ≢ 0
      → Chain following (following p) later
      → Chain following p (p ∷ later)

-- None of the objects is at the address.
abbrev pub Absent : ℕ → List ℕ → Type 0
Absent p [] = Unit {0}
Absent p (q ∷ objects) = (q ≢ p) × Absent p objects

abbrev pub Distinct : List ℕ → Type 0
Distinct [] = Unit {0}
Distinct (p ∷ objects) = Absent p objects × Distinct objects

-- Whether an address is in a list.
abbrev pub member : ℕ → List ℕ → Bool
member p [] = false
member p (q ∷ objects) = let rest = member p objects in if q == p then true else rest

pub member-Absent : (p : ℕ) (objects : List ℕ) → member p objects ≡ false → Absent p objects
member-Absent p [] h = tt
member-Absent p (q ∷ objects) h = elim (Bool-cases (q == p)) [
  | inl same ↦ absurd (let h1 = rw same at h in cc)
  | inr other ↦ ((λ e. ground arith), member-Absent p objects (rw other at h))
]

pub Chain-head :
    (following : ℕ → ℕ) (first p : ℕ) (later : List ℕ)
    → Chain following first (p ∷ later)
    → (first ≡ p) × (p ≢ 0) × Chain following (following p) later
Chain-head following _ p later (linked _ _ some_p rest) = (refl, some_p, rest)

pub member-Absent-ne : (p q : ℕ) (all : List ℕ) → member q all ≡ true → Absent p all → q ≢ p
member-Absent-ne p q [] h absent e = absurd (cc)
member-Absent-ne p q (x ∷ all) h absent e = elim (Bool-cases (x == q)) [
  | inl same ↦ absent.0 (ground (arith, same, e))
  | inr other ↦ member-Absent-ne p q all (rw other at h) absent.1 e
]

pub member-later : (p q : ℕ) (all : List ℕ) → member q all ≡ true → member q (p ∷ all) ≡ true
member-later p q all h = elim (Bool-cases (p == q)) [
  | inl same ↦ rw same refl
  | inr other ↦ rw other h
]

pub member-first : (p : ℕ) (all : List ℕ) → member p (p ∷ all) ≡ true
member-first p all = let here : (p == p) ≡ true = ground arith in rw here refl

-- A store at an address that the list does not have leaves the list as it is.
pub Chain-frame :
    (f g : ℕ → ℕ) (at first : ℕ) (objects : List ℕ)
    → ((p : ℕ) → p ≢ at → g p ≡ f p)
    → Absent at objects
    → Chain f first objects
    → Chain g first objects
Chain-frame f g at first _ same absent (ended p e) = ended p e
Chain-frame f g at first _ same absent (linked p later some_p rest) = linked p later some_p (
    subst (λ q. Chain g q later) (sym (same p absent.0))
      (Chain-frame f g at (f p) later same absent.1 rest))

pub Chain-Absent :
    (f : ℕ → ℕ) (first : ℕ) (objects : List ℕ) → Chain f first objects → Absent 0 objects
Chain-Absent f first _ (ended p e) = tt
Chain-Absent f first _ (linked p later some_p rest) = (some_p, Chain-Absent f (f p) later rest)

-- The list behind one of its objects.
pub Chain-behind :
    (f : ℕ → ℕ) (first q : ℕ) (objects : List ℕ)
    → Chain f first objects
    → member q objects ≡ true
    → (later : List ℕ) × Chain f (f q) later
      × ((x : ℕ) → member x later ≡ true → member x objects ≡ true)
Chain-behind f first q _ (ended p e) h = absurd (cc)
Chain-behind f first q _ (linked p rest some_p chain) h = elim (Bool-cases (p == q)) [
  | inl same ↦
      (let at : p ≡ q = ground (arith, same) in
        (rest, subst (λ x. Chain f (f x) rest) at chain, λ x hx. member-later p x rest hx))
  | inr other ↦
      (let (later, behind, sub) = Chain-behind f (f p) q rest chain (rw other at h) in
        (later, behind, λ x hx. member-later p x rest (sub x hx)))
]
