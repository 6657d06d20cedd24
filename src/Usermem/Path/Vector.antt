-- ===== src/Usermem/Path/Vector.antt =====
-- The strings that `copy_user_vector` (proc/syscall_user.cpp) stores.
use mathlib.Core.Path.{subst}
use synx.Prelude.{
  ℕ, zero, suc, ◌+◌, ◌-◌, ◌≤◌, ◌<◌, ◌≡◌, ◌≢◌, ◌⊎◌, inl, inr, refl, arith, ap, sym, ◌∙◌, List, [],
  ◌∷◌, Option, none, some, ◌==◌, Bool-cases, length,
}
use synx.Elf.{Bytes}
use synx.Usermem.Path.{
  Str, Result, got, err, and_then, efault, user_byte, string_loop, user_slot, vector_loop,
  copy_user_vector,
}
use synx.Usermem.Path.Strings.{byte_at, Prefix, nothing, more, user_byte-byte_at}

-- The value was given, so each step before it gave one.
read_passed {ℓ κ} :
    {A : Type ℓ} {B : Type κ} (o : Option A) (e : ℕ) (k : A → Result B) (b : B)
    → (elim o [ none ↦ err e | some a ↦ k a ]) ≡ got b
    → (a : A) × (o ≡ some a) × (k a ≡ got b)
read_passed none e k b h = absurd (cc)
read_passed (some a) e k b h = (a, refl, h)

pub and_then_passed {ℓ κ} :
    {A : Type ℓ} {B : Type κ} (r : Result A) (k : A → Result B) (b : B)
    → and_then r k ≡ got b
    → (a : A) × (r ≡ got a) × (k a ≡ got b)
and_then_passed (err e) k b h = absurd (cc)
and_then_passed (got a) k b h = (a, refl, h)

pub got-injective {ℓ} : {A : Type ℓ} (a b : A) → got a ≡ got b → a ≡ b
got-injective {A = A} a b h = ap (value a) h
  where
    value : A → Result A → A
    value d (got x) = x
    value d (err e) = d

module _ (cr3 : ℕ) (mem : Bytes) where
  -- A string with its NUL, below a limit.
  pub record StringAt (a : ℕ) (s : Str) (left : ℕ) : Type 0 where
    pub characters : Prefix cr3 mem a s
    pub ends : byte_at cr3 mem (a + length s) ≡ some 0
    pub fits : length s < left

  StringAt-step :
      (a b left : ℕ) (s : Str)
      → byte_at cr3 mem a ≡ some b
      → b ≢ 0
      → StringAt (a + 1) s left
      → StringAt a (b ∷ s) (suc left)
  StringAt-step a b left s found char h =
      let short = h.fits in
      record {
        characters = more a b s found char h.characters;
        ends = ap (byte_at cr3 mem) (omega arith) ∙ h.ends;
        fits = omega arith;
      }

  string_loop-StringAt :
      (user a left i : ℕ) (s : Str)
      → a ≡ user + i
      → string_loop cr3 mem user left i ≡ got s
      → StringAt a s left
  unfolding string_loop
  string_loop-StringAt user a zero i s e h = absurd (cc)
  string_loop-StringAt user a (suc left) i s e h =
      let (b, found, h1) = read_passed (user_byte cr3 mem user i) efault _ s h in
      let at : byte_at cr3 mem a ≡ some b =
        ap (byte_at cr3 mem) e ∙ sym (user_byte-byte_at cr3 mem user i) ∙ found in
      elim (Bool-cases (b == 0)) [
        | inl end ↦
            let empty = got-injective [] s (rw end at h1) in
            subst (λ t. StringAt a t (suc left)) empty
              (record {
                characters = nothing a;
                ends = ap (byte_at cr3 mem) (omega arith) ∙ at ∙ ap some (ground arith);
                fits = omega arith;
              })
        | inr char ↦
            let (later, got_later, h2) =
              and_then_passed (string_loop cr3 mem user left (i + 1)) _ s (rw char at h1) in
            subst (λ t. StringAt a t (suc left)) (got-injective _ s h2)
              (StringAt-step a b left later at (λ z. ground arith)
                (string_loop-StringAt user (a + 1) left (i + 1) later (omega arith) got_later))
      ]

  module _ (user_vector storage_capacity : ℕ) where
    -- The strings of the slots from `i` on, stored one after the other from `used` on.
    pub data Stored : (i used : ℕ) → List (ℕ × Str) → Type 0 where
      ended : (i used : ℕ) → user_slot cr3 mem user_vector i ≡ some 0 → Stored i used []
      stored :
          (i used pointer : ℕ) (s : Str) (later : List (ℕ × Str))
          → user_slot cr3 mem user_vector i ≡ some pointer
          → pointer ≢ 0
          → StringAt pointer s (storage_capacity - used)
          → Stored (i + 1) (used + length s + 1) later
          → Stored i used ((used, s) ∷ later)

    vector_loop-Stored :
        (left i used : ℕ) (all : List (ℕ × Str))
        → vector_loop cr3 mem user_vector left i storage_capacity used ≡ got all
        → (length all ≤ left) × Stored i used all
    unfolding vector_loop
    vector_loop-Stored zero i used all h =
        let (pointer, found, h1) = read_passed (user_slot cr3 mem user_vector i) efault _ all h in
        elim (Bool-cases (pointer == 0)) [
          | inl end ↦
              let last : user_slot cr3 mem user_vector i ≡ some 0 =
                found ∙ ap some (ground arith) in
              subst (λ l. (length l ≤ 0) × Stored i used l) (got-injective [] all (rw end at h1))
                (omega arith, ended i used last)
          | inr other ↦ absurd (let h2 = rw other at h1 in cc)
        ]
    vector_loop-Stored (suc left) i used all h =
        let (pointer, found, h1) = read_passed (user_slot cr3 mem user_vector i) efault _ all h in
        elim (Bool-cases (pointer == 0)) [
          | inl end ↦
              let last : user_slot cr3 mem user_vector i ≡ some 0 =
                found ∙ ap some (ground arith) in
              subst (λ l. (length l ≤ suc left) × Stored i used l)
                (got-injective [] all (rw end at h1)) (omega arith, ended i used last)
          | inr other ↦
              let (s, string, h2) =
                and_then_passed (string_loop cr3 mem pointer (storage_capacity - used) 0) _ all
                  (rw other at h1) in
              let (later, rest, h3) =
                and_then_passed
                  (vector_loop cr3 mem user_vector left (i + 1) storage_capacity
                    (used + length s + 1))
                  _ all h2 in
              let (few, later_stored) =
                vector_loop-Stored left (i + 1) (used + length s + 1) later rest in
              subst (λ l. (length l ≤ suc left) × Stored i used l) (got-injective _ all h3)
                (
                  omega arith,
                  stored i used pointer s later found (λ z. ground arith)
                      (string_loop-StringAt pointer pointer (storage_capacity - used) 0 s
                        (omega arith) string)
                      later_stored,
                )
        ]

    -- When `copy_user_vector` gives strings, they are at most as many as the vector has room for, and
    -- each is the string at the pointer in its slot, up to a slot that holds 0. They stand one after the
    -- other in the storage, each with its NUL inside it. A null vector gives none.
    pub copy_user_vector-Stored :
        (capacity used : ℕ) (all : List (ℕ × Str))
        → copy_user_vector cr3 mem user_vector capacity storage_capacity used ≡ got all
        → (length all ≤ capacity) × (((user_vector ≡ 0) × (all ≡ [])) ⊎ Stored 0 used all)
    unfolding copy_user_vector
    copy_user_vector-Stored capacity used all h = elim (Bool-cases (user_vector == 0)) [
      | inl no_vector ↦
          let empty = got-injective [] all (rw no_vector at h) in
          (rw (sym empty) (omega arith), inl (ground arith, sym empty))
      | inr given ↦
          let (few, strings) = vector_loop-Stored capacity 0 used all (rw given at h) in
          (few, inr strings)
    ]
