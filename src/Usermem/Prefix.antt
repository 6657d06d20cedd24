-- ===== src/Usermem/Prefix.antt =====
-- The bytes that a user's range holds, in parts (proc/syscall_user.cpp).
use mathlib.Core.Option.{some-injective}
use synx.Prelude.{
  ℕ, zero, suc, ◌+◌, ◌≤◌, ◌≡◌, refl, arith, ap, sym, ◌∙◌, false, List, [], ◌∷◌, ◌++◌, some, length,
  take, step_passed,
}
use synx.Elf.{Bytes}
use synx.Exec.{user_top}
use synx.Usermem.Pages.{translate_user-lt}
use synx.Usermem.Place.{user_place, translate_user-user_place}
use synx.Usermem.Reference.{user_bytes}

module _ (cr3 : ℕ) (mem : Bytes) where
  -- The first byte and the rest.
  user_bytes-first :
      (n a : ℕ) (bs : List ℕ)
      → user_bytes cr3 mem (suc n) a ≡ some bs
      → (p : ℕ) × (later : List ℕ) × (user_place cr3 mem a false ≡ some p)
        × (user_bytes cr3 mem n (a + 1) ≡ some later)
        × (mem p ∷ later ≡ bs)
  unfolding user_bytes
  user_bytes-first n a bs h =
      let (p, at, h1) = step_passed (user_place cr3 mem a false) _ bs h in
      let (later, rest, h2) = step_passed (user_bytes cr3 mem n (a + 1)) _ bs h1 in
      (p, later, at, rest, some-injective _ _ h2)

  user_bytes-more :
      (n a p : ℕ) (later : List ℕ)
      → user_place cr3 mem a false ≡ some p
      → user_bytes cr3 mem n (a + 1) ≡ some later
      → user_bytes cr3 mem (suc n) a ≡ some (mem p ∷ later)
  unfolding user_bytes
  user_bytes-more n a p later at rest = rw (user_bytes, at, rest) refl

  user_bytes-nil : (a : ℕ) (xs : List ℕ) → user_bytes cr3 mem 0 a ≡ some xs → [] ≡ xs
  unfolding user_bytes
  user_bytes-nil a xs h = some-injective _ _ h

  pub user_bytes-append :
      (n m a b : ℕ) (xs ys : List ℕ)
      → b ≡ a + n
      → user_bytes cr3 mem n a ≡ some xs
      → user_bytes cr3 mem m b ≡ some ys
      → user_bytes cr3 mem (n + m) a ≡ some (xs ++ ys)
  unfolding user_bytes
  user_bytes-append zero m a b xs ys eb hx hy =
      ap (λ k. user_bytes cr3 mem k a) (let e : 0 + m ≡ m = omega arith in e)
      ∙ ap (user_bytes cr3 mem m) (let e : a ≡ b = omega arith in e)
      ∙ hy
      ∙ ap (λ zs. some (zs ++ ys)) (user_bytes-nil a xs hx)
  user_bytes-append (suc n) m a b xs ys eb hx hy =
      let (p, later, at, rest, e) = user_bytes-first n a xs hx in
      let ih = user_bytes-append n m (a + 1) b later ys (omega arith) rest hy in
      ap (λ k. user_bytes cr3 mem k a) (let e1 : suc n + m ≡ suc (n + m) = omega arith in e1)
      ∙ user_bytes-more (n + m) a p (later ++ ys) at ih
      ∙ ap (λ zs. some (zs ++ ys)) e

  pub user_bytes-take :
      (n k a : ℕ) (xs : List ℕ)
      → k ≤ n
      → user_bytes cr3 mem n a ≡ some xs
      → user_bytes cr3 mem k a ≡ some (take k xs)
  unfolding user_bytes
  user_bytes-take n zero a xs low h = refl
  user_bytes-take zero (suc k) a xs low h = absurd (omega arith)
  user_bytes-take (suc n) (suc k) a xs low h =
      let (p, later, at, rest, e) = user_bytes-first n a xs h in
      let ih = user_bytes-take n k (a + 1) later (omega arith) rest in
      user_bytes-more k a p (take k later) at ih ∙ ap (λ zs. some (take (suc k) zs)) e

  pub user_bytes-length : (n a : ℕ) (xs : List ℕ) → user_bytes cr3 mem n a ≡ some xs → length xs ≡ n
  unfolding user_bytes
  user_bytes-length zero a xs h = ap length (sym (user_bytes-nil a xs h))
  user_bytes-length (suc n) a xs h =
      let (p, later, at, rest, e) = user_bytes-first n a xs h in
      let ih = user_bytes-length n (a + 1) later rest in sym (ap length e) ∙ ap suc ih

  pub user_bytes-low :
      (n a : ℕ) (xs : List ℕ) → 1 ≤ n → user_bytes cr3 mem n a ≡ some xs → a + n ≤ user_top
  user_bytes-low zero a xs some_bytes h = absurd (omega arith)
  user_bytes-low (suc zero) a xs some_bytes h =
      let (p, later, at, rest, e) = user_bytes-first 0 a xs h in
      let low =
        translate_user-lt cr3 mem a p false (translate_user-user_place cr3 mem a false ∙ at) in
      omega arith
  user_bytes-low (suc (suc n)) a xs some_bytes h =
      let (p, later, at, rest, e) = user_bytes-first (suc n) a xs h in
      let low = user_bytes-low (suc n) (a + 1) later (omega arith) rest in omega arith

  pub user_bytes-drop :
      (n m a b : ℕ) (xs : List ℕ)
      → b ≡ a + n
      → user_bytes cr3 mem (n + m) a ≡ some xs
      → (ys : List ℕ) × (user_bytes cr3 mem m b ≡ some ys)
  user_bytes-drop zero m a b xs eb h = (
    xs,
    ap (user_bytes cr3 mem m) (let e : b ≡ a = omega arith in e)
        ∙ ap (λ k. user_bytes cr3 mem k a) (let e : m ≡ 0 + m = omega arith in e)
        ∙ h,
  )
  user_bytes-drop (suc n) m a b xs eb h =
      let h1 =
        ap (λ k. user_bytes cr3 mem k a) (let e : suc (n + m) ≡ suc n + m = omega arith in e) ∙ h in
      let (p, later, at, rest, e) = user_bytes-first (n + m) a xs h1 in
      user_bytes-drop n m (a + 1) b later (omega arith) rest
