-- ===== src/Usermem/Reading.antt =====
-- Reading user memory page by page (proc/syscall_user.cpp) is reading it byte by byte.
use synx.Prelude.{
  ℕ, zero, suc, ◌+◌, ◌-◌, ◌≤◌, ◌<◌, ◌≡◌, refl, arith, ap, sym, ◌∙◌, false, List, [], ◌∷◌, ◌++◌,
  Option, none, some, ◌==◌, Bool-cases, Option-cases, inl, inr,
}
use synx.Elf.{Bytes}
use synx.Exec.{user_top}
use synx.Usermem.{translate_user, chunk, slice, range_ok, read_loop, copy_from_user}
use synx.Usermem.Pages.{
  translate_user-page, translate_user-lt, chunk-le, chunk-page, chunk-positive,
}

-- A byte put before what was read.
abbrev joined : List ℕ → Option (List ℕ) → Option (List ℕ)
joined front o = elim o [ none ↦ none | some later ↦ some (front ++ later) ]

module _ (cr3 : ℕ) (mem : Bytes) where
  -- The reference: every byte is translated by itself, and one that is refused refuses all.
  unfoldable pub read_bytes : (n a : ℕ) → Option (List ℕ)
  read_bytes zero a = some []
  read_bytes (suc n) a =
      let rest = read_bytes n (a + 1) in
      elim (translate_user cr3 mem a false) [ none ↦ none | some p ↦ joined (mem p ∷ []) rest ]

  joined-nil : (o : Option (List ℕ)) → o ≡ joined [] o
  joined-nil none = refl
  joined-nil (some l) = refl

  joined-cons :
      (x : ℕ) (front : List ℕ) (o : Option (List ℕ))
      → joined (x ∷ []) (joined front o) ≡ joined (x ∷ front) o
  joined-cons x front none = refl
  joined-cons x front (some l) = refl

  -- The bytes that follow each other in physical memory as well.
  read_bytes-slice :
      (n left rest a b p : ℕ)
      → left ≡ n + rest
      → b ≡ a + n
      → ((k c q : ℕ) → k < n → c ≡ a + k → q ≡ p + k → translate_user cr3 mem c false ≡ some q)
      → read_bytes left a ≡ joined (slice mem n p) (read_bytes rest b)
  unfolding read_bytes
  read_bytes-slice zero left rest a b p el eb at =
      let e1 : rest ≡ left = omega arith in
      let e2 : b ≡ a = omega arith in rw (e1, e2) (joined-nil (read_bytes left a))
  read_bytes-slice (suc n) zero rest a b p el eb at = absurd (omega arith)
  read_bytes-slice (suc n) (suc left) rest a b p el eb at =
      rw (read_bytes, at 0 a p (omega arith) (omega arith) (omega arith))
        (ap (joined (mem p ∷ [])) (
            read_bytes-slice n left rest (a + 1) b (p + 1) (omega arith) (omega arith)
              (λ k c q l ec eq. at (suc k) c q (omega arith) (omega arith) (omega arith)))
          ∙ joined-cons (mem p) (slice mem n (p + 1)) (read_bytes rest b))

  read_loop-read_bytes :
      (fuel a left : ℕ) → left ≤ fuel → read_loop cr3 fuel mem a left ≡ read_bytes left a
  unfolding read_loop read_bytes
  read_loop-read_bytes fuel a zero enough = refl
  read_loop-read_bytes zero a (suc left) enough = absurd (omega arith)
  read_loop-read_bytes (suc fuel) a (suc left) enough =
      elim (Option-cases (translate_user cr3 mem a false)) [
        | inl refused ↦ rw (read_loop, read_bytes, refused) refl
        | inr (p, found) ↦
            let n = chunk a (suc left) in
            let small = chunk-le a (suc left) in
            let positive = chunk-positive a (suc left) (omega arith) in
            let later = read_loop-read_bytes fuel (a + n) (suc left - n) (omega arith) in
            let page = chunk-page a (suc left) in
            let first : read_loop cr3 (suc fuel) mem a (suc left)
                ≡ joined (slice mem n p) (read_loop cr3 fuel mem (a + n) (suc left - n)) =
              rw (read_loop, found) refl in
            first
            ∙ ap (joined (slice mem n p)) later
            ∙ sym (
                read_bytes-slice n (suc left) (suc left - n) a (a + n) p (omega arith) refl
                  (λ k c q l ec eq.
                    rw (ec, eq) (translate_user-page cr3 mem a k p false (omega arith) found)))
      ]

  -- A read that passes the user's limit is refused.
  read_bytes-none : (n a : ℕ) → 1 ≤ n → user_top < a + n → read_bytes n a ≡ none
  unfolding read_bytes
  read_bytes-none zero a some_left over = absurd (omega arith)
  read_bytes-none (suc n) a some_left over = elim (Option-cases (translate_user cr3 mem a false)) [
    | inl refused ↦ rw (read_bytes, refused) refl
    | inr (p, found) ↦
        let low = translate_user-lt cr3 mem a p false found in
        rw (read_bytes, found)
          (ap (joined (mem p ∷ [])) (read_bytes-none n (a + 1) (omega arith) (omega arith)))
  ]

  nothing_read : (a : ℕ) → some [] ≡ read_bytes 0 a
  unfolding read_bytes
  nothing_read a = refl

  -- Reading by pages is reading byte by byte, each byte translated by itself.
  pub copy_from_user-read_bytes : (a size : ℕ) → copy_from_user cr3 mem a size ≡ read_bytes size a
  unfolding copy_from_user range_ok
  copy_from_user-read_bytes a zero = nothing_read a
  copy_from_user-read_bytes a (suc size) =
      let some_left : (suc size == 0) ≡ false = ground arith in
      elim (Bool-cases (range_ok a (suc size))) [
        | inl good ↦
            rw (copy_from_user, some_left, good)
              (read_loop-read_bytes (suc size) a (suc size) (omega arith))
        | inr bad ↦
            rw (copy_from_user, some_left, bad)
              (sym (read_bytes-none (suc size) a (omega arith) (ground arith)))
      ]
