-- ===== src/Usermem/Writing.antt =====
-- Writing user memory page by page (proc/syscall_user.cpp) is writing it byte by byte.
use synx.Prelude.{
  ℕ, zero, suc, ◌+◌, ◌≤◌, ◌<◌, ◌≡◌, refl, arith, sym, ◌∙◌, Bool, true, false, List, [], ◌∷◌, none,
  some, ◌==◌, if◌then◌else◌, Bool-cases, Option-cases, inl, inr, length, take, drop, length-drop,
  ◌||◌,
}
use synx.Elf.{Bytes}
use synx.Klibc.{poke}
use synx.Usermem.{translate_user, chunk, fill, range_ok, write_loop, copy_to_user}
use synx.Usermem.Pages.{translate_user-page, chunk-le, chunk-page, chunk-positive}

-- Memory in which no page that the user may write holds a part of the page tables: such a write changes
-- no translation. The memory after it is of the same kind, since the predicate is kept.
pub record Apart (cr3 : ℕ) (P : Bytes → Type 0) : Type 0 where
  pub kept :
      (mem : Bytes) (a p b : ℕ) → P mem → translate_user cr3 mem a true ≡ some p → P (poke mem p b)
  pub stable :
      (mem : Bytes) (a p b c : ℕ)
      → P mem
      → translate_user cr3 mem a true ≡ some p
      → translate_user cr3 (poke mem p b) c true ≡ translate_user cr3 mem c true

-- The reference: every byte is translated by itself, and the first one that is refused ends the copy.
unfoldable pub write_bytes : (cr3 : ℕ) (block : List ℕ) (a : ℕ) → Bytes → Bool × Bytes
write_bytes cr3 [] a mem = (true, mem)
write_bytes cr3 (b ∷ block) a mem = elim (translate_user cr3 mem a true) [
  | none ↦ (false, mem)
  | some p ↦ write_bytes cr3 block (a + 1) (poke mem p b)
]

nothing_written : (cr3 a : ℕ) (mem : Bytes) → (true, mem) ≡ write_bytes cr3 [] a mem
unfolding write_bytes
nothing_written cr3 a mem = refl

module _ (cr3 : ℕ) (P : Bytes → Type 0) (apart : Apart cr3 P) where
  -- The first `n` bytes go to one page.
  write_bytes-fill :
      (n : ℕ) (block : List ℕ) (a b p : ℕ) (mem : Bytes)
      → P mem
      → n ≤ length block
      → b ≡ a + n
      → ((k c q : ℕ) → k < n → c ≡ a + k → q ≡ p + k → translate_user cr3 mem c true ≡ some q)
      → P (fill (take n block) p mem)
        × (write_bytes cr3 block a mem
            ≡ write_bytes cr3 (drop n block) b (fill (take n block) p mem))
  unfolding write_bytes
  write_bytes-fill zero block a b p mem good enough eb at =
      let e : b ≡ a = omega arith in rw e (good, refl)
  write_bytes-fill (suc n) [] a b p mem good enough eb at = absurd (omega arith)
  write_bytes-fill (suc n) (x ∷ block) a b p mem good enough eb at =
      let first = at 0 a p (omega arith) (omega arith) (omega arith) in
      rw (write_bytes, first)
        (write_bytes-fill n block (a + 1) b (p + 1) (poke mem p x) (apart.kept mem a p x good first)
          (omega arith) (omega arith)
          (λ k c q l ec eq.
            apart.stable mem a p x c good first
            ∙ at (suc k) c q (omega arith) (omega arith) (omega arith)))

  write_loop-write_bytes :
      (fuel : ℕ) (block : List ℕ) (a : ℕ) (mem : Bytes)
      → P mem
      → length block ≤ fuel
      → write_loop cr3 fuel block a mem ≡ write_bytes cr3 block a mem
  unfolding write_loop write_bytes
  write_loop-write_bytes fuel [] a mem good enough = refl
  write_loop-write_bytes zero (x ∷ block) a mem good enough = absurd (omega arith)
  write_loop-write_bytes (suc fuel) (x ∷ block) a mem good enough =
      elim (Option-cases (translate_user cr3 mem a true)) [
        | inl refused ↦ rw (write_loop, write_bytes, refused) refl
        | inr (p, found) ↦
            let all = x ∷ block in
            let n = chunk a (length all) in
            let small = chunk-le a (length all) in
            let positive = chunk-positive a (length all) (omega arith) in
            let page = chunk-page a (length all) in
            let (good', filled) =
              write_bytes-fill n all a (a + n) p mem good small refl (λ k c q l ec eq.
                rw (ec, eq) (translate_user-page cr3 mem a k p true (omega arith) found)) in
            let left = length-drop n all in
            let first : write_loop cr3 (suc fuel) all a mem
                ≡ write_loop cr3 fuel (drop n all) (a + n) (fill (take n all) p mem) =
              rw (write_loop, found) refl in
            first
            ∙ write_loop-write_bytes fuel (drop n all) (a + n) (fill (take n all) p mem) good'
                (omega arith)
            ∙ sym filled
      ]

  -- Writing by pages is writing byte by byte, each byte translated by itself.
  pub copy_to_user-write_bytes :
      (block : List ℕ) (a : ℕ) (mem : Bytes)
      → P mem
      → copy_to_user cr3 block a mem ≡ (
          if length block == 0 || range_ok a (length block)
          then write_bytes cr3 block a mem
          else (false, mem))
  unfolding copy_to_user
  copy_to_user-write_bytes [] a mem good = nothing_written cr3 a mem
  copy_to_user-write_bytes (x ∷ block) a mem good =
      let some_left : (length (x ∷ block) == 0) ≡ false = ground arith in
      elim (Bool-cases (range_ok a (length (x ∷ block)))) [
        | inl inside ↦
            rw (copy_to_user, some_left, inside)
              (write_loop-write_bytes (length (x ∷ block)) (x ∷ block) a mem good (omega arith))
        | inr outside ↦ rw (copy_to_user, some_left, outside) refl
      ]
