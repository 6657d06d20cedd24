-- ===== src/Pmm/Single.antt =====
-- `allocPage` and `freePage` of mem/kmemory.cpp.
use native.Mathlib.Decide.{ℕ_discrete}
use synx.Prelude.{
  ℕ, zero, suc, ◌+◌, ◌*◌, ◌/◌, ◌<◌, ◌≡◌, ◌⊎◌, inl, inr, refl, true, false, arith, ==_iff,
  Bool-cases, ltb, leb, ◌&&◌, if◌then◌else◌, ◌==◌,
}
use synx.Pmm.{
  Pmm, page_size, bitmap_get, take_page, give_page, alloc_page_loop, alloc_page, free_page,
}
use synx.Pmm.Inv.{
  IsValid, Taken, Given, get-take, get-give, take-counted, take-IsValid, give-IsValid, total-take,
  total-give,
}

pub take-Taken :
    {s : Pmm} (i : ℕ)
    → IsValid s
    → i < s.total_pages
    → bitmap_get s i ≡ false
    → Taken s (take_page s i) i 1
take-Taken {s} i v inside e = record {
  inside = omega arith;
  was_free = λ p a b. let same : i ≡ p = omega arith in rw (← same) e;
  bits = λ p. ground (arith, get-take s i p v.bytes);
  counter = (take-counted i v inside e).0;
  same_total = total-take s i;
  valid = take-IsValid i v inside e;
}

-- What `allocPage` did, by its result `r`.
abbrev pub FirstFree : Pmm → ℕ × Pmm → Type 0
FirstFree s r =
    ((p : ℕ) × (r.0 ≡ p * page_size) × Taken s r.1 p 1 × ((q : ℕ) → q < p → bitmap_get s q ≡ true))
    ⊎ ((r ≡ (0, s)) × ((q : ℕ) → q < s.total_pages → bitmap_get s q ≡ true))

alloc_page_loop-FirstFree :
    (n i : ℕ) {s : Pmm}
    → IsValid s
    → i + n ≡ s.total_pages
    → ((q : ℕ) → q < i → bitmap_get s q ≡ true)
    → FirstFree s (alloc_page_loop n i s)
unfolding alloc_page_loop
alloc_page_loop-FirstFree zero i v e lower = inr (refl, λ q h. lower q (omega arith))
alloc_page_loop-FirstFree (suc n) i {s} v e lower = elim (Bool-cases (bitmap_get s i)) [
  | inl used ↦
      rw (used, alloc_page_loop)
        (alloc_page_loop-FirstFree n (i + 1) v (omega arith) (λ q h. elim (Bool-cases (q == i)) [
          | inl same ↦ rw ((==_iff q i).0 same) used
          | inr other ↦ lower q (ground arith)
        ]))
  | inr free ↦
      rw (free, alloc_page_loop)
        (inl (i, omega (arith, v.small), take-Taken i v (omega arith) free, lower))
]

-- `allocPage` on a valid allocator either returns the address of the first free page and marks that
-- page alone as used, or there is no free page, it returns 0 and changes nothing. The invariant and
-- the counter of free pages are kept.
pub alloc_page-FirstFree : (s : Pmm) → IsValid s → FirstFree s (alloc_page s)
unfolding alloc_page
alloc_page-FirstFree s v =
    alloc_page_loop-FirstFree s.total_pages 0 v (omega arith) (λ q h. absurd (omega arith))

-- The body that `freePage` and the loop of `freePages` share.
abbrev give_if_used : Pmm → ℕ → Pmm
give_if_used s p = if ltb p s.total_pages && bitmap_get s p then give_page s p else s

pub give_if_used-Given : {s : Pmm} (p : ℕ) → IsValid s → Given s (give_if_used s p) p 1
give_if_used-Given {s} p v = elim (Bool-cases (ltb p s.total_pages && bitmap_get s p)) [
  | inl used ↦ rw used (record {
    bits = λ q. ground (arith, get-give s p q v.bytes);
    same_total = total-give s p;
    valid = give-IsValid p v (ground arith) (ground arith);
  })
  | inr not_used ↦ rw not_used (record {
    bits = λ q. elim (ℕ_discrete p q) [ yes e ↦ bits_at q e not_used | no ne ↦ ground arith ];
    same_total = refl;
    valid = v;
  })
]
  where
    bits_at :
        (q : ℕ)
        → p ≡ q
        → (ltb p s.total_pages && bitmap_get s p) ≡ false
        → bitmap_get s q
          ≡ (if leb p q && ltb q (p + 1) && ltb q s.total_pages then false else bitmap_get s q)
    bits_at q e n = let n' = rw e at n in ground arith

-- `freePage` on a valid allocator makes the page of the address free if it is one of the pages that
-- the bitmap covers, leaves every other page as it was, and keeps the invariant. A second call with
-- the same address changes nothing.
pub free_page-Given :
    (s : Pmm) (addr : ℕ)
    → IsValid s
    → Given s (free_page s addr) (addr / page_size) 1
      × (free_page (free_page s addr) addr ≡ free_page s addr)
unfolding free_page
free_page-Given s addr v =
    let g = give_if_used-Given (addr / page_size) v in
    (g, ground (arith, g.bits (addr / page_size), g.same_total))
