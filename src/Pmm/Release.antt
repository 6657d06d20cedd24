-- ===== src/Pmm/Release.antt =====
-- `freePages` of mem/kmemory.cpp, and what it undoes.
use synx.Prelude.{
  ℕ, zero, suc, ◌+◌, ◌*◌, ◌/◌, ◌^◌, ◌<◌, ◌≡◌, refl, Bool, false, arith, ◌∙◌, ap, sym, not,
  count_below, count_below-congr, ltb, leb, ◌&&◌, if◌then◌else◌, add64,
}
use synx.Pmm.{Pmm, page_size, bitmap_get, free_one, free_pages_loop, free_pages}
use synx.Pmm.Inv.{is_free, IsValid, Taken, Given}
use synx.Pmm.Single.{give_if_used-Given}

free_one-Given : {s : Pmm} (p : ℕ) → IsValid s → Given s (free_one s p) p 1
unfolding free_one
free_one-Given p v = give_if_used-Given p v

free_pages_loop-Given :
    (n page i : ℕ) {s : Pmm}
    → IsValid s
    → page + (i + n) < 2 ^ 64
    → Given s (free_pages_loop n page i s) (page + i) n
unfolding free_pages_loop
free_pages_loop-Given zero page i v small = record {
  bits = λ p. ground arith;
  same_total = refl;
  valid = v;
}
free_pages_loop-Given (suc n) page i {s} v small =
    let exact : add64 page i ≡ page + i = omega arith in
    rw (exact, free_pages_loop)
      (let one = free_one-Given {s = s} (page + i) v in
        let rest =
          free_pages_loop-Given n page (i + 1) {s = free_one s (page + i)} one.valid
            (omega arith) in
        record {
          bits = λ p. ground (arith, rest.bits p, one.bits p, one.same_total);
          same_total = rest.same_total ∙ one.same_total;
          valid = rest.valid;
        })

-- `freePages` on a valid allocator makes the `count` pages from the address on free, as far as the
-- bitmap covers them, leaves every other page as it was, and keeps the invariant, whichever of the
-- pages were free before. The page numbers must fit 64 bits.
pub free_pages-Given :
    (s : Pmm) (addr count : ℕ)
    → IsValid s
    → addr / page_size + count < 2 ^ 64
    → Given s (free_pages s addr count) (addr / page_size) count
unfolding free_pages
free_pages-Given s addr count v small =
    let g = free_pages_loop-Given count (addr / page_size) 0 {s = s} v (omega arith) in
    record { bits = λ p. ground (arith, g.bits p); same_total = g.same_total; valid = g.valid }

-- Pages that were handed out together and are given back together leave every page and the counter
-- of free pages as they were before.
pub free_pages-Taken :
    {s t : Pmm} (start count : ℕ)
    → IsValid s
    → Taken s t start count
    → ((p : ℕ) → bitmap_get (free_pages t (start * page_size) count) p ≡ bitmap_get s p)
      × ((free_pages t (start * page_size) count).free_pages ≡ s.free_pages)
free_pages-Taken {s} {t} start count v taken =
    let same_start : start * page_size / page_size ≡ start = omega arith in
    let g =
      free_pages-Given t (start * page_size) count taken.valid
        (omega (arith, taken.inside, v.small)) in
    let back : (p : ℕ) → bitmap_get (free_pages t (start * page_size) count) p ≡ bitmap_get s p =
      λ p. restored p (rw same_start at (g.bits p)) in
    (
      back,
      g.valid.counted
          ∙ ap (λ n. count_below n (is_free (free_pages t (start * page_size) count)))
              (g.same_total ∙ taken.same_total)
          ∙ count_below-congr s.total_pages (is_free (free_pages t (start * page_size) count))
              (is_free s) (λ y h. ap not (back y))
          ∙ sym v.counted,
    )
  where
    restored :
        (p : ℕ) {b : Bool}
        → b ≡ (
            if leb start p && ltb p (start + count) && ltb p t.total_pages
            then false
            else bitmap_get t p)
        → b ≡ bitmap_get s p
    restored p e = ground (arith, e, taken.bits p, taken.was_free p, taken.inside, taken.same_total)
