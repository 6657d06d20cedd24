-- ===== src/Pmm/Inv.antt =====
-- The invariant of mem/kmemory.cpp: `free_pages` counts the clear bits of the bitmap.
use synx.Prelude.{
  ℕ, suc, ◌+◌, ◌^◌, ◌≤◌, ◌<◌, ◌≡◌, refl, Bool, true, false, not, ap, arith, ◌==◌, if◌then◌else◌,
  ltb, leb, ◌≤◌, ◌&&◌, count_below, count_below-drop, count_below-le,
}
use synx.Pmm.{Pmm, bitmap_get, take_page, give_page}
use synx.Pmm.Bits.{
  IsBytes, bitmap_get-set, bitmap_get-clear, bitmap_set-IsBytes, bitmap_clear-IsBytes,
}

abbrev pub is_free : Pmm → ℕ → Bool
is_free s p = not (bitmap_get s p)

-- Memory holds bytes, addresses of pages fit 64 bits, and the counter is exact.
pub record IsValid (s : Pmm) : Type 0 where
  pub bytes : IsBytes s.mem
  pub small : s.total_pages ≤ 2 ^ 52
  pub counted : s.free_pages ≡ count_below s.total_pages (is_free s)

pub get-take :
    (s : Pmm) (i p : ℕ)
    → IsBytes s.mem
    → bitmap_get (take_page s i) p ≡ (if i == p then true else bitmap_get s p)
unfolding bitmap_get take_page
get-take s i p b = unfold bitmap_get in bitmap_get-set s i p b

pub get-give :
    (s : Pmm) (i p : ℕ)
    → IsBytes s.mem
    → bitmap_get (give_page s i) p ≡ (if i == p then false else bitmap_get s p)
unfolding bitmap_get give_page
get-give s i p b = unfold bitmap_get in bitmap_get-clear s i p b

module _ {s : Pmm} (i : ℕ) (v : IsValid s) (inside : i < s.total_pages) where
  -- A free page handed out leaves one page less in the bitmap and in the counter.
  pub take-counted :
      bitmap_get s i ≡ false
      → (s.free_pages ≡ (take_page s i).free_pages + 1)
        × ((take_page s i).free_pages ≡ count_below s.total_pages (is_free (take_page s i)))
  unfolding take_page
  take-counted e = omega (arith, v.counted, drop, count_below-le s.total_pages (is_free s), v.small)
    where
      drop :
          count_below s.total_pages (is_free s)
          ≡ suc (count_below s.total_pages (is_free (take_page s i)))
      drop =
          count_below-drop s.total_pages (is_free s) (is_free (take_page s i)) i inside (ap not e)
            (ground (arith, get-take s i i v.bytes))
            (λ y ne. ground (arith, get-take s i y v.bytes))

  pub give-counted :
      bitmap_get s i ≡ true
      → ((give_page s i).free_pages ≡ s.free_pages + 1)
        × ((give_page s i).free_pages ≡ count_below s.total_pages (is_free (give_page s i)))
  unfolding give_page
  give-counted e =
      omega
        (arith, v.counted, drop, count_below-le s.total_pages (is_free (give_page s i)), v.small)
    where
      drop :
          count_below s.total_pages (is_free (give_page s i))
          ≡ suc (count_below s.total_pages (is_free s))
      drop =
          count_below-drop s.total_pages (is_free (give_page s i)) (is_free s) i inside
            (ground (arith, get-give s i i v.bytes)) (ap not e)
            (λ y ne. ground (arith, get-give s i y v.bytes))

  pub take-IsValid : bitmap_get s i ≡ false → IsValid (take_page s i)
  unfolding take_page
  take-IsValid e = record {
    bytes = bitmap_set-IsBytes s i v.bytes;
    small = v.small;
    counted = (take-counted e).1;
  }

  pub give-IsValid : bitmap_get s i ≡ true → IsValid (give_page s i)
  unfolding give_page
  give-IsValid e = record {
    bytes = bitmap_clear-IsBytes s i v.bytes;
    small = v.small;
    counted = (give-counted e).1;
  }

pub total-take : (s : Pmm) (i : ℕ) → (take_page s i).total_pages ≡ s.total_pages
unfolding take_page
total-take s i = refl

pub total-give : (s : Pmm) (i : ℕ) → (give_page s i).total_pages ≡ s.total_pages
unfolding give_page
total-give s i = refl

-- `t` is `s` after the `count` pages from `start` on, all free before, were handed out: their bits
-- are set, no other bit changed, and the counter fell by `count`.
pub record Taken (s t : Pmm) (start count : ℕ) : Type 0 where
  pub inside : start + count ≤ s.total_pages
  pub was_free : (p : ℕ) → start ≤ p → p < start + count → bitmap_get s p ≡ false
  pub bits :
      (p : ℕ)
      → bitmap_get t p ≡ (if leb start p && ltb p (start + count) then true else bitmap_get s p)
  pub counter : s.free_pages ≡ t.free_pages + count
  pub same_total : t.total_pages ≡ s.total_pages
  pub valid : IsValid t

-- `t` is `s` after the `count` pages from `start` on were given back.
pub record Given (s t : Pmm) (start count : ℕ) : Type 0 where
  pub bits :
      (p : ℕ)
      → bitmap_get t p ≡ (
          if leb start p && ltb p (start + count) && ltb p s.total_pages
          then false
          else bitmap_get s p)
  pub same_total : t.total_pages ≡ s.total_pages
  pub valid : IsValid t
