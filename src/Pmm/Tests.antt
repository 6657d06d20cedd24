-- ===== src/Pmm/Tests.antt =====
-- Runs of the page allocator on small memories, and its theorems at them.
use synx.Prelude.{
  ℕ, ◌*◌, ◌/◌, ◌≡◌, inl, inr, refl, true, false, arith, if◌then◌else◌, ltb, List, [], ◌∷◌, some,
  count_below,
}
use synx.Pmm.{
  Pmm, page_size, poke, bitmap_get, bitmap_set, bitmap_clear, take_page, give_page, alloc_page_loop,
  alloc_page, free_page, mark_range, take_range, alloc_pages_loop, alloc_pages, free_one,
  free_pages_loop, free_pages, MemmapEntry, highest_address, bitmap_size_of, find_bitmap, fill_used,
  release_entry, release_usable, init,
}
use synx.Pmm.Inv.{IsValid, Taken, Given}
use synx.Pmm.Single.{FirstFree, alloc_page-FirstFree, free_page-Given}
use native.Mathlib.Decide.{ℕ_discrete}
use synx.Pmm.Bits.{IsBytes}
use synx.Pmm.Runs.{run-Taken, RunTaken, alloc_pages-RunTaken}
use synx.Pmm.Release.{free_pages-Given, free_pages-Taken}
use synx.Pmm.Boot.{boot_bit, init-UsablePage, init-NotUsable}

-- Twelve pages; 0 to 2 and 5 are in use. The bitmap stands at address 4096.
abbrev twelve : Pmm
twelve = record {
  mem = λ a. if ltb a 4096 then 0 else if ltb a 4097 then 0x27 else 0xf0;
  bitmap = 4096;
  total_pages = 12;
  free_pages = 8;
}

program : Unit {0}
unfolding alloc_page alloc_pages alloc_page_loop alloc_pages_loop take_range mark_range free_page
    free_one free_pages free_pages_loop give_page take_page bitmap_get bitmap_set bitmap_clear poke
    count_below
program = tt

twelve-IsValid : IsValid twelve
unfolding program
twelve-IsValid = record { bytes = λ a. ground arith; small = omega arith; counted = refl }

first_run : (alloc_pages twelve 3).0 ≡ 6 * 4096
unfolding program
first_run = refl

alloc_page-FirstFree_example : FirstFree twelve (alloc_page twelve)
alloc_page-FirstFree_example = alloc_page-FirstFree twelve twelve-IsValid

alloc_pages-RunTaken_example : RunTaken twelve 3 (alloc_pages twelve 3)
alloc_pages-RunTaken_example = alloc_pages-RunTaken twelve 3 twelve-IsValid (omega arith)

free_page-Given_example :
    Given twelve (free_page twelve 20480) (20480 / page_size) 1
    × (free_page (free_page twelve 20480) 20480 ≡ free_page twelve 20480)
free_page-Given_example = free_page-Given twelve 20480 twelve-IsValid

free_pages-Given_example : Given twelve (free_pages twelve 0 4) (0 / page_size) 4
free_pages-Given_example = free_pages-Given twelve 0 4 twelve-IsValid (omega arith)

-- Pages 6 and 7 handed out.
two-Taken : Taken twelve (take_range 2 6 2 twelve) 6 2
unfolding bitmap_get
two-Taken = run-Taken twelve 6 2 twelve-IsValid (omega arith) (λ p l u. elim (ℕ_discrete p 6) [
  | yes e ↦ rw e refl
  | no ne ↦ let e : p ≡ 7 = omega arith in rw e refl
])

free_pages-Taken_example :
    ((p : ℕ)
      → bitmap_get (free_pages (take_range 2 6 2 twelve) (6 * page_size) 2) p ≡ bitmap_get twelve p)
    × ((free_pages (take_range 2 6 2 twelve) (6 * page_size) 2).free_pages ≡ 8)
free_pages-Taken_example = free_pages-Taken 6 2 twelve-IsValid two-Taken

-- 128 MiB: 64 KiB of usable memory at 64 KiB, reserved memory behind it. The bitmap takes one page.
abbrev memory_map : List MemmapEntry
memory_map =
    record { base = 65536; length = 65536; type = 0 }
    ∷ record { base = 131072; length = 134086656; type = 1 }
    ∷ []

abbrev clean : ℕ → ℕ
clean a = 0

abbrev booted : Pmm
booted = release_usable memory_map 4096 (record {
  mem = fill_used 512 65536 clean;
  bitmap = 65536;
  total_pages = 32768;
  free_pages = 0;
})

boots : init memory_map clean ≡ some booted
unfolding init highest_address bitmap_size_of find_bitmap
boots = refl

booted_facts : (booted.total_pages ≡ 32768) × (booted.bitmap ≡ 65536) × (booted.free_pages ≡ 15)
unfolding release_usable release_entry give_page bitmap_clear
booted_facts = (refl, refl, refl)

clean-IsBytes : IsBytes clean
clean-IsBytes a = omega arith

init-UsablePage_example : bitmap_get booted 17 ≡ false
unfolding release_usable release_entry give_page bitmap_clear bitmap_size_of
init-UsablePage_example =
    init-UsablePage memory_map clean clean-IsBytes (omega arith) boots 17
      (inl (refl, refl, omega arith, omega arith)) (inr (omega arith))

-- Page 20000 is reserved, and looks free.
init-NotUsable_example : bitmap_get booted 20000 ≡ (
    if ltb (20000 / 8) (bitmap_size_of booted.total_pages / 8)
    then true
    else boot_bit clean booted.bitmap 20000)
init-NotUsable_example =
    init-NotUsable memory_map clean clean-IsBytes (omega arith) boots 20000
      ((λ e. inr (omega arith)), ((λ e. inr (omega arith)), tt))
