-- ===== src/Pmm.antt =====
-- mem/kmemory.cpp, the physical page allocator: a bitmap with one bit for each page of memory, set
-- when the page is in use. The bitmap lies in physical memory, which the kernel reaches byte by byte
-- through the direct map (`phys_to_virt`).
pub mod Bits
pub mod Inv
pub mod Single
pub mod Runs
pub mod Release
pub mod Init
pub mod Boot
mod Tests
use synx.Prelude.{
  ℕ, zero, suc, ◌+◌, ◌-◌, ◌/◌, ◌%◌, ◌^◌, bit_and, bit_or, bit_xor, Bool, true, false, ◌*◌, ◌&&◌,
  ltb, leb, ◌==◌, Option, none, some, List, [], ◌∷◌, if◌then◌else◌, add64, sub64, mul64,
}

abbrev pub page_size : ℕ
page_size = 4096

-- The globals of the file, and the physical memory that holds the bitmap.
pub record Pmm : Type 0 where
  pub mem : ℕ → ℕ
  pub bitmap : ℕ
  pub total_pages : ℕ
  pub free_pages : ℕ

-- A store of one byte.
pub poke : (ℕ → ℕ) → ℕ → ℕ → ℕ → ℕ
poke mem a v b = if a == b then v else mem b

-- The byte of the bitmap that holds the bit of page `bit`.
abbrev pub byte_of : Pmm → ℕ → ℕ
byte_of s bit = s.mem (s.bitmap + bit / 8)

pub bitmap_get : Pmm → ℕ → Bool
bitmap_get s bit = (byte_of s bit / 2 ^ (bit % 8)) % 2 == 1

pub bitmap_set : Pmm → ℕ → Pmm
unfolding poke
bitmap_set s bit = record s {
  mem = poke s.mem (s.bitmap + bit / 8) (bit_or (byte_of s bit) (2 ^ (bit % 8)) % 256);
}

-- `~` works on a 32-bit `int`; the store keeps the low byte.
pub bitmap_clear : Pmm → ℕ → Pmm
unfolding poke
bitmap_clear s bit = record s {
  mem =
      poke s.mem (s.bitmap + bit / 8)
        (bit_and (byte_of s bit) (bit_xor 0xffff_ffff (2 ^ (bit % 8))) % 256);
}

-- Handing out one page: `bitmap_set(i); free_pages--;`.
pub take_page : Pmm → ℕ → Pmm
unfolding bitmap_set
take_page s i = let t = bitmap_set s i in record t { free_pages = sub64 t.free_pages 1 }

-- Giving one page back: `bitmap_clear(i); free_pages++;`.
pub give_page : Pmm → ℕ → Pmm
unfolding bitmap_clear
give_page s i = let t = bitmap_clear s i in record t { free_pages = add64 t.free_pages 1 }

-- The loop of `allocPage` over the `n` pages from `i` on.
alloc_page_loop : ℕ → ℕ → Pmm → ℕ × Pmm
alloc_page_loop zero i s = (0, s)
alloc_page_loop (suc n) i s = elim (bitmap_get s i) [
  | true ↦ alloc_page_loop n (i + 1) s
  | false ↦ (mul64 i page_size, take_page s i)
]

pub alloc_page : Pmm → ℕ × Pmm
alloc_page s = alloc_page_loop s.total_pages 0 s

pub free_page : Pmm → ℕ → Pmm
free_page s phys_addr =
    let page = phys_addr / page_size in
    if ltb page s.total_pages && bitmap_get s page then give_page s page else s

-- `for (j = start; j <= i; j++) bitmap_set(j)`, with `n` rounds left.
pub mark_range : ℕ → ℕ → Pmm → Pmm
mark_range zero j s = s
mark_range (suc n) j s = mark_range n (j + 1) (bitmap_set s j)

-- What `allocPages` writes once the run is found.
pub take_range : (n start count : ℕ) → Pmm → Pmm
unfolding mark_range
take_range n start count s =
    let t = mark_range n start s in record t { free_pages = sub64 t.free_pages count }

-- The loop of `allocPages` over the `n` pages from `i` on.
alloc_pages_loop : ℕ → (count i consecutive start_page : ℕ) → Pmm → ℕ × Pmm
alloc_pages_loop zero count i consecutive start_page s = (0, s)
alloc_pages_loop (suc n) count i consecutive start_page s = elim (bitmap_get s i) [
  | true ↦ alloc_pages_loop n count (i + 1) 0 start_page s
  | false ↦
      let start = if consecutive == 0 then i else start_page in
      elim (consecutive + 1 == count) [
        | true ↦ (mul64 start page_size, take_range (i + 1 - start) start count s)
        | false ↦ alloc_pages_loop n count (i + 1) (consecutive + 1) start s
      ]
]

pub alloc_pages : Pmm → ℕ → ℕ × Pmm
alloc_pages s count =
    if count == 0
    then (0, s)
    else if count == 1
    then alloc_page s
    else alloc_pages_loop s.total_pages count 0 0 0 s

-- The body of the loop of `freePages`.
free_one : Pmm → ℕ → Pmm
free_one s page = if ltb page s.total_pages && bitmap_get s page then give_page s page else s

free_pages_loop : ℕ → (page i : ℕ) → Pmm → Pmm
free_pages_loop zero page i s = s
free_pages_loop (suc n) page i s = free_pages_loop n page (i + 1) (free_one s (add64 page i))

pub free_pages : Pmm → ℕ → ℕ → Pmm
free_pages s phys_addr count = free_pages_loop count (phys_addr / page_size) 0 s

-- `struct limine_memmap_entry`
pub record MemmapEntry : Type 0 where
  pub base : ℕ
  pub length : ℕ
  pub type : ℕ

abbrev pub memmap_usable : ℕ
memmap_usable = 0

-- The first loop of `init`: the end of the highest entry.
pub highest_address : ℕ → List MemmapEntry → ℕ
highest_address highest [] = highest
highest_address highest (e ∷ rest) =
    highest_address (let top = add64 e.base e.length in if ltb highest top then top else highest)
      rest

-- `& ~(PAGE_SIZE - 1)` clears the low twelve bits.
pub bitmap_size_of : ℕ → ℕ
bitmap_size_of pages = sub64 (add64 (pages / 8) page_size) 1 / page_size * page_size

-- The second loop: the base of the first usable entry that holds the bitmap, 0 if there is none.
pub find_bitmap : ℕ → List MemmapEntry → ℕ
find_bitmap size [] = 0
find_bitmap size (e ∷ rest) =
    if e.type == memmap_usable && leb size e.length then e.base else find_bitmap size rest

-- The third loop: `n` bytes of 0xFF from the address `a` on.
pub fill_used : ℕ → ℕ → (ℕ → ℕ) → ℕ → ℕ
fill_used zero a mem = mem
fill_used (suc n) a mem = fill_used n (a + 1) (poke mem a 0xff)

-- The pages of one usable entry, from `page` to `end`; `fuel` bounds the rounds.
pub release_entry : ℕ → (page end size : ℕ) → Pmm → Pmm
release_entry zero page end size s = s
release_entry (suc fuel) page end size s = elim (ltb page end) [
  | false ↦ s
  | true ↦ release_entry fuel (add64 page page_size) end size (
      if leb s.bitmap page && ltb page (add64 s.bitmap size)
      then s
      else give_page s (page / page_size))
]

-- The fourth loop, over the entries.
pub release_usable : List MemmapEntry → ℕ → Pmm → Pmm
release_usable [] size s = s
release_usable (e ∷ rest) size s = release_usable rest size (
    if e.type == memmap_usable
    then release_entry (e.length / page_size + 1) e.base (add64 e.base e.length) size s
    else s)

-- `init` on the memory map and the memory that the boot loader leaves; `none` is the kernel panic.
pub init : List MemmapEntry → (ℕ → ℕ) → Option Pmm
init entries mem =
    let pages = highest_address 0 entries / page_size in
    let size = bitmap_size_of pages in
    let bitmap = find_bitmap size entries in
    if bitmap == 0
    then none
    else some (
        release_usable entries size (record {
          mem = fill_used (size / 8) bitmap mem;
          bitmap = bitmap;
          total_pages = pages;
          free_pages = 0;
        }))
