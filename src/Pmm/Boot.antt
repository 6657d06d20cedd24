-- ===== src/Pmm/Boot.antt =====
-- The bitmap that `pmm::init` of mem/kmemory.cpp leaves, page by page.
use synx.Prelude.{
  ℕ, zero, suc, ◌+◌, ◌*◌, ◌/◌, ◌%◌, ◌^◌, ◌≤◌, ◌<◌, ◌≡◌, ◌⊎◌, inl, inr, refl, Bool, true, false,
  arith, ◌∙◌, Bool-cases, ltb, leb, ◌&&◌, ◌==◌, ==_iff, if◌then◌else◌, add64, List, [], ◌∷◌, some,
  every_below, every_below_sound,
}
use synx.Pmm.{
  Pmm, page_size, poke, bitmap_get, MemmapEntry, memmap_usable, highest_address, bitmap_size_of,
  find_bitmap, fill_used, release_entry, release_usable, init,
}
use synx.Pmm.Bits.{IsBytes}
use synx.Pmm.Init.{
  Same, Outside, OffBitmap, release_entry-Same, get-release_entry-Outside, get-release_entry_free,
  get-release_entry_inside,
}

abbrev pub end_of : MemmapEntry → ℕ
end_of e = e.base + e.length

-- The entries end a page or more below 2 ^ 64.
abbrev pub IsMemmap : List MemmapEntry → Type 0
IsMemmap [] = Unit {0}
IsMemmap (e ∷ rest) = (end_of e + page_size ≤ 2 ^ 64) × IsMemmap rest

-- No usable entry reaches into the page `p`.
abbrev pub NotUsable : ℕ → List MemmapEntry → Type 0
NotUsable p [] = Unit {0}
NotUsable p (e ∷ rest) = ((e.type ≡ memmap_usable → Outside p e.base (end_of e))) × NotUsable p rest

-- The page `p` begins inside a usable entry, which starts at a page boundary.
abbrev pub UsablePage : ℕ → List MemmapEntry → Type 0
UsablePage p [] = ⊥
UsablePage p (e ∷ rest) =
    ((e.type ≡ memmap_usable)
      × (e.base % page_size ≡ 0)
      × (e.base ≤ p * page_size)
      × (p * page_size < end_of e))
    ⊎ UsablePage p rest

-- The round of `release_usable` for one entry.
abbrev release_one : MemmapEntry → ℕ → Pmm → Pmm
release_one e size s =
    if e.type == memmap_usable
    then release_entry (e.length / page_size + 1) e.base (add64 e.base e.length) size s
    else s

module _ (e : MemmapEntry) (size : ℕ) (s : Pmm) (b : IsBytes s.mem) where
  release_one-Same : Same s (release_one e size s)
  release_one-Same = elim (Bool-cases (e.type == memmap_usable)) [
    | inl usable ↦
        rw usable
          (release_entry-Same (e.length / page_size + 1) e.base (add64 e.base e.length) size s b)
    | inr other ↦ rw other (record { bytes = b; same_bitmap = refl; same_total = refl })
  ]

  module _ (p : ℕ) (small : end_of e + page_size ≤ 2 ^ 64) where
    exact_end : add64 e.base e.length ≡ end_of e
    exact_end = omega arith

    get-release_one-Outside :
        (e.type ≡ memmap_usable → Outside p e.base (end_of e))
        → bitmap_get (release_one e size s) p ≡ bitmap_get s p
    get-release_one-Outside out = elim (Bool-cases (e.type == memmap_usable)) [
      | inl usable ↦
          rw (usable, exact_end)
            (get-release_entry-Outside (e.length / page_size + 1) e.base (end_of e) size p s b small
              (out ((==_iff e.type memmap_usable).0 usable)))
      | inr other ↦ rw other
    ]

    get-release_one_free : bitmap_get s p ≡ false → bitmap_get (release_one e size s) p ≡ false
    get-release_one_free free = elim (Bool-cases (e.type == memmap_usable)) [
      | inl usable ↦ rw usable (
          get-release_entry_free (e.length / page_size + 1) e.base (add64 e.base e.length) size p s
            b free)
      | inr other ↦ rw other free
    ]

    get-release_one_inside :
        e.type ≡ memmap_usable
        → e.base % page_size ≡ 0
        → e.base ≤ p * page_size
        → p * page_size < end_of e
        → OffBitmap p size s
        → bitmap_get (release_one e size s) p ≡ false
    get-release_one_inside usable aligned lo hi off =
        rw ((==_iff e.type memmap_usable).1 usable, exact_end)
          (get-release_entry_inside (e.length / page_size + 1) e.base (end_of e) size p s b small
            aligned lo hi (omega arith) off)

release_usable-Same :
    (entries : List MemmapEntry) (size : ℕ) (s : Pmm)
    → IsBytes s.mem
    → Same s (release_usable entries size s)
unfolding release_usable
release_usable-Same [] size s b = record { bytes = b; same_bitmap = refl; same_total = refl }
release_usable-Same (e ∷ rest) size s b =
    let one = release_one-Same e size s b in
    let more = release_usable-Same rest size (release_one e size s) one.bytes in
    record {
      bytes = more.bytes;
      same_bitmap = more.same_bitmap ∙ one.same_bitmap;
      same_total = more.same_total ∙ one.same_total;
    }

get-release_usable_outside :
    (entries : List MemmapEntry) (size p : ℕ) (s : Pmm)
    → IsBytes s.mem
    → IsMemmap entries
    → NotUsable p entries
    → bitmap_get (release_usable entries size s) p ≡ bitmap_get s p
unfolding release_usable
get-release_usable_outside [] size p s b map out = refl
get-release_usable_outside (e ∷ rest) size p s b map out =
    get-release_usable_outside rest size p (release_one e size s)
      (release_one-Same e size s b).bytes map.1 out.1
    ∙ get-release_one-Outside e size s b p map.0 out.0

get-release_usable_free :
    (entries : List MemmapEntry) (size p : ℕ) (s : Pmm)
    → IsBytes s.mem
    → IsMemmap entries
    → bitmap_get s p ≡ false
    → bitmap_get (release_usable entries size s) p ≡ false
unfolding release_usable
get-release_usable_free [] size p s b map free = free
get-release_usable_free (e ∷ rest) size p s b map free =
    get-release_usable_free rest size p (release_one e size s) (release_one-Same e size s b).bytes
      map.1 (get-release_one_free e size s b p map.0 free)

get-release_usable_inside :
    (entries : List MemmapEntry) (size p : ℕ) (s : Pmm)
    → IsBytes s.mem
    → IsMemmap entries
    → OffBitmap p size s
    → UsablePage p entries
    → bitmap_get (release_usable entries size s) p ≡ false
unfolding release_usable
get-release_usable_inside [] size p s b map off u = elim u [ ]
get-release_usable_inside (e ∷ rest) size p s b map off (inl (usable, aligned, lo, hi)) =
    get-release_usable_free rest size p (release_one e size s) (release_one-Same e size s b).bytes
      map.1 (get-release_one_inside e size s b p map.0 usable aligned lo hi off)
get-release_usable_inside (e ∷ rest) size p s b map off (inr u) =
    let one = release_one-Same e size s b in
    get-release_usable_inside rest size p (release_one e size s) one.bytes map.1
      (rw one.same_bitmap off) u

fill_used_lem :
    (n a : ℕ) (mem : ℕ → ℕ) (x : ℕ)
    → fill_used n a mem x ≡ (if leb a x && ltb x (a + n) then 0xff else mem x)
unfolding fill_used poke
fill_used_lem zero a mem x = ground arith
fill_used_lem (suc n) a mem x = ground (arith, fill_used_lem n (a + 1) (poke mem a 0xff) x)

full_byte : (k : ℕ) → k < 8 → (0xff / 2 ^ k) % 2 ≡ 1
full_byte k h = (==_iff _ 1).0 (every_below_sound 8 (λ k. (0xff / 2 ^ k) % 2 == 1) k table h)
  where
    table : every_below 8 (λ k. (0xff / 2 ^ k) % 2 == 1) ≡ true
    table = unfold every_below in refl

-- The allocator that `init` builds before it releases pages.
abbrev blank : List MemmapEntry → (ℕ → ℕ) → Pmm
blank entries mem =
    let pages = highest_address 0 entries / page_size in
    let size = bitmap_size_of pages in
    record {
      mem = fill_used (size / 8) (find_bitmap size entries) mem;
      bitmap = find_bitmap size entries;
      total_pages = pages;
      free_pages = 0;
    }

abbrev size_at : List MemmapEntry → ℕ
size_at entries = bitmap_size_of (highest_address 0 entries / page_size)

init-some :
    (entries : List MemmapEntry) (mem : ℕ → ℕ) {s : Pmm}
    → init entries mem ≡ some s
    → s ≡ release_usable entries (size_at entries) (blank entries mem)
unfolding init
init-some entries mem e = elim (Bool-cases (find_bitmap (size_at entries) entries == 0)) [
  | inl panic ↦ cc (rw panic at e)
  | inr found ↦ cc (rw found at e)
]

blank-IsBytes :
    (entries : List MemmapEntry) (mem : ℕ → ℕ) → IsBytes mem → IsBytes (blank entries mem).mem
blank-IsBytes entries mem b a =
    ground (
      arith,
      fill_used_lem (size_at entries / 8) (find_bitmap (size_at entries) entries) mem a,
      b a,
    )

-- What the boot loader left in the place of the bit of page `p`.
abbrev pub boot_bit : (ℕ → ℕ) → (bitmap p : ℕ) → Bool
boot_bit mem bitmap p = (mem (bitmap + p / 8) / 2 ^ (p % 8)) % 2 == 1

get-blank :
    (entries : List MemmapEntry) (mem : ℕ → ℕ) (p : ℕ)
    → bitmap_get (blank entries mem) p ≡ (
        if ltb (p / 8) (size_at entries / 8)
        then true
        else boot_bit mem (find_bitmap (size_at entries) entries) p)
unfolding bitmap_get
get-blank entries mem p = ground (
  arith,
  fill_used_lem (size_at entries / 8) (find_bitmap (size_at entries) entries) mem
      (find_bitmap (size_at entries) entries + p / 8),
  full_byte (p % 8),
)

module _ (entries : List MemmapEntry) (mem : ℕ → ℕ) {s : Pmm} (b : IsBytes mem)
    (map : IsMemmap entries) (done : init entries mem ≡ some s) where
  booted : Same (blank entries mem) (release_usable entries (size_at entries) (blank entries mem))
  booted =
      release_usable-Same entries (size_at entries) (blank entries mem)
        (blank-IsBytes entries mem b)

  -- After `init` every page at which a usable entry has memory is free, except inside the bitmap
  -- itself. The entries end a page below 2 ^ 64 and the entry starts at a page boundary.
  pub init-UsablePage :
      (p : ℕ)
      → UsablePage p entries
      → OffBitmap p (bitmap_size_of s.total_pages) s
      → bitmap_get s p ≡ false
  init-UsablePage p u off =
      let off' = rw (init-some entries mem done, booted.same_total, booted.same_bitmap) at off in
      rw (init-some entries mem done) (
        get-release_usable_inside entries (size_at entries) p (blank entries mem)
          (blank-IsBytes entries mem b) map off' u)

  -- After `init` a page that no usable entry reaches into is marked as used only if its bit lies in
  -- the first eighth of the bitmap; else its bit is what the boot loader left in memory.
  pub init-NotUsable :
      (p : ℕ)
      → NotUsable p entries
      → bitmap_get s p
        ≡ (if ltb (p / 8) (bitmap_size_of s.total_pages / 8) then true else boot_bit mem s.bitmap p)
  unfolding release_usable
  init-NotUsable p out =
      rw (init-some entries mem done, booted.same_total, booted.same_bitmap)
        (get-release_usable_outside entries (size_at entries) p (blank entries mem)
            (blank-IsBytes entries mem b) map out
          ∙ get-blank entries mem p)
