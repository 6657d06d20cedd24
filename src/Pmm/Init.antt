-- ===== src/Pmm/Init.antt =====
-- `pmm::init` of mem/kmemory.cpp: which bits of the bitmap it leaves clear.
use native.Mathlib.Decide.{ℕ_discrete}
use synx.Prelude.{
  ℕ, zero, suc, ◌+◌, ◌*◌, ◌/◌, ◌%◌, ◌^◌, ◌≤◌, ◌<◌, ◌≡◌, ◌⊎◌, inl, inr, refl, true, false, arith,
  ◌∙◌, not, Bool-cases, ltb, leb, ◌&&◌, ◌==◌, if◌then◌else◌, add64,
}
use synx.Pmm.{Pmm, page_size, bitmap_get, give_page, release_entry}
use synx.Pmm.Bits.{IsBytes, bitmap_clear-IsBytes}
use synx.Pmm.Inv.{get-give}

-- Bytes stay bytes, and the bitmap stays where it is, through every write of the loops.
pub record Same (s t : Pmm) : Type 0 where
  pub bytes : IsBytes t.mem
  pub same_bitmap : t.bitmap ≡ s.bitmap
  pub same_total : t.total_pages ≡ s.total_pages

give_page-Same : (s : Pmm) (i : ℕ) → IsBytes s.mem → Same s (give_page s i)
unfolding give_page
give_page-Same s i b = record {
  bytes = bitmap_clear-IsBytes s i b;
  same_bitmap = refl;
  same_total = refl;
}

-- The round of `release_entry` at `page`.
abbrev release_page : (page size : ℕ) → Pmm → Pmm
release_page page size s =
    if leb s.bitmap page && ltb page (add64 s.bitmap size)
    then s
    else give_page s (page / page_size)

release_page-Same : (page size : ℕ) (s : Pmm) → IsBytes s.mem → Same s (release_page page size s)
release_page-Same page size s b =
    elim (Bool-cases (leb s.bitmap page && ltb page (add64 s.bitmap size))) [
      | inl skip ↦ rw skip (record { bytes = b; same_bitmap = refl; same_total = refl })
      | inr take ↦ rw take (give_page-Same s (page / page_size) b)
    ]

-- A round clears the bit of its own page at most.
get-release_page :
    (page size p : ℕ) (s : Pmm)
    → IsBytes s.mem
    → bitmap_get (release_page page size s) p ≡ (
        if page / page_size == p && not (leb s.bitmap page && ltb page (add64 s.bitmap size))
        then false
        else bitmap_get s p)
get-release_page page size p s b =
    elim (Bool-cases (leb s.bitmap page && ltb page (add64 s.bitmap size))) [
      | inl skip ↦ rw skip (ground arith)
      | inr take ↦ rw take (ground (arith, get-give s (page / page_size) p b))
    ]

pub release_entry-Same :
    (fuel page end size : ℕ) (s : Pmm) → IsBytes s.mem → Same s (release_entry fuel page end size s)
unfolding release_entry
release_entry-Same zero page end size s b = record {
  bytes = b;
  same_bitmap = refl;
  same_total = refl;
}
release_entry-Same (suc fuel) page end size s b = elim (Bool-cases (ltb page end)) [
  | inr done ↦
      rw (done, release_entry) (record { bytes = b; same_bitmap = refl; same_total = refl })
  | inl more ↦
      rw (more, release_entry)
        (let one = release_page-Same page size s b in
          let rest =
            release_entry-Same fuel (add64 page page_size) end size (release_page page size s)
              one.bytes in
          record {
            bytes = rest.bytes;
            same_bitmap = rest.same_bitmap ∙ one.same_bitmap;
            same_total = rest.same_total ∙ one.same_total;
          })
]

-- The page `p` lies outside the addresses from `page` to `end`.
abbrev pub Outside : (p page end : ℕ) → Type 0
Outside p page end = (p < page / page_size) ⊎ (end ≤ p * page_size)

Outside-next :
    (p page end : ℕ)
    → end + page_size ≤ 2 ^ 64
    → ltb page end ≡ true
    → Outside p page end
    → Outside p (add64 page page_size) end
Outside-next p page end small more (inl below) = inl (ground arith)
Outside-next p page end small more (inr above) = inr above

Outside-ne :
    (p page end : ℕ) → ltb page end ≡ true → Outside p page end → (page / page_size == p) ≡ false
Outside-ne p page end more (inl below) = ground arith
Outside-ne p page end more (inr above) = ground arith

pub get-release_entry-Outside :
    (fuel page end size p : ℕ) (s : Pmm)
    → IsBytes s.mem
    → end + page_size ≤ 2 ^ 64
    → Outside p page end
    → bitmap_get (release_entry fuel page end size s) p ≡ bitmap_get s p
unfolding release_entry
get-release_entry-Outside zero page end size p s b small out = refl
get-release_entry-Outside (suc fuel) page end size p s b small out =
    elim (Bool-cases (ltb page end)) [
      | inr done ↦ rw (done, release_entry)
      | inl more ↦
          rw (more, release_entry)
            (get-release_entry-Outside fuel (add64 page page_size) end size p
                (release_page page size s) (release_page-Same page size s b).bytes small
                (Outside-next p page end small more out)
              ∙ ground (arith, get-release_page page size p s b, Outside-ne p page end more out))
    ]

-- A page that is free stays free.
pub get-release_entry_free :
    (fuel page end size p : ℕ) (s : Pmm)
    → IsBytes s.mem
    → bitmap_get s p ≡ false
    → bitmap_get (release_entry fuel page end size s) p ≡ false
unfolding release_entry
get-release_entry_free zero page end size p s b free = free
get-release_entry_free (suc fuel) page end size p s b free = elim (Bool-cases (ltb page end)) [
  | inr done ↦ rw (done, release_entry) free
  | inl more ↦
      rw (more, release_entry)
        (get-release_entry_free fuel (add64 page page_size) end size p (release_page page size s)
          (release_page-Same page size s b).bytes
          (ground (arith, get-release_page page size p s b)))
]

-- The page `p` lies wholly before the bitmap or starts behind it.
abbrev pub OffBitmap : (p size : ℕ) → Pmm → Type 0
OffBitmap p size s = (p * page_size < s.bitmap) ⊎ (add64 s.bitmap size ≤ p * page_size)

OffBitmap-test :
    (p size : ℕ) (s : Pmm)
    → OffBitmap p size s
    → (leb s.bitmap (p * page_size) && ltb (p * page_size) (add64 s.bitmap size)) ≡ false
OffBitmap-test p size s (inl l) = ground arith
OffBitmap-test p size s (inr l) = ground arith

pub get-release_entry_inside :
    (fuel page end size p : ℕ) (s : Pmm)
    → IsBytes s.mem
    → end + page_size ≤ 2 ^ 64
    → page % page_size ≡ 0
    → page ≤ p * page_size
    → p * page_size < end
    → end ≤ page + fuel * page_size
    → OffBitmap p size s
    → bitmap_get (release_entry fuel page end size s) p ≡ false
unfolding release_entry
get-release_entry_inside zero page end size p s b small aligned lo hi enough off =
    absurd (omega arith)
get-release_entry_inside (suc fuel) page end size p s b small aligned lo hi enough off =
    let more : ltb page end ≡ true = ground arith in
    let one = release_page-Same page size s b in
    rw (more, release_entry)
      (elim (ℕ_discrete page (p * page_size)) [
        | yes e ↦
            get-release_entry_free fuel (add64 page page_size) end size p (release_page page size s)
              one.bytes (first e)
        | no ne ↦
            get-release_entry_inside fuel (add64 page page_size) end size p
              (release_page page size s) one.bytes small (omega arith) (omega arith) hi
              (omega arith) (rw one.same_bitmap off)
      ])
  where
    first : page ≡ p * page_size → bitmap_get (release_page page size s) p ≡ false
    first e =
        let skip = rw (← e) at (OffBitmap-test p size s off) in
        ground (arith, get-release_page page size p s b, skip)
