-- ===== src/Pmm/Runs.antt =====
-- `allocPages` of mem/kmemory.cpp: the search for a run of free pages.
use native.Mathlib.Decide.{ℕ_discrete}
use synx.Prelude.{
  ℕ, zero, suc, ◌+◌, ◌-◌, ◌*◌, ◌^◌, ◌≤◌, ◌<◌, ◌≡◌, ◌≢◌, ◌⊎◌, inl, inr, refl, true, false, not,
  arith, ap, ◌∙◌, ==_iff, Bool-cases, ltb, leb, ◌&&◌, if◌then◌else◌, mul64, ◌==◌, count_below,
  count_below-drop, count_below-le,
}
use synx.Pmm.{
  Pmm, page_size, bitmap_get, bitmap_set, mark_range, take_range, alloc_pages_loop, alloc_pages,
}
use synx.Pmm.Bits.{IsBytes, bitmap_get-set, bitmap_set-IsBytes}
use synx.Pmm.Inv.{IsValid, is_free, Taken}
use synx.Pmm.Single.{alloc_page-FirstFree}

-- The `n` pages from `j` on are free.
abbrev pub FreeRun : Pmm → ℕ → ℕ → Type 0
FreeRun s j n = (p : ℕ) → j ≤ p → p < j + n → bitmap_get s p ≡ false

-- `t` is `s` with the bits of `n` free pages from `j` on set, and the counter as it was.
record Marked (s t : Pmm) (j n : ℕ) : Type 0 where
  bits : (p : ℕ) → bitmap_get t p ≡ (if leb j p && ltb p (j + n) then true else bitmap_get s p)
  same_total : t.total_pages ≡ s.total_pages
  same_counter : t.free_pages ≡ s.free_pages
  bytes : IsBytes t.mem
  fewer : count_below s.total_pages (is_free s) ≡ count_below s.total_pages (is_free t) + n

module _ (s : Pmm) (j : ℕ) where
  total-set : (bitmap_set s j).total_pages ≡ s.total_pages
  unfolding bitmap_set
  total-set = refl

  counter-set : (bitmap_set s j).free_pages ≡ s.free_pages
  unfolding bitmap_set
  counter-set = refl

  fewer-set :
      IsBytes s.mem
      → j < s.total_pages
      → bitmap_get s j ≡ false
      → count_below s.total_pages (is_free s)
        ≡ suc (count_below s.total_pages (is_free (bitmap_set s j)))
  fewer-set b inside e =
      count_below-drop s.total_pages (is_free s) (is_free (bitmap_set s j)) j inside (ap not e)
        (ground (arith, bitmap_get-set s j j b)) (λ y ne. ground (arith, bitmap_get-set s j y b))

mark_range-Marked :
    (n j : ℕ) {s : Pmm}
    → IsBytes s.mem
    → j + n ≤ s.total_pages
    → FreeRun s j n
    → Marked s (mark_range n j s) j n
unfolding mark_range bitmap_set
mark_range-Marked zero j b inside free = record {
  bits = λ p. ground arith;
  same_total = refl;
  same_counter = refl;
  bytes = b;
  fewer = omega arith;
}
mark_range-Marked (suc n) j {s} b inside free =
    let rest =
      mark_range-Marked n (j + 1) {s = bitmap_set s j} (bitmap_set-IsBytes s j b)
        (omega (arith, total-set s j)) (λ p l u. ground (arith, bitmap_get-set s j p b, free p)) in
    record {
      bits = λ p. ground (arith, rest.bits p, bitmap_get-set s j p b);
      same_total = rest.same_total ∙ total-set s j;
      same_counter = rest.same_counter ∙ counter-set s j;
      bytes = rest.bytes;
      fewer =
          omega
            (arith, rest.fewer, fewer-set s j b (omega arith) (free j (omega arith) (omega arith)));
    }

-- No `count` pages in a row below `top` are free.
abbrev NoRun : Pmm → ℕ → ℕ → Type 0
NoRun s count top = (j : ℕ) → j + count ≤ top → ¬ FreeRun s j count

-- What `allocPages` did, by its result `r`.
abbrev pub RunTaken : Pmm → ℕ → ℕ × Pmm → Type 0
RunTaken s count r =
    ((j : ℕ) × (r.0 ≡ j * page_size) × Taken s r.1 j count × NoRun s count (j + count - 1))
    ⊎ ((r ≡ (0, s)) × NoRun s count s.total_pages)

-- The pages before `i` that the loop still counts are free, and the run of them cannot be made longer.
record Scan (s : Pmm) (count i consecutive : ℕ) : Type 0 where
  behind : consecutive ≤ i
  short : consecutive < count
  run : FreeRun s (i - consecutive) consecutive
  stop : (i ≡ consecutive) ⊎ (bitmap_get s (i - consecutive - 1) ≡ true)
  none_yet : NoRun s count i

module _ {s : Pmm} {count i consecutive : ℕ} (sc : Scan s count i consecutive) where
  -- A run that ends with page `i` would hold the page at which the current run stopped.
  no_longer_run : consecutive + 1 < count → NoRun s count (i + 1)
  no_longer_run more j h free = elim (ℕ_discrete (j + count) (i + 1)) [
    | no ne ↦ sc.none_yet j (omega arith) free
    | yes e ↦ elim sc.stop [
      | inl all ↦ absurd (omega arith)
      | inr used ↦ cc (free (i - consecutive - 1) (omega arith) (omega arith))
    ]
  ]

  same_stop : i + 1 - (consecutive + 1) - 1 ≡ i - consecutive - 1
  same_stop = omega arith

  last_page : i + 1 - 0 - 1 ≡ i
  last_page = omega arith

  Scan-free :
      bitmap_get s i ≡ false → consecutive + 1 < count → Scan s count (i + 1) (consecutive + 1)
  Scan-free e more = record {
    behind = omega arith;
    short = more;
    run = λ p l u. elim (ℕ_discrete p i) [
      | yes same ↦ rw same e
      | no ne ↦ sc.run p (omega arith) (omega arith)
    ];
    stop = elim sc.stop [ inl all ↦ inl (omega arith) | inr used ↦ inr (rw same_stop used) ];
    none_yet = no_longer_run more;
  }

  Scan-used : bitmap_get s i ≡ true → Scan s count (i + 1) 0
  Scan-used e = record {
    behind = omega arith;
    short = omega arith;
    run = λ p l u. absurd (omega arith);
    stop = inr (rw last_page e);
    none_yet = λ j h free. elim (ℕ_discrete (j + count) (i + 1)) [
      | no ne ↦ sc.none_yet j (omega arith) free
      | yes eq ↦ cc (free i (omega arith) (omega arith))
    ];
  }

-- Marking a found run and lowering the counter hands the run out.
pub run-Taken :
    (s : Pmm) (start count : ℕ)
    → IsValid s
    → start + count ≤ s.total_pages
    → FreeRun s start count
    → Taken s (take_range count start count s) start count
unfolding bitmap_get take_range
run-Taken s start count v inside free =
    let m = mark_range-Marked count start v.bytes inside free in
    let enough : count ≤ s.free_pages = omega (arith, v.counted, m.fewer) in
    let bound : s.free_pages ≤ 2 ^ 52 =
      omega (arith, v.counted, v.small, count_below-le s.total_pages (is_free s)) in
    record {
      inside = inside;
      was_free = free;
      bits = λ p. m.bits p;
      counter = omega (arith, m.same_counter);
      same_total = m.same_total;
      valid = record {
        bytes = m.bytes;
        small = omega (arith, m.same_total, v.small);
        counted = rw m.same_total (omega (arith, m.same_counter, m.fewer, v.counted));
      };
    }

found-RunTaken :
    (s : Pmm) (start count i : ℕ)
    → IsValid s
    → start + count ≡ i + 1
    → i < s.total_pages
    → 0 < count
    → FreeRun s start count
    → NoRun s count i
    → RunTaken s count (mul64 start page_size, take_range (i + 1 - start) start count s)
found-RunTaken s start count i v e inside pos free before =
    let same : i + 1 - start ≡ count = omega arith in
    rw same (
      inl (
        start,
        omega (arith, v.small),
        run-Taken s start count v (omega arith) free,
        λ j h. before j (omega arith),
      ))

alloc_pages_loop-RunTaken :
    (n count i consecutive start_page : ℕ) {s : Pmm}
    → IsValid s
    → i + n ≡ s.total_pages
    → (consecutive ≢ 0 → start_page + consecutive ≡ i)
    → Scan s count i consecutive
    → RunTaken s count (alloc_pages_loop n count i consecutive start_page s)
unfolding alloc_pages_loop
alloc_pages_loop-RunTaken zero count i consecutive start_page v e at_start sc =
    inr (refl, λ j h. sc.none_yet j (omega arith))
alloc_pages_loop-RunTaken (suc n) count i consecutive start_page {s} v e at_start sc =
    elim (Bool-cases (bitmap_get s i)) [
      | inl used ↦
          rw (used, alloc_pages_loop)
            (alloc_pages_loop-RunTaken n count (i + 1) 0 start_page v (omega arith)
              (λ ne. absurd (ne refl)) (Scan-used sc used))
      | inr free ↦
          rw (free, alloc_pages_loop)
            (elim (Bool-cases (consecutive + 1 == count)) [
              | inr more ↦ rw more (
                  alloc_pages_loop-RunTaken n count (i + 1) (consecutive + 1) start v (omega arith)
                    (λ ne. ground arith) (Scan-free sc free (not_full more)))
              | inl full ↦ rw full (
                  found-RunTaken s start count i v (start_eq full) (omega arith) (omega arith)
                    (start_free free full) sc.none_yet)
            ])
    ]
  where
    start : ℕ
    start = if consecutive == 0 then i else start_page

    not_full : (consecutive + 1 == count) ≡ false → consecutive + 1 < count
    not_full more = let h = sc.short in ground arith

    -- The run that the page `i` completes.
    start_eq : (consecutive + 1 == count) ≡ true → start + count ≡ i + 1
    start_eq full = elim (ℕ_discrete consecutive 0) [
      | yes e' ↦ ground arith
      | no ne ↦ let h = at_start ne in ground arith
    ]

    start_free : bitmap_get s i ≡ false → (consecutive + 1 == count) ≡ true → FreeRun s start count
    start_free free full p l u = elim (ℕ_discrete p i) [
      | yes same ↦ rw same free
      | no ne ↦
          sc.run p (omega (arith, start_eq full, (==_iff (consecutive + 1) count).0 full))
            (omega (arith, start_eq full, sc.behind))
    ]

-- `allocPages(count)` on a valid allocator either returns the address of the first run of `count`
-- free pages, marks these pages as used and no other, and lowers the counter by `count`; or no run of
-- `count` free pages exists, it returns 0 and changes nothing. It needs `count` to be at least 1.
pub alloc_pages-RunTaken :
    (s : Pmm) (count : ℕ) → IsValid s → 0 < count → RunTaken s count (alloc_pages s count)
unfolding alloc_pages
alloc_pages-RunTaken s count v pos = rw nonzero (elim (Bool-cases (count == 1)) [
  | inl one ↦ rw one (elim (alloc_page-FirstFree s v) [
    | inl (p, e, t, lower) ↦
        inl (p, e, rw ((==_iff count 1).0 one) t, λ j h run. clash one p lower j h run)
    | inr (e, all) ↦ inr (e, λ j h run. cc (run j (omega arith) (omega arith), all j (omega arith)))
  ])
  | inr many ↦ rw many (
      alloc_pages_loop-RunTaken s.total_pages count 0 0 0 v (omega arith) (λ ne. absurd (ne refl))
        start_scan)
])
  where
    nonzero : (count == 0) ≡ false
    nonzero = ground arith

    clash :
        (count == 1) ≡ true
        → (p : ℕ) → ((q : ℕ) → q < p → bitmap_get s q ≡ true)
        → (j : ℕ) → j + count ≤ p + count - 1
        → ¬ FreeRun s j count
    clash one p lower j h run =
        let u = run j (omega arith) (omega arith) in
        let w = lower j (omega (arith, (==_iff count 1).0 one)) in cc

    start_scan : Scan s count 0 0
    start_scan = record {
      behind = omega arith;
      short = pos;
      run = λ p l u. absurd (omega arith);
      stop = inl refl;
      none_yet = λ j h. absurd (omega arith);
    }
