-- ===== src/Klibc/Find.antt =====
-- `strstr` of src/klibc_string.cpp: the first place at which a string stands in another one.
use native.Mathlib.Decide.{ℕ_discrete}
use synx.Prelude.{
  ℕ, zero, suc, ◌+◌, ◌-◌, ◌≤◌, ◌<◌, ◌≡◌, ◌≢◌, ◌⊎◌, inl, inr, refl, arith, ap, ◌∙◌, Bool, true,
  false, not, ◌&&◌, some, ◌==◌, leb, if◌then◌else◌, Bool-cases,
}
use synx.Klibc.{Memory, matches, strstr_loop, strstr}
use synx.Klibc.Compare.{IsString, Agree, Agree-suc}

-- What the inner loop found: the needle of `m` characters, or a character that differs.
abbrev Matched : Memory → (a b m : ℕ) → Bool → Type 0
Matched mem a b m true = Agree mem a b m
Matched mem a b m false = (k : ℕ) × (k < m) × (mem (a + k) ≢ mem (b + k))

matches-Matched :
    (fuel j : ℕ) (mem : Memory) (a b m : ℕ) {x y : ℕ}
    → x ≡ a + j
    → y ≡ b + j
    → IsString mem b m
    → j ≤ m
    → m < fuel + j
    → Agree mem a b j
    → (v : Bool) × (matches fuel x y mem ≡ some v) × Matched mem a b m v
unfolding matches
matches-Matched zero j mem a b m ex ey s le enough before = absurd (omega arith)
matches-Matched (suc fuel) j mem a b m {x} {y} ex ey s le enough before =
    let ax : mem x ≡ mem (a + j) = ap mem ex in
    let by : mem y ≡ mem (b + j) = ap mem ey in
    elim (ℕ_discrete j m) [
      | yes e ↦
          let ended : mem y ≡ 0 = by ∙ ap (λ k. mem (b + k)) e ∙ s.ended in
          let stop : (mem x == mem y && not (mem y == 0)) ≡ false = ground arith in
          let zero_here : (mem y == 0) ≡ true = ground arith in
          rw (stop, matches) (rw zero_here (true, refl, λ i. ground (arith, before i)))
      | no ne ↦
          let going : (mem y == 0) ≡ false = ground (arith, s.inner j (omega arith)) in
          elim (Bool-cases (mem x == mem y)) [
            | inl same ↦
                let more : (mem x == mem y && not (mem y == 0)) ≡ true = ground arith in
                rw (more, matches)
                  (matches-Matched fuel (j + 1) mem a b m (omega arith) (omega arith) s
                    (omega arith) (omega arith) (Agree-suc mem a b j before (ground arith)))
            | inr differ ↦
                let stop : (mem x == mem y && not (mem y == 0)) ≡ false = ground arith in
                rw (stop, matches) (rw going (false, refl, (j, omega arith, λ e. ground arith)))
          ]
    ]

-- The needle of `m` characters stands at place `k` of the haystack.
abbrev pub Occurs : Memory → (haystack needle m k : ℕ) → Type 0
Occurs mem haystack needle m k = Agree mem (haystack + k) needle m

-- What `strstr` found: the first place within the haystack of `n` characters, or no place.
abbrev pub Found : Memory → (haystack needle n m r : ℕ) → Type 0
Found mem haystack needle n m r =
    ((k : ℕ) × (k + m ≤ n)
      × (r ≡ haystack + k)
      × Occurs mem haystack needle m k
      × ((i : ℕ) → i < k → ¬ Occurs mem haystack needle m i))
    ⊎ ((r ≡ 0) × ((i : ℕ) → i + m ≤ n → ¬ Occurs mem haystack needle m i))

module _ (mem : Memory) {haystack needle n m : ℕ} (sh : IsString mem haystack n)
    (sn : IsString mem needle m) where
  -- A needle that stands in front of the end of the haystack ends there too.
  Occurs-fits : (i : ℕ) → i ≤ n → Occurs mem haystack needle m i → i + m ≤ n
  Occurs-fits i le here = elim (Bool-cases (leb (i + m) n)) [
    | inl fits ↦ ground arith
    | inr over ↦
        let t : ℕ = n - i in
        let at_end : mem (haystack + i + t) ≡ 0 = ap mem (omega arith) ∙ sh.ended in
        absurd (ground (arith, at_end, here t, sn.inner t))
  ]

  strstr_loop-Found :
      (fuel rounds i : ℕ) {x : ℕ}
      → x ≡ haystack + i
      → 0 < m
      → m < fuel
      → i ≤ n
      → n < rounds + i
      → ((k : ℕ) → k < i → ¬ Occurs mem haystack needle m k)
      → (r : ℕ) × (strstr_loop fuel rounds x needle mem ≡ some r) × Found mem haystack needle n m r
  unfolding strstr_loop
  strstr_loop-Found fuel zero i ex pos enough le rounds before = absurd (omega arith)
  strstr_loop-Found fuel (suc rounds) i {x} ex pos enough le more before = elim (ℕ_discrete i n) [
    | yes e ↦
        let ended : (mem x == 0) ≡ true =
          ground (arith, ap mem ex, ap (λ k. mem (haystack + k)) e, sh.ended) in
        rw (ended, strstr_loop) (0, refl, inr (refl, λ k fits. before k (omega arith)))
    | no ne ↦
        let going : (mem x == 0) ≡ false = ground (arith, ap mem ex, sh.inner i (omega arith)) in
        let (v, runs, what) =
          matches-Matched fuel 0 mem (haystack + i) needle m {x = x} {y = needle} (omega arith)
            (omega arith) sn (omega arith) (omega arith) (λ j. inl (omega arith)) in
        rw (going, strstr_loop)
          (rw (runs, strstr_loop)
            (step v what (
              strstr_loop-Found fuel rounds (i + 1) (omega arith) pos enough (omega arith)
                (omega arith))))
  ]
    where
      Rest : ℕ → Type 0
      Rest y =
          (r : ℕ) × (strstr_loop fuel rounds y needle mem ≡ some r)
          × Found mem haystack needle n m r

      step :
          (v : Bool)
          → Matched mem (haystack + i) needle m v
          → (((k : ℕ) → k < i + 1 → ¬ Occurs mem haystack needle m k) → Rest (x + 1))
          → (r : ℕ) × ((if v then some x else strstr_loop fuel rounds (x + 1) needle mem) ≡ some r)
            × Found mem haystack needle n m r
      step true what rest = (x, refl, inl (i, Occurs-fits i le what, ex, what, before))
      step false (k, lt, differ) rest = rest (λ j low here. elim (ℕ_discrete j i) [
        | yes e ↦ differ (ground (arith, (rw e at here) k))
        | no ne ↦ before j (omega arith) here
      ])

-- With fuel above the lengths of both strings, `strstr` on two strings returns: the address of the
-- first place at which the needle stands in the haystack, or the null pointer, and then it stands
-- nowhere in it.
pub strstr-Found :
    (mem : Memory) (haystack needle n m fuel : ℕ)
    → IsString mem haystack n
    → IsString mem needle m
    → n < fuel
    → m < fuel
    → (r : ℕ) × (strstr fuel haystack needle mem ≡ some r) × Found mem haystack needle n m r
unfolding strstr
strstr-Found mem haystack needle n m fuel sh sn hn hm = elim (Bool-cases (mem needle == 0)) [
  | inl nothing ↦
      let none_there : m ≡ 0 = ground (arith, sn.inner 0, ap mem (needle_start needle)) in
      rw nothing (
        haystack,
        refl,
        inl (0, omega arith, omega arith, (λ i. inl (omega arith)), λ i low here. omega arith),
      )
  | inr something ↦
      let pos : 0 < m = ground (arith, sn.ended, ap mem (needle_start needle), needle_end m) in
      rw something (
        strstr_loop-Found mem sh sn fuel fuel 0 (omega arith) pos hm (omega arith) (omega arith)
          (λ k low here. omega arith))
]
  where
    needle_start : (a : ℕ) → a + 0 ≡ a
    needle_start a = omega arith

    needle_end : (k : ℕ) → k ≡ 0 → mem (needle + k) ≡ mem needle
    needle_end k e = ap mem (omega arith)
