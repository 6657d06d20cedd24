-- ===== src/Klibc/Compare.antt =====
-- `memcmp`, `strlen` and `strcmp` of src/klibc_string.cpp.
use native.Mathlib.Decide.{ℕ_discrete}
use synx.Prelude.{
  ℕ, zero, suc, ◌+◌, ◌-◌, ◌%◌, ◌≤◌, ◌<◌, ◌≡◌, ◌≢◌, ◌⊎◌, inl, inr, refl, arith, ap, sym, ◌∙◌, true,
  false, not, ◌&&◌, some, ◌==◌, ==_iff, ltb, Bool-cases, word32,
}
use synx.Klibc.{Memory, memcmp_loop, memcmp, strlen, strcmp}

-- A string of `n` characters stands at `str`.
pub record IsString (mem : Memory) (str n : ℕ) : Type 0 where
  pub ended : mem (str + n) ≡ 0
  pub inner : (i : ℕ) → i < n → 0 < mem (str + i)

-- The bytes at `a` and at `b` agree below `k`.
abbrev pub Agree : Memory → (a b k : ℕ) → Type 0
Agree mem a b k = (i : ℕ) → (k ≤ i) ⊎ (mem (a + i) ≡ mem (b + i))

-- What a comparison found: nothing, or the first difference.
abbrev pub MemCompared : Memory → (a b n r : ℕ) → Type 0
MemCompared mem a b n r =
    ((r ≡ 0) × Agree mem a b n)
    ⊎ ((k : ℕ) × (k < n)
        × Agree mem a b k
        × (((r ≡ word32 - 1) × (mem (a + k) < mem (b + k)))
            ⊎ ((r ≡ 1) × (mem (b + k) < mem (a + k)))))

-- One more byte that agrees.
pub Agree-suc :
    (mem : Memory) (a b i : ℕ) → Agree mem a b i → mem (a + i) ≡ mem (b + i) → Agree mem a b (i + 1)
Agree-suc mem a b i before same j = elim (ℕ_discrete j i) [
  | yes e ↦ inr (rw e same)
  | no ne ↦ ground (arith, before j)
]

memcmp_loop-MemCompared :
    (n i a b : ℕ) (mem : Memory) {total : ℕ}
    → i + n ≡ total
    → Agree mem a b i
    → MemCompared mem a b total (memcmp_loop n i a b mem)
unfolding memcmp_loop
memcmp_loop-MemCompared zero i a b mem e before = inl (refl, λ j. ground (arith, before j))
memcmp_loop-MemCompared (suc n) i a b mem e before =
    elim (Bool-cases (mem (a + i) == mem (b + i))) [
      | inl same ↦
          rw (same, memcmp_loop)
            (memcmp_loop-MemCompared n (i + 1) a b mem (omega arith)
              (Agree-suc mem a b i before ((==_iff (mem (a + i)) (mem (b + i))).0 same)))
      | inr differ ↦
          rw (differ, memcmp_loop)
            (elim (Bool-cases (ltb (mem (a + i)) (mem (b + i)))) [
              | inl less ↦ rw less (inr (i, omega arith, before, inl (refl, ground arith)))
              | inr more ↦ rw more (inr (i, omega arith, before, inr (refl, ground arith)))
            ])
    ]

-- `memcmp` gives 0 where the blocks agree, and else -1 or 1 by the first bytes that differ.
pub memcmp-MemCompared : (a b n : ℕ) (mem : Memory) → MemCompared mem a b n (memcmp a b n mem)
unfolding memcmp
memcmp-MemCompared a b n mem =
    memcmp_loop-MemCompared n 0 a b mem (omega arith) (λ j. inl (omega arith))

pub strlen-IsString :
    (fuel len : ℕ) (mem : Memory) (str n : ℕ)
    → IsString mem str n
    → len ≤ n
    → n < fuel + len
    → strlen fuel len str mem ≡ some n
unfolding strlen
strlen-IsString zero len mem str n s le enough = absurd (omega arith)
strlen-IsString (suc fuel) len mem str n s le enough = elim (ℕ_discrete len n) [
  | yes e ↦
      let ended : (mem (str + len) == 0) ≡ true =
        ground (arith, s.ended, ap (λ k. mem (str + k)) e) in
      rw (ended, strlen) (ap some e)
  | no ne ↦
      let going : (mem (str + len) == 0) ≡ false = ground (arith, s.inner len (omega arith)) in
      rw (going, strlen) (strlen-IsString fuel (len + 1) mem str n s (omega arith) (omega arith))
]

-- What `strcmp` found on strings of `n` and `m` characters: 0 for equal strings; else another number,
-- at the first character that differs.
abbrev pub StrCompared : Memory → (a b n m r : ℕ) → Type 0
StrCompared mem a b n m r =
    ((r ≡ 0) × (n ≡ m) × Agree mem a b n)
    ⊎ ((k : ℕ) × (k ≤ n)
        × (k ≤ m)
        × Agree mem a b k
        × (r < 256)
        × (r ≢ 0)
        × ((r + mem (b + k)) % 256 ≡ mem (a + k)))

difference :
    {p q : ℕ}
    → p < 256
    → q < 256
    → p ≢ q
    → ((p + 256 - q) % 256 ≢ 0) × (((p + 256 - q) % 256 + q) % 256 ≡ p)
difference hp hq ne = ((λ z. omega arith), omega arith)

at_end :
    {mem : Memory} {a n : ℕ} (s : IsString mem a n) (i : ℕ) {v : ℕ}
    → v ≡ mem (a + i)
    → (i ≢ n) ⊎ (v ≡ 0)
at_end {mem} {a} {n} s i e = elim (ℕ_discrete i n) [
  | yes h ↦ inr (e ∙ ap (λ k. mem (a + k)) h ∙ s.ended)
  | no h ↦ inl h
]

module _ (mem : Memory) (bytes : (p : ℕ) → mem p < 256) {a b n m : ℕ} (sa : IsString mem a n)
    (sb : IsString mem b m) where
  strcmp_from :
      (fuel i : ℕ) {x y : ℕ}
      → x ≡ a + i
      → y ≡ b + i
      → i ≤ n
      → i ≤ m
      → n < fuel + i
      → Agree mem a b i
      → (r : ℕ) × (strcmp fuel x y mem ≡ some r) × StrCompared mem a b n m r
  unfolding strcmp
  strcmp_from zero i ex ey il im enough before = absurd (omega arith)
  strcmp_from (suc fuel) i {x} {y} ex ey il im enough before =
      let ax : mem x ≡ mem (a + i) = ap mem ex in
      let by : mem y ≡ mem (b + i) = ap mem ey in
      let a_end : (i ≢ n) ⊎ (mem x ≡ 0) = at_end sa i ax in
      let b_end : (i ≢ m) ⊎ (mem y ≡ 0) = at_end sb i by in
      elim (Bool-cases (not (mem x == 0) && mem x == mem y)) [
        | inl on ↦
            rw (on, strcmp)
              (strcmp_from fuel (i + 1) (omega arith) (omega arith) (ground (arith, a_end))
                (ground (arith, a_end, b_end)) (omega arith)
                (Agree-suc mem a b i before (ground arith)))
        | inr stop ↦
            rw (stop, strcmp)
              (
                (mem x + 256 - mem y) % 256,
                refl,
                (elim (Bool-cases (mem x == mem y)) [
                  | inl same ↦
                      let zero_here : mem x ≡ 0 = ground arith in
                      let here : (i ≡ n) × (i ≡ m) =
                        (ground (arith, sa.inner i), ground (arith, sb.inner i)) in
                      inl (ground arith, ground arith, λ j. ground (arith, before j))
                  | inr differ ↦
                      let ne : mem x ≢ mem y = ground arith in
                      inr (
                        i,
                        il,
                        im,
                        before,
                        omega arith,
                        (difference (bytes x) (bytes y) ne).0,
                        ap (λ q. ((mem x + 256 - mem y) % 256 + q) % 256) (sym by)
                            ∙ (difference (bytes x) (bytes y) ne).1
                            ∙ ax,
                      )
                ]),
              )
      ]

-- With enough fuel `strcmp` on two strings returns: 0 if and only if they are equal; else the
-- difference of the first characters that differ, mod 256, so that its sign is lost.
pub strcmp-StrCompared :
    (mem : Memory) (a b n m fuel : ℕ)
    → ((p : ℕ) → mem p < 256)
    → IsString mem a n
    → IsString mem b m
    → n < fuel
    → (r : ℕ) × (strcmp fuel a b mem ≡ some r) × StrCompared mem a b n m r
strcmp-StrCompared mem a b n m fuel bytes sa sb enough =
    strcmp_from mem bytes sa sb fuel 0 (omega arith) (omega arith) (omega arith) (omega arith)
      (omega arith) (λ j. inl (omega arith))
