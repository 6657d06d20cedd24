-- ===== src/Klibc/Chars.antt =====
-- `strchr` and `strrchr` of src/klibc_string.cpp: the first and the last place of a character.
use native.Mathlib.Decide.{ℕ_discrete}
use synx.Prelude.{
  ℕ, zero, suc, ◌+◌, ◌%◌, ◌≤◌, ◌<◌, ◌≡◌, ◌≢◌, ◌⊎◌, inl, inr, refl, arith, ap, true, false, some,
  ◌==◌, Bool-cases,
}
use synx.Klibc.{Memory, strchr, strrchr_loop, strrchr}
use synx.Klibc.Compare.{IsString}

-- The address of the first character `c` of a string of `n` characters, or the null pointer.
abbrev pub FirstChar : Memory → (str n c r : ℕ) → Type 0
FirstChar mem str n c r =
    ((k : ℕ) × (k < n)
      × (r ≡ str + k)
      × (mem (str + k) ≡ c)
      × ((i : ℕ) → (k ≤ i) ⊎ (mem (str + i) ≢ c)))
    ⊎ ((r ≡ 0) × ((i : ℕ) → (n ≤ i) ⊎ (mem (str + i) ≢ c)))

-- The address of the last character `c` among those below `n`, or the null pointer.
abbrev pub LastChar : Memory → (str n c r : ℕ) → Type 0
LastChar mem str n c r =
    ((k : ℕ) × (k < n)
      × (r ≡ str + k)
      × (mem (str + k) ≡ c)
      × ((i : ℕ) → (i ≤ k) ⊎ ((n ≤ i) ⊎ (mem (str + i) ≢ c))))
    ⊎ ((r ≡ 0) × ((i : ℕ) → (n ≤ i) ⊎ (mem (str + i) ≢ c)))

module _ (mem : Memory) {str n : ℕ} (c : ℕ) (s : IsString mem str n) (ne : c % 256 ≢ 0) where
  strchr_from :
      (fuel i : ℕ) {x : ℕ}
      → x ≡ str + i
      → i ≤ n
      → n < fuel + i
      → ((j : ℕ) → (i ≤ j) ⊎ (mem (str + j) ≢ c % 256))
      → (r : ℕ) × (strchr fuel x c mem ≡ some r) × FirstChar mem str n (c % 256) r
  unfolding strchr
  strchr_from zero i ex le enough before = absurd (omega arith)
  strchr_from (suc fuel) i {x} ex le enough before = elim (ℕ_discrete i n) [
    | yes e ↦
        let ended : (mem x == 0) ≡ true =
          ground (arith, ap mem ex, ap (λ k. mem (str + k)) e, s.ended) in
        let ordinary : (c % 256 == 0) ≡ false = ground arith in
        rw (ended, strchr) (rw ordinary (0, refl, inr (refl, λ j. ground (arith, before j))))
    | no further ↦
        let going : (mem x == 0) ≡ false = ground (arith, ap mem ex, s.inner i (omega arith)) in
        rw (going, strchr)
          (elim (Bool-cases (mem x == c % 256)) [
            | inl hit ↦
                rw hit (x, refl, inl (i, omega arith, ex, ground (arith, ap mem ex), before))
            | inr miss ↦ rw miss (
                strchr_from fuel (i + 1) (omega arith) (omega arith) (omega arith) (λ j.
                  elim (ℕ_discrete j i) [
                    | yes e ↦ inr (rw e (λ h. ground (arith, ap mem ex)))
                    | no other ↦ ground (arith, before j)
                  ]))
          ])
  ]

  strrchr_from :
      (fuel i last : ℕ) {x : ℕ}
      → x ≡ str + i
      → i ≤ n
      → n < fuel + i
      → LastChar mem str i (c % 256) last
      → (r : ℕ) × (strrchr_loop fuel x c last mem ≡ some r) × LastChar mem str n (c % 256) r
  unfolding strrchr_loop
  strrchr_from zero i last ex le enough before = absurd (omega arith)
  strrchr_from (suc fuel) i last {x} ex le enough before = elim (ℕ_discrete i n) [
    | yes e ↦
        let ended : (mem x == 0) ≡ true =
          ground (arith, ap mem ex, ap (λ k. mem (str + k)) e, s.ended) in
        let ordinary : (c % 256 == 0) ≡ false = ground arith in
        rw (ended, strrchr_loop) (rw ordinary (last, refl, rw e at before))
    | no further ↦
        let going : (mem x == 0) ≡ false = ground (arith, ap mem ex, s.inner i (omega arith)) in
        rw (going, strrchr_loop)
          (elim (Bool-cases (mem x == c % 256)) [
            | inl hit ↦ rw hit (
                strrchr_from fuel (i + 1) x (omega arith) (omega arith) (omega arith)
                  (inl (i, omega arith, ex, ground (arith, ap mem ex), λ j. ground arith)))
            | inr miss ↦ rw miss (
                strrchr_from fuel (i + 1) last (omega arith) (omega arith) (omega arith)
                  (longer (λ h. ground (arith, ap mem ex)) before))
          ])
  ]
    where
      grow :
          mem (str + i) ≢ c % 256
          → {b : ℕ} → (j : ℕ) → (j ≤ b) ⊎ ((i ≤ j) ⊎ (mem (str + j) ≢ c % 256))
          → (j ≤ b) ⊎ ((i + 1 ≤ j) ⊎ (mem (str + j) ≢ c % 256))
      grow other j h = elim (ℕ_discrete j i) [
        | yes e ↦ inr (inr (rw e other))
        | no far ↦ ground (arith, h)
      ]

      longer :
          mem (str + i) ≢ c % 256
          → LastChar mem str i (c % 256) last
          → LastChar mem str (i + 1) (c % 256) last
      longer other (inl (k, lt, r, hit, after)) =
          inl (k, omega arith, r, hit, λ j. grow other j (after j))
      longer other (inr (r, none_yet)) = inr (
        r,
        λ j. elim (ℕ_discrete j i) [
          | yes e ↦ inr (rw e other)
          | no far ↦ ground (arith, none_yet j)
        ],
      )

-- With enough fuel `strchr` on a string gives the address of its first character that is the low byte
-- of `c`, or the null pointer if there is none; the low byte is not 0.
pub strchr-FirstChar :
    (mem : Memory) (str n c fuel : ℕ)
    → IsString mem str n
    → c % 256 ≢ 0
    → n < fuel
    → (r : ℕ) × (strchr fuel str c mem ≡ some r) × FirstChar mem str n (c % 256) r
strchr-FirstChar mem str n c fuel s ne enough =
    strchr_from mem c s ne fuel 0 (omega arith) (omega arith) (omega arith) (λ j. inl (omega arith))

-- With enough fuel `strrchr` on a string gives the address of its last character that is the low byte
-- of `c`, or the null pointer if there is none; the low byte is not 0 and the string is not at 0.
pub strrchr-LastChar :
    (mem : Memory) (str n c fuel : ℕ)
    → IsString mem str n
    → str ≢ 0
    → c % 256 ≢ 0
    → n < fuel
    → (r : ℕ) × (strrchr fuel str c mem ≡ some r) × LastChar mem str n (c % 256) r
unfolding strrchr
strrchr-LastChar mem str n c fuel s at ne enough =
    let there : (str == 0) ≡ false = ground arith in
    rw there (
      strrchr_from mem c s ne fuel 0 0 (omega arith) (omega arith) (omega arith)
        (inr (refl, λ j. inl (omega arith))))
