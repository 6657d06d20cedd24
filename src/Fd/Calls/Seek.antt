-- ===== src/Fd/Calls/Seek.antt =====
-- `sys_lseek` of proc/syscall_fs.cpp: the arithmetic of the new offset.
use synx.Prelude.{
  ℕ, ◌+◌, ◌-◌, ◌^◌, ◌≤◌, ◌<◌, ◌≡◌, ◌⊎◌, inl, inr, refl, arith, ltb, leb, ◌==◌, ◌&&◌, if◌then◌else◌,
  word64, Bool-cases,
}
use synx.Fd.{ret, err, erange}
use synx.Fd.Calls.{int64_max, seek_to}

-- The sum of `base` and the `int64_t` that `raw` stands for, where the sum is a natural number.
abbrev pub IsSum : (base raw n : ℕ) → Type 0
IsSum base raw n = if leb raw int64_max then n ≡ base + raw else n + word64 ≡ base + raw

-- `sys_lseek` with a base and an offset pattern of 64 bits either gives the exact sum of the base and
-- the signed offset, which is then no larger than INT64_MAX; or it gives ERANGE, and the offset is
-- INT64_MIN or no number from 0 to INT64_MAX is the exact sum. Nothing wraps.
pub seek_to-IsSum :
    (base raw : ℕ)
    → base ≤ int64_max
    → raw < word64
    → ((n : ℕ) × (seek_to base raw ≡ ret n) × IsSum base raw n × (n ≤ int64_max))
      ⊎ ((seek_to base raw ≡ err erange)
          × ((raw ≡ 2 ^ 63) ⊎ ¬ ((n : ℕ) × (n ≤ int64_max) × IsSum base raw n)))
unfolding seek_to
seek_to-IsSum base raw hb hr = elim (Bool-cases (leb raw int64_max)) [
  | inl up ↦ rw up (elim (Bool-cases (ltb 0 raw && ltb (int64_max - raw) base)) [
    | inl far ↦ rw far (inr (refl, inr (λ (n, h, e). ground arith)))
    | inr near ↦ rw near (inl (base + raw, refl, refl, ground arith))
  ])
  | inr down ↦ rw down (elim (Bool-cases (raw == 2 ^ 63)) [
    | inl min ↦ rw min (inr (refl, inl (ground arith)))
    | inr ne ↦ rw ne (elim (Bool-cases (ltb base (word64 - raw))) [
      | inl far ↦ rw far (inr (refl, inr (λ (n, h, e). ground arith)))
      | inr near ↦ rw near (inl (base - (word64 - raw), refl, ground arith, ground arith))
    ])
  ])
]
