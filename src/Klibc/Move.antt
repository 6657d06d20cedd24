-- ===== src/Klibc/Move.antt =====
-- `memcpy`, `memmove` and `memset` of src/klibc_string.cpp.
use native.Mathlib.Decide.{ℕ_discrete}
use synx.Prelude.{
  ℕ, zero, suc, ◌+◌, ◌-◌, ◌%◌, ◌≤◌, ◌<◌, ◌≡◌, ◌⊎◌, inl, inr, arith, ap, ◌&&◌, ◌==◌, ltb, leb,
  if◌then◌else◌, Bool-cases,
}
use synx.Klibc.{Memory, poke, copy_up, copy_down, memcpy, memmove, fill_up}

-- A block of `n` bytes at `dest` that holds what stood at `src`; all else as it was.
abbrev pub copied : (dest src n : ℕ) → Memory → Memory
copied dest src n mem x = if leb dest x && ltb x (dest + n) then mem (src + (x - dest)) else mem x

-- Going up is right where the block moves down or does not overlap.
copy_up-copied :
    (n i dest src : ℕ) (mem : Memory) (x : ℕ)
    → (dest < src) ⊎ (src + (i + n) ≤ dest)
    → copy_up n i dest src mem x
      ≡ (if leb (dest + i) x && ltb x (dest + i + n) then mem (src + (x - dest)) else mem x)
unfolding copy_up poke
copy_up-copied zero i dest src mem x apart = ground arith
copy_up-copied (suc n) i dest src mem x apart =
    let rest =
      copy_up-copied n (i + 1) dest src (poke mem (dest + i) (mem (src + i))) x (ground arith) in
    elim (ℕ_discrete x (dest + i)) [
      | yes e ↦
          let here : mem (src + i) ≡ mem (src + (x - dest)) = ap mem (omega arith) in
          ground (arith, rest, here)
      | no ne ↦ ground (arith, rest)
    ]

copy_down-copied :
    (i dest src : ℕ) (mem : Memory) (x : ℕ)
    → src < dest
    → copy_down i dest src mem x ≡ copied dest src i mem x
unfolding copy_down poke
copy_down-copied zero dest src mem x apart = ground arith
copy_down-copied (suc i) dest src mem x apart =
    let rest = copy_down-copied i dest src (poke mem (dest + i) (mem (src + i))) x apart in
    elim (ℕ_discrete x (dest + i)) [
      | yes e ↦
          let here : mem (src + i) ≡ mem (src + (x - dest)) = ap mem (omega arith) in
          ground (arith, rest, here)
      | no ne ↦ ground (arith, rest)
    ]

in_place : (dest src n : ℕ) (mem : Memory) (x : ℕ) → dest ≡ src → mem x ≡ copied dest src n mem x
in_place dest src n mem x e = elim (Bool-cases (leb dest x)) [
  | inl after ↦
      let here : mem x ≡ mem (src + (x - dest)) = ap mem (ground arith) in ground (arith, here)
  | inr before ↦ ground arith
]

-- `memmove` moves the whole block, whether the two blocks overlap or not, and changes no other byte.
pub memmove-copied :
    (dest src n : ℕ) (mem : Memory) (x : ℕ) → memmove dest src n mem x ≡ copied dest src n mem x
unfolding memmove
memmove-copied dest src n mem x = elim (Bool-cases (ltb dest src)) [
  | inl down ↦ rw down (ground (arith, copy_up-copied n 0 dest src mem x (inl (ground arith))))
  | inr up ↦ rw up (elim (Bool-cases (ltb src dest)) [
    | inl more ↦ rw more (copy_down-copied n dest src mem x (ground arith))
    | inr same ↦ rw same (in_place dest src n mem x (ground arith))
  ])
]

-- `memcpy` on blocks that do not overlap moves the whole block and changes no other byte.
pub memcpy-copied :
    (dest src n : ℕ) (mem : Memory) (x : ℕ)
    → (dest + n ≤ src) ⊎ (src + n ≤ dest)
    → memcpy dest src n mem x ≡ copied dest src n mem x
unfolding memcpy
memcpy-copied dest src n mem x apart = elim (Bool-cases (n == 0)) [
  | inl nothing ↦ ground (arith, copy_up-copied n 0 dest src mem x (ground arith))
  | inr some_bytes ↦ ground (arith, copy_up-copied n 0 dest src mem x (ground arith))
]

pub fill_up-filled :
    (n i dest val : ℕ) (mem : Memory) (x : ℕ)
    → fill_up n i dest val mem x
      ≡ (if leb (dest + i) x && ltb x (dest + i + n) then val % 256 else mem x)
unfolding fill_up poke
fill_up-filled zero i dest val mem x = ground arith
fill_up-filled (suc n) i dest val mem x =
    ground (arith, fill_up-filled n (i + 1) dest val (poke mem (dest + i) (val % 256)) x)
