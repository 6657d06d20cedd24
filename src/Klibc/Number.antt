-- ===== src/Klibc/Number.antt =====
-- `itoa` of src/klibc_string.cpp: the digits, their number and the text in memory.
use native.Mathlib.Nat.{mul-le-mul_left, div-lt_iff_lt-mul, div-add-mod', mod-lt}
use native.Mathlib.Decide.{ℕ_discrete}
use synx.Prelude.{
  ℕ, zero, suc, ◌+◌, ◌-◌, ◌*◌, ◌/◌, ◌%◌, ◌^◌, ◌≤◌, ◌<◌, ◌≡◌, inl, inr, refl, ◌∙◌, arith, ap, true,
  false, ◌&&◌, Option, none, some, ◌==◌, ==_iff, leb, List, [], ◌∷◌, length, get_or, get_elem?,
  if◌then◌else◌, Bool-cases, every_below, every_below_sound, word64,
}
use synx.Klibc.{Memory, poke, hex_chars, itoa_loop, itoa_chars, put_string, itoa}

-- The value of a digit's character, 16 for any other.
digit : ℕ → ℕ
digit c =
    if leb b'0' c && leb c b'9'
    then c - b'0'
    else if leb b'a' c && leb c b'f'
    then c - b'a' + 10
    else 16

-- The number that a text stands for, read from the left.
pub read : (base acc : ℕ) → List ℕ → ℕ
read base acc [] = acc
read base acc (c ∷ cs) = read base (acc * base + digit c) cs

digit_table :
    every_below 16 (λ d. elim (get_elem? hex_chars d) [ none ↦ false | some c ↦ digit c == d ])
    ≡ true
unfolding digit every_below
digit_table = refl

hex_digit : (d : ℕ) → d < 16 → (c : ℕ) × (get_elem? hex_chars d ≡ some c) × (digit c ≡ d)
hex_digit d h = go (get_elem? hex_chars d) refl (every_below_sound 16 _ d digit_table h)
  where
    go :
        (o : Option ℕ)
        → get_elem? hex_chars d ≡ o
        → (elim (get_elem? hex_chars d) [ none ↦ false | some c ↦ digit c == d ]) ≡ true
        → (c : ℕ) × (get_elem? hex_chars d ≡ some c) × (digit c ≡ d)
    go none e t = absurd (ground arith)
    go (some c) e t = (c, e, (==_iff (digit c) d).0 (ground arith))

itoa_loop-read :
    (room val base : ℕ) (tmp : List ℕ)
    → 10 ≤ base
    → base ≤ 16
    → val < 10 ^ room
    → (cs : List ℕ) × (itoa_loop room val base tmp ≡ some cs)
      × (length cs ≤ room + length tmp)
      × (read base 0 cs ≡ read base val tmp)
unfolding itoa_loop read
itoa_loop-read zero val base tmp lo hi small =
    let e : (val == 0) ≡ true = ground arith in
    rw e (tmp, refl, omega arith, ap (λ v. read base v tmp) (omega arith))
itoa_loop-read (suc room) val base tmp lo hi small = elim (Bool-cases (val == 0)) [
  | inl e ↦ rw (e, itoa_loop) (tmp, refl, omega arith, ap (λ v. read base v tmp) (ground arith))
  | inr ne ↦
      let (c, e, d) = hex_digit (val % base) (omega (arith, mod-lt val {m = base} (omega arith))) in
      let wide : 10 ^ room * 10 ≤ 10 ^ room * base = mul-le-mul_left (10 ^ room) lo in
      let pow_suc : 10 ^ suc room ≡ 10 ^ room * 10 = omega arith in
      let small' : val / base < 10 ^ room =
        (div-lt_iff_lt-mul (omega arith)).1 (omega (arith, wide, pow_suc)) in
      let (cs, runs, few, value) = itoa_loop-read room (val / base) base (c ∷ tmp) lo hi small' in
      rw (ne, itoa_loop)
        (rw e (
          cs,
          runs,
          omega (arith, few),
          value
              ∙ ap (λ v. read base v tmp)
                  (ap (λ q. val / base * base + q) d ∙ div-add-mod' val base),
        ))
]

put_string-text :
    (cs : List ℕ) (buf : ℕ) (mem : Memory) (x : ℕ)
    → put_string buf cs mem x
      ≡ (if leb buf x && leb x (buf + length cs) then get_or cs (x - buf) 0 else mem x)
unfolding put_string poke
put_string-text [] buf mem x = ground arith
put_string-text (c ∷ cs) buf mem x =
    let rest = put_string-text cs (buf + 1) (poke mem buf c) x in
    elim (ℕ_discrete x buf) [
      | yes e ↦
          let z : x - buf ≡ 0 = omega arith in
          let first : get_or (c ∷ cs) (x - buf) 0 ≡ c = ap (λ k. get_or (c ∷ cs) k 0) z in
          ground (arith, rest, first)
      | no ne ↦ elim (Bool-cases (leb buf x)) [
        | inl after ↦
            let z : x - buf ≡ suc (x - (buf + 1)) = ground arith in
            let later : get_or (c ∷ cs) (x - buf) 0 ≡ get_or cs (x - (buf + 1)) 0 =
              ap (λ k. get_or (c ∷ cs) k 0) z in
            ground (arith, rest, later)
        | inr before ↦ ground (arith, rest)
      ]
    ]

itoa_chars-read :
    (val base : ℕ)
    → 10 ≤ base
    → base ≤ 16
    → val < word64
    → (cs : List ℕ) × (itoa_chars val base ≡ some cs) × (length cs ≤ 20) × (read base 0 cs ≡ val)
unfolding itoa_chars read digit
itoa_chars-read val base lo hi small = elim (Bool-cases (val == 0)) [
  | inl e ↦ rw e (b'0' ∷ [], refl, omega arith, ground arith)
  | inr ne ↦
      let (cs, runs, few, value) = itoa_loop-read 20 val base [] lo hi (omega arith) in
      let base_ne : (base == 0) ≡ false = ground arith in rw (ne, base_ne) (cs, runs, few, value)
]

-- `itoa` in a base from 10 to 16 never leaves its buffer `tmp` and writes a text of at most 20
-- characters and the terminator: the text, read in that base, is the number again, and no other byte
-- changes.
pub itoa-read :
    (buf val base : ℕ) (mem : Memory)
    → 10 ≤ base
    → base ≤ 16
    → val < word64
    → (cs : List ℕ) × (mem' : Memory) × (itoa buf val base mem ≡ some mem')
      × (length cs ≤ 20)
      × (read base 0 cs ≡ val)
      × ((x : ℕ)
          → mem' x
            ≡ (if leb buf x && leb x (buf + length cs) then get_or cs (x - buf) 0 else mem x))
unfolding itoa
itoa-read buf val base mem lo hi small =
    let (cs, runs, few, value) = itoa_chars-read val base lo hi small in
    (cs, put_string buf cs mem, rw (runs, itoa) refl, few, value, put_string-text cs buf mem)
