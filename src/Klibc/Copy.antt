-- ===== src/Klibc/Copy.antt =====
-- `strncpy` and `strcat` of src/klibc_string.cpp.
use native.Mathlib.Decide.{ℕ_discrete}
use synx.Prelude.{
  ℕ, zero, suc, ◌+◌, ◌-◌, ◌≤◌, ◌<◌, ◌≡◌, ◌≢◌, ◌⊎◌, refl, arith, ap, true, false, some, ◌==◌, ◌&&◌,
  ◌||◌, ltb, leb, if◌then◌else◌,
}
use synx.Klibc.{Memory, poke, strncpy_loop, strncpy, append_at, strcat}
use synx.Klibc.Compare.{IsString, strlen-IsString}
use synx.Klibc.Move.{fill_up-filled}

-- A field of `n` bytes at `dest` with the `len` characters from `src`, cut or padded with zeros.
abbrev pub padded : (dest src len n : ℕ) → Memory → Memory
padded dest src len n mem x =
    if leb dest x && ltb x (dest + n)
    then (if ltb (x - dest) len then mem (src + (x - dest)) else 0)
    else mem x

module _ {src len : ℕ} (dest n : ℕ) (apart : (dest + n ≤ src) ⊎ (src + len < dest)) where
  strncpy_loop-padded :
      (left i : ℕ) (mem : Memory) (x : ℕ)
      → i + left ≡ n
      → i ≤ len
      → IsString mem src len
      → strncpy_loop left i dest src mem x ≡ (
          if leb (dest + i) x && ltb x (dest + n)
          then (if ltb (x - dest) len then mem (src + (x - dest)) else 0)
          else mem x)
  unfolding strncpy_loop poke
  strncpy_loop-padded zero i mem x e le s = ground arith
  strncpy_loop-padded (suc left) i mem x e le s = elim (ℕ_discrete i len) [
    | yes done ↦
        let ended : (mem (src + i) == 0) ≡ true =
          ground (arith, ap (λ k. mem (src + k)) done, s.ended) in
        rw (ended, strncpy_loop) (ground (arith, fill_up-filled (suc left) i dest 0 mem x))
    | no going ↦
        let more : (mem (src + i) == 0) ≡ false = ground (arith, s.inner i (omega arith)) in
        let mem' = poke mem (dest + i) (mem (src + i)) in
        let kept : IsString mem' src len = record {
          ended = ground (arith, s.ended);
          inner = λ j lt. ground (arith, s.inner j lt);
        } in
        let rest = strncpy_loop-padded left (i + 1) mem' x (omega arith) (omega arith) kept in
        rw (more, strncpy_loop)
          (elim (ℕ_discrete x (dest + i)) [
            | yes at ↦
                let here : mem (src + i) ≡ mem (src + (x - dest)) = ap mem (omega arith) in
                ground (arith, rest, here)
            | no other ↦ ground (arith, rest)
          ])
  ]

-- `strncpy` from a string of `len` characters fills exactly the `n` bytes at `dest`: with the
-- characters, cut at `n`, and with zeros behind them. Neither pointer is null, and the field lies apart
-- from the string.
pub strncpy-padded :
    (mem : Memory) (dest src len n x : ℕ)
    → IsString mem src len
    → dest ≢ 0
    → src ≢ 0
    → (dest + n ≤ src) ⊎ (src + len < dest)
    → strncpy dest src n mem x ≡ padded dest src len n mem x
unfolding strncpy
strncpy-padded mem dest src len n x s hd hs apart =
    let there : (dest == 0 || src == 0) ≡ false = ground arith in
    rw there
      (ground (arith, strncpy_loop-padded dest n apart n 0 mem x (omega arith) (omega arith) s))

-- The string at `src` behind the `n` characters at `dest`, the terminator included.
abbrev pub joined : (dest src n len : ℕ) → Memory → Memory
joined dest src n len mem x =
    if leb (dest + n) x && leb x (dest + n + len) then mem (src + (x - (dest + n))) else mem x

module _ {src len : ℕ} (dest : ℕ) (apart : (dest + len < src) ⊎ (src + len < dest)) where
  append_at-joined :
      (fuel i : ℕ) (mem : Memory) {a b : ℕ}
      → a ≡ dest + i
      → b ≡ src + i
      → i ≤ len
      → len < fuel + i
      → IsString mem src len
      → (mem' : Memory) × (append_at fuel a b mem ≡ some mem')
        × ((x : ℕ)
            → mem' x
              ≡ (if leb (dest + i) x && leb x (dest + len) then mem (src + (x - dest)) else mem x))
  unfolding append_at poke
  append_at-joined zero i mem ea eb le enough s = absurd (omega arith)
  append_at-joined (suc fuel) i mem {a} {b} ea eb le enough s = elim (ℕ_discrete i len) [
    | yes done ↦
        let ended : (mem b == 0) ≡ true =
          ground (arith, ap mem eb, ap (λ k. mem (src + k)) done, s.ended) in
        rw (ended, append_at) (poke mem a 0, refl, last done s.ended)
    | no going ↦
        let more : (mem b == 0) ≡ false = ground (arith, ap mem eb, s.inner i (omega arith)) in
        let mem' = poke mem a (mem b) in
        let kept : IsString mem' src len = record {
          ended = ground (arith, s.ended);
          inner = λ j lt. ground (arith, s.inner j lt);
        } in
        rw (more, append_at)
          (next (omega arith) (
            append_at-joined fuel (i + 1) mem' (omega arith) (omega arith) (omega arith)
              (omega arith) kept))
  ]
    where
      Outcome : ℕ → ℕ → ℕ → ℕ → Memory → Type 0
      Outcome f k a' b' m =
          (mem' : Memory) × (append_at f a' b' m ≡ some mem')
          × ((x : ℕ)
              → mem' x
                ≡ (if leb (dest + k) x && leb x (dest + len) then m (src + (x - dest)) else m x))

      last :
          i ≡ len
          → mem (src + len) ≡ 0
          → (x : ℕ)
          → poke mem a 0 x
            ≡ (if leb (dest + i) x && leb x (dest + len) then mem (src + (x - dest)) else mem x)
      last e z x = elim (ℕ_discrete x a) [
        | yes at ↦
            let here : mem (src + len) ≡ mem (src + (x - dest)) = ap mem (omega arith) in
            ground (arith, here)
        | no other ↦ ground arith
      ]

      next :
          i < len
          → Outcome fuel (i + 1) (a + 1) (b + 1) (poke mem a (mem b))
          → (mem' : Memory) × (append_at fuel (a + 1) (b + 1) (poke mem a (mem b)) ≡ some mem')
            × ((x : ℕ)
                → mem' x ≡ (
                    if leb (dest + i) x && leb x (dest + len)
                    then mem (src + (x - dest))
                    else mem x))
      next lt (final, runs, what) = (
        final,
        runs,
        λ x. elim (ℕ_discrete x a) [
          | yes at ↦
              let here : mem b ≡ mem (src + (x - dest)) = ap mem (omega arith) in
              ground (arith, what x, here)
          | no other ↦ ground (arith, what x)
        ],
      )

-- With enough fuel `strcat` returns: the string of `len` characters stands behind the `n` characters at
-- `dest`, its terminator included, and no other byte changes. The string lies apart from the place that
-- the result takes.
pub strcat-joined :
    (mem : Memory) (dest src n len fuel : ℕ)
    → IsString mem dest n
    → IsString mem src len
    → (dest + n + len < src) ⊎ (src + len < dest + n)
    → n < fuel
    → len < fuel
    → (mem' : Memory) × (strcat fuel dest src mem ≡ some mem')
      × ((x : ℕ) → mem' x ≡ joined dest src n len mem x)
unfolding strcat
strcat-joined mem dest src n len fuel sd ss apart hn hl =
    rw (strlen-IsString fuel 0 mem dest n sd (omega arith) (omega arith), strcat)
      (finish (
        append_at-joined (dest + n) apart fuel 0 mem (omega arith) (omega arith) (omega arith)
          (omega arith) ss))
  where
    finish :
        (mem' : Memory) × (append_at fuel (dest + n) src mem ≡ some mem')
          × ((x : ℕ)
              → mem' x ≡ (
                  if leb (dest + n + 0) x && leb x (dest + n + len)
                  then mem (src + (x - (dest + n)))
                  else mem x))
        → (mem' : Memory) × (append_at fuel (dest + n) src mem ≡ some mem')
          × ((x : ℕ) → mem' x ≡ joined dest src n len mem x)
    finish (final, runs, what) = (final, runs, λ x. ground (arith, what x))
