-- ===== src/Klibc.antt =====
-- src/klibc_string.cpp: the functions on memory and on strings that the kernel uses. Memory is a
-- function from addresses to bytes; a block does not wrap around the end of the address space.
pub mod Move
pub mod Compare
pub mod Find
pub mod Number
pub mod Chars
pub mod Copy
mod Tests
use synx.Prelude.{
  ℕ, zero, suc, ◌+◌, ◌-◌, ◌/◌, ◌%◌, Bool, true, false, not, ◌&&◌, ◌||◌, Option, none, some, List,
  [], ◌∷◌, ◌==◌, ltb, leb, if◌then◌else◌, get_elem?, word32,
}

abbrev pub Memory : Type 0
Memory = ℕ → ℕ

unfoldable pub poke : Memory → ℕ → ℕ → Memory
poke mem a v b = if a == b then v else mem b

-- The loop that goes up, with `n` rounds left.
pub copy_up : (n i dest src : ℕ) → Memory → Memory
copy_up zero i dest src mem = mem
copy_up (suc n) i dest src mem = copy_up n (i + 1) dest src (poke mem (dest + i) (mem (src + i)))

-- The loop of `memmove` that goes down, from `i` to 1.
pub copy_down : (i dest src : ℕ) → Memory → Memory
copy_down zero dest src mem = mem
copy_down (suc i) dest src mem = copy_down i dest src (poke mem (dest + i) (mem (src + i)))

pub memcpy : (dest src n : ℕ) → Memory → Memory
memcpy dest src n mem = copy_up n 0 dest src mem

pub memmove : (dest src n : ℕ) → Memory → Memory
memmove dest src n mem =
    if ltb dest src
    then copy_up n 0 dest src mem
    else if ltb src dest
    then copy_down n dest src mem
    else mem

pub fill_up : (n i dest val : ℕ) → Memory → Memory
fill_up zero i dest val mem = mem
fill_up (suc n) i dest val mem = fill_up n (i + 1) dest val (poke mem (dest + i) (val % 256))

pub memset : (dest val n : ℕ) → Memory → Memory
memset dest val n mem = fill_up n 0 dest val mem

-- `-1` is the largest 32-bit number.
memcmp_loop : (n i s1 s2 : ℕ) → Memory → ℕ
memcmp_loop zero i s1 s2 mem = 0
memcmp_loop (suc n) i s1 s2 mem =
    let rest = memcmp_loop n (i + 1) s1 s2 mem in
    if mem (s1 + i) == mem (s2 + i)
    then rest
    else if ltb (mem (s1 + i)) (mem (s2 + i))
    then word32 - 1
    else 1

pub memcmp : (s1 s2 n : ℕ) → Memory → ℕ
memcmp s1 s2 n mem = memcmp_loop n 0 s1 s2 mem

-- The loops over strings stop at the terminator; `fuel` bounds them and `none` is the end of the fuel.
pub strlen : (fuel len str : ℕ) → Memory → Option ℕ
strlen zero len str mem = none
strlen (suc fuel) len str mem =
    let rest = strlen fuel (len + 1) str mem in if mem (str + len) == 0 then some len else rest

-- The result is a `uint8_t`.
pub strcmp : (fuel s1 s2 : ℕ) → Memory → Option ℕ
strcmp zero s1 s2 mem = none
strcmp (suc fuel) s1 s2 mem =
    let rest = strcmp fuel (s1 + 1) (s2 + 1) mem in
    if not (mem s1 == 0) && mem s1 == mem s2 then rest else some ((mem s1 + 256 - mem s2) % 256)

-- The inner loop of `strstr`: whether `needle` stands at `h`.
pub matches : (fuel h n : ℕ) → Memory → Option Bool
matches zero h n mem = none
matches (suc fuel) h n mem =
    let rest = matches fuel (h + 1) (n + 1) mem in
    if mem h == mem n && not (mem n == 0) then rest else some (mem n == 0)

-- The outer loop; a null pointer is 0.
strstr_loop : (fuel rounds haystack needle : ℕ) → Memory → Option ℕ
strstr_loop fuel zero haystack needle mem = none
strstr_loop fuel (suc rounds) haystack needle mem =
    let rest = strstr_loop fuel rounds (haystack + 1) needle mem in
    if mem haystack == 0 then some 0 else elim (matches fuel haystack needle mem) [
      | none ↦ none
      | some here ↦ if here then some haystack else rest
    ]

pub strstr : (fuel haystack needle : ℕ) → Memory → Option ℕ
strstr fuel haystack needle mem =
    if mem needle == 0 then some haystack else strstr_loop fuel fuel haystack needle mem

-- `strchr`; `c` is cut to a byte.
pub strchr : (fuel str c : ℕ) → Memory → Option ℕ
strchr zero str c mem = none
strchr (suc fuel) str c mem =
    let rest = strchr fuel (str + 1) c mem in
    if mem str == 0
    then some (if c % 256 == 0 then str else 0)
    else if mem str == c % 256
    then some str
    else rest

-- The loop of `strrchr`, with the last occurrence so far.
strrchr_loop : (fuel str c last : ℕ) → Memory → Option ℕ
strrchr_loop zero str c last mem = none
strrchr_loop (suc fuel) str c last mem =
    let rest = strrchr_loop fuel (str + 1) c (if mem str == c % 256 then str else last) mem in
    if mem str == 0 then some (if c % 256 == 0 then str else last) else rest

pub strrchr : (fuel str c : ℕ) → Memory → Option ℕ
unfolding strrchr_loop
strrchr fuel str c mem = if str == 0 then some 0 else strrchr_loop fuel str c 0 mem

-- Both loops of `strncpy`, with `left` rounds left.
strncpy_loop : (left i dest src : ℕ) → Memory → Memory
strncpy_loop zero i dest src mem = mem
strncpy_loop (suc left) i dest src mem =
    let rest = strncpy_loop left (i + 1) dest src (poke mem (dest + i) (mem (src + i))) in
    if mem (src + i) == 0 then fill_up (suc left) i dest 0 mem else rest

pub strncpy : (dest src n : ℕ) → Memory → Memory
strncpy dest src n mem = if dest == 0 || src == 0 then mem else strncpy_loop n 0 dest src mem

-- The second and third statement of `strcat`: the copy up to the terminator, and the new terminator.
append_at : (fuel dest src : ℕ) → Memory → Option Memory
append_at zero dest src mem = none
append_at (suc fuel) dest src mem =
    let rest = append_at fuel (dest + 1) (src + 1) (poke mem dest (mem src)) in
    if mem src == 0 then some (poke mem dest 0) else rest

-- The first loop of `strcat` goes to the end of `dest`.
pub strcat : (fuel dest src : ℕ) → Memory → Option Memory
unfolding append_at
strcat fuel dest src mem = elim (strlen fuel 0 dest mem) [
  | none ↦ none
  | some len ↦ append_at fuel (dest + len) src mem
]

-- `hex_chars`
abbrev pub hex_chars : List ℕ
hex_chars =
    b'0' ∷ b'1' ∷ b'2' ∷ b'3' ∷ b'4' ∷ b'5' ∷ b'6' ∷ b'7' ∷ b'8' ∷ b'9' ∷ b'a' ∷ b'b' ∷ b'c' ∷ b'd'
    ∷ b'e' ∷ b'f' ∷ 0 ∷ []

-- The loop of `itoa`, with `room` bytes of `tmp` left; `tmp` is listed from its last byte on. A digit
-- past the end of `tmp` or of the table is `none`.
itoa_loop : (room val base : ℕ) → (tmp : List ℕ) → Option (List ℕ)
itoa_loop zero val base tmp = if val == 0 then some tmp else none
itoa_loop (suc room) val base tmp =
    if val == 0 then some tmp else elim (get_elem? hex_chars (val % base)) [
      | none ↦ none
      | some c ↦ itoa_loop room (val / base) base (c ∷ tmp)
    ]

-- The last loop of `itoa`: `tmp` backwards into `buf`, and the terminator.
put_string : ℕ → List ℕ → Memory → Memory
put_string buf [] mem = poke mem buf 0
put_string buf (c ∷ cs) mem = put_string (buf + 1) cs (poke mem buf c)

-- The characters that `itoa` writes; a division by 0 is `none`.
pub itoa_chars : (val base : ℕ) → Option (List ℕ)
itoa_chars val base =
    if val == 0 then some (b'0' ∷ []) else if base == 0 then none else itoa_loop 20 val base []

pub itoa : (buf val base : ℕ) → Memory → Option Memory
itoa buf val base mem = elim (itoa_chars val base) [
  | none ↦ none
  | some cs ↦ some (put_string buf cs mem)
]
