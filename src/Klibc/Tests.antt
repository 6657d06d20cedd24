-- ===== src/Klibc/Tests.antt =====
-- The functions on memory and strings at a small memory.
use synx.Prelude.{
  ℕ, ◌+◌, ◌-◌, ◌≤◌, ◌<◌, ◌≡◌, refl, arith, ◌&&◌, ◌||◌, some, List, [], ◌∷◌, length, get_or, ◌==◌,
  ltb, leb, if◌then◌else◌,
}
use synx.Klibc.{Memory, memmove, strcmp, strstr, itoa, itoa_loop, itoa_chars}
use synx.Klibc.Move.{copied, memmove-copied}
use synx.Klibc.Compare.{IsString, StrCompared, strcmp-StrCompared}
use synx.Klibc.Find.{Found, strstr-Found}
use synx.Klibc.Number.{read, itoa-read}

-- "aaa" at 10, "aba" at 20 and "b" at 30.
abbrev text : Memory
text p =
    if p == 21
    then b'b'
    else if p == 30
    then b'b'
    else if (leb 10 p && ltb p 13) || (leb 20 p && ltb p 23)
    then b'a'
    else 0

aaa : IsString text 10 3
aaa = record { ended = refl; inner = λ i h. ground arith }

aba : IsString text 20 3
aba = record { ended = refl; inner = λ i h. ground arith }

b : IsString text 30 1
b = record { ended = refl; inner = λ i h. ground arith }

text_bytes : (p : ℕ) → text p < 256
text_bytes p = ground arith

memmove-copied_example : memmove 11 10 8 text 13 ≡ copied 11 10 8 text 13
memmove-copied_example = memmove-copied 11 10 8 text 13

strcmp-StrCompared_example : (r : ℕ) × (strcmp 9 10 20 text ≡ some r) × StrCompared text 10 20 3 3 r
strcmp-StrCompared_example = strcmp-StrCompared text 10 20 3 3 9 text_bytes aaa aba (omega arith)

strstr-Found_example : (r : ℕ) × (strstr 9 20 30 text ≡ some r) × Found text 20 30 3 1 r
strstr-Found_example = strstr-Found text 20 30 3 1 9 aba b (omega arith) (omega arith)

itoa-read_example :
    (cs : List ℕ) × (mem' : Memory) × (itoa 50 2026 10 text ≡ some mem')
    × (length cs ≤ 20)
    × (read 10 0 cs ≡ 2026)
    × ((x : ℕ)
        → mem' x ≡ (if leb 50 x && leb x (50 + length cs) then get_or cs (x - 50) 0 else text x))
itoa-read_example = itoa-read 50 2026 10 text (omega arith) (omega arith) (omega arith)

digits_of_2026 : itoa_chars 2026 10 ≡ some (b'2' ∷ b'0' ∷ b'2' ∷ b'6' ∷ [])
unfolding itoa_chars itoa_loop
digits_of_2026 = refl
