-- ===== src/Initramfs.antt =====
-- fs/initramfs.cpp: the loading of a cpio archive ("newc") into the file system.
pub mod Hex
pub mod Bounds
pub mod Load
pub mod Keeping
pub mod Loading
mod Tests
use synx.Prelude.{
  ℕ, zero, suc, ◌+◌, ◌-◌, ◌*◌, ◌%◌, Bool, true, false, not, ◌&&◌, ◌||◌, List, [], ◌∷◌, ◌++◌, Option,
  none, some, ◌==◌, ltb, leb, if◌then◌else◌, take, length, bit_and, word32, word64, add64,
}

abbrev pub cpio_header_size : ℕ
cpio_header_size = 110

abbrev pub slash : ℕ
slash = 0x2F

abbrev pub dot : ℕ
dot = 0x2E

-- A C string without its final NUL, or a run of bytes.
abbrev pub Str : Type 0
Str = List ℕ

unfoldable pub same_str : Str → Str → Bool
same_str [] [] = true
same_str [] (b ∷ t) = false
same_str (a ∷ s) [] = false
same_str (a ∷ s) (b ∷ t) = a == b && same_str s t

-- "070701"
abbrev pub magic : Str
magic = 0x30 ∷ 0x37 ∷ 0x30 ∷ 0x37 ∷ 0x30 ∷ 0x31 ∷ []

-- "TRAILER!!!"
abbrev pub trailer : Str
trailer = b'T' ∷ b'R' ∷ b'A' ∷ b'I' ∷ b'L' ∷ b'E' ∷ b'R' ∷ 0x21 ∷ 0x21 ∷ 0x21 ∷ []

-- `(n + 3) & ~(size_t)3`: the sum, with its last two bits cleared.
unfoldable pub cpio_align4 : ℕ → ℕ
cpio_align4 n = add64 n 3 - add64 n 3 % 4

-- The sum, or none where it wraps.
unfoldable pub safe_add : ℕ → ℕ → Option ℕ
safe_add a b = if leb a (add64 a b) then some (add64 a b) else none

unfoldable pub hex_digit : ℕ → Option ℕ
hex_digit c =
    if leb 0x30 c && leb c 0x39
    then some (c - 0x30)
    else if leb 0x41 c && leb c 0x46
    then some (c - 0x41 + 10)
    else if leb 0x61 c && leb c 0x66
    then some (c - 0x61 + 10)
    else none

-- The loop of `parse_hex`. The last four bits of `out << 4` are clear, so `|` adds the digit.
unfoldable pub parse_hex_loop : Str → (out : ℕ) → Option ℕ
parse_hex_loop [] out = some out
parse_hex_loop (c ∷ s) out = elim (hex_digit c) [
  | none ↦ none
  | some nibble ↦ parse_hex_loop s (out * 16 % word64 + nibble)
]

unfoldable pub parse_hex : Str → Option ℕ
parse_hex s = parse_hex_loop s 0

-- `while (p[0] == '.' && p[1] == '/') p += 2`
unfoldable pub skip_dots : Str → Str
skip_dots [] = []
skip_dots (a ∷ []) = a ∷ []
skip_dots (a ∷ b ∷ s) = let rest = skip_dots s in if a == dot && b == slash then rest else a ∷ b ∷ s

-- `if (p[0] == '/') p++`
unfoldable pub skip_slash : Str → Str
skip_slash [] = []
skip_slash (a ∷ s) = if a == slash then s else a ∷ s

unfoldable pub normalize_path : Str → (max_len : ℕ) → Str
normalize_path raw max_len =
    let p = skip_slash (skip_dots raw) in
    if same_str p (dot ∷ []) then [] else if leb max_len (length p) then take (max_len - 1) p else p

-- What a header and the tests on it give: the places of the name and of the data, and the next header.
pub record Entry : Type 0 where
  pub name_offset : ℕ
  pub namesize : ℕ
  pub data_offset : ℕ
  pub filesize : ℕ
  pub next_offset : ℕ

-- The offsets of an entry; none for the messages on overflow.
unfoldable pub place_entry : (offset namesize filesize : ℕ) → Option Entry
place_entry offset namesize filesize = elim (safe_add offset cpio_header_size) [
  | none ↦ none
  | some name_offset ↦ elim (safe_add name_offset namesize) [
    | none ↦ none
    | some name_end ↦
        let data_offset = cpio_align4 name_end in
        let data_end = add64 data_offset filesize in
        let next_offset = cpio_align4 data_end in
        if ltb data_offset name_end || ltb next_offset data_end
        then none
        else some (record {
          name_offset = name_offset;
          namesize = namesize;
          data_offset = data_offset;
          filesize = filesize;
          next_offset = next_offset;
        })
  ]
]

module _ (archive : ℕ → ℕ) where
  -- The `n` bytes from `at` on.
  unfoldable pub chars : (n at : ℕ) → Str
  chars zero at = []
  chars (suc n) at = archive at ∷ chars n (at + 1)

  -- The string at `at`, whose end is in the first `n` bytes.
  unfoldable pub c_string : (n at : ℕ) → Str
  c_string zero at = []
  c_string (suc n) at =
      let rest = c_string n (at + 1) in if archive at == 0 then [] else archive at ∷ rest

  unfoldable pub read_hex_field : (header off len : ℕ) → Option ℕ
  unfolding parse_hex chars
  read_hex_field header off len = parse_hex (chars len (header + off))

  -- The test of an entry against the size of the archive and of the end of its name.
  unfoldable pub entry_fits : (size : ℕ) → Entry → Bool
  entry_fits size e =
      not (e.namesize == 0)
      && leb (add64 e.name_offset e.namesize) size
      && leb (add64 e.data_offset e.filesize) size
      && leb e.next_offset size
      && archive (e.name_offset + (e.namesize - 1)) == 0

  -- A round of the loop up to the test of the name's last byte; none is a return of -1.
  unfoldable pub parse_entry : (size offset : ℕ) → Option Entry
  parse_entry size offset =
      if not (same_str (chars 6 offset) magic) then none else (elim (read_hex_field offset 94 8) [
        | none ↦ none
        | some namesize ↦ elim (read_hex_field offset 54 8) [
          | none ↦ none
          | some filesize ↦ elim (place_entry offset namesize filesize) [
            | none ↦ none
            | some e ↦ if entry_fits size e then some e else none
          ]
        ]
      ])
