-- ===== src/Initramfs/Tests.antt =====
-- The loading of a small archive: the file "a" with two bytes, and the trailer.
use synx.Prelude.{ℕ, ◌+◌, ◌≤◌, ◌≡◌, refl, arith, true, List, [], ◌∷◌, ◌++◌, some, get_or, replicate}
use synx.Initramfs.{
  Str, Entry, magic, trailer, parse_hex, parse_hex_loop, hex_digit, chars, c_string, same_str,
  read_hex_field, safe_add, cpio_align4, place_entry, entry_fits, parse_entry, skip_dots,
  skip_slash, normalize_path,
}
use synx.Initramfs.Hex.{hex_chars}
use synx.Initramfs.Bounds.{InBounds, parse_entry-InBounds}
use synx.Initramfs.Load.{
  Files, loaded, is_err, split_last, ensure_parent_dir, base_name, create_entry, load_entry,
  load_loop, initramfs_load,
}
use synx.Initramfs.Keeping.{Keeps}
use synx.Initramfs.Loading.{Ended, initramfs_load-Ended}

abbrev header : (mode filesize namesize : ℕ) → Str
header mode filesize namesize =
    magic
    ++ hex_chars true 8 0
    ++ hex_chars true 8 mode
    ++ replicate 32 0x30
    ++ hex_chars true 8 filesize
    ++ replicate 32 0x30
    ++ hex_chars true 8 namesize
    ++ replicate 8 0x30

abbrev small : Str
small =
    header 0x81A4 2 2
    ++ (b'a' ∷ 0 ∷ b'h' ∷ b'i' ∷ 0 ∷ 0 ∷ [])
    ++ header 0 0 11
    ++ trailer
    ++ (0 ∷ 0 ∷ 0 ∷ 0 ∷ [])

abbrev archive : ℕ → ℕ
archive x = get_or small x 0

-- A file system that only keeps the end of the data of each file that was made.
abbrev ends : Files (List ℕ)
ends = record {
  path_walk = λ path s. (16, s);
  d_lookup = λ p name s. 0;
  dget = λ p s. s;
  dput = λ p s. s;
  create_dir = λ p name s. (32, s);
  create_file = λ p name at size s. (32, (at + size) ∷ s);
}

AllBelow : ℕ → List ℕ → Type 0
AllBelow size [] = Unit {0}
AllBelow size (n ∷ s) = (n ≤ size) × AllBelow size s

ends-Keeps : Keeps ends 240 (AllBelow 240)
unfolding AllBelow
ends-Keeps = record {
  path_walk = λ path s p. p;
  dget = λ q s p. p;
  dput = λ q s p. p;
  create_dir = λ q name s p. p;
  create_file = λ q name at size s inside p. (inside, p);
}

small_loads : initramfs_load ends archive 240 241 [] ≡ loaded 1 (114 ∷ [])
unfolding same_str initramfs_load load_loop parse_entry read_hex_field parse_hex parse_hex_loop
    hex_digit chars place_entry entry_fits safe_add cpio_align4 c_string load_entry normalize_path
    skip_dots skip_slash ensure_parent_dir split_last create_entry base_name is_err
small_loads = refl

initramfs_load-Ended_example :
    Ended ends (AllBelow 240) (initramfs_load ends archive 240 (240 + 1) [])
unfolding AllBelow
initramfs_load-Ended_example =
    initramfs_load-Ended ends 240 (AllBelow 240) ends-Keeps archive [] (omega arith) tt

abbrev first : Entry
first = record {
  name_offset = 110;
  namesize = 2;
  data_offset = 112;
  filesize = 2;
  next_offset = 116;
}

first_parsed : parse_entry archive 240 0 ≡ some first
unfolding same_str parse_entry read_hex_field parse_hex parse_hex_loop hex_digit chars place_entry
    entry_fits safe_add cpio_align4
first_parsed = refl

parse_entry-InBounds_example : InBounds archive 240 0 first
parse_entry-InBounds_example =
    parse_entry-InBounds archive 240 0 first (omega arith) (omega arith) first_parsed
