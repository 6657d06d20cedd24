-- ===== src/Initramfs/Bounds.antt =====
-- Where the header, the name and the data of an entry lie that a round of `initramfs_load`
-- (fs/initramfs.cpp) goes on with.
use synx.Prelude.{
  guard_passed, test_passed, ap, ◌∙◌, step_passed, ℕ, ◌+◌, ◌-◌, ◌%◌, ◌^◌, ◌≤◌, ◌<◌, ◌≡◌, sym, arith,
  true, some,
}
use synx.Initramfs.{
  cpio_header_size, cpio_align4, safe_add, parse_hex, chars, read_hex_field, Entry, place_entry,
  entry_fits, parse_entry,
}
use synx.Initramfs.Hex.{parse_hex_loop-lt}

-- The parts of an entry follow each other and end in the archive.
pub record InBounds (archive : ℕ → ℕ) (size offset : ℕ) (e : Entry) : Type 0 where
  pub name_after_header : e.name_offset ≡ offset + cpio_header_size
  pub named : 1 ≤ e.namesize
  pub data_after_name : e.name_offset + e.namesize ≤ e.data_offset
  pub next_after_data : e.data_offset + e.filesize ≤ e.next_offset
  pub next_in_archive : e.next_offset ≤ size
  pub aligned : e.next_offset % 4 ≡ 0
  pub name_ends : archive (e.name_offset + (e.namesize - 1)) ≡ 0

read_hex_field-lt :
    (archive : ℕ → ℕ) (header off v : ℕ)
    → read_hex_field archive header off 8 ≡ some v
    → v < 0x1_0000_0000
unfolding read_hex_field parse_hex chars
read_hex_field-lt archive header off v h =
    parse_hex_loop-lt (chars archive 8 (header + off)) 0 1 v (omega arith) h

module _ (archive : ℕ → ℕ) (size offset : ℕ) where
  place_entry-InBounds :
      (namesize filesize : ℕ) (e : Entry)
      → size < 2 ^ 63
      → offset ≤ size
      → namesize < 0x1_0000_0000
      → filesize < 0x1_0000_0000
      → place_entry offset namesize filesize ≡ some e
      → entry_fits archive size e ≡ true
      → InBounds archive size offset e
  unfolding place_entry entry_fits safe_add cpio_align4
  place_entry-InBounds namesize filesize e small inside ln lf h fits = record {
    name_after_header = ground arith;
    named = ground arith;
    data_after_name = ground arith;
    next_after_data = ground arith;
    next_in_archive = ground arith;
    aligned = ground arith;
    name_ends = ground arith;
  }

  -- An entry that a round goes on with starts with the header, which the name and the data follow in
  -- this order, all of them in the archive. The place of the next header is behind the data, aligned to
  -- 4 bytes and not past the end of the archive, and the name ends in NUL. The size of the archive is
  -- below 2 ^ 63.
  pub parse_entry-InBounds :
      (e : Entry)
      → size < 2 ^ 63
      → offset ≤ size
      → parse_entry archive size offset ≡ some e
      → InBounds archive size offset e
  unfolding parse_entry
  parse_entry-InBounds e small inside h =
      let (marked, rest) = guard_passed _ _ e h in
      let (namesize, named, rest1) = step_passed (read_hex_field archive offset 94 8) _ e rest in
      let (filesize, filed, rest2) = step_passed (read_hex_field archive offset 54 8) _ e rest1 in
      let (placed, at, fits) = step_passed (place_entry offset namesize filesize) _ e rest2 in
      let (fit, same) = test_passed (entry_fits archive size placed) placed e fits in
      place_entry-InBounds namesize filesize e small inside
        (read_hex_field-lt archive offset 94 namesize named)
        (read_hex_field-lt archive offset 54 filesize filed) (at ∙ ap some same)
        (ap (entry_fits archive size) (sym same) ∙ fit)
