-- ===== src/Madt.antt =====
-- src/madt.cpp and include/apic/madt.h: the search for the table of interrupt controllers and the walk
-- over its entries.
pub mod Walk
pub mod Find
mod Tests
use synx.Prelude.{
  ℕ, zero, suc, ◌+◌, ◌-◌, ◌*◌, ◌/◌, Bool, true, false, ◌&&◌, List, [], ◌∷◌, ◌++◌, Option, none,
  some, ◌==◌, ltb, leb, not, if◌then◌else◌, length, add64,
}
use synx.Elf.{Bytes, little_endian}

abbrev pub sdt_header_size : ℕ
sdt_header_size = 36

abbrev pub madt_header_size : ℕ
madt_header_size = 44

abbrev pub max_ioapics : ℕ
max_ioapics = 8

abbrev pub max_isos : ℕ
max_isos = 32

pub record IoApicDesc : Type 0 where
  pub phys_base : ℕ
  pub gsi_base : ℕ
  pub id : ℕ

pub record IsoEntry : Type 0 where
  pub isa_irq : ℕ
  pub gsi : ℕ
  pub flags : ℕ

-- The counts are the lengths of the lists.
pub record ApicInfo : Type 0 where
  pub lapic_phys_base : ℕ
  pub ioapics : List IoApicDesc
  pub isos : List IsoEntry

-- A returned null pointer, a call of `kernel_panic`, or the address of the table.
pub data Found : Type 0 where
  missing panic : Found
  table_at : ℕ → Found

module _ (mem : Bytes) where
  -- The signature is "APIC".
  unfoldable pub is_apic : (table : ℕ) → Bool
  is_apic table =
      mem table == b'A'
      && mem (table + 1) == b'P'
      && mem (table + 2) == b'I'
      && mem (table + 3) == b'C'

  -- The table of the entry `i`, by way of the mapping of physical memory.
  unfoldable pub table_of : (offset sdt entry_size i : ℕ) → ℕ
  table_of offset sdt entry_size i =
      add64 (little_endian entry_size mem (sdt + sdt_header_size + i * entry_size)) offset

  -- The loop over the entries, with `left` of them left.
  unfoldable pub find_loop : (offset sdt entry_size left i : ℕ) → Found
  unfolding is_apic table_of
  find_loop offset sdt entry_size zero i = panic
  find_loop offset sdt entry_size (suc left) i =
      let rest = find_loop offset sdt entry_size left (i + 1) in
      if is_apic (table_of offset sdt entry_size i)
      then table_at (table_of offset sdt entry_size i)
      else rest

  -- The search in the table of tables, whose entries have `entry_size` bytes.
  unfoldable pub find_in : (offset sdt entry_size : ℕ) → Found
  unfolding find_loop
  find_in offset sdt entry_size =
      let size = little_endian 4 mem (sdt + 4) in
      if ltb size sdt_header_size
      then panic
      else find_loop offset sdt entry_size ((size - sdt_header_size) / entry_size) 0

  -- `rsdp` is the address in the boot loader's answer, 0 where there is none.
  unfoldable pub find_madt : (offset rsdp : ℕ) → Found
  find_madt offset rsdp =
      if rsdp == 0
      then missing
      else if leb 2 (mem (rsdp + 15)) && not (little_endian 8 mem (rsdp + 24) == 0)
      then find_in offset (add64 (little_endian 8 mem (rsdp + 24)) offset) 8
      else if not (little_endian 4 mem (rsdp + 16) == 0)
      then find_in offset (add64 (little_endian 4 mem (rsdp + 16)) offset) 4
      else panic

  unfoldable pub io_apic_at : (entry : ℕ) → IoApicDesc
  io_apic_at entry = record {
    phys_base = little_endian 4 mem (entry + 4);
    gsi_base = little_endian 4 mem (entry + 8);
    id = mem (entry + 2);
  }

  unfoldable pub iso_at : (entry : ℕ) → IsoEntry
  iso_at entry = record {
    isa_irq = mem (entry + 3);
    gsi = little_endian 4 mem (entry + 4);
    flags = little_endian 2 mem (entry + 8);
  }

  -- The `switch` on the entry's type; a local controller is only reported.
  unfoldable pub note_entry : (entry : ℕ) → ApicInfo → ApicInfo
  unfolding io_apic_at iso_at
  note_entry entry info =
      if mem entry == 1
      then (if ltb (length info.ioapics) max_ioapics
          then record info { ioapics = info.ioapics ++ (io_apic_at entry ∷ []) }
          else info)
      else if mem entry == 2
      then (if ltb (length info.isos) max_isos
          then record info { isos = info.isos ++ (iso_at entry ∷ []) }
          else info)
      else info

  -- The loop of `parse` from `ptr` to `end`; none if it does not end within the rounds.
  unfoldable pub parse_loop : (fuel ptr end : ℕ) → ApicInfo → Option ApicInfo
  unfolding note_entry
  parse_loop zero ptr end info = none
  parse_loop (suc fuel) ptr end info =
      let rest = parse_loop fuel (ptr + mem (ptr + 1)) end (note_entry ptr info) in
      if ltb ptr end then rest else some info

  -- `parse` from the table on.
  unfoldable pub parse_table : (fuel madt : ℕ) → Option ApicInfo
  unfolding parse_loop
  parse_table fuel madt =
      parse_loop fuel (madt + madt_header_size) (madt + little_endian 4 mem (madt + 4))
        (record { lapic_phys_base = little_endian 4 mem (madt + 36); ioapics = []; isos = [] })
