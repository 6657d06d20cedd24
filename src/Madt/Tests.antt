-- ===== src/Madt/Tests.antt =====
-- A table with an entry of each type that the walk keeps, and one of another type.
use synx.Prelude.{ℕ, ◌+◌, ◌≡◌, refl, arith, List, [], ◌∷◌, ◌++◌, some, none, get_or, replicate}
use synx.Elf.{Bytes, little_endian}
use synx.Madt.{ApicInfo, io_apic_at, iso_at, note_entry, parse_loop, parse_table}
use synx.Madt.Walk.{Chain, finished, entry, Noted, parse_table-Noted, parse_loop-stuck}

-- At 0; its length is 44 + 12 + 8 + 10.
abbrev table : List ℕ
table =
    (b'A' ∷ b'P' ∷ b'I' ∷ b'C' ∷ 74 ∷ 0 ∷ 0 ∷ 0 ∷ replicate 28 0)
    ++ (0 ∷ 0 ∷ 0xE0 ∷ 0xFE ∷ 0 ∷ 0 ∷ 0 ∷ 0 ∷ [])
    ++ (1 ∷ 12 ∷ 2 ∷ 0 ∷ 0 ∷ 0 ∷ 0xC0 ∷ 0xFE ∷ 0 ∷ 0 ∷ 0 ∷ 0 ∷ [])
    ++ (0 ∷ 8 ∷ 0 ∷ 0 ∷ 1 ∷ 0 ∷ 0 ∷ 0 ∷ [])
    ++ (2 ∷ 10 ∷ 0 ∷ 0 ∷ 2 ∷ 0 ∷ 0 ∷ 0 ∷ 0 ∷ 0 ∷ [])

abbrev mem : Bytes
mem x = get_or table x 0

chain : Chain mem 74 44 (44 ∷ 56 ∷ 64 ∷ [])
chain = entry 44 _ (omega arith) (omega arith) (
    entry 56 _ (omega arith) (omega arith)
      (entry 64 _ (omega arith) (omega arith) (finished 74 (omega arith))))

abbrev start : ApicInfo
start = record { lapic_phys_base = 0xFEE0_0000; ioapics = []; isos = [] }

abbrev parsed : ApicInfo
parsed = record {
  lapic_phys_base = 0xFEE0_0000;
  ioapics = record { phys_base = 0xFEC0_0000; gsi_base = 0; id = 2 } ∷ [];
  isos = record { isa_irq = 0; gsi = 2; flags = 0 } ∷ [];
}

table_parsed : parse_table mem 75 0 ≡ some parsed
unfolding parse_table parse_loop note_entry io_apic_at iso_at little_endian
table_parsed = refl

parse_table-Noted_example :
    (after : ApicInfo) × (parse_table mem (little_endian 4 mem (0 + 4) + 1) 0 ≡ some after)
    × Noted mem
        (44 ∷ 56 ∷ 64 ∷ [])
        (record { lapic_phys_base = little_endian 4 mem (0 + 36); ioapics = []; isos = [] })
        after
unfolding little_endian
parse_table-Noted_example = parse_table-Noted mem 0 (44 ∷ 56 ∷ 64 ∷ []) chain

parse_loop-stuck_example : parse_loop mem 1000 76 100 start ≡ none
parse_loop-stuck_example = parse_loop-stuck mem 1000 76 100 start (omega arith) refl
