-- ===== src/Elf.antt =====
-- The ELF64 structures of proc/dynlink.cpp and proc/elf_exec.cpp, read from bytes. The structures are
-- packed, so each field stands at a fixed distance and is read in little-endian order.
pub mod Bytes
use synx.Prelude.{ℕ, zero, suc, ◌+◌, ◌*◌, ◌%◌, List, [], ◌∷◌}

-- A block of bytes: a file, or memory.
abbrev pub Bytes : Type 0
Bytes = ℕ → ℕ

-- The number in the `n` bytes from `at` on.
unfoldable pub little_endian : (n : ℕ) → Bytes → (at : ℕ) → ℕ
little_endian zero bytes at = 0
little_endian (suc n) bytes at = bytes at % 256 + 256 * little_endian n bytes (at + 1)

unfoldable pub bytes_at : (n : ℕ) → Bytes → (at : ℕ) → List ℕ
bytes_at zero bytes at = []
bytes_at (suc n) bytes at = bytes at % 256 ∷ bytes_at n bytes (at + 1)

-- Without the fields that no code reads: shoff, flags and those of the sections.
pub record ElfHeader : Type 0 where
  pub ident : List ℕ
  pub type : ℕ
  pub machine : ℕ
  pub version : ℕ
  pub entry : ℕ
  pub phoff : ℕ
  pub ehsize : ℕ
  pub phentsize : ℕ
  pub phnum : ℕ

pub record ProgramHeader : Type 0 where
  pub type : ℕ
  pub flags : ℕ
  pub offset : ℕ
  pub vaddr : ℕ
  pub paddr : ℕ
  pub filesz : ℕ
  pub memsz : ℕ
  pub align : ℕ

pub record DynamicEntry : Type 0 where
  pub tag : ℕ
  pub value : ℕ

pub record Rela : Type 0 where
  pub offset : ℕ
  pub info : ℕ
  pub addend : ℕ

pub record Symbol : Type 0 where
  pub name : ℕ
  pub info : ℕ
  pub other : ℕ
  pub section : ℕ
  pub value : ℕ
  pub size : ℕ

abbrev pub elf_header_size : ℕ
elf_header_size = 64

abbrev pub program_header_size : ℕ
program_header_size = 56

abbrev pub dynamic_entry_size : ℕ
dynamic_entry_size = 16

abbrev pub rela_size : ℕ
rela_size = 24

abbrev pub symbol_size : ℕ
symbol_size = 24

unfoldable pub elf_header_at : Bytes → ℕ → ElfHeader
elf_header_at bytes at = record {
  ident = bytes_at 16 bytes at;
  type = little_endian 2 bytes (at + 16);
  machine = little_endian 2 bytes (at + 18);
  version = little_endian 4 bytes (at + 20);
  entry = little_endian 8 bytes (at + 24);
  phoff = little_endian 8 bytes (at + 32);
  ehsize = little_endian 2 bytes (at + 52);
  phentsize = little_endian 2 bytes (at + 54);
  phnum = little_endian 2 bytes (at + 56);
}

unfoldable pub program_header_at : Bytes → ℕ → ProgramHeader
program_header_at bytes at = record {
  type = little_endian 4 bytes at;
  flags = little_endian 4 bytes (at + 4);
  offset = little_endian 8 bytes (at + 8);
  vaddr = little_endian 8 bytes (at + 16);
  paddr = little_endian 8 bytes (at + 24);
  filesz = little_endian 8 bytes (at + 32);
  memsz = little_endian 8 bytes (at + 40);
  align = little_endian 8 bytes (at + 48);
}

unfoldable pub dynamic_entry_at : Bytes → ℕ → DynamicEntry
dynamic_entry_at bytes at = record {
  tag = little_endian 8 bytes at;
  value = little_endian 8 bytes (at + 8);
}

unfoldable pub rela_at : Bytes → ℕ → Rela
rela_at bytes at = record {
  offset = little_endian 8 bytes at;
  info = little_endian 8 bytes (at + 8);
  addend = little_endian 8 bytes (at + 16);
}

unfoldable pub symbol_at : Bytes → ℕ → Symbol
symbol_at bytes at = record {
  name = little_endian 4 bytes at;
  info = little_endian 1 bytes (at + 4);
  other = little_endian 1 bytes (at + 5);
  section = little_endian 2 bytes (at + 6);
  value = little_endian 8 bytes (at + 8);
  size = little_endian 8 bytes (at + 16);
}
