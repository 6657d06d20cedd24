-- ===== src/Dynlink/Load.antt =====
-- `load_elf64` of proc/dynlink.cpp.
use synx.Prelude.{
  ℕ, zero, suc, ◌+◌, ◌-◌, ◌*◌, ◌/◌, Bool, true, false, not, ◌&&◌, ◌||◌, List, Option, none, some,
  ◌==◌, ltb, leb, if◌then◌else◌, get_or, add64,
}
use synx.Elf.{
  Bytes, ElfHeader, ProgramHeader, DynamicEntry, elf_header_at, program_header_at, dynamic_entry_at,
  elf_header_size, program_header_size, dynamic_entry_size, rela_size,
}
use synx.Dynlink.{
  Options, Loader, ◌>>=◌, ◌>>◌, pure, refuse, reject, size_max, file_range, in_image, view_file,
  view, clear, copy_in, bounded_string, invalid_argument, invalid_elf, unsupported,
  insufficient_memory, invalid_dynamic_table, dependency_error,
}
use synx.Dynlink.Relocate.{DynamicInfo, apply_relocations}

abbrev pub pt_load : ℕ
pt_load = 1

abbrev pub pt_dynamic : ℕ
pt_dynamic = 2

abbrev pub dt_rela : ℕ
dt_rela = 7

-- The test of the header that gives InvalidElf.
unfoldable pub bad_header : ElfHeader → Bool
bad_header h =
    not (get_or h.ident 0 0 == 0x7F)
    || not (get_or h.ident 1 0 == b'E')
    || not (get_or h.ident 2 0 == b'L')
    || not (get_or h.ident 3 0 == b'F')
    || not (get_or h.ident 4 0 == 2)
    || not (get_or h.ident 5 0 == 1)
    || not (get_or h.ident 6 0 == 1)
    || not (h.version == 1)
    || not (h.ehsize == elf_header_size)
    || not (h.phentsize == program_header_size)
    || h.phnum == 0

-- What the first pass over the program headers collects.
pub record Scan : Type 0 where
  pub image_base : ℕ
  pub image_end : ℕ
  pub dynamic_address : ℕ
  pub dynamic_size : ℕ
  pub has_dynamic : Bool

-- A loadable segment of some size widens the image.
unfoldable pub widen : ProgramHeader → Scan → Scan
widen p s = if p.memsz == 0 then s else record s {
  image_base = if ltb p.vaddr s.image_base then p.vaddr else s.image_base;
  image_end =
      if ltb s.image_end (add64 p.vaddr p.memsz) then add64 p.vaddr p.memsz else s.image_end;
}

-- The body of the loop over the dynamic entries.
unfoldable pub note_entry : DynamicEntry → DynamicInfo → DynamicInfo
note_entry e d =
    if e.tag == 5
    then record d { strtab = e.value; has_strtab = true }
    else if e.tag == 10
    then record d { strsz = e.value; has_strsz = true }
    else if e.tag == 6
    then record d { symtab = e.value; has_symtab = true }
    else if e.tag == 11
    then record d { syment = e.value; has_syment = true }
    else if e.tag == dt_rela
    then record d { rela = e.value; has_rela = true }
    else if e.tag == 8
    then record d { relasz = e.value; has_relasz = true }
    else if e.tag == 9
    then record d { relaent = e.value; has_relaent = true }
    else if e.tag == 23
    then record d { jmprel = e.value; has_jmprel = true }
    else if e.tag == 2
    then record d { pltrelsz = e.value; has_pltrelsz = true }
    else if e.tag == 20
    then record d { pltrel = e.value; has_pltrel = true }
    else if e.tag == 17 || e.tag == 18
    then record d { relsz = if e.tag == 18 then e.value else 1 }
    else d

abbrev pub empty_info : DynamicInfo
empty_info = record {
  strtab = 0;
  strsz = 0;
  symtab = 0;
  syment = 0;
  rela = 0;
  relasz = 0;
  relaent = 0;
  jmprel = 0;
  pltrelsz = 0;
  pltrel = 0;
  relsz = 0;
  has_strtab = false;
  has_strsz = false;
  has_symtab = false;
  has_syment = false;
  has_rela = false;
  has_relasz = false;
  has_relaent = false;
  has_jmprel = false;
  has_pltrelsz = false;
  has_pltrel = false;
  terminated = false;
}

abbrev pub dependency : Options → List ℕ → Bool
dependency options name = elim options.load_dependency [ none ↦ false | some load ↦ load name ]

module _ (file : Bytes) (file_size : ℕ) where
  unfoldable pub program : (phoff i : ℕ) → Loader ProgramHeader
  program phoff i =
      view_file file file_size program_header_size program_header_at
        (add64 phoff (i * program_header_size))

  -- One program header of the first pass.
  unfoldable pub scan_one : ProgramHeader → Scan → Loader Scan
  scan_one p s =
      if p.type == pt_load
      then (do
        reject
            (ltb p.memsz p.filesz
              || not (file_range p.offset p.filesz file_size)
              || ltb (add64 p.vaddr p.memsz) p.vaddr)
            invalid_elf
        pure (widen p s))
      else if p.type == pt_dynamic
      then pure (record s { dynamic_address = p.vaddr; dynamic_size = p.memsz; has_dynamic = true })
      else pure s

  -- The first pass, with `left` headers left.
  unfoldable pub scan_headers : (phoff left i : ℕ) → Scan → Loader Scan
  scan_headers phoff zero i s = pure s
  scan_headers phoff (suc left) i s = do
    p ← program phoff i
    s' ← scan_one p s
    scan_headers phoff left (i + 1) s'

  -- The checks of `load_elf64` and its first pass.
  unfoldable pub plan_image : (null_argument : Bool) → Loader (ElfHeader × Scan)
  plan_image null_argument = do
    reject (null_argument || ltb file_size elf_header_size) invalid_argument
    h ← view_file file file_size elf_header_size elf_header_at 0
    reject (bad_header h) invalid_elf
    reject (not (h.type == 3) || not (h.machine == 62)) unsupported
    reject (not (file_range h.phoff (h.phnum * program_header_size) file_size)) invalid_elf
    s ← scan_headers h.phoff h.phnum 0 (record {
      image_base = size_max;
      image_end = 0;
      dynamic_address = 0;
      dynamic_size = 0;
      has_dynamic = false;
    })
    reject (s.image_base == size_max || leb s.image_end s.image_base || not s.has_dynamic)
        invalid_elf
    pure (h, s)

  module _ (capacity : ℕ) (options : Options) where
    -- One segment of the second pass.
    unfoldable pub load_one : (image_base image_span : ℕ) → ProgramHeader → Loader (Unit {0})
    load_one image_base image_span p =
        if not (p.type == pt_load) || p.memsz == 0 then pure tt else do
          dest ← in_image p.vaddr p.memsz image_base image_span invalid_elf
          copy_in capacity file file_size dest p.offset p.filesz

    unfoldable pub load_segments : (image_base image_span phoff left i : ℕ) → Loader (Unit {0})
    load_segments image_base image_span phoff zero i = pure tt
    load_segments image_base image_span phoff (suc left) i = do
      p ← program phoff i
      load_one image_base image_span p
      load_segments image_base image_span phoff left (i + 1)

    -- The loop over the dynamic entries, with `left` entries left.
    unfoldable pub parse_dynamic : (left at : ℕ) → DynamicInfo → Loader DynamicInfo
    parse_dynamic zero at d = pure d
    parse_dynamic (suc left) at d = do
      e ← view capacity dynamic_entry_size dynamic_entry_at at
      if e.tag == 0
          then pure (record d { terminated = true })
          else parse_dynamic left (at + dynamic_entry_size) (note_entry e d)

    -- The loop that loads the dependencies; `strings` is none where there is no string table.
    unfoldable pub load_dependencies : (strings : Option (ℕ × ℕ)) (left at : ℕ) → Loader (Unit {0})
    load_dependencies strings zero at = pure tt
    load_dependencies strings (suc left) at = do
      e ← view capacity dynamic_entry_size dynamic_entry_at at
      if e.tag == 0
          then pure tt
          else if not (e.tag == 1)
          then load_dependencies strings left (at + dynamic_entry_size)
          else elim strings [
            | none ↦ refuse invalid_dynamic_table
            | some (table, size) ↦ do
              found ← bounded_string capacity table size e.value
              elim found [
                | none ↦ refuse invalid_dynamic_table
                | some name ↦ do
                  reject (not (dependency options name)) dependency_error
                  load_dependencies strings left (at + dynamic_entry_size)
              ]
          ]

    -- The string table of the image, if the dynamic entries name one.
    unfoldable pub string_table :
        (image_base image_span : ℕ) → DynamicInfo → Loader (Option (ℕ × ℕ))
    string_table image_base image_span d =
        if d.has_strtab && d.has_strsz
        then (do
          table ← in_image d.strtab d.strsz image_base image_span invalid_dynamic_table
          pure (some (table, d.strsz)))
        else pure none

    -- The two tables of relocations.
    unfoldable pub relocate_image : (image_base image_span : ℕ) → DynamicInfo → Loader (Unit {0})
    relocate_image image_base image_span d = do
      reject (not (d.relsz == 0)) unsupported
      reject
          (d.has_relasz
            && not (d.relasz == 0)
            && (not d.has_rela || not d.has_relaent || not (d.relaent == rela_size)))
          invalid_dynamic_table
      if d.has_relasz
          then apply_relocations capacity image_base image_span d options d.rela d.relasz
          else pure tt
      if d.has_pltrelsz && not (d.pltrelsz == 0)
          then (do
            reject (not d.has_jmprel || not d.has_pltrel || not (d.pltrel == dt_rela)) unsupported
            apply_relocations capacity image_base image_span d options d.jmprel d.pltrelsz)
          else pure tt

    -- `load_elf64` from the second pass on, in an image of `span` bytes: the entry point.
    unfoldable pub place_image : ElfHeader → Scan → (span : ℕ) → Loader ℕ
    place_image h s span = do
      clear capacity span
      load_segments s.image_base span h.phoff h.phnum 0
      reject (ltb s.dynamic_size dynamic_entry_size) invalid_dynamic_table
      table ← in_image s.dynamic_address s.dynamic_size s.image_base span invalid_dynamic_table
      d ← parse_dynamic (s.dynamic_size / dynamic_entry_size) table empty_info
      reject (not d.terminated) invalid_dynamic_table
      strings ← string_table s.image_base span d
      load_dependencies strings (s.dynamic_size / dynamic_entry_size) table
      relocate_image s.image_base span d
      _ ← in_image h.entry 1 s.image_base span invalid_elf
      pure (add64 options.load_bias h.entry)

    -- The entry point and the size of the image.
    unfoldable pub load_elf64 : (null_argument : Bool) → Loader (ℕ × ℕ)
    load_elf64 null_argument = do
      (h, s) ← plan_image null_argument
      let span = s.image_end - s.image_base
      reject (ltb capacity span || ltb size_max span) insufficient_memory
      entry ← place_image h s span
      pure (entry, span)
