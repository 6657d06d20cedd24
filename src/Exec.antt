-- ===== src/Exec.antt =====
-- proc/elf_exec.cpp: the checks that `load_image` makes of a program before it maps anything. A result
-- of none is the return of -8.
pub mod Admit
pub mod Accept
mod Tests
use synx.Prelude.{
  ℕ, zero, suc, ◌+◌, ◌-◌, ◌*◌, Bool, true, false, not, ◌&&◌, ◌||◌, List, [], ◌∷◌, ◌++◌, Option,
  none, some, ◌==◌, ltb, leb, if◌then◌else◌, get_or, length, bit_and, add64, word64,
}
use synx.Pmm.{page_size}
use synx.Elf.{
  Bytes, ElfHeader, ProgramHeader, elf_header_at, program_header_at, elf_header_size,
  program_header_size,
}

abbrev pub user_top : ℕ
user_top = 0x0000_8000_0000_0000

abbrev pub pie_base : ℕ
pie_base = 0x4000_0000

abbrev pub user_stack_top : ℕ
user_stack_top = 0x0000_7FFF_FFFF_0000

abbrev pub user_stack_pages : ℕ
user_stack_pages = 8

abbrev pub max_program_headers : ℕ
max_program_headers = 128

abbrev pub max_exec_file_size : ℕ
max_exec_file_size = 64 * 1024 * 1024

abbrev pub pf_x : ℕ
pf_x = 1

-- PF_W | PF_X
abbrev pub pf_wx : ℕ
pf_wx = 3

abbrev pub pt_load : ℕ
pt_load = 1

unfoldable pub range_valid : (offset length total : ℕ) → Bool
range_valid offset length total = leb offset total && leb length (total - offset)

unfoldable pub aligned_valid : ProgramHeader → Bool
aligned_valid p =
    if leb p.align 1
    then true
    else if not (bit_and p.align (p.align - 1) == 0)
    then false
    else bit_and p.vaddr (p.align - 1) == bit_and p.offset (p.align - 1)

-- The start and the end of the segment in the address space.
unfoldable pub segment_range : ProgramHeader → (bias : ℕ) → Option (ℕ × ℕ)
segment_range p bias =
    if ltb (word64 - 1 - bias) p.vaddr
    then none
    else (let start = p.vaddr + bias in
        if ltb (word64 - 1 - start) p.memsz
        then none
        else (let end = start + p.memsz in
            if leb end user_top
              && (p.memsz == 0 || leb page_size start)
              && (p.memsz == 0 || leb end (user_stack_top - user_stack_pages * page_size))
            then some (start, end)
            else none))

unfoldable pub overlaps : (start end other_start other_end : ℕ) → Bool
overlaps start end other_start other_end = ltb start other_end && ltb other_start end

-- The test of the header that gives -8.
unfoldable pub bad_image : ElfHeader → (file_size : ℕ) → Bool
bad_image h file_size =
    not (get_or h.ident 0 0 == 0x7F)
    || not (get_or h.ident 1 0 == b'E')
    || not (get_or h.ident 2 0 == b'L')
    || not (get_or h.ident 3 0 == b'F')
    || not (get_or h.ident 4 0 == 2)
    || not (get_or h.ident 5 0 == 1)
    || not (get_or h.ident 6 0 == 1)
    || not (h.version == 1)
    || not (h.ehsize == elf_header_size)
    || not (h.phentsize == program_header_size)
    || h.phnum == 0
    || ltb max_program_headers h.phnum
    || not (range_valid h.phoff (h.phnum * program_header_size) file_size)
    || (not (h.type == 2) && not (h.type == 3))
    || not (h.machine == 62)

-- What the pass over the program headers collects.
pub record Headers : Type 0 where
  pub segments : List ProgramHeader
  pub dynamic : Option ProgramHeader
  pub has_interpreter : Bool
  pub has_tls : Bool

abbrev pub is_some {ℓ} : {A : Type ℓ} → Option A → Bool
is_some none = false
is_some (some a) = true

-- The part of a round about PT_LOAD.
unfoldable pub note_load : ProgramHeader → Headers → Option Headers
note_load p c =
    if p.type == pt_load
    then (if length c.segments == max_program_headers
        then none
        else some (record c { segments = c.segments ++ (p ∷ []) }))
    else some c

-- The part of a round about PT_DYNAMIC, and the rest of the round.
unfoldable pub note_dynamic : (file_size : ℕ) → ProgramHeader → Headers → Option Headers
unfolding note_load range_valid
note_dynamic file_size p c =
    if p.type == 2
    then (if is_some c.dynamic
          || ltb p.memsz p.filesz
          || not (range_valid p.offset p.filesz file_size)
        then none
        else note_load p (record c { dynamic = some p }))
    else note_load p c

unfoldable pub note_header : (file_size : ℕ) → ProgramHeader → Headers → Option Headers
unfolding note_dynamic
note_header file_size p c = note_dynamic file_size p (record c {
  has_interpreter = if p.type == 3 then true else c.has_interpreter;
  has_tls = if p.type == 7 then true else c.has_tls;
})

-- The pass over the program headers, with `left` headers left.
unfoldable pub collect : (file : Bytes) (file_size phoff left i : ℕ) → Headers → Option Headers
unfolding note_header
collect file file_size phoff zero i c = some c
collect file file_size phoff (suc left) i c =
    elim (note_header file_size (program_header_at file (add64 phoff (i * program_header_size)))
      c) [ none ↦ none | some c' ↦ collect file file_size phoff left (i + 1) c' ]

module _ (file_size bias entry : ℕ) where
  -- The loop over the segments before: whether one of them is in the way.
  unfoldable pub in_the_way : (start end memsz : ℕ) (earlier : List ProgramHeader) → Bool
  unfolding overlaps
  in_the_way start end memsz [] = false
  in_the_way start end memsz (q ∷ earlier) = elim (segment_range q bias) [
    | none ↦ true
    | some (other_start, other_end) ↦
        (not (memsz == 0) && not (q.memsz == 0) && overlaps start end other_start other_end)
        || in_the_way start end memsz earlier
  ]

  -- The conditions on one segment that give -8.
  unfoldable pub bad_segment : ProgramHeader → Bool
  unfolding range_valid
  bad_segment p =
      ltb p.memsz p.filesz
      || not (range_valid p.offset p.filesz file_size)
      || not (aligned_valid p)
      || not (is_some (segment_range p bias))
      || bit_and p.flags pf_wx == pf_wx

  -- The segment holds the entry point and is executable.
  unfoldable pub holds_entry : (start end : ℕ) → ProgramHeader → Bool
  holds_entry start end p =
      not (p.memsz == 0) && not (bit_and p.flags pf_x == 0) && leb start entry && ltb entry end

  -- The loop over the segments; the result is `entry_executable`.
  unfoldable pub check_segments :
      (earlier rest : List ProgramHeader) (entry_executable : Bool) → Option Bool
  check_segments earlier [] entry_executable = some entry_executable
  check_segments earlier (p ∷ rest) entry_executable =
      if bad_segment p then none else (elim (segment_range p bias) [
        | none ↦ none
        | some (start, end) ↦
            if in_the_way start end p.memsz earlier
            then none
            else check_segments (earlier ++ (p ∷ [])) rest
                (if holds_entry start end p then true else entry_executable)
      ])

-- What `load_image` knows before it maps anything.
pub record Plan : Type 0 where
  pub header : ElfHeader
  pub headers : Headers
  pub bias : ℕ
  pub entry : ℕ

abbrev pub no_headers : Headers
no_headers = record { segments = []; dynamic = none; has_interpreter = false; has_tls = false }

-- The checks on what was collected, up to `if (!entry_executable)`.
unfoldable pub check_plan : (file_size : ℕ) → Plan → Option Plan
check_plan file_size plan =
    if plan.headers.has_interpreter
      || plan.headers.has_tls
      || length plan.headers.segments == 0
      || (plan.header.type == 2 && is_some plan.headers.dynamic)
    then none
    else (elim (check_segments file_size plan.bias plan.entry [] plan.headers.segments false) [
      | none ↦ none
      | some entry_executable ↦ if entry_executable then some plan else none
    ])

-- The header's part: the bias and the entry point.
unfoldable pub plan_header : (file : Bytes) (file_size : ℕ) → ElfHeader → Option Plan
plan_header file file_size h =
    let bias : ℕ = if h.type == 3 then pie_base else 0 in
    if bad_image h file_size || ltb (word64 - 1 - bias) h.entry
    then none
    else (elim (collect file file_size h.phoff h.phnum 0 no_headers) [
      | none ↦ none
      | some headers ↦
          check_plan file_size
            (record { header = h; headers = headers; bias = bias; entry = h.entry + bias })
    ])

-- `load_image` from the test of the file's size to the creation of the address space.
unfoldable pub admit_image : (file : Bytes) (file_size : ℕ) → Option Plan
admit_image file file_size =
    if ltb file_size elf_header_size || ltb max_exec_file_size file_size
    then none
    else plan_header file file_size (elf_header_at file 0)
