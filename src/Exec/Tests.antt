-- ===== src/Exec/Tests.antt =====
-- The checks of `load_image` (proc/elf_exec.cpp) on a fixed program with one segment at 4096.
use synx.Prelude.{◌≡◌, refl, false, List, [], ◌∷◌, ◌++◌, ℕ, some, none, get_or, replicate}
use synx.Elf.{Bytes, elf_header_at, program_header_at, little_endian, bytes_at}
use synx.Exec.{
  Plan, admit_image, plan_header, check_plan, collect, note_header, note_dynamic, note_load,
  range_valid, aligned_valid, segment_range, bad_image, bad_segment, holds_entry, in_the_way,
  check_segments, overlaps,
}
use synx.Exec.Accept.{Admitted, admit_image-Admitted}

-- `low + 256 * high` in two bytes, the others of eight being 0.
abbrev quad : (low high : ℕ) → List ℕ
quad low high = low ∷ high ∷ replicate 6 0

abbrev small_file : (flags : ℕ) → List ℕ
small_file flags =
    (0x7F ∷ b'E' ∷ b'L' ∷ b'F' ∷ 2 ∷ 1 ∷ 1 ∷ replicate 9 0)
    ++ (2 ∷ 0 ∷ 62 ∷ 0 ∷ 1 ∷ 0 ∷ 0 ∷ 0 ∷ [])
    ++ quad 8 16
    ++ quad 64 0
    ++ quad 0 0
    ++ (0 ∷ 0 ∷ 0 ∷ 0 ∷ 64 ∷ 0 ∷ 56 ∷ 0 ∷ 1 ∷ 0 ∷ 0 ∷ 0 ∷ 0 ∷ 0 ∷ 0 ∷ 0 ∷ [])
    ++ (1 ∷ 0 ∷ 0 ∷ 0 ∷ flags ∷ 0 ∷ 0 ∷ 0 ∷ [])
    ++ quad 0 0
    ++ quad 0 16
    ++ quad 0 16
    ++ quad 120 0
    ++ quad 200 0
    ++ quad 0 0

abbrev file_bytes : (flags : ℕ) → Bytes
file_bytes flags x = get_or (small_file flags) x 0

abbrev planned : Plan
planned = record {
  header = elf_header_at (file_bytes 5) 0;
  headers = record {
    segments = program_header_at (file_bytes 5) 64 ∷ [];
    dynamic = none;
    has_interpreter = false;
    has_tls = false;
  };
  bias = 0;
  entry = 4104;
}

small_admitted : admit_image (file_bytes 5) 120 ≡ some planned
unfolding admit_image plan_header check_plan collect note_header note_dynamic note_load range_valid
    aligned_valid segment_range bad_image bad_segment holds_entry in_the_way check_segments overlaps
    elf_header_at program_header_at little_endian bytes_at
small_admitted = refl

-- The same program with its segment writable and executable.
both_refused : admit_image (file_bytes 7) 120 ≡ none
unfolding admit_image plan_header check_plan collect note_header note_dynamic note_load range_valid
    aligned_valid segment_range bad_image bad_segment holds_entry in_the_way check_segments overlaps
    elf_header_at program_header_at little_endian bytes_at
both_refused = refl

admit_image-Admitted_example : Admitted (file_bytes 5) 120 planned
admit_image-Admitted_example = admit_image-Admitted (file_bytes 5) 120 planned small_admitted
