-- ===== src/Dynlink/Tests.antt =====
-- The loader on a small image: a header, two program headers and an empty dynamic section.
use synx.Prelude.{
  ℕ, ◌+◌, ◌-◌, ◌≤◌, ◌<◌, ◌⊎◌, add64, ◌≡◌, refl, arith, false, List, [], ◌∷◌, ◌++◌, Option, none,
  some, get_or, replicate,
}
use synx.Elf.{
  Bytes, elf_header_at, program_header_at, dynamic_entry_at, rela_at, little_endian, bytes_at,
}
use synx.Dynlink.{
  Options, Step, done, halt, fault, ◌>>=◌, ◌>>◌, pure, refuse, reject, file_range, image_range,
  in_image, view_file, view, clear, copy_in, bounded_string,
}
use synx.Dynlink.Relocate.{apply_relocations, relocate}
use synx.Dynlink.Relative.{relocate-relative}
use synx.Dynlink.Load.{
  load_elf64, empty_info, plan_image, scan_headers, program, scan_one, widen, bad_header,
  place_image, load_segments, load_one, parse_dynamic, note_entry, string_table, load_dependencies,
  relocate_image,
}
use synx.Dynlink.Whole.{Loaded, load_elf64-Loaded}

-- `n` in two bytes, the others of eight being 0.
abbrev quad : ℕ → List ℕ
quad n = n ∷ replicate 7 0

abbrev small_file : List ℕ
small_file =
    (0x7F ∷ b'E' ∷ b'L' ∷ b'F' ∷ 2 ∷ 1 ∷ 1 ∷ replicate 9 0)
    ++ (3 ∷ 0 ∷ 62 ∷ 0 ∷ 1 ∷ 0 ∷ 0 ∷ 0 ∷ [])
    ++ quad 100
    ++ quad 64
    ++ quad 0
    ++ (0 ∷ 0 ∷ 0 ∷ 0 ∷ 64 ∷ 0 ∷ 56 ∷ 0 ∷ 2 ∷ 0 ∷ 0 ∷ 0 ∷ 0 ∷ 0 ∷ 0 ∷ 0 ∷ [])
    ++ (1 ∷ 0 ∷ 0 ∷ 0 ∷ 5 ∷ 0 ∷ 0 ∷ 0 ∷ [])
    ++ quad 0
    ++ quad 0
    ++ quad 0
    ++ quad 192
    ++ quad 200
    ++ quad 0
    ++ (2 ∷ 0 ∷ 0 ∷ 0 ∷ 6 ∷ 0 ∷ 0 ∷ 0 ∷ [])
    ++ quad 176
    ++ quad 176
    ++ quad 0
    ++ quad 16
    ++ quad 16
    ++ quad 0
    ++ replicate 16 0

abbrev file_bytes : Bytes
file_bytes x = get_or small_file x 0

abbrev at_4096 : Options
at_4096 = record { load_bias = 4096; load_dependency = none; resolve_symbol = none }

load_elf64-Loaded_example :
    Loaded file_bytes 1000 at_4096 (λ x. 7) (load_elf64 file_bytes 192 1000 at_4096 false (λ x. 7))
load_elf64-Loaded_example =
    load_elf64-Loaded file_bytes 192 1000 at_4096 false (λ x. 7) (omega arith)

outcome : Step (ℕ × ℕ) → Option (ℕ × ℕ)
outcome (done r image) = some r
outcome (halt e image) = none
outcome fault = none

-- The segment of 200 bytes is the image, and the entry point 100 is moved by the bias.
small_loads : outcome (load_elf64 file_bytes 192 1000 at_4096 false (λ x. 7)) ≡ some (4196, 200)
unfolding outcome load_elf64 plan_image scan_headers program scan_one widen bad_header place_image
    load_segments load_one parse_dynamic note_entry string_table load_dependencies relocate_image
    apply_relocations bounded_string ◌>>=◌ ◌>>◌ pure refuse reject file_range image_range in_image
    view_file view clear copy_in elf_header_at program_header_at dynamic_entry_at little_endian
    bytes_at
small_loads = refl

-- An entry that makes the word at 40 the load bias plus 5.
abbrev rela_bytes : Bytes
rela_bytes x = get_or (quad 40 ++ quad 8 ++ quad 5) x 0

relocate-relative_example :
    (image' : Bytes) × (relocate 100 0 100 empty_info at_4096 0 rela_bytes ≡ done tt image')
    × (little_endian 8 image' ((rela_at rela_bytes 0).offset - 0)
        ≡ add64 4096 (rela_at rela_bytes 0).addend)
    × ((x : ℕ)
        → (x < (rela_at rela_bytes 0).offset - 0) ⊎ ((rela_at rela_bytes 0).offset - 0 + 8 ≤ x)
        → image' x ≡ rela_bytes x)
unfolding rela_at little_endian
relocate-relative_example =
    relocate-relative 100 0 100 empty_info at_4096 0 rela_bytes (omega arith) (omega arith)
      (omega arith) refl refl (omega arith) (omega arith)
